-- ===== src/Tsql.antt =====
-- internal/tsql: the dialect of SQL that the gateway reads.
pub mod Lexer
