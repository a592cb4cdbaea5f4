-- ===== src/Procedures.antt =====
-- internal/extensions/procedures/proc.go and internal/extensions/routines: stored procedures.
pub mod Names
pub mod Params
pub mod Head
pub mod Proc
mod Tests
