-- ===== src/Tsql/Lexer/Tests.antt =====
-- A statement, lexed.
use haystak_tds_spi.Base.{◌≡◌, refl, [], ◌∷◌, codes}
use haystak_tds_spi.Base.Result.{ok, Returns}
use haystak_tds_spi.Go.Floats.{bits}
use haystak_tds_spi.Value.{str}
use haystak_tds_spi.Wire.Rpc.{sql_literal}
use haystak_tds_spi.Tsql.Lexer.Totality.{lex-Returns}
use haystak_tds_spi.Tsql.Lexer.Literals.{lex-sql_literal}
use haystak_tds_spi.Tsql.Lexer.{lex, lexeme, t_keyword, t_string, t_eof, t_op, t_ident, t_number}

statement :
    lex (codes "select 'it''s' <> [a b]--x")
    ≡ ok (
        lexeme t_keyword (codes "select")
        ∷ lexeme t_string (codes "it's")
        ∷ lexeme t_op (codes "<>")
        ∷ lexeme t_ident (codes "a b")
        ∷ lexeme t_eof []
        ∷ [])
unfolding lex
statement = refl

comments :
    lex (codes "/* a /* b */ c */0x1F") ≡ ok (lexeme t_number (codes "0x1F") ∷ lexeme t_eof [] ∷ [])
unfolding lex
comments = refl

lex-Returns_example : Returns (lex (codes "SELECT $"))
lex-Returns_example = lex-Returns (codes "SELECT $")

lex-sql_literal_example :
    lex (sql_literal bits (str (codes "it's")))
    ≡ ok (lexeme t_string (codes "it's") ∷ lexeme t_eof [] ∷ [])
lex-sql_literal_example = lex-sql_literal bits (codes "it's")
