-- ===== src/Tsql/Lexer/Literals.antt =====
-- The literals that `sqlLiteral` of internal/wire/rpc.go quotes, under `lex` of
-- internal/tsql/lexer.go.
use haystak_tds_spi.Base.{
  ℕ, ◌≡◌, refl, sym, ap, ◌∙◌, inl, inr, false, some, [], ◌∷◌, ◌++◌, ◌==◌, if◌then◌else◌, ==_iff,
  Bool-cases, Bytes, codes,
}
use haystak_tds_spi.Base.Result.{ok}
use haystak_tds_spi.Go.Floats.{FloatOps}
use haystak_tds_spi.Go.Strings.{replace_all}
use haystak_tds_spi.Value.{str}
use haystak_tds_spi.Wire.Rpc.{sql_literal}
use haystak_tds_spi.Tsql.Lexer.{lex, lexeme, t_string, t_eof, next_is}
use haystak_tds_spi.Tsql.Lexer.Scan.{scan_string, prepend}

-- The quotes of a text doubled.
doubled : Bytes → Bytes
doubled [] = []
doubled (c ∷ s) = let rest = doubled s in if c == b'\'' then b'\'' ∷ b'\'' ∷ rest else c ∷ rest

replace_all-doubled : (s : Bytes) → replace_all s (codes "'") (codes "''") ≡ doubled s
unfolding replace_all doubled
replace_all-doubled [] = refl
replace_all-doubled (c ∷ s) = elim (Bool-cases (c == b'\'')) [
  | inl quote ↦ rw quote (ap (λ (t : Bytes). b'\'' ∷ b'\'' ∷ t) (replace_all-doubled s))
  | inr plain ↦ rw plain (ap (λ (t : Bytes). c ∷ t) (replace_all-doubled s))
]

scan_string_plain :
    (c : ℕ) (t : Bytes) → (c == b'\'') ≡ false → scan_string (c ∷ t) ≡ prepend c (scan_string t)
unfolding scan_string
scan_string_plain c [] plain = rw (plain, scan_string) refl
scan_string_plain c (d ∷ t) plain = rw (plain, scan_string) refl

scan_string_quote : (t : Bytes) → scan_string (b'\'' ∷ b'\'' ∷ t) ≡ prepend b'\'' (scan_string t)
unfolding scan_string
scan_string_quote t = refl

-- The quote that closes, where no other follows.
scan_string_end :
    (rest : Bytes) → next_is b'\'' rest ≡ false → scan_string (b'\'' ∷ rest) ≡ some ([], rest)
unfolding scan_string
scan_string_end [] h = refl
scan_string_end (d ∷ rest) h = rw (h, scan_string) refl

scan_string-doubled :
    (s rest : Bytes)
    → next_is b'\'' rest ≡ false
    → scan_string (doubled s ++ (b'\'' ∷ rest)) ≡ some (s, rest)
unfolding doubled prepend
scan_string-doubled [] rest h = scan_string_end rest h
scan_string-doubled (c ∷ s) rest h = elim (Bool-cases (c == b'\'')) [
  | inl quote ↦ rw quote (
      scan_string_quote (doubled s ++ (b'\'' ∷ rest))
      ∙ (ap (prepend b'\'') (scan_string-doubled s rest h)
          ∙ ap (λ (c : ℕ). some (c ∷ s, rest)) (sym ((==_iff c b'\'').0 quote))))
  | inr plain ↦ rw plain (
      scan_string_plain c (doubled s ++ (b'\'' ∷ rest)) plain
      ∙ ap (prepend c) (scan_string-doubled s rest h))
]

-- Whatever text a client sends as a parameter, its literal is lexed as one string with that text:
-- no byte of it ends the literal.
pub lex-sql_literal :
    {Float : Type 0} (ops : FloatOps Float) (x : Bytes)
    → lex (sql_literal ops (str x)) ≡ ok (lexeme t_string x ∷ lexeme t_eof [] ∷ [])
unfolding lex sql_literal
lex-sql_literal ops x = rw (replace_all-doubled x) (rw (scan_string-doubled x [] refl) refl)
