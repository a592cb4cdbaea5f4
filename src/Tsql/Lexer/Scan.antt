-- ===== src/Tsql/Lexer/Scan.antt =====
-- internal/tsql/lexer.go: the inner loops of `lex`, and `skipBlockComment`.
use haystak_tds_spi.Base.{
  ℕ, ◌+◌, ◌-◌, Bool, true, false, ◌&&◌, ◌||◌, Option, none, some, [], ◌∷◌, ◌==◌, if◌then◌else◌,
  Bytes,
}
use haystak_tds_spi.Go.Strings.{within}

-- `isDigit`
unfoldable pub is_digit : ℕ → Bool
is_digit c = within b'0' b'9' c

-- `isHexDigit`
unfoldable pub is_hex_digit : ℕ → Bool
unfolding is_digit
is_hex_digit c = is_digit c || (within b'a' b'f' c || within b'A' b'F' c)

-- `isIdentStart`
unfoldable pub is_ident_start : ℕ → Bool
is_ident_start c = c == b'_' || (c == b'#' || (within b'a' b'z' c || within b'A' b'Z' c))

-- `isIdentPart`
unfoldable pub is_ident_part : ℕ → Bool
unfolding is_ident_start is_digit
is_ident_part c = is_ident_start c || is_digit c

-- up to the end of the line, which stays
unfoldable pub skip_line : Bytes → Bytes
skip_line [] = []
skip_line (c ∷ s) = let rest = skip_line s in if c == 10 then c ∷ s else rest

-- `skipBlockComment`, inside so many comments; the end of the text ends them all
unfoldable pub skip_block : ℕ → Bytes → Bytes
skip_block depth [] = []
skip_block depth (c ∷ []) = []
skip_block depth (c ∷ d ∷ s) = elim (c == b'/' && d == b'*') [
  | true ↦ skip_block (depth + 1) s
  | false ↦ elim (c == b'*' && d == b'/') [
    | true ↦ (let rest = skip_block (depth - 1) s in if depth - 1 == 0 then s else rest)
    | false ↦ skip_block depth (d ∷ s)
  ]
]

unfoldable pub prepend : ℕ → Option (Bytes × Bytes) → Option (Bytes × Bytes)
prepend c none = none
prepend c (some (text, rest)) = some (c ∷ text, rest)

-- the text of a string literal behind its opening quote, a doubled quote being one
unfoldable pub scan_string : Bytes → Option (Bytes × Bytes)
unfolding prepend
scan_string [] = none
scan_string (c ∷ []) = if c == b'\'' then some ([], []) else none
scan_string (c ∷ d ∷ s) = elim (c == b'\'') [
  | true ↦ elim (d == b'\'') [ true ↦ prepend b'\'' (scan_string s) | false ↦ some ([], d ∷ s) ]
  | false ↦ prepend c (scan_string (d ∷ s))
]

-- the text up to the closing byte
unfoldable pub scan_to : ℕ → Bytes → Option (Bytes × Bytes)
unfolding prepend
scan_to close [] = none
scan_to close (c ∷ s) =
    let rest = prepend c (scan_to close s) in if c == close then some ([], s) else rest

-- the longest run of such bytes, and what follows
unfoldable pub span : (ℕ → Bool) → Bytes → Bytes × Bytes
span p [] = ([], [])
span p (c ∷ s) = let (word, rest) = span p s in if p c then (c ∷ word, rest) else ([], c ∷ s)
