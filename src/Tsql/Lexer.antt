-- ===== src/Tsql/Lexer.antt =====
-- internal/tsql/lexer.go: `lex`. The bytes from `i` on stand for the string and its index, since the
-- lexer never looks back.
pub mod Scan
pub mod Totality
pub mod Literals
mod Tests
use haystak_tds_spi.Base.{
  ℕ, zero, suc, ◌+◌, ◌-◌, ◌*◌, ◌/◌, ◌%◌, ◌^◌, ◌≤◌, ◌<◌, min, ◌≡◌, refl, sym, ap, ◌∙◌, subst, ◌≢◌,
  ◌↔◌, ◌⊎◌, inl, inr, Bool, true, false, not, ◌&&◌, ◌||◌, Option, none, some, List, [], ◌∷◌, ◌++◌,
  map, append_assoc, append-nil, arith, ltb, leb, ◌==◌, if◌then◌else◌, ltb→lt, lt→ltb, leb→le,
  le→leb, ltb_false→le, leb_false→lt, le→ltb_false, ==_iff, ==_refl, Bool-cases, Option-cases,
  length, get_elem?, get_or, take, drop, replicate, length-append, take-append-drop, length-take,
  length-drop, take_append, drop_append, take_all, drop_all, drop-drop, length-replicate,
  length-map, Bytes, All, IsBytes, codes, All-append,
}
use haystak_tds_spi.Base.Result.{
  Result, ok, err, panic, no_fuel, ◌>>=◌, ◌>>◌, Returns, Yields, bind-eq-ok, Returns-bind,
}
use haystak_tds_spi.Go.Strings.{within, upper_byte}
use haystak_tds_spi.Base.Dict.{bytes_beq}
use haystak_tds_spi.Tsql.Lexer.Scan.{
  is_digit, is_ident_start, is_ident_part, is_hex_digit, skip_line, skip_block, scan_string,
  scan_to, span,
}

-- `tokKind`
pub data TokKind : Type 0 where
  t_eof t_ident t_keyword t_number t_string t_star t_comma t_dot t_colon t_lparen t_rparen t_op :
      TokKind

-- `token`
pub record LexToken : Type 0 where
  pub kind : TokKind
  pub text : Bytes

pub data LexError : Type 0 where
  unterminated_string unterminated_bracket unterminated_quote : LexError
  unexpected_character : ℕ → LexError

abbrev pub keywords : List Bytes
keywords = map codes (
    "SELECT" ∷ "WITH" ∷ "DISTINCT" ∷ "TOP" ∷ "PERCENT" ∷ "FROM" ∷ "WHERE" ∷ "GROUP" ∷ "HAVING"
    ∷ "ORDER" ∷ "BY" ∷ "ASC" ∷ "DESC" ∷ "AS" ∷ "AND" ∷ "OR" ∷ "NOT" ∷ "IN" ∷ "LIKE" ∷ "EXISTS"
    ∷ "IS" ∷ "NULL" ∷ "BETWEEN" ∷ "JOIN" ∷ "INNER" ∷ "LEFT" ∷ "RIGHT" ∷ "FULL" ∷ "OUTER" ∷ "CROSS"
    ∷ "ON" ∷ "APPLY" ∷ "PIVOT" ∷ "UNPIVOT" ∷ "TABLESAMPLE" ∷ "OFFSET" ∷ "FETCH" ∷ "NEXT" ∷ "FIRST"
    ∷ "ROWS" ∷ "ROW" ∷ "ONLY" ∷ "CASE" ∷ "WHEN" ∷ "THEN" ∷ "ELSE" ∷ "END" ∷ "UNION" ∷ "ALL"
    ∷ "INTERSECT" ∷ "EXCEPT" ∷ "INSERT" ∷ "INTO" ∷ "VALUES" ∷ "UPDATE" ∷ "SET" ∷ "DELETE" ∷ "CREATE"
    ∷ "DROP" ∷ "TABLE" ∷ "DATABASE" ∷ "ALTER" ∷ "ADD" ∷ "COLUMN" ∷ [])

has_word : Bytes → List Bytes → Bool
has_word w [] = false
has_word w (k ∷ ks) = bytes_beq w k || has_word w ks

-- `keywords[strings.ToUpper(word)]`; words are ASCII
unfoldable pub is_keyword : Bytes → Bool
unfolding has_word upper_byte
is_keyword word = has_word (map upper_byte word) keywords

-- what a round of the loop gives: the token, if it appends one, and the bytes that are left
abbrev Round : Type 0
Round = Result LexError (Option LexToken × Bytes)

abbrev pub lexeme : TokKind → Bytes → LexToken
lexeme kind text = record { kind = kind; text = text }

abbrev emit : TokKind → Bytes → Bytes → Round
emit kind text rest = ok (some (lexeme kind text), rest)

abbrev skip : Bytes → Round
skip rest = ok (none, rest)

-- whether the next byte is this one
abbrev pub next_is : ℕ → Bytes → Bool
next_is b [] = false
next_is b (c ∷ s) = c == b

-- the text up to its end, or the error where there is none
closed : TokKind → LexError → Option (Bytes × Bytes) → Round
closed kind bad none = err bad
closed kind bad (some (text, rest)) = emit kind text rest

-- the token of the longest run of such bytes
run_of : (Bytes → TokKind) → Bytes → Bytes × Bytes → Round
run_of kind lead (word, rest) = emit (kind (lead ++ word)) (lead ++ word) rest

number : ℕ → Bytes → Round
unfolding run_of span is_digit is_hex_digit
number c s =
    if c == b'0' && (next_is b'x' s || next_is b'X' s)
    then run_of (λ w. t_number) (c ∷ take 1 s) (span is_hex_digit (drop 1 s))
    else run_of (λ w. t_number) [] (span (λ (d : ℕ). is_digit d || d == b'.') (c ∷ s))

abbrev word_kind : Bytes → TokKind
word_kind w = if is_keyword w then t_keyword else t_ident

-- the cases `<` and `>`
comparison : ℕ → Bytes → Round
comparison c s =
    if next_is b'=' s
    then emit t_op (c ∷ b'=' ∷ []) (drop 1 s)
    else if c == b'<' && next_is b'>' s
    then emit t_op (codes "<>") (drop 1 s)
    else emit t_op (c ∷ []) s

one_of : ℕ → Bytes → Bool
one_of c [] = false
one_of c (d ∷ ds) = c == d || one_of c ds

-- the cases of one byte
punctuation : ℕ → Option TokKind
unfolding one_of
punctuation c =
    if c == b'*'
    then some t_star
    else if c == b','
    then some t_comma
    else if c == b'.'
    then some t_dot
    else if c == b':'
    then some t_colon
    else if c == b'('
    then some t_lparen
    else if c == b')'
    then some t_rparen
    else if one_of c (codes "=+-/%&|^")
    then some t_op
    else none

-- the cases behind those
words : ℕ → Bytes → Round
unfolding closed scan_string scan_to run_of span number is_keyword comparison is_digit
    is_ident_start is_ident_part
words c s =
    if c == b'<' || c == b'>'
    then comparison c s
    else if c == b'\''
    then closed t_string unterminated_string (scan_string s)
    else if (c == b'N' || c == b'n') && next_is b'\'' s
    then closed t_string unterminated_string (scan_string (drop 1 s))
    else if c == b'['
    then closed t_ident unterminated_bracket (scan_to b']' s)
    else if c == b'"'
    then closed t_ident unterminated_quote (scan_to b'"' s)
    else if c == b'@'
    then run_of (λ w. t_ident) (c ∷ []) (span (λ (d : ℕ). d == b'@' || is_ident_part d) s)
    else if is_digit c
    then number c s
    else if is_ident_start c
    then run_of word_kind [] (span is_ident_part (c ∷ s))
    else err (unexpected_character c)

-- the `switch` of a round, at the byte `c` before `s`
unfoldable pub scan : ℕ → Bytes → Round
unfolding skip_line skip_block punctuation words
scan c s =
    if c == b' ' || (c == 9 || (c == 10 || c == 13))
    then skip s
    else if c == b'-' && next_is b'-' s
    then skip (skip_line s)
    else if c == b'/' && next_is b'*' s
    then skip (skip_block 1 (drop 1 s))
    else elim (punctuation c) [ none ↦ words c s | some kind ↦ emit kind (c ∷ []) s ]

push : Option LexToken → List LexToken → List LexToken
push none toks = toks
push (some t) toks = t ∷ toks

next_round : (Bytes → Result LexError (List LexToken)) → Round → Result LexError (List LexToken)
unfolding push
next_round more (ok (tok, rest)) = do toks ← more rest; ok (push tok toks)
next_round more (err e) = err e
next_round more panic = panic
next_round more no_fuel = no_fuel

-- the loop of `lex`
pub lex_loop : ℕ → Bytes → Result LexError (List LexToken)
unfolding next_round scan
lex_loop zero s = no_fuel
lex_loop (suc fuel) [] = ok (lexeme t_eof [] ∷ [])
lex_loop (suc fuel) (c ∷ s) = next_round (lex_loop fuel) (scan c s)

-- `lex`. A round takes a byte at least.
unfoldable pub lex : Bytes → Result LexError (List LexToken)
unfolding lex_loop
lex s = lex_loop (suc (length s)) s
