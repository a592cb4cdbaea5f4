-- ===== src/Control/Lex.antt =====
-- internal/extensions/procedures/control/lex.go: `lex`. The index into the text is the text from it on.
use haystak_tds_spi.Base.{
  ℕ, suc, ◌≤◌, ◌≡◌, refl, Bool, true, false, not, ◌&&◌, ◌||◌, Option, none, some, List, [], ◌∷◌,
  map, arith, ◌==◌, if◌then◌else◌, length, take, drop, length-drop, Bytes, codes,
}
use haystak_tds_spi.Base.Dict.{bytes_beq}
use haystak_tds_spi.Go.Strings.{upper_byte}
use haystak_tds_spi.Batch.Rounds.{Round, rounds}
use haystak_tds_spi.Batch.Passes.{
  Passes, Parts-short, skip_string-Parts, skip_bracket-Parts, span-Parts, skip_nested-Passes,
}
use haystak_tds_spi.Batch.Scan.{
  is_name_part, is_blank, before, skip_string, skip_bracket, skip_nested,
}
use haystak_tds_spi.Tsql.Lexer.Scan.{span}

-- `tokKind`
pub data Kind : Type 0 where
  word quoted paren_l paren_r semi other : Kind

-- `tok`
pub record Tok : Type 0 where
  pub kind : Kind
  pub text : Bytes

abbrev pub tok : Kind → Bytes → Tok
tok kind text = record { kind = kind; text = text }

abbrev next_is : ℕ → Bytes → Bool
next_is b [] = false
next_is b (c ∷ s) = c == b

one_of : ℕ → Bytes → Bool
one_of c [] = false
one_of c (d ∷ ds) = c == d || one_of c ds

-- `isOther`
unfoldable pub is_other : ℕ → Bool
unfolding one_of is_name_part is_blank
is_other c = not (is_blank c || one_of c (codes "'[();@#")) && not (is_name_part c)

-- the bytes of a word behind its first one
word_part : ℕ → Bool
word_part c = is_name_part c || (c == b'@' || (c == b'#' || c == b'.'))

-- what a round gives: the token, if it appends one, and the text that is left
abbrev Emitted : Type 0
Emitted = Option Tok × Bytes

emit : Kind → Bytes × Bytes → Emitted
emit kind (text, rest) = (some (tok kind text), rest)

-- the last case: a run of other bytes, or one byte of any kind
run_of_other : ℕ → Bytes → Bytes × Bytes
unfolding is_other
run_of_other c s = if is_other c then before (c ∷ []) (span is_other s) else (c ∷ [], s)

tok_cases : ℕ → Bytes → Emitted
unfolding emit run_of_other skip_string skip_bracket span word_part
tok_cases c s =
    if c == b'\''
    then emit quoted (before (c ∷ []) (skip_string s))
    else if (c == b'N' || c == b'n') && next_is b'\'' s
    then emit quoted (before (c ∷ take 1 s) (skip_string (drop 1 s)))
    else if c == b'['
    then emit word (before (c ∷ []) (skip_bracket s))
    else if c == b'('
    then (some (tok paren_l (c ∷ [])), s)
    else if c == b')'
    then (some (tok paren_r (c ∷ [])), s)
    else if c == b';'
    then (some (tok semi (c ∷ [])), s)
    else if is_name_part c || (c == b'@' || c == b'#')
    then emit word (before (c ∷ []) (span word_part s))
    else emit other (run_of_other c s)

-- the `switch` at the byte `c` before `s`
unfoldable pub next_tok : ℕ → Bytes → Emitted
unfolding tok_cases skip_nested span is_blank
next_tok c s =
    if is_blank c
    then (none, s)
    else if c == b'-' && next_is b'-' s
    then (none, (span (λ (x : ℕ). not (x == 10)) s).1)
    else if c == b'/' && next_is b'*' s
    then (none, (skip_nested 0 (c ∷ s)).1)
    else tok_cases c s

appended : Option Tok → List Tok → List Tok
appended none toks = toks
appended (some t) toks = t ∷ toks

-- a round leaves a text that is no longer than the one behind the byte
abbrev Short : Bytes → Emitted → Type 0
Short s x = length x.1 ≤ length s

if-Short :
    (b : Bool) (s : Bytes) (x y : Emitted)
    → (b ≡ true → Short s x)
    → Short s y
    → Short s (if b then x else y)
if-Short true s x y h k = h refl
if-Short false s x y h k = k

run_of_other_short : (c : ℕ) (s : Bytes) → length (run_of_other c s).1 ≤ length s
unfolding run_of_other
run_of_other_short c s = either (is_other c)
  where
    either :
        (b : Bool)
        → length (if b then before (c ∷ []) (span is_other s) else (c ∷ [], s)).1 ≤ length s
    either true = Parts-short s (span is_other s) (span-Parts is_other s)
    either false = omega arith

tok_cases-Short : (c : ℕ) (s : Bytes) → Short s (tok_cases c s)
unfolding tok_cases emit
tok_cases-Short c s =
    let string = Parts-short s (skip_string s) (skip_string-Parts s) in
    let rest = drop 1 s in
    let behind_n = Parts-short rest (skip_string rest) (skip_string-Parts rest) in
    let name = Parts-short s (skip_bracket s) (skip_bracket-Parts s) in
    let run = Parts-short s (span word_part s) (span-Parts word_part s) in
    let here : length s ≤ length s = omega arith in
    if-Short (c == b'\'') s _ _ (λ _. string)
      (if-Short ((c == b'N' || c == b'n') && next_is b'\'' s) s _ _
        (λ _. omega (arith, length-drop 1 s, behind_n))
        (if-Short (c == b'[') s _ _ (λ _. name)
          (if-Short (c == b'(') s _ _ (λ _. here)
            (if-Short (c == b')') s _ _ (λ _. here)
              (if-Short (c == b';') s _ _ (λ _. here)
                (if-Short (is_name_part c || (c == b'@' || c == b'#')) s _ _ (λ _. run)
                  (run_of_other_short c s)))))))

block_short :
    (c : ℕ) (s : Bytes)
    → (c == b'/' && next_is b'*' s) ≡ true
    → length (skip_nested 0 (c ∷ s)).1 ≤ length s
block_short c [] h = unfold skip_nested in omega arith
block_short c (d ∷ s) h = passed (skip_nested 0 (c ∷ d ∷ s)) (skip_nested-Passes 0 c d s h)
  where
    passed : (x : Bytes × Bytes) → Passes c (d ∷ s) (some x) → length x.1 ≤ suc (length s)
    passed (t, r) (u, e, p) = Parts-short (d ∷ s) (u, r) p

pub next_tok-Short : (c : ℕ) (s : Bytes) → Short s (next_tok c s)
unfolding next_tok
next_tok-Short c s =
    let line = span (λ (x : ℕ). not (x == 10)) s in
    if-Short (is_blank c) s _ _ (λ _. omega arith)
      (if-Short (c == b'-' && next_is b'-' s) s _ _
        (λ _. Parts-short s line (span-Parts (λ (x : ℕ). not (x == 10)) s))
        (if-Short (c == b'/' && next_is b'*' s) s _ _ (block_short c s) (tok_cases-Short c s)))

-- a round of the loop of `lex`
unfoldable pub lex_round : Round (List Tok)
unfolding next_tok appended
lex_round c s next = appended (next_tok c s).0 (next (next_tok c s).1 (next_tok-Short c s))

-- `lex`
unfoldable pub lex : Bytes → List Tok
unfolding lex_round rounds
lex s = rounds lex_round [] s

abbrev stmt_keywords : List Bytes
stmt_keywords = map codes (
    "BEGIN" ∷ "END" ∷ "IF" ∷ "ELSE" ∷ "WHILE" ∷ "BREAK" ∷ "CONTINUE" ∷ "RETURN" ∷ "PRINT" ∷ "THROW"
    ∷ "RAISERROR" ∷ "GOTO" ∷ "WAITFOR" ∷ "DECLARE" ∷ "SET" ∷ "SELECT" ∷ "INSERT" ∷ "UPDATE"
    ∷ "DELETE" ∷ "EXEC" ∷ "EXECUTE" ∷ "WITH" ∷ "MERGE" ∷ "TRUNCATE" ∷ "CREATE" ∷ "DROP" ∷ "ALTER"
    ∷ "USE" ∷ "TRY" ∷ "CATCH" ∷ [])

unfoldable pub has_member : Bytes → List Bytes → Bool
has_member w [] = false
has_member w (k ∷ ks) = bytes_beq w k || has_member w ks

-- strings.ToUpper of a token; a token that is compared is ASCII, or begins with a bracket
unfoldable pub upper : Bytes → Bytes
unfolding upper_byte
upper w = map upper_byte w

abbrev pub is_word : Kind → Bool
is_word word = true
is_word _ = false

-- `isStmtKeyword`
unfoldable pub is_stmt_keyword : Tok → Bool
unfolding has_member upper
is_stmt_keyword t = is_word t.kind && has_member (upper t.text) stmt_keywords

-- `eqKw`, the keyword in capitals
unfoldable pub eq_kw : Tok → Bytes → Bool
unfolding upper
eq_kw t kw = is_word t.kind && bytes_beq (upper t.text) kw

batch_text :
    lex (codes "SET @a.b='x''y';[a b] /* /**/ */ +-- N'z'")
    ≡ tok word (codes "SET")
      ∷ tok word (codes "@a.b")
      ∷ tok other (codes "=")
      ∷ tok quoted (codes "'x''y'")
      ∷ tok semi (codes ";")
      ∷ tok word (codes "[a b]")
      ∷ tok other (codes "+--")
      ∷ tok quoted (codes "N'z'")
      ∷ []
unfolding lex
batch_text = refl
