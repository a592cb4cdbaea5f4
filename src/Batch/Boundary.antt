-- ===== src/Batch/Boundary.antt =====
-- internal/extensions/batch/boundary.go: the words of a text. An index
-- into the text is the text from it on.
use haystak_tds_spi.Base.{
  ℕ, suc, ◌+◌, ◌-◌, ◌≤◌, Bool, true, false, ◌||◌, Option, none, some, List, [], ◌∷◌, map, ◌==◌,
  if◌then◌else◌, length, Bytes, codes,
}
use haystak_tds_spi.Base.Dict.{bytes_beq}
use haystak_tds_spi.Go.Strings.{trim_left, is_space, equal_fold, has_prefix}
use haystak_tds_spi.Go.Utf.{runes}
use haystak_tds_spi.Tsql.Lexer.Scan.{span}
use native.Mathlib.Nat.{le_refl}
use haystak_tds_spi.Batch.Rounds.{Round, rounds}
use haystak_tds_spi.Batch.Passes.{
  Passes, Parts-short, skip_comment-Passes, skip_string-Parts, skip_bracket-Parts, span-Parts,
}
use haystak_tds_spi.Batch.Scan.{is_name_part, skip_comment, skip_string, skip_bracket, before}
use haystak_tds_spi.Batch.Declared.{upper}

unfoldable pub has_member : Bytes → List Bytes → Bool
has_member w [] = false
has_member w (k ∷ ks) = bytes_beq w k || has_member w ks

-- `leadWords`
unfoldable pub lead_words : List Bytes
lead_words = map codes (
    "SELECT" ∷ "INSERT" ∷ "UPDATE" ∷ "DELETE" ∷ "MERGE" ∷ "DECLARE" ∷ "SET" ∷ "WITH" ∷ "EXEC"
    ∷ "EXECUTE" ∷ "IF" ∷ "WHILE" ∷ "BEGIN" ∷ "PRINT" ∷ "RETURN" ∷ "USE" ∷ "CREATE" ∷ "ALTER"
    ∷ "DROP" ∷ "TRUNCATE" ∷ "RAISERROR" ∷ "THROW" ∷ "GOTO" ∷ "WAITFOR" ∷ "BREAK" ∷ "CONTINUE" ∷ [])

-- `word`; `at` is the text from its first byte on, `after` from its end on
pub record Word : Type 0 where
  pub text : Bytes
  pub at : Bytes
  pub after : Bytes
  pub depth : ℕ
  pub paren_after : Bool

-- `isWordByte`
unfoldable pub is_word_byte : ℕ → Bool
unfolding is_name_part
is_word_byte c = is_name_part c || (c == b'@' || (c == b'#' || (c == b'$' || c == b'.')))

-- A `(` with nothing but white space in front of it is what sets `parenAfter` of a word.
opens : Bytes → Bool
unfolding trim_left is_space has_prefix
opens s = has_prefix (trim_left is_space s) (codes "(")

-- a word of the text `s`, which begins with it
unfoldable pub word_of : ℕ → Bytes → Bytes × Bytes → Word
unfolding opens
word_of depth s (text, rest) = record {
  text = text;
  at = s;
  after = rest;
  depth = depth;
  paren_after = opens rest;
}

-- what a round of `words` gives at the byte `c` before `s`: a word or none, the depth, and the text left
unfoldable pub words_at : ℕ → ℕ → Bytes → Option Word × ℕ × Bytes
unfolding skip_string skip_bracket word_of span is_word_byte
words_at depth c s =
    if c == b'\''
    then (none, depth, (skip_string s).1)
    else if c == b'['
    then (
      some (word_of depth (c ∷ s) (before (c ∷ []) (skip_bracket s))),
      depth,
      (skip_bracket s).1,
    )
    else if c == b'('
    then (none, depth + 1, s)
    else if c == b')'
    then (none, depth - 1, s)
    else if is_word_byte c
    then (
      some (word_of depth (c ∷ s) (before (c ∷ []) (span is_word_byte s))),
      depth,
      (span is_word_byte s).1,
    )
    else (none, depth, s)

unfoldable pub round_at : ℕ → ℕ → Bytes → Option Word × ℕ × Bytes
unfolding words_at skip_comment
round_at depth c s = elim (skip_comment c s) [
  | none ↦ words_at depth c s
  | some (t, rest) ↦ (none, depth, rest)
]

unfoldable pub listed : Option Word → List Word → List Word
listed none ws = ws
listed (some w) ws = w ∷ ws

-- the word stands in the last so many bytes of the text
abbrev pub Within : ℕ → Word → Type 0
Within n w = (length w.at ≤ n) × (length w.after ≤ n)

pub data Fine (n : ℕ) : Option Word × ℕ × Bytes → Type 0 where
  no_word : {depth : ℕ} {rest : Bytes} → length rest ≤ n → Fine n (none, depth, rest)
  one_word :
      {w : Word} {depth : ℕ} {rest : Bytes}
      → length w.at ≤ suc n
      → length w.after ≤ n
      → length rest ≤ n
      → Fine n (some w, depth, rest)

if-Fine :
    (b : Bool) (n : ℕ) (x y : Option Word × ℕ × Bytes)
    → Fine n x
    → Fine n y
    → Fine n (if b then x else y)
if-Fine true n x y h k = h
if-Fine false n x y h k = k

words_at-Fine : (depth c : ℕ) (s : Bytes) → Fine (length s) (words_at depth c s)
unfolding words_at word_of
words_at-Fine depth c s =
    let str = Parts-short s (skip_string s) (skip_string-Parts s) in
    let name = Parts-short s (skip_bracket s) (skip_bracket-Parts s) in
    let run = Parts-short s (span is_word_byte s) (span-Parts is_word_byte s) in
    let here = le_refl (length s) in
    let n = length s in
    let bracketed : Option Word × ℕ × Bytes = (
      some (word_of depth (c ∷ s) (before (c ∷ []) (skip_bracket s))),
      depth,
      (skip_bracket s).1,
    ) in
    let named : Option Word × ℕ × Bytes = (
      some (word_of depth (c ∷ s) (before (c ∷ []) (span is_word_byte s))),
      depth,
      (span is_word_byte s).1,
    ) in
    let e1 : Option Word × ℕ × Bytes = if is_word_byte c then named else (none, depth, s) in
    let e2 : Option Word × ℕ × Bytes = if c == b')' then (none, depth - 1, s) else e1 in
    let e3 : Option Word × ℕ × Bytes = if c == b'(' then (none, depth + 1, s) else e2 in
    let e4 : Option Word × ℕ × Bytes = if c == b'[' then bracketed else e3 in
    if-Fine (c == b'\'') n (none, depth, (skip_string s).1) e4 (no_word str)
      (if-Fine (c == b'[') n bracketed e3 (one_word (le_refl (suc (length s))) name name) (
        if-Fine (c == b'(') n (none, depth + 1, s) e2 (no_word here)
          (if-Fine (c == b')') n (none, depth - 1, s) e1 (no_word here)
            (if-Fine (is_word_byte c) n named (none, depth, s)
              (one_word (le_refl (suc (length s))) run run) (no_word here)))))

pub round_at-Fine : (depth c : ℕ) (s : Bytes) → Fine (length s) (round_at depth c s)
unfolding round_at
round_at-Fine depth c s = either (skip_comment c s) (skip_comment-Passes c s)
  where
    either :
        (x : Option (Bytes × Bytes))
        → Passes c s x
        → Fine (length s) (elim x as (λ _. Option Word × ℕ × Bytes) [
          | none ↦ words_at depth c s
          | some (t, rest) ↦ (none, depth, rest)
        ])
    either none h = words_at-Fine depth c s
    either (some (t, r)) (u, e, h) = no_word (Parts-short s (u, r) h)

pub Fine-short : (n : ℕ) (x : Option Word × ℕ × Bytes) → Fine n x → length x.2 ≤ n
Fine-short n (none, d, r) (no_word h) = h
Fine-short n (some w, d, r) (one_word a b h) = h

-- a round of the loop of `words`
unfoldable pub words_round : Round (ℕ → List Word)
unfolding round_at listed
words_round c s next depth =
    let (w, depth', rest) = round_at depth c s in
    listed w
      (next rest (Fine-short (length s) (round_at depth c s) (round_at-Fine depth c s)) depth')

-- `words`
unfoldable pub words : Bytes → List Word
unfolding words_round rounds
words s = rounds words_round (λ depth. []) s 0

-- what `statementEnd` does at a word: it ends the statement in front of it or behind it, takes the
-- rest of the text, or goes on with `lead`, `values` and `ownSet`
pub data Verdict : Type 0 where
  ends_at ends_after takes_all : Verdict
  goes : Bytes → Bool → Bool → Verdict

unfoldable pub cut_if : Bool → Bytes → Bool → Bool → Verdict
cut_if b lead values own_set = if b then ends_at else goes lead values own_set

unfoldable pub is_lead : Bytes → Bool
unfolding has_member lead_words
is_lead u = has_member u lead_words

unfoldable pub is_dml : Bytes → Bool
unfolding has_member
is_dml u = has_member u (map codes ("SELECT" ∷ "INSERT" ∷ "UPDATE" ∷ "DELETE" ∷ "MERGE" ∷ []))

unfoldable pub folds_next : List Word → Bytes → Bool
unfolding equal_fold runes
folds_next [] w = false
folds_next (n ∷ ws) w = equal_fold (runes n.text) w

-- `setOpWord`
unfoldable pub set_op_word : Bytes → Bool
unfolding has_member upper
set_op_word s = has_member (upper s) (map codes ("UNION" ∷ "ALL" ∷ "EXCEPT" ∷ "INTERSECT" ∷ []))
