-- ===== src/Batch/Scan.antt =====
-- internal/extensions/batch/batch.go: `skipString`, `skipBracket` and `SkipComment`. An index into the
-- text is the text from it on; each function gives the bytes that it passes over and those behind.
use haystak_tds_spi.Base.{
  ℕ, ◌+◌, ◌-◌, Bool, true, false, not, ◌&&◌, ◌||◌, Option, none, some, [], ◌∷◌, ◌++◌, ◌==◌,
  if◌then◌else◌, Bytes,
}
use haystak_tds_spi.Go.Strings.{within}
use haystak_tds_spi.Tsql.Lexer.Scan.{span}

-- `isNamePart`
unfoldable pub is_name_part : ℕ → Bool
is_name_part c = c == b'_' || (within b'0' b'9' c || (within b'a' b'z' c || within b'A' b'Z' c))

-- `isSpace`
unfoldable pub is_blank : ℕ → Bool
is_blank c = c == b' ' || (c == 9 || (c == 10 || c == 13))

abbrev pub before : Bytes → Bytes × Bytes → Bytes × Bytes
before lead (text, rest) = (lead ++ text, rest)

-- the loop of `skipString`, behind the opening quote
unfoldable pub skip_string : Bytes → Bytes × Bytes
skip_string [] = ([], [])
skip_string (c ∷ []) = (c ∷ [], [])
skip_string (c ∷ d ∷ s) = elim (c == b'\'') [
  | true ↦ elim (d == b'\'') [
    | true ↦ before (c ∷ d ∷ []) (skip_string s)
    | false ↦ (c ∷ [], d ∷ s)
  ]
  | false ↦ before (c ∷ []) (skip_string (d ∷ s))
]

-- the loop of `skipBracket`, behind the opening bracket
unfoldable pub skip_bracket : Bytes → Bytes × Bytes
skip_bracket [] = ([], [])
skip_bracket (c ∷ s) =
    let rest = before (c ∷ []) (skip_bracket s) in if c == b']' then (c ∷ [], s) else rest

-- the loop of `SkipComment` in a block comment, inside so many
unfoldable pub skip_nested : ℕ → Bytes → Bytes × Bytes
skip_nested depth [] = ([], [])
skip_nested depth (c ∷ []) = (c ∷ [], [])
skip_nested depth (c ∷ d ∷ s) = elim (c == b'/' && d == b'*') [
  | true ↦ before (c ∷ d ∷ []) (skip_nested (depth + 1) s)
  | false ↦ elim (c == b'*' && d == b'/') [
    | true ↦
        (let rest = before (c ∷ d ∷ []) (skip_nested (depth - 1) s) in
          if depth - 1 == 0 then (c ∷ d ∷ [], s) else rest)
    | false ↦ before (c ∷ []) (skip_nested depth (d ∷ s))
  ]
]

-- `SkipComment` at the byte `c` before `s`; none where it gives the index back
unfoldable pub skip_comment : ℕ → Bytes → Option (Bytes × Bytes)
unfolding skip_nested span
skip_comment c [] = none
skip_comment c (d ∷ s) =
    if c == b'-' && d == b'-'
    then some (span (λ (x : ℕ). not (x == 10)) (c ∷ d ∷ s))
    else if c == b'/' && d == b'*'
    then some (skip_nested 0 (c ∷ d ∷ s))
    else none

-- a string or a [name] that starts at `c`
unfoldable pub skip_literal : ℕ → Bytes → Option (Bytes × Bytes)
unfolding skip_string skip_bracket
skip_literal c s =
    if c == b'\''
    then some (before (c ∷ []) (skip_string s))
    else if c == b'['
    then some (before (c ∷ []) (skip_bracket s))
    else none

-- what a loop passes over unread at the byte `c` before a text
abbrev pub Skip : Type 0
Skip = ℕ → Bytes → Option (Bytes × Bytes)

-- a comment, a string or a [name]
unfoldable pub comment_or_literal : Skip
unfolding skip_comment skip_literal
comment_or_literal c s = elim (skip_comment c s) [ none ↦ skip_literal c s | some x ↦ some x ]
