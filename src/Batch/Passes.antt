-- ===== src/Batch/Passes.antt =====
-- internal/extensions/batch/batch.go: what the skipping functions pass over is a beginning of the text.
use haystak_tds_spi.Base.{
  ℕ, ◌+◌, ◌-◌, ◌≤◌, ◌≡◌, refl, sym, ap, ◌∙◌, inl, inr, Bool, true, false, not, ◌&&◌, Option, none,
  some, [], ◌∷◌, ◌++◌, append_assoc, arith, ◌==◌, if◌then◌else◌, ==_iff, Bool-cases, length,
  length-append, Bytes,
}
use haystak_tds_spi.Tsql.Lexer.Scan.{span}
use haystak_tds_spi.Batch.Scan.{
  skip_string, skip_bracket, skip_nested, skip_comment, skip_literal, before, comment_or_literal,
}

-- the two parts of the text
abbrev pub Parts : Bytes → Bytes × Bytes → Type 0
Parts s (t, r) = t ++ r ≡ s

before-Parts : (lead s : Bytes) (x : Bytes × Bytes) → Parts s x → Parts (lead ++ s) (before lead x)
before-Parts lead s (t, r) h = append_assoc lead t r ∙ ap (λ u. lead ++ u) h

if-Parts :
    (b : Bool) (s : Bytes) (x y : Bytes × Bytes)
    → Parts s x
    → Parts s y
    → Parts s (if b then x else y)
if-Parts true s x y h k = h
if-Parts false s x y h k = k

pub skip_string-Parts : (s : Bytes) → Parts s (skip_string s)
unfolding skip_string
skip_string-Parts [] = refl
skip_string-Parts (c ∷ []) = refl
skip_string-Parts (c ∷ d ∷ s) = elim (Bool-cases (c == b'\'')) [
  | inl is_ ↦ elim (Bool-cases (d == b'\'')) [
    | inl too ↦
        rw (skip_string, is_, too)
          (before-Parts (c ∷ d ∷ []) s (skip_string s) (skip_string-Parts s))
    | inr not_ ↦ rw (skip_string, is_, not_) refl
  ]
  | inr not_ ↦
      rw (skip_string, not_)
        (before-Parts (c ∷ []) (d ∷ s) (skip_string (d ∷ s)) (skip_string-Parts (d ∷ s)))
]

pub skip_bracket-Parts : (s : Bytes) → Parts s (skip_bracket s)
unfolding skip_bracket
skip_bracket-Parts [] = refl
skip_bracket-Parts (c ∷ s) =
    if-Parts (c == b']') (c ∷ s) (c ∷ [], s) (before (c ∷ []) (skip_bracket s)) refl
      (before-Parts (c ∷ []) s (skip_bracket s) (skip_bracket-Parts s))

skip_nested-Parts : (depth : ℕ) (s : Bytes) → Parts s (skip_nested depth s)
unfolding skip_nested
skip_nested-Parts depth [] = refl
skip_nested-Parts depth (c ∷ []) = refl
skip_nested-Parts depth (c ∷ d ∷ s) = elim (Bool-cases (c == b'/' && d == b'*')) [
  | inl opens ↦
      rw (skip_nested, opens)
        (before-Parts (c ∷ d ∷ []) s (skip_nested (depth + 1) s) (skip_nested-Parts (depth + 1) s))
  | inr not_ ↦ elim (Bool-cases (c == b'*' && d == b'/')) [
    | inl closes ↦
        rw (skip_nested, not_, closes)
          (if-Parts (depth - 1 == 0) (c ∷ d ∷ s) (c ∷ d ∷ [], s)
            (before (c ∷ d ∷ []) (skip_nested (depth - 1) s)) refl
            (before-Parts (c ∷ d ∷ []) s (skip_nested (depth - 1) s)
              (skip_nested-Parts (depth - 1) s)))
    | inr other ↦
        rw (skip_nested, not_, other)
          (before-Parts (c ∷ []) (d ∷ s) (skip_nested depth (d ∷ s))
            (skip_nested-Parts depth (d ∷ s)))
  ]
]

pub span-Parts : (p : ℕ → Bool) (s : Bytes) → Parts s (span p s)
unfolding span
span-Parts p [] = refl
span-Parts p (c ∷ s) =
    if-Parts (p c) (c ∷ s) (c ∷ (span p s).0, (span p s).1) ([], c ∷ s)
      (ap (λ u. c ∷ u) (span-Parts p s)) refl

pub Parts-short : (s : Bytes) (x : Bytes × Bytes) → Parts s x → length x.1 ≤ length s
Parts-short s (t, r) h = (let e = ap length (sym h) ∙ length-append t r in omega arith)

-- Where it skips, it passes over the byte and some more of the text.
abbrev pub Passes : ℕ → Bytes → Option (Bytes × Bytes) → Type 0
Passes c s none = Unit
Passes c s (some (t, r)) = (u : Bytes) × (t ≡ c ∷ u) × (u ++ r ≡ s)

pub passed-short : (c : ℕ) (s t r : Bytes) → Passes c s (some (t, r)) → length r ≤ length s
passed-short c s t r (u, e, h) = Parts-short s (u, r) h

if-Passes :
    (b : Bool) (c : ℕ) (s : Bytes) (x y : Option (Bytes × Bytes))
    → (b ≡ true → Passes c s x)
    → Passes c s y
    → Passes c s (if b then x else y)
if-Passes true c s x y h k = h refl
if-Passes false c s x y h k = k

pub skip_literal-Passes : (c : ℕ) (s : Bytes) → Passes c s (skip_literal c s)
unfolding skip_literal
skip_literal-Passes c s =
    if-Passes (c == b'\'') c s (some (before (c ∷ []) (skip_string s))) _
      (λ _. ((skip_string s).0, refl, skip_string-Parts s))
      (if-Passes (c == b'[') c s (some (before (c ∷ []) (skip_bracket s))) none
        (λ _. ((skip_bracket s).0, refl, skip_bracket-Parts s)) tt)

span-Passes : (p : ℕ → Bool) (c : ℕ) (s : Bytes) → p c ≡ true → Passes c s (some (span p (c ∷ s)))
unfolding span
span-Passes p c s h = rw h ((span p s).0, refl, span-Parts p s)

pub skip_nested-Passes :
    (depth c d : ℕ) (s : Bytes)
    → (c == b'/' && d == b'*') ≡ true
    → Passes c (d ∷ s) (some (skip_nested depth (c ∷ d ∷ s)))
unfolding skip_nested
skip_nested-Passes depth c d s h =
    rw (skip_nested, h)
      (d ∷ (skip_nested (depth + 1) s).0, refl, ap (λ u. d ∷ u) (skip_nested-Parts (depth + 1) s))

pub skip_comment-Passes : (c : ℕ) (s : Bytes) → Passes c s (skip_comment c s)
unfolding skip_comment
skip_comment-Passes c [] = tt
skip_comment-Passes c (d ∷ s) =
    if-Passes (c == b'-' && d == b'-') c (d ∷ s)
      (some (span (λ (x : ℕ). not (x == 10)) (c ∷ d ∷ s))) _
      (λ h. span-Passes (λ (x : ℕ). not (x == 10)) c (d ∷ s) (ground (arith, ==_iff c b'-')))
      (if-Passes (c == b'/' && d == b'*') c (d ∷ s) (some (skip_nested 0 (c ∷ d ∷ s))) none
        (λ h. skip_nested-Passes 0 c d s h) tt)

pub comment_or_literal-Passes : (c : ℕ) (s : Bytes) → Passes c s (comment_or_literal c s)
unfolding comment_or_literal
comment_or_literal-Passes c s = either (skip_comment c s) (skip_comment-Passes c s)
  where
    either :
        (x : Option (Bytes × Bytes))
        → Passes c s x
        → Passes c s (elim x [ none ↦ skip_literal c s | some y ↦ some y ])
    either none h = skip_literal-Passes c s
    either (some y) h = h

-- what is skipped at a byte, if anything is, and the text behind it, which is no longer than the one
-- behind the byte
abbrev pub or_skipped :
    {Out : Type 0} (c : ℕ) (s : Bytes) (x : Option (Bytes × Bytes))
    → Passes c s x
    → (Bytes → (r : Bytes) → length r ≤ length s → Out)
    → Out
    → Out
or_skipped c s none p skipped other = other
or_skipped c s (some (t, r)) p skipped other = skipped t r (passed-short c s t r p)
