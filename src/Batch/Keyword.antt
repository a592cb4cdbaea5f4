-- ===== src/Batch/Keyword.antt =====
-- internal/extensions/batch/batch.go: `stripComments` leaves the keyword that `firstWord` has read, so
-- that the slices behind DECLARE and SET are in range.
use haystak_tds_spi.Base.{
  ℕ, suc, ◌+◌, ◌≤◌, ◌≡◌, refl, sym, ap, ◌∙◌, subst, inl, inr, true, false, Option, none, some, [],
  ◌∷◌, ◌++◌, map, append_assoc, arith, ◌==◌, if◌then◌else◌, Bool-cases, length, length-map, Bytes,
  All,
}
use haystak_tds_spi.Go.Strings.{trim_space, trim_left, trim_right, is_space, upper_byte, within}
use haystak_tds_spi.Batch.Rounds.{rounds, rounds-round}
use haystak_tds_spi.Batch.Scan.{skip_comment, skip_literal, is_blank}
use haystak_tds_spi.Batch.Passes.{Passes, or_skipped, skip_comment-Passes, skip_literal-Passes}
use haystak_tds_spi.Batch.Text.{strip_round, strip_comments}
use haystak_tds_spi.Batch.Declared.{until_blank, first_word, upper}

-- how many bytes are no space
marks : Bytes → ℕ
marks [] = 0
marks (c ∷ s) = let n = marks s in if is_space c then n else suc n

marks-length : (s : Bytes) → marks s ≤ length s
unfolding marks
marks-length [] = omega arith
marks-length (c ∷ s) = ground (arith, marks-length s)

marks-trim_left : (s : Bytes) → marks (trim_left is_space s) ≡ marks s
unfolding marks trim_left
marks-trim_left [] = refl
marks-trim_left (c ∷ s) = elim (Bool-cases (is_space c)) [
  | inl is_ ↦ rw is_ (marks-trim_left s)
  | inr not_ ↦ rw not_ (rw not_ refl)
]

marks-trim_right : (s : Bytes) → marks (trim_right is_space s) ≡ marks s
unfolding marks trim_right
marks-trim_right [] = refl
marks-trim_right (c ∷ s) = onto (trim_right is_space s) (marks-trim_right s)
  where
    onto :
        (t : Bytes)
        → marks t ≡ marks s
        → marks (elim t as (λ _. Bytes) [
          | [] ↦ (if is_space c then [] else c ∷ [])
          | d ∷ ds ↦ c ∷ d ∷ ds
        ])
          ≡ marks (c ∷ s)
    onto [] e = elim (Bool-cases (is_space c)) [
      | inl is_ ↦ rw is_ e
      | inr not_ ↦ rw not_ (rw not_ (ap suc e))
    ]
    onto (d ∷ ds) e = elim (Bool-cases (is_space c)) [
      | inl is_ ↦ rw is_ e
      | inr not_ ↦ rw not_ (ap suc e)
    ]

-- Trimming takes no other byte than a space.
marks-trim_space : (s : Bytes) → marks s ≤ length (trim_space s)
unfolding trim_space
marks-trim_space s =
    let t = trim_right is_space s in
    omega (arith, marks-trim_left t, marks-trim_right s, marks-length (trim_left is_space t))

marks-append : (s t : Bytes) → marks (s ++ t) ≡ marks s + marks t
unfolding marks
marks-append [] t = omega arith
marks-append (c ∷ s) t = ground (arith, marks-append s t)

-- a byte that begins no comment, string or [name]
abbrev Plain : ℕ → Type 0
Plain c =
    ((c == b'-') ≡ false) × ((c == b'/') ≡ false) × ((c == b'\'') ≡ false) × ((c == b'[') ≡ false)

comment_none : (c : ℕ) (s : Bytes) → Plain c → skip_comment c s ≡ none
unfolding skip_comment
comment_none c [] p = refl
comment_none c (d ∷ s) p = rw (p.0, p.1) refl

literal_none : (c : ℕ) (s : Bytes) → Plain c → skip_literal c s ≡ none
unfolding skip_literal
literal_none c s p = rw (p.2, p.3) refl

none_skipped :
    (c : ℕ) (s : Bytes) (x : Option (Bytes × Bytes)) (p : Passes c s x)
    (skipped : Bytes → (r : Bytes) → length r ≤ length s → Bytes) (other : Bytes)
    → x ≡ none
    → or_skipped c s x p skipped other ≡ other
none_skipped c s none p skipped other e = refl
none_skipped c s (some (t, r)) p skipped other e = cc

-- a plain byte stays
strip_round-Plain :
    (c : ℕ) (s : Bytes) → Plain c → rounds strip_round [] (c ∷ s) ≡ c ∷ rounds strip_round [] s
unfolding strip_round
strip_round-Plain c s p =
    rounds-round strip_round [] c s
    ∙ none_skipped c s (skip_comment c s) (skip_comment-Passes c s) _ _ (comment_none c s p)
    ∙ none_skipped c s (skip_literal c s) (skip_literal-Passes c s) _ _ (literal_none c s p)

strip-append :
    (p s : Bytes) → All Plain p → rounds strip_round [] (p ++ s) ≡ p ++ rounds strip_round [] s
strip-append [] s h = refl
strip-append (c ∷ p) s h = strip_round-Plain c (p ++ s) h.0 ∙ ap (λ t. c ∷ t) (strip-append p s h.1)

trim_left_parts :
    (s : Bytes) → (b : Bytes) × All (λ c. is_space c ≡ true) b × (s ≡ b ++ trim_left is_space s)
unfolding trim_left
trim_left_parts [] = ([], tt, refl)
trim_left_parts (c ∷ s) = elim (Bool-cases (is_space c)) [
  | inl is_ ↦
      (let (b, all, e) = trim_left_parts s in (c ∷ b, (is_, all), rw is_ (ap (λ t. c ∷ t) e)))
  | inr not_ ↦ ([], tt, rw not_ refl)
]

trim_right_parts : (s : Bytes) → (r : Bytes) × (s ≡ trim_right is_space s ++ r)
unfolding trim_right
trim_right_parts [] = ([], refl)
trim_right_parts (c ∷ s) = onto (trim_right is_space s) (trim_right_parts s)
  where
    onto :
        (t : Bytes)
        → ((r : Bytes) × (s ≡ t ++ r))
        → (r : Bytes) × (c ∷ s
            ≡ (elim t as (λ _. Bytes) [
              | [] ↦ (if is_space c then [] else c ∷ [])
              | d ∷ ds ↦ c ∷ d ∷ ds
            ])
              ++ r)
    onto [] (r, e) = elim (Bool-cases (is_space c)) [
      | inl is_ ↦ (c ∷ r, rw is_ (ap (λ t. c ∷ t) e))
      | inr not_ ↦ (r, rw not_ (ap (λ t. c ∷ t) e))
    ]
    onto (d ∷ ds) (r, e) = (r, ap (λ t. c ∷ t) e)

until_blank_parts : (s : Bytes) → (r : Bytes) × (s ≡ until_blank s ++ r)
unfolding until_blank
until_blank_parts [] = ([], refl)
until_blank_parts (c ∷ s) = elim (Bool-cases (is_blank c)) [
  | inl is_ ↦ (c ∷ s, rw is_ refl)
  | inr not_ ↦ (let (r, e) = until_blank_parts s in (r, rw not_ (ap (λ t. c ∷ t) e)))
]

-- a text with its first word behind nothing but spaces
first_word_parts :
    (s : Bytes)
    → (b : Bytes) × (r : Bytes) × All (λ c. is_space c ≡ true) b × (s ≡ b ++ (first_word s ++ r))
unfolding first_word trim_space
first_word_parts s =
    let t = trim_right is_space s in
    let (behind, e) = trim_right_parts s in
    let (b, all, e') = trim_left_parts t in
    let (r, e'') = until_blank_parts (trim_left is_space t) in
    let w = until_blank (trim_left is_space t) in
    (
      b,
      r ++ behind,
      all,
      e
          ∙ ap (λ x. x ++ behind) (e' ∙ ap (λ x. b ++ x) e'')
          ∙ append_assoc b (w ++ r) behind
          ∙ ap (λ x. b ++ x) (append_assoc w r behind),
    )

-- a capital, and what becomes one
abbrev pub Capital : ℕ → Type 0
Capital d = within b'A' b'Z' d ≡ true

letter_Plain : (c : ℕ) → Capital (upper_byte c) → Plain c
unfolding upper_byte
letter_Plain c h = (ground arith, ground arith, ground arith, ground arith)

letter_mark : (c : ℕ) → Capital (upper_byte c) → is_space c ≡ false
unfolding upper_byte is_space
letter_mark c h = ground arith

space_Plain : (c : ℕ) → is_space c ≡ true → Plain c
unfolding is_space
space_Plain c h = (ground arith, ground arith, ground arith, ground arith)

-- the bytes of a word that is in capitals a text of capitals
letters : (w k : Bytes) → All Capital k → map upper_byte w ≡ k → All (λ c. Capital (upper_byte c)) w
letters [] k h e = tt
letters (c ∷ w) [] h e = cc
letters (c ∷ w) (d ∷ k) h e =
    let head : upper_byte c ≡ d = cc in
    let tail : map upper_byte w ≡ k = cc in (subst Capital (sym head) h.0, letters w k h.1 tail)

All-Plain : {P : ℕ → Type 0} → ((c : ℕ) → P c → Plain c) → (s : Bytes) → All P s → All Plain s
All-Plain f [] h = tt
All-Plain f (c ∷ s) h = (f c h.0, All-Plain f s h.1)

marks-letters : (w : Bytes) → All (λ c. Capital (upper_byte c)) w → marks w ≡ length w
unfolding marks
marks-letters [] h = refl
marks-letters (c ∷ w) h = rw (letter_mark c h.0) (ap suc (marks-letters w h.1))

stripped_long :
    (s k : Bytes)
    → All Capital k
    → map upper_byte (first_word s) ≡ k
    → length k ≤ length (trim_space (rounds strip_round [] s))
stripped_long s k h e =
    let (b, r, blank, parts) = first_word_parts s in
    let w = first_word s in
    let word = letters w k h e in
    let left = rounds strip_round [] s in
    let rest = rounds strip_round [] r in
    let stays : left ≡ b ++ (w ++ rest) =
      ap (rounds strip_round []) parts
      ∙ strip-append b (w ++ r) (All-Plain space_Plain b blank)
      ∙ ap (λ t. b ++ t) (strip-append w r (All-Plain letter_Plain w word)) in
    omega (
      arith,
      marks-trim_space left,
      ap marks stays,
      marks-append b (w ++ rest),
      marks-append w rest,
      marks-letters w word,
      ap length e,
      length-map upper_byte w,
    )

-- What is left of a text without its comments is as long at least as the keyword that its first word
-- is.
pub strip_comments-first_word :
    (s k : Bytes) → All Capital k → upper (first_word s) ≡ k → length k ≤ length (strip_comments s)
unfolding strip_comments upper
strip_comments-first_word s k h e = stripped_long s k h e
