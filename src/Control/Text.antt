-- ===== src/Control/Text.antt =====
-- internal/extensions/procedures/control/parse.go: `topEq`, `splitTopCommas` and
-- `firstWord`. That the index stands in a string (`skipStr`) is a flag.
use haystak_tds_spi.Base.{
  ℕ, ◌+◌, ◌-◌, ◌≡◌, refl, Bool, true, false, not, ◌&&◌, ◌||◌, Option, none, some, List, [], ◌∷◌,
  ◌++◌, ◌==◌, if◌then◌else◌, Bytes, codes,
}
use haystak_tds_spi.Go.Strings.{trim_space}

-- how a parenthesis changes the depth
abbrev pub deeper : ℕ → ℕ → ℕ
deeper c depth = if c == b'(' then depth + 1 else if c == b')' then depth - 1 else depth

-- the loop of `topEq`, with the text in front of the index; `quoted` while inside a string
unfoldable pub top_eq_from : Bool → ℕ → Bytes → Bytes → Option (Bytes × Bytes)
top_eq_from quoted depth front [] = none
top_eq_from true depth front (c ∷ s) = top_eq_from (not (c == b'\'')) depth (front ++ c ∷ []) s
top_eq_from false depth front (c ∷ s) =
    let rest = top_eq_from (c == b'\'') (deeper c depth) (front ++ c ∷ []) s in
    if c == b'=' && depth == 0 then some (front, s) else rest

-- `topEq`: the text on both sides of the first `=` outside of parentheses and strings
unfoldable pub top_eq : Bytes → Option (Bytes × Bytes)
unfolding top_eq_from
top_eq s = top_eq_from false 0 [] s

-- the loop of `splitTopCommas`, with the part that has begun
unfoldable pub split_from : Bool → ℕ → Bytes → Bytes → List Bytes
split_from quoted depth part [] = part ∷ []
split_from true depth part (c ∷ s) = split_from (not (c == b'\'')) depth (part ++ c ∷ []) s
split_from false depth part (c ∷ s) =
    let cut = c == b',' && depth == 0 in
    let rest = split_from (c == b'\'') (deeper c depth) (if cut then [] else part ++ c ∷ []) s in
    if cut then part ∷ rest else rest

-- `splitTopCommas`
unfoldable pub split_top_commas : Bytes → List Bytes
unfolding split_from
split_top_commas s = split_from false 0 [] s

word_from : Bytes → Bytes
word_from [] = []
word_from (c ∷ s) = let rest = word_from s in if c == b' ' || c == 9 then [] else c ∷ rest

-- `firstWord`
unfoldable pub first_word : Bytes → Bytes
unfolding word_from trim_space
first_word s = word_from (trim_space s)

parts : split_top_commas (codes "f(a,b),'x,y',c") ≡ codes "f(a,b)" ∷ codes "'x,y'" ∷ codes "c" ∷ []
unfolding split_top_commas
parts = refl
