-- ===== src/Fold/RowKey.antt =====
-- internal/fold/fold.go, `Value` and `RowKey`: the text under which DISTINCT, GROUP BY, PARTITION BY
-- and the set operations keep a row.
use haystak_tds_spi.Base.{
  ◌≡◌, refl, ap, Bool, List, [], ◌∷◌, ◌++◌, append_assoc, if◌then◌else◌, Bytes,
}
use haystak_tds_spi.Value.{Value, str, sprint_slice}
use haystak_tds_spi.Fold.{key, pad}
use haystak_tds_spi.Fold.Laws.{key-append, key_space}

-- `Value`
unfoldable pub fold_value : {Other : Type 0} → Value Other → Value Other
fold_value (str s) = str (key (pad s))
fold_value v = v

-- a part with its `exact` flag set: only padded
pad_value : {Other : Type 0} → Value Other → Value Other
pad_value (str s) = str (pad s)
pad_value v = v

-- the loop of `RowKey`; past the end of `exact` no flag is set
unfoldable pub fold_parts : {Other : Type 0} → List (Value Other) → List Bool → List (Value Other)
unfolding fold_value pad_value
fold_parts [] exact = []
fold_parts (v ∷ vs) [] = fold_value v ∷ fold_parts vs []
fold_parts (v ∷ vs) (e ∷ exact) = (if e then pad_value v else fold_value v) ∷ fold_parts vs exact

-- `RowKey`
unfoldable pub row_key : {Other : Type 0} → (Other → Bytes) → List (Value Other) → List Bool → Bytes
unfolding fold_parts sprint_slice
row_key show vals exact = sprint_slice show (fold_parts vals exact)

-- Two rows that SQL does not tell apart: the same length, with equal parts after folding.
abbrev pub SameRow : {Other : Type 0} → List (Value Other) → List (Value Other) → Type 0
SameRow [] [] = Unit
SameRow (v ∷ vs) (w ∷ ws) = (fold_value v ≡ fold_value w) × SameRow vs ws
SameRow _ _ = ⊥

fold_parts-SameRow :
    {Other : Type 0} (vs ws : List (Value Other))
    → SameRow vs ws
    → fold_parts vs [] ≡ fold_parts ws []
unfolding fold_parts
fold_parts-SameRow [] [] h = refl
fold_parts-SameRow [] (w ∷ ws) h = absurd h
fold_parts-SameRow (v ∷ vs) [] h = absurd h
fold_parts-SameRow (v ∷ vs) (w ∷ ws) h = λ i. h.0 i ∷ fold_parts-SameRow vs ws h.1 i

-- Rows that are equal part by part, without case and trailing spaces of strings, have one key.
pub row_key-SameRow :
    {Other : Type 0} (show : Other → Bytes) (vs ws : List (Value Other))
    → SameRow vs ws
    → row_key show vs [] ≡ row_key show ws []
unfolding row_key
row_key-SameRow show vs ws h = ap (sprint_slice show) (fold_parts-SameRow vs ws h)

-- The converse fails: a row of two strings has the key of another row whenever a space can be moved
-- between its parts, so DISTINCT and GROUP BY take the two rows for one.
pub row_key_shift :
    {Other : Type 0} (show : Other → Bytes) (a b c : Bytes)
    → pad (a ++ b' ' ∷ b) ≡ a ++ b' ' ∷ b
    → pad a ≡ a
    → pad c ≡ c
    → pad (b ++ b' ' ∷ c) ≡ b ++ b' ' ∷ c
    → row_key show (str (a ++ b' ' ∷ b) ∷ str c ∷ []) []
      ≡ row_key show (str a ∷ str (b ++ b' ' ∷ c) ∷ []) []
unfolding row_key
row_key_shift show a b c p q r s = rw (p, q, r, s) (simp (key-append, key_space, append_assoc))
