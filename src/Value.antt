-- ===== src/Value.antt =====
-- The values that a row holds: Go's `any`, as the engine uses it. `other` stands for the dynamic
-- types that the modelled code passes on: float64, time.Time and []byte.
use haystak_tds_spi.Base.{Bool, true, false, List, [], ◌∷◌, ◌++◌, Bytes, codes}
use haystak_tds_spi.Base.Int.{ℤ}
use haystak_tds_spi.Go.Fmt.{format_int}

pub data Value (Other : Type 0) : Type 0 where
  null : Value Other
  bool : Bool → Value Other
  int : ℤ → Value Other
  str : Bytes → Value Other
  other : Other → Value Other

-- fmt.Sprintf("%v", v), over the text of the other types
unfoldable pub sprint : {Other : Type 0} → (Other → Bytes) → Value Other → Bytes
unfolding format_int
sprint show null = codes "<nil>"
sprint show (bool true) = codes "true"
sprint show (bool false) = codes "false"
sprint show (int n) = format_int n
sprint show (str s) = s
sprint show (other x) = show x

unfoldable pub sprint_parts : {Other : Type 0} → (Other → Bytes) → List (Value Other) → Bytes
unfolding sprint
sprint_parts show [] = []
sprint_parts show (v ∷ []) = sprint show v
sprint_parts show (v ∷ w ∷ vs) = sprint show v ++ (b' ' ∷ sprint_parts show (w ∷ vs))

-- fmt.Sprintf("%v", parts) of a slice: its elements, with spaces between, in brackets
unfoldable pub sprint_slice : {Other : Type 0} → (Other → Bytes) → List (Value Other) → Bytes
unfolding sprint_parts
sprint_slice show vs = b'[' ∷ (sprint_parts show vs ++ b']' ∷ [])
