-- ===== src/Procedures/Params.antt =====
-- internal/extensions/procedures/proc.go: the arguments of a procedure, written into its body. The
-- names of parameters are ASCII, where EqualFold of texts of one length is equality of the lower-cased
-- bytes.
pub mod Replace
use haystak_tds_spi.Base.{
  ℕ, zero, suc, ◌+◌, Bool, true, false, not, ◌&&◌, Option, none, some, List, [], ◌∷◌, ◌++◌, map,
  length, get_elem?, take, drop, Bytes, codes,
}
use haystak_tds_spi.Base.Dict.{Dict, lookup, insert, bytes_eq, bytes_beq}
use haystak_tds_spi.Go.Strings.{lower_byte}
use haystak_tds_spi.Batch.Scan.{is_name_part}
use haystak_tds_spi.Control.Cell.{Cell, Formats}
use haystak_tds_spi.Procedures.Names.{lit_sql}

-- `tds.RoutineKind`
pub data RoutineKind : Type 0 where
  routine_view routine_proc routine_func routine_trigger : RoutineKind

-- `tds.RoutineParam`
pub record RoutineParam : Type 0 where
  pub name : Bytes
  pub typ : Bytes

-- `tds.Routine`
pub record Routine : Type 0 where
  pub database : Bytes
  pub schema : Bytes
  pub name : Bytes
  pub kind : RoutineKind
  pub body : Bytes
  pub params : List RoutineParam

-- `routines.Arg`, its name empty where it has none
pub record Arg (Other : Type 0) : Type 0 where
  pub name : Bytes
  pub val : Cell Other

abbrev pub lower_all : Bytes → Bytes
lower_all s = map lower_byte s

-- whether the byte behind a name ends it
unfoldable pub ends_name : Bytes → Bool
unfolding is_name_part
ends_name [] = true
ends_name (c ∷ s) = not (is_name_part c)

-- whether the name stands at the front of the text, as a whole word
unfoldable pub name_at : Bytes → Bytes → Bool
unfolding ends_name lower_byte
name_at name s =
    bytes_beq (lower_all (take (length name) s)) (lower_all name)
    && ends_name (drop (length name) s)

-- the loop of `replaceParam`, which takes a byte at least in a round
unfoldable pub replace_round : Bytes → Bytes → ℕ → Bytes → Bytes
unfolding name_at
replace_round name val zero s = []
replace_round name val (suc fuel) [] = []
replace_round name val (suc fuel) (c ∷ s) = elim (name_at name (c ∷ s)) [
  | true ↦ val ++ replace_round name val fuel (drop (length name) (c ∷ s))
  | false ↦ c ∷ replace_round name val fuel s
]

-- `replaceParam`
unfoldable pub replace_param : Bytes → Bytes → Bytes → Bytes
unfolding replace_round
replace_param body name val = replace_round name val (length body) body

module _ {Other : Type 0} (f : Formats Other) where
  -- vals[strings.ToLower(name)] of the positional parameter, if there is one
  set_positional : List RoutineParam → ℕ → Bytes → Dict Bytes Bytes → Dict Bytes Bytes
  unfolding insert lower_byte
  set_positional params pos v vals = elim (get_elem? params pos) [
    | none ↦ vals
    | some p ↦ insert (lower_all p.name) v vals
  ]

  -- the loop over the arguments
  values_of : List RoutineParam → ℕ → List (Arg Other) → Dict Bytes Bytes → Dict Bytes Bytes
  unfolding insert lit_sql lower_byte set_positional
  values_of params pos [] vals = vals
  values_of params pos (a ∷ args) vals = elim a.name [
    | [] ↦ values_of params (pos + 1) args (set_positional params pos (lit_sql f a.val) vals)
    | c ∷ name ↦ values_of params pos args (insert (lower_all (c ∷ name)) (lit_sql f a.val) vals)
  ]

  value_or_null : Option Bytes → Bytes
  value_or_null none = codes "NULL"
  value_or_null (some v) = v

  -- the loop over the parameters
  unfoldable pub replace_each : Dict Bytes Bytes → List RoutineParam → Bytes → Bytes
  unfolding replace_param lookup lower_byte value_or_null
  replace_each vals [] body = body
  replace_each vals (p ∷ ps) body =
      replace_each vals ps
        (replace_param body p.name (value_or_null (lookup (lower_all p.name) vals)))

  -- `substituteParams`
  unfoldable pub substitute_params : Routine → List (Arg Other) → Bytes
  unfolding values_of replace_each
  substitute_params r args = replace_each (values_of r.params 0 args []) r.params r.body
