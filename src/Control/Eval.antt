-- ===== src/Control/Eval.antt =====
-- internal/extensions/procedures/control/exec.go: `subst`, `declaredExpr` and the evaluation of
-- expressions by the runner; assign.go: `trySelectAssign` and `splitSelectFrom`.
use haystak_tds_spi.Base.{
  ℕ, ◌⊎◌, inl, inr, Bool, true, false, not, ◌&&◌, Option, none, some, List, [], ◌∷◌, ◌++◌, ◌==◌,
  if◌then◌else◌, take, drop, Bytes, codes,
}
use haystak_tds_spi.Base.Int.{ℤ, pos, negsuc}
use haystak_tds_spi.Base.Dict.{Dict, lookup, bytes_eq}
use haystak_tds_spi.Go.Strings.{trim_space, has_prefix, equal_fold, lower_byte}
use haystak_tds_spi.Go.Utf.{runes}
use haystak_tds_spi.Batch.Scan.{skip_literal, is_blank}
use haystak_tds_spi.Batch.Substitute.{substitute_in}
use haystak_tds_spi.Batch.Passes.{skip_literal-Passes}
use haystak_tds_spi.Batch.Declared.{declared_text_type}
use haystak_tds_spi.Control.Text.{deeper, split_top_commas, top_eq}
use haystak_tds_spi.Control.Parse.{without_at, lower}
use haystak_tds_spi.Control.Cell.{Cell, lit_of, to_int, sprint, null}
use haystak_tds_spi.Control.State.{
  Env, State, Run, Outcome, Error, ErrorInfo, Rows, set_world, bind_var, give, ◌>>=◌, ◌>>◌,
}

-- `subst`
unfoldable pub subst_vars : Bytes → Dict Bytes Bytes → Bytes
unfolding substitute_in skip_literal
subst_vars s vars = substitute_in skip_literal skip_literal-Passes vars s

cast_expr : Bytes → Option Bytes → Bytes
cast_expr expr none = expr
cast_expr expr (some cast) = codes "CAST((" ++ (expr ++ (codes ") AS " ++ (cast ++ codes ")")))

-- `declaredExpr`
unfoldable pub declared_expr : Bytes → Bytes → Bytes
unfolding cast_expr declared_text_type
declared_expr expr typ = cast_expr expr (declared_text_type typ)

-- types[name], empty where there is none
unfoldable pub type_of : Bytes → Dict Bytes Bytes → Bytes
unfolding lookup
type_of name types = elim (lookup name types) [ none ↦ [] | some t ↦ t ]

-- the loop of `splitSelectFrom`, with the text in front and whether it ends in a space
is_from : Bytes → Bool
unfolding equal_fold runes is_blank
is_from s = equal_fold (runes (take 4 s)) (codes "from") && all_blank (take 1 (drop 4 s))
  where
    all_blank : Bytes → Bool
    all_blank [] = true
    all_blank (c ∷ s) = is_blank c && all_blank s

split_from_at : Bool → ℕ → Bool → Bytes → Bytes → Bytes × Bytes
unfolding is_blank is_from
split_from_at in_string depth spaced front [] = (front, [])
split_from_at true depth spaced front (c ∷ s) =
    split_from_at (not (c == b'\'')) depth false (front ++ c ∷ []) s
split_from_at false depth spaced front (c ∷ s) =
    let rest = split_from_at (c == b'\'') (deeper c depth) (is_blank c) (front ++ c ∷ []) s in
    if depth == 0 && (spaced && is_from (c ∷ s)) then (front, c ∷ s) else rest

-- `splitSelectFrom`: the select list, and the tail from FROM on
unfoldable pub split_select_from : Bytes → Bytes × Bytes
unfolding split_from_at trim_space
split_select_from s =
    let (list, tail) = split_from_at false 0 false [] s in (trim_space list, trim_space tail)

-- one item of the list: the name and the expression
assignment : Bytes → Option (Bytes × Bytes) → Option (Bytes × Bytes)
unfolding has_prefix lower_byte trim_space
assignment item none = none
assignment item (some (l, r)) =
    if has_prefix item (codes "@")
    then some (lower (without_at (trim_space l)), trim_space r)
    else none

-- the assignments, none where an item is not one
unfoldable pub assignments : List Bytes → Option (List (Bytes × Bytes))
unfolding assignment top_eq trim_space
assignments [] = some []
assignments (item ∷ items) = elim (assignment (trim_space item) (top_eq (trim_space item))) [
  | none ↦ none
  | some a ↦ elim (assignments items) [ none ↦ none | some more ↦ some (a ∷ more) ]
]

unfoldable pub exprs_of : Dict Bytes Bytes → List (Bytes × Bytes) → Bytes
unfolding declared_expr type_of
exprs_of types [] = []
exprs_of types ((name, expr) ∷ []) = declared_expr expr (type_of name types)
exprs_of types ((name, expr) ∷ a ∷ more) =
    declared_expr expr (type_of name types) ++ (codes ", " ++ exprs_of types (a ∷ more))

unfoldable pub with_tail : Bytes → Bytes
with_tail [] = []
with_tail (c ∷ tail) = b' ' ∷ c ∷ tail

is_select : Bytes → Bool
unfolding equal_fold runes
is_select s = equal_fold (runes (take 7 s)) (codes "select ")

-- the assignments and the tail of an assigning SELECT
unfoldable pub select_assigns : Bytes → Option (List (Bytes × Bytes) × Bytes)
unfolding is_select split_select_from assignments split_top_commas trim_space
select_assigns s =
    if not (is_select s)
    then none
    else let (list, tail) = split_select_from (trim_space (drop 7 s)) in
      elim (assignments (split_top_commas list)) [
        | none ↦ none
        | some [] ↦ none
        | some (a ∷ more) ↦ some (a ∷ more, tail)
      ]

module _ {Other World : Type 0} (env : Env Other World) (cur : Option ErrorInfo) where
  ran :
      State Other World
      → (Error ⊎ Option (Rows Other)) × World
      → Outcome Other World (Option (Rows Other))
  ran st (r, w) = (r, set_world w st)

  -- `run.Exec`
  unfoldable pub exec_sql : Bytes → Run Other World (Option (Rows Other))
  unfolding ran
  exec_sql sql st = ran st (env.exec cur sql st.world)

  -- the first value of the first row, null where there is none
  unfoldable pub first_cell : Option (Rows Other) → Run Other World (Cell Other)
  first_cell (some (inl e ∷ rows)) st = (inl e, st)
  first_cell (some (inr (v ∷ vs) ∷ rows)) st = (inr v, st)
  first_cell _ st = (inr null, st)

  -- the value that a query of one value gives
  unfoldable pub query_cell : Bytes → Run Other World (Cell Other)
  unfolding exec_sql first_cell
  query_cell sql = exec_sql sql >>= first_cell

  -- `evalScalar`
  unfoldable pub eval_scalar : Bytes → Run Other World (Cell Other)
  unfolding query_cell subst_vars
  eval_scalar expr st = query_cell (codes "SELECT (" ++ (subst_vars expr st.vars ++ codes ")")) st

  is_one : ℤ → Bool
  is_one (pos n) = n == 1
  is_one (negsuc n) = false

  unfoldable pub truth : Cell Other → Bool
  unfolding to_int is_one
  truth v = is_one (to_int env.formats v)

  -- `evalBool`; `toInt` of null is 0
  unfoldable pub eval_bool : Bytes → Run Other World Bool
  unfolding query_cell subst_vars truth
  eval_bool cond st =
      (do
        v ←
            query_cell (
              codes "SELECT CASE WHEN ("
              ++ (subst_vars cond st.vars ++ codes ") THEN 1 ELSE 0 END"))
        give (truth v))
        st

  -- `evalLit`
  unfoldable pub eval_lit : Bytes → Run Other World Bytes
  unfolding eval_scalar lit_of
  eval_lit expr = do v ← eval_scalar expr; give (lit_of env.formats v)

  -- `evalIntArg`
  unfoldable pub eval_int_arg : Bytes → Run Other World ℤ
  unfolding eval_scalar to_int
  eval_int_arg expr = do v ← eval_scalar expr; give (to_int env.formats v)

  unfoldable pub str_arg : Cell Other → Bytes
  unfolding sprint
  str_arg null = []
  str_arg v = sprint env.formats v

  -- `evalStrArg`
  unfoldable pub eval_str_arg : Bytes → Run Other World Bytes
  unfolding eval_scalar str_arg
  eval_str_arg expr = do v ← eval_scalar expr; give (str_arg v)

  -- the last row, empty where there is none, or the first error
  unfoldable pub last_row : List (Cell Other) → Rows Other → Run Other World (List (Cell Other))
  last_row row [] st = (inr row, st)
  last_row row (inl e ∷ rows) st = (inl e, st)
  last_row row (inr next ∷ rows) st = last_row next rows st

  unfoldable pub assign_all : List (Bytes × Bytes) → List (Cell Other) → Run Other World (Unit {0})
  unfolding lit_of
  assign_all ((name, expr) ∷ items) (v ∷ vs) st =
      assign_all items vs (bind_var name (lit_of env.formats v) st)
  assign_all _ _ st = (inr tt, st)

  unfoldable pub assign_rows :
      List (Bytes × Bytes) → Option (Rows Other) → Run Other World (Unit {0})
  unfolding last_row assign_all
  assign_rows items none = give tt
  assign_rows items (some rows) = do row ← last_row [] rows; assign_all items row

  unfoldable pub assign_run : List (Bytes × Bytes) → Bytes → Run Other World (Unit {0})
  unfolding exec_sql subst_vars exprs_of with_tail assign_rows
  assign_run items tail st =
      (do
        rows ←
            exec_sql
              (subst_vars (codes "SELECT " ++ (exprs_of st.types items ++ with_tail tail)) st.vars)
        assign_rows items rows)
        st

  unfoldable pub assign_found : Option (List (Bytes × Bytes) × Bytes) → Run Other World Bool
  unfolding assign_run
  assign_found none = give false
  assign_found (some (items, tail)) = assign_run items tail >> give true

  -- `trySelectAssign`: whether the statement was an assignment
  unfoldable pub try_select_assign : Bytes → Run Other World Bool
  unfolding select_assigns assign_found trim_space
  try_select_assign sql = assign_found (select_assigns (trim_space sql))
