-- ===== src/Control/Cases.antt =====
-- internal/extensions/procedures/control/exec.go: the cases of `execStmt` that run no other statement.
use haystak_tds_spi.Base.{
  inr, Bool, true, false, Option, none, some, List, [], ◌∷◌, ◌++◌, ltb, ◌==◌, if◌then◌else◌,
  get_elem?, drop, Bytes, codes,
}
use haystak_tds_spi.Base.Int.{ℤ, pos, negsuc}
use haystak_tds_spi.Base.Dict.{insert, bytes_eq}
use haystak_tds_spi.Go.Strings.{trim_space, has_prefix}
use haystak_tds_spi.Control.Text.{split_top_commas}
use haystak_tds_spi.Control.Syntax.{DeclVar}
use haystak_tds_spi.Control.Cell.{null_literal_for_type}
use haystak_tds_spi.Control.State.{
  Env, Run, ctrl, plain, ErrorInfo, Rows, set_types, set_results, bind_var, ◌>>=◌, ◌>>◌, give, fail,
  or_stay,
}
use haystak_tds_spi.Control.Eval.{
  subst_vars, declared_expr, type_of, exec_sql, eval_scalar, eval_lit, eval_int_arg, eval_str_arg,
  try_select_assign,
}

module _ {Other World : Type 0} where
  unfoldable pub append_rows : Option (Rows Other) → Run Other World (Unit {0})
  append_rows none st = (inr tt, st)
  append_rows (some rows) st = (inr tt, set_results (st.results ++ rows ∷ []) st)

  -- an argument, with the value that stands where it is left out
  unfoldable pub arg_or :
      {A : Type 0} → A → (Bytes → Run Other World A) → Option Bytes → Run Other World A
  arg_or a eval none = give a
  arg_or a eval (some expr) = eval expr

module _ {Other World : Type 0} (env : Env Other World) (cur : Option ErrorInfo) where
  unfoldable pub unless_handled : Bytes → Bool → Run Other World (Unit {0})
  unfolding exec_sql subst_vars append_rows
  unless_handled sql true st = (inr tt, st)
  unless_handled sql false st = (exec_sql env cur (subst_vars sql st.vars) >>= append_rows) st

  -- the case of Raw
  unfoldable pub raw_case : Bytes → Run Other World (Unit {0})
  unfolding unless_handled try_select_assign
  raw_case sql = do handled ← try_select_assign env cur sql; unless_handled sql handled

  -- the value of a variable in DECLARE, its initial value or a typed NULL
  unfoldable pub declared_value : Bytes → Bytes → Run Other World Bytes
  unfolding eval_lit declared_expr null_literal_for_type
  declared_value typ [] = give (null_literal_for_type typ)
  declared_value typ (c ∷ init) = eval_lit env cur (declared_expr (c ∷ init) typ)

  -- the case of Declare
  unfoldable pub declare_case : List DeclVar → Run Other World (Unit {0})
  unfolding declared_value insert
  declare_case [] st = (inr tt, st)
  declare_case (v ∷ vs) st =
      (do lit ← declared_value v.typ v.init; λ st'. declare_case vs (bind_var v.name lit st'))
        (set_types (insert v.name v.typ st.types) st)

  -- the case of Set
  unfoldable pub set_case : Bytes → Bytes → Run Other World (Unit {0})
  unfolding eval_lit declared_expr type_of insert
  set_case name expr st =
      (do
        lit ← eval_lit env cur (declared_expr expr (type_of name st.types))
        λ st'. (inr tt, bind_var name lit st'))
        st

  unfoldable pub rethrow : Option ErrorInfo → Run Other World (Unit {0})
  rethrow none =
      fail (plain (codes "control: THROW with no arguments is only valid in a CATCH block"))
  rethrow (some info) = fail (ctrl info)

  unfoldable pub thrown : List Bytes → Run Other World (Unit {0})
  unfolding eval_int_arg eval_str_arg arg_or
  thrown parts = do
    number ← arg_or (pos 50000) (eval_int_arg env cur) (get_elem? parts 0)
    message ← arg_or [] (eval_str_arg env cur) (get_elem? parts 1)
    s ← or_stay (pos 1) (arg_or (pos 1) (eval_int_arg env cur) (get_elem? parts 2))
    fail (ctrl (record { number = number; message = message; severity = pos 16; state = s }))

  unfoldable pub throw_args : Bytes → Run Other World (Unit {0})
  unfolding rethrow thrown split_top_commas
  throw_args [] = rethrow cur
  throw_args (c ∷ args) = thrown (split_top_commas (c ∷ args))

  -- the case of Throw
  unfoldable pub throw_case : Bytes → Run Other World (Unit {0})
  unfolding throw_args trim_space
  throw_case args = throw_args (trim_space args)

  unfoldable pub below_11 : ℤ → Bool
  below_11 (pos n) = ltb n 11
  below_11 (negsuc n) = true

  -- severities below 11 are informational
  unfoldable pub raise_at : ℤ → ErrorInfo → Run Other World (Unit {0})
  unfolding below_11
  raise_at severity info = if below_11 severity then give tt else fail (ctrl info)

  unfoldable pub raised : List Bytes → Run Other World (Unit {0})
  unfolding eval_int_arg eval_str_arg arg_or raise_at
  raised parts = do
    message ← arg_or [] (eval_str_arg env cur) (get_elem? parts 0)
    severity ← or_stay (pos 16) (arg_or (pos 16) (eval_int_arg env cur) (get_elem? parts 1))
    s ← or_stay (pos 1) (arg_or (pos 1) (eval_int_arg env cur) (get_elem? parts 2))
    raise_at severity
        (record { number = pos 50000; message = message; severity = severity; state = s })

  -- strings.TrimPrefix(s, "(") and strings.TrimSuffix(s, ")")
  unfoldable pub unparenthesised : Bytes → Bytes
  unfolding has_prefix
  unparenthesised s = let t = (if has_prefix s (codes "(") then drop 1 s else s) in without_last t
    where
      without_last : Bytes → Bytes
      without_last [] = []
      without_last (c ∷ []) = if c == b')' then [] else c ∷ []
      without_last (c ∷ d ∷ s) = c ∷ without_last (d ∷ s)

  -- the case of Raiserror
  unfoldable pub raiserror_case : Bytes → Run Other World (Unit {0})
  unfolding raised split_top_commas unparenthesised trim_space
  raiserror_case args = raised (split_top_commas (trim_space (unparenthesised (trim_space args))))

  -- the case of Print, whose value goes
  unfoldable pub print_case : Bytes → Run Other World (Unit {0})
  unfolding eval_scalar
  print_case expr = eval_scalar env cur expr >> give tt
