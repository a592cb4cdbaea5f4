-- ===== src/Control/Exec/Quiet.antt =====
-- internal/extensions/procedures/control/exec.go: what evaluation leaves as it was.
use haystak_tds_spi.Base.{
  ◌≡◌, refl, ap, ◌∙◌, inl, inr, Option, none, some, List, [], ◌∷◌, ◌++◌, Bytes, codes,
}
use haystak_tds_spi.Control.Cell.{Cell, lit_of, to_int}
use haystak_tds_spi.Control.State.{
  Env, State, Run, Outcome, ErrorInfo, Error, Rows, set_world, go_on, ◌>>=◌, give, fail, or_stay,
  stayed,
}
use haystak_tds_spi.Control.Eval.{
  exec_sql, first_cell, query_cell, truth, str_arg, subst_vars, eval_scalar, eval_bool, eval_lit,
  eval_int_arg, eval_str_arg, last_row,
}

-- Of the state, the call changes the runner's part alone.
abbrev pub Quiet : {Other World A : Type 0} → Run Other World A → Type 0
Quiet {Other = Other} {World = World} m =
    (st : State Other World) → (w : World) × ((m st).1 ≡ set_world w st)

module _ {Other World : Type 0} where
  go_on-Quiet :
      {A B : Type 0} (f : A → Run Other World B) (o : Outcome Other World A)
      (st : State Other World) (w : World)
      → o.1 ≡ set_world w st
      → ((a : A) → Quiet (f a))
      → (w' : World) × ((go_on f o).1 ≡ set_world w' st)
  go_on-Quiet f (inl e, st') st w h q = (w, h)
  go_on-Quiet f (inr a, st') st w h q = (let (w', h') = q a st' in (w', h' ∙ ap (set_world w') h))

  pub bind-Quiet :
      {A B : Type 0} (m : Run Other World A) (f : A → Run Other World B)
      → Quiet m
      → ((a : A) → Quiet (f a))
      → Quiet (m >>= f)
  bind-Quiet m f q k st = (let (w, h) = q st in go_on-Quiet f (m st) st w h k)

  pub give-Quiet : {A : Type 0} (a : A) → Quiet {Other = Other} {World = World} (give a)
  give-Quiet a st = (st.world, refl)

  pub fail-Quiet : (A : Type 0) (e : Error) → Quiet {Other = Other} {World = World} {A = A} (fail e)
  fail-Quiet A e st = (st.world, refl)

  pub or_stay-Quiet : {A : Type 0} (a : A) (m : Run Other World A) → Quiet m → Quiet (or_stay a m)
  or_stay-Quiet {A = A} a m q st = (let (w, h) = q st in stayed_lem (m st) w h)
    where
      stayed_lem :
          (o : Outcome Other World A) (w : World)
          → o.1 ≡ set_world w st
          → (w' : World) × ((stayed a o).1 ≡ set_world w' st)
      stayed_lem (inl e, st') w h = (w, h)
      stayed_lem (inr b, st') w h = (w, h)

module _ {Other World : Type 0} (env : Env Other World) (cur : Option ErrorInfo) where
  pub exec_sql-Quiet : (sql : Bytes) → Quiet (exec_sql env cur sql)
  unfolding exec_sql
  exec_sql-Quiet sql st = ((env.exec cur sql st.world).1, refl)

  first_cell-Quiet : (rows : Option (Rows Other)) → Quiet (first_cell env cur rows)
  unfolding first_cell
  first_cell-Quiet none st = (st.world, refl)
  first_cell-Quiet (some []) st = (st.world, refl)
  first_cell-Quiet (some (inl e ∷ rows)) st = (st.world, refl)
  first_cell-Quiet (some (inr [] ∷ rows)) st = (st.world, refl)
  first_cell-Quiet (some (inr (v ∷ vs) ∷ rows)) st = (st.world, refl)

  pub last_row-Quiet :
      (row : List (Cell Other)) (rows : Rows Other) → Quiet (last_row env cur row rows)
  unfolding last_row
  last_row-Quiet row [] st = (st.world, refl)
  last_row-Quiet row (inl e ∷ rows) st = (st.world, refl)
  last_row-Quiet row (inr next ∷ rows) st = last_row-Quiet next rows st

  query_cell-Quiet : (sql : Bytes) → Quiet (query_cell env cur sql)
  unfolding query_cell
  query_cell-Quiet sql =
      bind-Quiet (exec_sql env cur sql) (first_cell env cur) (exec_sql-Quiet sql) first_cell-Quiet

  pub eval_scalar-Quiet : (expr : Bytes) → Quiet (eval_scalar env cur expr)
  unfolding eval_scalar
  eval_scalar-Quiet expr st = query_cell-Quiet _ st

  -- Evaluating a condition leaves the variables, the results and the flow as they were.
  pub eval_bool-Quiet : (cond : Bytes) → Quiet (eval_bool env cur cond)
  unfolding eval_bool
  eval_bool-Quiet cond st =
      let sql =
        codes "SELECT CASE WHEN (" ++ (subst_vars cond st.vars ++ codes ") THEN 1 ELSE 0 END") in
      bind-Quiet (query_cell env cur sql) (λ v. give (truth env cur v)) (query_cell-Quiet sql)
        (λ v. give-Quiet (truth env cur v)) st

  pub eval_lit-Quiet : (expr : Bytes) → Quiet (eval_lit env cur expr)
  unfolding eval_lit
  eval_lit-Quiet expr =
      bind-Quiet (eval_scalar env cur expr) (λ v. give (lit_of env.formats v))
        (eval_scalar-Quiet expr) λ v. give-Quiet (lit_of env.formats v)

  pub eval_int_arg-Quiet : (expr : Bytes) → Quiet (eval_int_arg env cur expr)
  unfolding eval_int_arg
  eval_int_arg-Quiet expr =
      bind-Quiet (eval_scalar env cur expr) (λ v. give (to_int env.formats v))
        (eval_scalar-Quiet expr) λ v. give-Quiet (to_int env.formats v)

  pub eval_str_arg-Quiet : (expr : Bytes) → Quiet (eval_str_arg env cur expr)
  unfolding eval_str_arg
  eval_str_arg-Quiet expr =
      bind-Quiet (eval_scalar env cur expr) (λ v. give (str_arg env cur v)) (eval_scalar-Quiet expr)
        λ v. give-Quiet (str_arg env cur v)
