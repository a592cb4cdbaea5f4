-- ===== src/Control/Exec/Results.antt =====
-- internal/extensions/procedures/control/exec.go: the results of each case.
use haystak_tds_spi.Base.{
  ◌≡◌, refl, subst, inl, inr, Bool, true, false, Option, none, some, List, [], ◌∷◌, ◌++◌, Bytes,
  codes,
}
use haystak_tds_spi.Control.Cell.{Cell}
use haystak_tds_spi.Control.Cases.{
  raw_case, declare_case, set_case, print_case, throw_case, raiserror_case, append_rows,
  unless_handled, declared_value,
}
use haystak_tds_spi.Control.Exec.{
  exec_stmt, exec_block, behind_try, next_stmt, max_while_iterations, set_results, declare,
  set_flow, flow_none, error_info_of,
}
use haystak_tds_spi.Control.Exec.Quiet.{
  exec_sql-Quiet, last_row-Quiet, eval_bool-Quiet, eval_lit-Quiet,
}
use haystak_tds_spi.Control.State.{Env, State, Run, ErrorInfo, Error, Rows, ◌>>=◌, give}
use haystak_tds_spi.Go.Strings.{trim_space}
use haystak_tds_spi.Base.Dict.{insert, bytes_eq}
use haystak_tds_spi.Control.Syntax.{
  DeclVar, Stmt, Stmts, block, raw, declare, set, print, returns, breaks, continues, if_then,
  if_else, while, try, throw, raiserror, waitfor, done, and_then,
}
use haystak_tds_spi.Control.Eval.{
  subst_vars, declared_expr, type_of, exec_sql, eval_bool, eval_lit, try_select_assign, assign_all,
  assign_rows, assign_run, assign_found, exprs_of, with_tail, select_assigns, last_row,
}
use haystak_tds_spi.Control.State.{
  flow_none, set_flow, set_results, set_types, bind_var, error_info_of,
}
use haystak_tds_spi.Control.Cases.{append_rows, unless_handled, declared_value}
use haystak_tds_spi.Control.Cell.{lit_of}
use haystak_tds_spi.Control.Exec.Grows.{
  Begins, Grows, Begins-refl, Quiet-Grows, bind-Grows, next_stmt-Begins, while_loop-Grows,
  behind_try-Begins,
}
use haystak_tds_spi.Control.Exec.Raises.{
  throw_case-Quiet, raiserror_case-Quiet, print_case-Quiet, exec_waitfor-Quiet,
}
use haystak_tds_spi.Control.Waitfor.{exec_waitfor}
use haystak_tds_spi.Control.State.{ctrl}
use haystak_tds_spi.Control.Cases.{throw_args, rethrow}
use haystak_tds_spi.Control.Exec.Grows.{behind_try-cut}

module _ {Other World : Type 0} (env : Env Other World) (cur : Option ErrorInfo) where
  assign_all-Grows :
      (items : List (Bytes × Bytes)) (vs : List (Cell Other)) → Grows (assign_all env cur items vs)
  unfolding assign_all
  assign_all-Grows [] vs st = Begins-refl st
  assign_all-Grows (a ∷ items) [] st = Begins-refl st
  assign_all-Grows ((name, expr) ∷ items) (v ∷ vs) st =
      assign_all-Grows items vs (bind_var name (lit_of env.formats v) st)

  assign_rows-Grows :
      (items : List (Bytes × Bytes)) (rows : Option (Rows Other))
      → Grows (assign_rows env cur items rows)
  unfolding assign_rows
  assign_rows-Grows items none st = Begins-refl st
  assign_rows-Grows items (some rows) st =
      bind-Grows (last_row env cur [] rows) (assign_all env cur items)
        (Quiet-Grows (last_row env cur [] rows) (last_row-Quiet env cur [] rows))
        (assign_all-Grows items) st

  sql-Grows : (sql : Bytes) → Grows (exec_sql env cur sql)
  sql-Grows sql = Quiet-Grows (exec_sql env cur sql) (exec_sql-Quiet env cur sql)

  assign_run-Grows :
      (items : List (Bytes × Bytes)) (tail : Bytes) → Grows (assign_run env cur items tail)
  unfolding assign_run
  assign_run-Grows items tail st =
      let sql =
        subst_vars (codes "SELECT " ++ (exprs_of st.types items ++ with_tail tail)) st.vars in
      bind-Grows (exec_sql env cur sql) (assign_rows env cur items) (sql-Grows sql)
        (assign_rows-Grows items) st

  give-Grows : {A : Type 0} (a : A) → Grows {Other = Other} {World = World} (give a)
  give-Grows a st = Begins-refl st

  assign_found-Grows :
      (found : Option (List (Bytes × Bytes) × Bytes)) → Grows (assign_found env cur found)
  unfolding assign_found
  assign_found-Grows none st = Begins-refl st
  assign_found-Grows (some (items, tail)) st =
      bind-Grows (assign_run env cur items tail) (λ u. give true) (assign_run-Grows items tail)
        (λ u. give-Grows true) st

  try_select_assign-Grows : (sql : Bytes) → Grows (try_select_assign env cur sql)
  unfolding try_select_assign
  try_select_assign-Grows sql = assign_found-Grows (select_assigns (trim_space sql))

  append_rows-Grows : (rows : Option (Rows Other)) → Grows {World = World} (append_rows rows)
  unfolding append_rows
  append_rows-Grows none st = Begins-refl st
  append_rows-Grows (some rows) st = (rows ∷ [], refl)

  unless_handled-Grows : (sql : Bytes) (b : Bool) → Grows (unless_handled env cur sql b)
  unfolding unless_handled
  unless_handled-Grows sql true st = Begins-refl st
  unless_handled-Grows sql false st =
      bind-Grows (exec_sql env cur (subst_vars sql st.vars)) append_rows
        (sql-Grows (subst_vars sql st.vars)) append_rows-Grows st

  raw_case-Grows : (sql : Bytes) → Grows (raw_case env cur sql)
  unfolding raw_case
  raw_case-Grows sql =
      bind-Grows (try_select_assign env cur sql) (unless_handled env cur sql)
        (try_select_assign-Grows sql) (unless_handled-Grows sql)

  lit-Grows : (expr : Bytes) → Grows (eval_lit env cur expr)
  lit-Grows expr = Quiet-Grows (eval_lit env cur expr) (eval_lit-Quiet env cur expr)

  declared_value-Grows : (typ init : Bytes) → Grows (declared_value env cur typ init)
  unfolding declared_value
  declared_value-Grows typ [] st = Begins-refl st
  declared_value-Grows typ (c ∷ init) st = lit-Grows (declared_expr (c ∷ init) typ) st

  declare_case-Grows : (vs : List DeclVar) → Grows (declare_case env cur vs)
  unfolding declare_case
  declare_case-Grows [] st = Begins-refl st
  declare_case-Grows (v ∷ vs) st =
      bind-Grows (declared_value env cur v.typ v.init)
        (λ lit st'. declare_case env cur vs (bind_var v.name lit st'))
        (declared_value-Grows v.typ v.init)
        (λ lit st'. declare_case-Grows vs (bind_var v.name lit st'))
        (set_types (insert v.name v.typ st.types) st)

  set_case-Grows : (name expr : Bytes) → Grows (set_case env cur name expr)
  unfolding set_case
  set_case-Grows name expr st =
      bind-Grows (eval_lit env cur (declared_expr expr (type_of name st.types)))
        (λ lit st'. (inr tt, bind_var name lit st'))
        (lit-Grows (declared_expr expr (type_of name st.types))) (λ lit st'. Begins-refl st') st

module _ {Other World : Type 0} (env : Env Other World) where
  if_then-Grows :
      (cond : Bytes) (cur : Option ErrorInfo) (m k : Run Other World (Unit {0}))
      → Grows m
      → Grows k
      → Grows (eval_bool env cur cond >>= λ b. elim b [ true ↦ m | false ↦ k ])
  if_then-Grows cond cur m k g h =
      bind-Grows (eval_bool env cur cond) (λ b. elim b [ true ↦ m | false ↦ k ])
        (Quiet-Grows (eval_bool env cur cond) (eval_bool-Quiet env cur cond)) chosen
    where
      chosen : (b : Bool) → Grows {Other = Other} {World = World} (elim b [ true ↦ m | false ↦ k ])
      chosen true = g
      chosen false = h

  mutual
    unfolding exec_stmt exec_block

    adds_stmt : (s : Stmt) (cur : Option ErrorInfo) → Grows (exec_stmt env s cur)
    adds_stmt (block ss) cur st = adds_block ss cur st
    adds_stmt (raw sql) cur st = raw_case-Grows env cur sql st
    adds_stmt (declare vs) cur st = declare_case-Grows env cur vs st
    adds_stmt (set name expr) cur st = set_case-Grows env cur name expr st
    adds_stmt (print expr) cur st =
        Quiet-Grows (print_case env cur expr) (print_case-Quiet env cur expr) st
    adds_stmt returns cur st = Begins-refl st
    adds_stmt breaks cur st = Begins-refl st
    adds_stmt continues cur st = Begins-refl st
    adds_stmt (if_then cond s) cur st =
        if_then-Grows cond cur (exec_stmt env s cur) (give tt) (adds_stmt s cur) Begins-refl st
    adds_stmt (if_else cond s t) cur st =
        if_then-Grows cond cur (exec_stmt env s cur) (exec_stmt env t cur) (adds_stmt s cur)
          (adds_stmt t cur) st
    adds_stmt (while cond s) cur st =
        while_loop-Grows (eval_bool env cur cond) (exec_stmt env s cur) max_while_iterations
          (Quiet-Grows (eval_bool env cur cond) (eval_bool-Quiet env cur cond)) (adds_stmt s cur) st
    adds_stmt (try body handler) cur st =
        behind_try-Begins st.results (exec_block env handler) (exec_block env body cur st)
          (adds_block handler) (adds_block body cur st)
    adds_stmt (throw args) cur st =
        Quiet-Grows (throw_case env cur args) (throw_case-Quiet env cur args) st
    adds_stmt (raiserror args) cur st =
        Quiet-Grows (raiserror_case env cur args) (raiserror_case-Quiet env cur args) st
    adds_stmt (waitfor delay text) cur st =
        Quiet-Grows (exec_waitfor env delay text) (exec_waitfor-Quiet env delay text) st

    adds_block : (ss : Stmts) (cur : Option ErrorInfo) → Grows (exec_block env ss cur)
    adds_block done cur st = Begins-refl st
    adds_block (and_then s ss) cur st =
        next_stmt-Begins st.results (exec_block env ss cur) (exec_stmt env s cur st)
          (adds_block ss cur) (adds_stmt s cur st)

  -- Whatever a statement does, also where it fails, the results before it stay in front.
  pub exec_stmt-Grows :
      (s : Stmt) (cur : Option ErrorInfo) (st : State Other World)
      → Begins st.results (exec_stmt env s cur st).1
  exec_stmt-Grows s cur st = adds_stmt s cur st

  -- where a TRY goes on: its handler under the error, from the results before the TRY, with no flow
  abbrev pub handed : List (Rows Other) → State Other World → State Other World
  handed rs st = set_results rs (set_flow flow_none st)

  -- A TRY whose body fails with an error `e` is its handler, run under the error's information from
  -- the state that the body has left, with the results that stood before the TRY and no flow.
  pub exec_stmt-try :
      (body handler : Stmts) (cur : Option ErrorInfo) (st st' : State Other World) (e : Error)
      → exec_block env body cur st ≡ (inl e, st')
      → exec_stmt env (try body handler) cur st
        ≡ exec_block env handler (some (error_info_of e)) (handed st.results st')
  unfolding exec_stmt behind_try
  exec_stmt-try body handler cur st st' e h =
      rw
        (
          h,
          behind_try-cut st.results st'
              (subst (λ o. Begins st.results o.1) h (adds_block body cur st)),
        )
        refl

  -- A bare THROW that begins the handler raises the error again that the body of the TRY failed with.
  pub exec_stmt-rethrow :
      (body rest : Stmts) (cur : Option ErrorInfo) (st st' : State Other World) (e : Error)
      → exec_block env body cur st ≡ (inl e, st')
      → exec_stmt env (try body (and_then (throw []) rest)) cur st
        ≡ (inl (ctrl (error_info_of e)), handed st.results st')
  unfolding exec_stmt exec_block next_stmt throw_case throw_args rethrow trim_space
  exec_stmt-rethrow body rest cur st st' e h =
      exec_stmt-try body (and_then (throw []) rest) cur st st' e h
