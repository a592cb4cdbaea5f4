-- ===== src/Control/Exec.antt =====
-- internal/extensions/procedures/control/exec.go: `execStmt`, `RunAll` and `Run`.
pub mod Quiet
pub mod Loops
pub mod While
pub mod Total
pub mod Raises
pub mod Grows
pub mod Results
use haystak_tds_spi.Base.{
  ℕ, zero, suc, inl, inr, Bool, true, false, Option, none, some, List, [], ◌∷◌, length, take, Bytes,
  codes,
}
use haystak_tds_spi.Base.Result.{Result, ok, err, panic, no_fuel}
use haystak_tds_spi.Base.Dict.{bytes_eq}
use haystak_tds_spi.Control.Syntax.{
  Stmt, Stmts, block, raw, declare, set, print, returns, breaks, continues, if_then, if_else, while,
  try, throw, raiserror, waitfor, done, and_then,
}
use haystak_tds_spi.Control.Parse.{ParseError}
use haystak_tds_spi.Control.Parser.{parse}
use haystak_tds_spi.Control.State.{
  Env, State, Run, Outcome, Error, plain, ErrorInfo, error_info_of, Rows, Flow, flow_none,
  flow_return, flow_break, flow_continue, set_flow, set_results, go_on, give,
}
use haystak_tds_spi.Control.Waitfor.{exec_waitfor}
use haystak_tds_spi.Control.Eval.{eval_bool}
use haystak_tds_spi.Control.Cases.{
  raw_case, declare_case, set_case, print_case, throw_case, raiserror_case,
}

-- `maxWhileIterations`
abbrev pub max_while_iterations : ℕ
max_while_iterations = 1000000

module _ {Other World : Type 0} where
  -- a statement runs unless one before it has set `flow`
  unfoldable pub unless_flow : Flow → Run Other World (Unit {0}) → Run Other World (Unit {0})
  unless_flow flow_none k st = k st
  unless_flow _ k st = (inr tt, st)

  -- what follows a statement of a block that gave no error
  unfoldable pub next_stmt :
      Run Other World (Unit {0}) → Outcome Other World (Unit {0}) → Outcome Other World (Unit {0})
  unfolding unless_flow
  next_stmt k (inl e, st) = (inl e, st)
  next_stmt k (inr u, st) = unless_flow st.flow k st

  -- a round of the loop of WHILE, behind its body
  unfoldable pub again : Flow → Run Other World (Unit {0}) → Run Other World (Unit {0})
  again flow_none next st = next st
  again flow_break next st = (inr tt, set_flow flow_none st)
  again flow_continue next st = next (set_flow flow_none st)
  again flow_return next st = (inr tt, st)

  unfoldable pub behind_body :
      Run Other World (Unit {0}) → Outcome Other World (Unit {0}) → Outcome Other World (Unit {0})
  unfolding again
  behind_body next (inl e, st) = (inl e, st)
  behind_body next (inr u, st) = again st.flow next st

  unfoldable pub behind_cond :
      Run Other World (Unit {0})
      → Run Other World (Unit {0})
      → Outcome Other World Bool
      → Outcome Other World (Unit {0})
  unfolding behind_body
  behind_cond body next (inl e, st) = (inl e, st)
  behind_cond body next (inr false, st) = (inr tt, st)
  behind_cond body next (inr true, st) = behind_body next (body st)

  -- the loop of WHILE with so many rounds left
  unfoldable pub while_loop :
      Run Other World Bool → Run Other World (Unit {0}) → ℕ → Run Other World (Unit {0})
  unfolding behind_cond
  while_loop cond body zero st =
      (inl (plain (codes "control: WHILE exceeded 1000000 iterations")), st)
  while_loop cond body (suc rounds) st = behind_cond body (while_loop cond body rounds) (cond st)

  -- the case of TRY behind its body: the handler runs under the error, and the results of the body go
  unfoldable pub behind_try :
      (Option ErrorInfo → Run Other World (Unit {0}))
      → ℕ
      → Outcome Other World (Unit {0})
      → Outcome Other World (Unit {0})
  unfolding error_info_of
  behind_try handler mark (inl e, st) =
      handler (some (error_info_of e)) (set_results (take mark st.results) (set_flow flow_none st))
  behind_try handler mark (inr u, st) = (inr tt, st)

-- `execStmt`, under the error of the context
module _ {Other World : Type 0} (env : Env Other World) where
  unfoldable mutual
    unfolding raw_case declare_case set_case print_case throw_case raiserror_case exec_waitfor
        next_stmt while_loop behind_try eval_bool

    pub exec_stmt : Stmt → Option ErrorInfo → Run Other World (Unit {0})
    exec_stmt (block ss) cur st = exec_block ss cur st
    exec_stmt (raw sql) cur st = raw_case env cur sql st
    exec_stmt (declare vs) cur st = declare_case env cur vs st
    exec_stmt (set name expr) cur st = set_case env cur name expr st
    exec_stmt (print expr) cur st = print_case env cur expr st
    exec_stmt returns cur st = (inr tt, set_flow flow_return st)
    exec_stmt breaks cur st = (inr tt, set_flow flow_break st)
    exec_stmt continues cur st = (inr tt, set_flow flow_continue st)
    exec_stmt (if_then cond s) cur st =
        go_on (λ b. elim b [ true ↦ exec_stmt s cur | false ↦ give tt ]) (eval_bool env cur cond st)
    exec_stmt (if_else cond s t) cur st =
        go_on (λ b. elim b [ true ↦ exec_stmt s cur | false ↦ exec_stmt t cur ])
          (eval_bool env cur cond st)
    exec_stmt (while cond s) cur st =
        while_loop (eval_bool env cur cond) (exec_stmt s cur) max_while_iterations st
    exec_stmt (try body handler) cur st =
        behind_try (exec_block handler) (length st.results) (exec_block body cur st)
    exec_stmt (throw args) cur st = throw_case env cur args st
    exec_stmt (raiserror args) cur st = raiserror_case env cur args st
    exec_stmt (waitfor delay text) cur st = exec_waitfor env delay text st

    -- the case of Block
    pub exec_block : Stmts → Option ErrorInfo → Run Other World (Unit {0})
    exec_block done cur st = (inr tt, st)
    exec_block (and_then s ss) cur st = next_stmt (exec_block ss cur) (exec_stmt s cur st)

-- st.results[len-1], none where there is no result
last_of {ℓ} : {A : Type ℓ} → List A → Option A
last_of [] = none
last_of (x ∷ []) = some x
last_of (x ∷ y ∷ xs) = last_of (y ∷ xs)

-- what RunAll refuses a batch with
pub data RunError : Type 0 where
  parse_error : ParseError → RunError
  exec_error : Error → RunError

module _ {Other World : Type 0} (env : Env Other World) where
  unfoldable pub start : World → State Other World
  start w = record { vars = []; types = []; flow = flow_none; results = []; world = w }

  unfoldable pub finished :
      Outcome Other World (Unit {0}) → Result RunError (List (Rows Other)) × World
  finished (inl e, st) = (err (exec_error e), st.world)
  finished (inr u, st) = (ok st.results, st.world)

  run_parsed :
      Option ErrorInfo
      → Result ParseError Stmts
      → World
      → Result RunError (List (Rows Other)) × World
  unfolding exec_stmt finished start
  run_parsed cur (ok ss) w = finished (exec_block env ss cur (start w))
  run_parsed cur (err e) w = (err (parse_error e), w)
  run_parsed cur panic w = (panic, w)
  run_parsed cur no_fuel w = (no_fuel, w)

  -- `RunAll`, under the error of the context
  unfoldable pub run_all :
      Option ErrorInfo → Bytes → World → Result RunError (List (Rows Other)) × World
  unfolding run_parsed parse
  run_all cur sql w = run_parsed cur (parse sql) w

  last_result :
      Result RunError (List (Rows Other)) × World → Result RunError (Option (Rows Other)) × World
  unfolding last_of
  last_result (ok results, w) = (ok (last_of results), w)
  last_result (err e, w) = (err e, w)
  last_result (panic, w) = (panic, w)
  last_result (no_fuel, w) = (no_fuel, w)

  -- `Run`; none is nil
  unfoldable pub run :
      Option ErrorInfo → Bytes → World → Result RunError (Option (Rows Other)) × World
  unfolding run_all last_result
  run cur sql w = last_result (run_all cur sql w)
