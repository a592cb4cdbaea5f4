-- ===== src/Control/Exec/Total.antt =====
-- internal/extensions/procedures/control/exec.go: `RunAll` on every batch. Its only
-- fuel is the parser's: the loops of `lex` and of `subst` are those of Batch/Rounds.
use haystak_tds_spi.Base.{◌≢◌, inl, inr, Option, Bytes}
use haystak_tds_spi.Base.Result.{Result, ok, err, panic, no_fuel}
use haystak_tds_spi.Control.State.{Env, Outcome, ErrorInfo}
use haystak_tds_spi.Control.Syntax.{Stmts}
use haystak_tds_spi.Control.Parse.{ParseError}
use haystak_tds_spi.Control.Parser.{parse}
use haystak_tds_spi.Control.Parser.Leaves.{Ends}
use haystak_tds_spi.Control.Parser.Ends.{parse-Ends}
use haystak_tds_spi.Control.Exec.{run_all, run_parsed, finished, exec_block, start}

finished_ends :
    {Other World : Type 0} (env : Env Other World) (o : Outcome Other World (Unit {0}))
    → (finished env o).0 ≢ no_fuel
unfolding finished
finished_ends env (inl e, st) h = cc
finished_ends env (inr u, st) h = cc

run_parsed_lem :
    {Other World : Type 0} (env : Env Other World) (cur : Option ErrorInfo)
    (r : Result ParseError Stmts) (w : World)
    → Ends r
    → (run_parsed env cur r w).0 ≢ no_fuel
unfolding run_parsed
run_parsed_lem env cur (ok ss) w e h = finished_ends env (exec_block env ss cur (start env w)) h
run_parsed_lem env cur (err x) w e h = cc
run_parsed_lem env cur panic w e h = cc
run_parsed_lem env cur no_fuel w e h = e

-- `RunAll` ends on every batch, whatever the runner does: with results, with an error, or in a panic
-- of the parser. The fuel of the model's parser is enough.
pub run_all_ends :
    {Other World : Type 0} (env : Env Other World) (cur : Option ErrorInfo) (sql : Bytes)
    (w : World)
    → (run_all env cur sql w).0 ≢ no_fuel
unfolding run_all
run_all_ends env cur sql w h = run_parsed_lem env cur (parse sql) w (parse-Ends sql) h
