-- ===== src/Control/Tests.antt =====
-- internal/extensions/procedures/control: instances on small batches.
use haystak_tds_spi.Base.{
  ℕ, ◌+◌, ◌<◌, ◌≡◌, refl, ◌≢◌, ◌⊎◌, inl, inr, Bool, true, Option, none, some, [], ◌∷◌, arith, ltb,
  if◌then◌else◌, Bytes, codes,
}
use haystak_tds_spi.Base.Result.{panic, no_fuel}
use haystak_tds_spi.Base.Int.{pos}
use haystak_tds_spi.Base.Dict.{bytes_beq}
use haystak_tds_spi.Control.Lex.{tok, word, other}
use haystak_tds_spi.Control.Parse.{read_text}
use haystak_tds_spi.Control.Parser.{parse_tokens_of}
use haystak_tds_spi.Control.Parser.Panics.{parse_tokens_of_panics}
use haystak_tds_spi.Control.Syntax.{
  Stmt, Stmts, block, raw, breaks, while, try, throw, done, and_then,
}
use haystak_tds_spi.Control.Cell.{int, Formats}
use haystak_tds_spi.Control.State.{
  Env, State, Run, Outcome, Error, plain, ctrl, ErrorInfo, error_info_of, Rows, flow_none,
}
use haystak_tds_spi.Control.Eval.{eval_bool}
use haystak_tds_spi.Control.Exec.{exec_stmt, exec_block, run_all, max_while_iterations}
use haystak_tds_spi.Control.Exec.Grows.{Begins}
use haystak_tds_spi.Control.Exec.Results.{exec_stmt-Grows, exec_stmt-try, exec_stmt-rethrow, handed}
use haystak_tds_spi.Control.Exec.Loops.{Spins, Spun}
use haystak_tds_spi.Control.Exec.While.{Caught, exec_stmt-Caught, exec_stmt-while}
use haystak_tds_spi.Control.Exec.Total.{run_all_ends}
use haystak_tds_spi.Control.Waitfor.{exec_waitfor}
use haystak_tds_spi.Control.Waitfor.Bounds.{exec_waitfor_bounds}

abbrev sample_formats : Formats (Unit {0})
sample_formats = record {
  format_float = λ x. codes "0";
  trunc_float = λ x. pos 0;
  format_time = λ x. [];
  sprint_other = λ x. [];
}

-- FAIL fails; any other text gives 1 twice and 0 from then on, and is counted
abbrev sample_exec : Option ErrorInfo → Bytes → ℕ → (Error ⊎ Option (Rows (Unit {0}))) × ℕ
sample_exec cur sql w =
    if bytes_beq sql (codes "FAIL")
    then (inl (plain (codes "boom")), w)
    else (inr (some (inr (int (pos (if ltb w 2 then 1 else 0)) ∷ []) ∷ [])), w + 1)

abbrev sample : Env (Unit {0}) ℕ
sample = record { exec = sample_exec; sleep = λ d w. (none, w + d); formats = sample_formats }

abbrev sample_start : State (Unit {0}) ℕ
sample_start = record { vars = []; types = []; flow = flow_none; results = []; world = 0 }

abbrev query : Stmt
query = raw (codes "SELECT 1")

abbrev failing : Stmts
failing = and_then query (and_then (raw (codes "FAIL")) done)

abbrev failed : State (Unit {0}) ℕ
failed = (exec_block sample failing none sample_start).1

exec_stmt-Grows_example : Begins [] (exec_stmt sample query none sample_start).1
exec_stmt-Grows_example = exec_stmt-Grows sample query none sample_start

exec_stmt-try_example :
    exec_stmt sample (try failing (and_then query done)) none sample_start
    ≡ exec_block sample
        (and_then query done)
        (some (error_info_of (plain (codes "boom"))))
        (handed sample [] failed)
unfolding exec_stmt
exec_stmt-try_example =
    exec_stmt-try sample failing (and_then query done) none sample_start failed
      (plain (codes "boom")) refl

exec_stmt-rethrow_example :
    exec_stmt sample (try failing (and_then (throw []) done)) none sample_start
    ≡ (inl (ctrl (error_info_of (plain (codes "boom")))), handed sample [] failed)
unfolding exec_stmt
exec_stmt-rethrow_example =
    exec_stmt-rethrow sample failing done none sample_start failed (plain (codes "boom")) refl

abbrev loop_body : Stmt
loop_body = block (and_then query (and_then breaks done))

exec_stmt-Caught_example :
    Caught (exec_stmt sample (while (codes "1 = 1") loop_body) none sample_start)
exec_stmt-Caught_example = exec_stmt-Caught sample (codes "1 = 1") loop_body none sample_start refl

abbrev sample_cond : Run (Unit {0}) ℕ Bool
sample_cond = eval_bool sample none (codes "1 = 1")

exec_stmt-while_example :
    ((n : ℕ) (o : Outcome (Unit {0}) ℕ (Unit {0}))
      → Spins sample_cond (exec_stmt sample query none) n sample_start o
      → n < max_while_iterations
      → exec_stmt sample (while (codes "1 = 1") query) none sample_start ≡ o)
    × (((n : ℕ) × (n < max_while_iterations)
          × Spins sample_cond
              (exec_stmt sample query none)
              n
              sample_start
              (exec_stmt sample (while (codes "1 = 1") query) none sample_start))
        ⊎ ((st' : State (Unit {0}) ℕ) × Spun sample_cond
              (exec_stmt sample query none)
              max_while_iterations
              sample_start
              st'
            × (exec_stmt sample (while (codes "1 = 1") query) none sample_start
                ≡ (inl (plain (codes "control: WHILE exceeded 1000000 iterations")), st'))))
exec_stmt-while_example = exec_stmt-while sample (codes "1 = 1") query none sample_start

abbrev tiring : Env (Unit {0}) ℕ
tiring = record {
  exec = sample_exec;
  sleep = λ d w. if ltb 30000000000 d then (some (plain (codes "too long")), w) else (none, w + d);
  formats = sample_formats;
}

exec_waitfor_bounds_example :
    exec_waitfor sample true (codes "00:10:00") sample_start
    ≡ exec_waitfor tiring true (codes "00:10:00") sample_start
exec_waitfor_bounds_example =
    exec_waitfor_bounds sample tiring (λ d w lo hi. ground arith) true (codes "00:10:00")
      sample_start

run_all_ends_example : (run_all sample none (codes "IF 1 = 1 SELECT 2") 0).0 ≢ no_fuel
run_all_ends_example = run_all_ends sample none (codes "IF 1 = 1 SELECT 2") 0

parse_tokens_of_panics_example :
    parse_tokens_of (
      tok word (codes "WHILE")
      ∷ tok word (codes "1")
      ∷ tok other (codes "=")
      ∷ tok word (codes "1")
      ∷ [])
    ≡ panic
unfolding read_text
parse_tokens_of_panics_example =
    parse_tokens_of_panics (codes "WHILE")
      (tok word (codes "1") ∷ tok other (codes "=") ∷ tok word (codes "1") ∷ []) (inr refl) refl
