-- ===== src/Control/Exec/Raises.antt =====
-- internal/extensions/procedures/control/exec.go: what raising an error leaves as it was.
use haystak_tds_spi.Base.{
  ℕ, ◌≡◌, refl, Bool, true, false, Option, none, some, List, [], ◌∷◌, if◌then◌else◌, get_elem?,
  Bytes,
}
use haystak_tds_spi.Control.Cases.{print_case, throw_case, raiserror_case}
use haystak_tds_spi.Control.Exec.Quiet.{
  Quiet, give-Quiet, fail-Quiet, bind-Quiet, or_stay-Quiet, eval_int_arg-Quiet, eval_str_arg-Quiet,
  eval_scalar-Quiet,
}
use haystak_tds_spi.Control.State.{
  Env, State, Run, ErrorInfo, Error, set_world, give, fail, or_stay,
}
use haystak_tds_spi.Go.Strings.{trim_space}
use haystak_tds_spi.Base.Dict.{bytes_eq}
use haystak_tds_spi.Control.Eval.{eval_scalar, eval_int_arg, eval_str_arg}
use haystak_tds_spi.Base.Int.{ℤ, pos}
use haystak_tds_spi.Control.State.{ctrl}
use haystak_tds_spi.Control.Text.{split_top_commas}
use haystak_tds_spi.Control.Cases.{arg_or, thrown, rethrow, throw_args, raise_at, raised, below_11}
use haystak_tds_spi.Control.Waitfor.{exec_waitfor, wait, waited, timer_of, parse_delay}

module _ {Other World : Type 0} (env : Env Other World) (cur : Option ErrorInfo) where
  arg_or-Quiet :
      {A : Type 0} (a : A) (eval : Bytes → Run Other World A) (expr : Option Bytes)
      → ((e : Bytes) → Quiet (eval e))
      → Quiet (arg_or a eval expr)
  unfolding arg_or
  arg_or-Quiet a eval none q st = (st.world, refl)
  arg_or-Quiet a eval (some expr) q st = q expr st

  int_arg-Quiet : (n : ℤ) (expr : Option Bytes) → Quiet (arg_or n (eval_int_arg env cur) expr)
  int_arg-Quiet n expr = arg_or-Quiet n (eval_int_arg env cur) expr (eval_int_arg-Quiet env cur)

  str_arg-Quiet : (expr : Option Bytes) → Quiet (arg_or [] (eval_str_arg env cur) expr)
  str_arg-Quiet expr = arg_or-Quiet [] (eval_str_arg env cur) expr (eval_str_arg-Quiet env cur)

  optional_arg-Quiet :
      (n : ℤ) (expr : Option Bytes) → Quiet (or_stay n (arg_or n (eval_int_arg env cur) expr))
  optional_arg-Quiet n expr =
      or_stay-Quiet n (arg_or n (eval_int_arg env cur) expr) (int_arg-Quiet n expr)

  thrown-Quiet : (parts : List Bytes) → Quiet (thrown env cur parts)
  unfolding thrown
  thrown-Quiet parts =
      bind-Quiet (arg_or (pos 50000) (eval_int_arg env cur) (get_elem? parts 0)) _
        (int_arg-Quiet (pos 50000) (get_elem? parts 0))
        λ number.
          bind-Quiet (arg_or [] (eval_str_arg env cur) (get_elem? parts 1)) _
            (str_arg-Quiet (get_elem? parts 1))
            λ message.
              bind-Quiet
                (or_stay (pos 1) (arg_or (pos 1) (eval_int_arg env cur) (get_elem? parts 2))) _
                (optional_arg-Quiet (pos 1) (get_elem? parts 2))
                λ s. fail-Quiet (Unit {0}) (
                  ctrl
                    (record { number = number; message = message; severity = pos 16; state = s }))

  rethrow-Quiet : (now : Option ErrorInfo) → Quiet (rethrow env cur now)
  unfolding rethrow
  rethrow-Quiet none st = (st.world, refl)
  rethrow-Quiet (some info) st = (st.world, refl)

  throw_args-Quiet : (args : Bytes) → Quiet (throw_args env cur args)
  unfolding throw_args
  throw_args-Quiet [] st = rethrow-Quiet cur st
  throw_args-Quiet (c ∷ args) st = thrown-Quiet (split_top_commas (c ∷ args)) st

  pub throw_case-Quiet : (args : Bytes) → Quiet (throw_case env cur args)
  unfolding throw_case
  throw_case-Quiet args = throw_args-Quiet (trim_space args)

  if-Quiet :
      (b : Bool) (m k : Run Other World (Unit {0})) → Quiet m → Quiet k → Quiet (if b then m else k)
  if-Quiet true m k q r = q
  if-Quiet false m k q r = r

  raise_at-Quiet : (severity : ℤ) (info : ErrorInfo) → Quiet (raise_at env cur severity info)
  unfolding raise_at
  raise_at-Quiet severity info =
      if-Quiet (below_11 env cur severity) (give tt) (fail (ctrl info)) (give-Quiet tt)
        (fail-Quiet (Unit {0}) (ctrl info))

  raised-Quiet : (parts : List Bytes) → Quiet (raised env cur parts)
  unfolding raised
  raised-Quiet parts =
      bind-Quiet (arg_or [] (eval_str_arg env cur) (get_elem? parts 0)) _
        (str_arg-Quiet (get_elem? parts 0))
        λ message.
          bind-Quiet (or_stay (pos 16) (arg_or (pos 16) (eval_int_arg env cur) (get_elem? parts 1)))
            _ (optional_arg-Quiet (pos 16) (get_elem? parts 1))
            λ severity.
              bind-Quiet
                (or_stay (pos 1) (arg_or (pos 1) (eval_int_arg env cur) (get_elem? parts 2))) _
                (optional_arg-Quiet (pos 1) (get_elem? parts 2))
                λ s.
                  raise_at-Quiet severity (record {
                    number = pos 50000;
                    message = message;
                    severity = severity;
                    state = s;
                  })

  pub raiserror_case-Quiet : (args : Bytes) → Quiet (raiserror_case env cur args)
  unfolding raiserror_case
  raiserror_case-Quiet args = raised-Quiet _

  pub print_case-Quiet : (expr : Bytes) → Quiet (print_case env cur expr)
  unfolding print_case
  print_case-Quiet expr =
      bind-Quiet (eval_scalar env cur expr) (λ v. give tt) (eval_scalar-Quiet env cur expr)
        λ v. give-Quiet tt

waited-Quiet :
    {Other World : Type 0} (env : Env Other World) (st : State Other World)
    (o : Option Error × World)
    → (w : World) × ((waited env st o).1 ≡ set_world w st)
unfolding waited
waited-Quiet env st (none, w) = (w, refl)
waited-Quiet env st (some e, w) = (w, refl)

pub exec_waitfor-Quiet :
    {Other World : Type 0} (env : Env Other World) (delay : Bool) (text : Bytes)
    → Quiet (exec_waitfor env delay text)
unfolding exec_waitfor
exec_waitfor-Quiet env false text st = (st.world, refl)
exec_waitfor-Quiet env true text st = wait-Quiet (timer_of (parse_delay text))
  where
    wait-Quiet : (d : Option ℕ) → (w : _) × ((wait env d st).1 ≡ set_world w st)
    wait-Quiet none = (st.world, refl)
    wait-Quiet (some d) = waited-Quiet env st (env.sleep d st.world)
