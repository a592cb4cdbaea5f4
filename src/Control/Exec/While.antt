-- ===== src/Control/Exec/While.antt =====
-- internal/extensions/procedures/control/exec.go: the case of While.
use haystak_tds_spi.Base.{
  ℕ, zero, suc, ◌<◌, ◌≡◌, refl, sym, ap, ◌∙◌, subst, ◌⊎◌, inl, inr, Bool, Option, Bytes, codes,
}
use haystak_tds_spi.Control.State.{
  Env, State, Run, Outcome, plain, ErrorInfo, flow_none, flow_return, set_flow,
}
use haystak_tds_spi.Control.Syntax.{Stmt, while}
use haystak_tds_spi.Control.Eval.{eval_bool}
use haystak_tds_spi.Control.Exec.{exec_stmt, while_loop, max_while_iterations}
use haystak_tds_spi.Control.Exec.Quiet.{Quiet, eval_bool-Quiet}
use haystak_tds_spi.Control.Exec.Loops.{
  Spins, Spun, cond_fails, stops, body_fails, breaks_off, returns_off, spins, while_loop-Spins,
  while_loop-Spun, while_loop-Ended,
}

module _ {Other World : Type 0} where
  -- no BREAK or CONTINUE is left for a loop outside
  abbrev pub Caught : Outcome Other World (Unit {0}) → Type 0
  Caught (inl e, st) = Unit
  Caught (inr u, st) = (st.flow ≡ flow_none) ⊎ (st.flow ≡ flow_return)

module _ {Other World : Type 0} (cond : Run Other World Bool)
    (body : Run Other World (Unit {0})) where
  Spins-Caught :
      (n : ℕ) (st : State Other World) (o : Outcome Other World (Unit {0}))
      → Quiet cond
      → st.flow ≡ flow_none
      → Spins cond body n st o
      → Caught o
  Spins-Caught zero st o q f (cond_fails c) = tt
  Spins-Caught zero st o q f (stops c) =
      (let (w, h) = q st in inl (ap (λ o. o.1.flow) (sym c) ∙ (ap (λ s. s.flow) h ∙ f)))
  Spins-Caught zero st o q f (body_fails c b) = tt
  Spins-Caught zero st o q f (breaks_off c b g) = inl refl
  Spins-Caught zero st o q f (returns_off c b g) = inr g
  Spins-Caught (suc n) st o q f (spins {st2 = st2} c b g s) =
      Spins-Caught n (set_flow flow_none st2) o q refl s

  pub while_loop-Caught :
      (rounds : ℕ) (st : State Other World)
      → Quiet cond
      → st.flow ≡ flow_none
      → Caught (while_loop cond body rounds st)
  while_loop-Caught rounds st q f = elim (while_loop-Ended cond body rounds st) [
    | inl (n, lt, s) ↦ Spins-Caught n st (while_loop cond body rounds st) q f s
    | inr (st', s) ↦ subst Caught (sym (while_loop-Spun cond body rounds st st' s)) tt
  ]

module _ {Other World : Type 0} (env : Env Other World) where
  -- A WHILE that begins with no flow leaves none, or that of a RETURN: its BREAK and CONTINUE end in
  -- it, whatever its body holds.
  pub exec_stmt-Caught :
      (cond : Bytes) (s : Stmt) (cur : Option ErrorInfo) (st : State Other World)
      → st.flow ≡ flow_none
      → Caught (exec_stmt env (while cond s) cur st)
  unfolding exec_stmt
  exec_stmt-Caught cond s cur st f =
      while_loop-Caught (eval_bool env cur cond) (exec_stmt env s cur) max_while_iterations st
        (eval_bool-Quiet env cur cond) f

  -- The outcome that a WHILE comes to in a round within its 1,000,000 is what the statement gives, and
  -- there is such a round, or the statement makes them all and fails.
  pub exec_stmt-while :
      (cond : Bytes) (s : Stmt) (cur : Option ErrorInfo) (st : State Other World)
      → ((n : ℕ) (o : Outcome Other World (Unit {0}))
          → Spins (eval_bool env cur cond) (exec_stmt env s cur) n st o
          → n < max_while_iterations
          → exec_stmt env (while cond s) cur st ≡ o)
        × (((n : ℕ) × (n < max_while_iterations)
              × Spins
                  (eval_bool env cur cond)
                  (exec_stmt env s cur)
                  n
                  st
                  (exec_stmt env (while cond s) cur st))
            ⊎ ((st' : State Other World) × Spun
                  (eval_bool env cur cond)
                  (exec_stmt env s cur)
                  max_while_iterations
                  st
                  st'
                × (exec_stmt env (while cond s) cur st
                    ≡ (inl (plain (codes "control: WHILE exceeded 1000000 iterations")), st'))))
  unfolding exec_stmt
  exec_stmt-while cond s cur st = (
    λ n o r lt.
        while_loop-Spins (eval_bool env cur cond) (exec_stmt env s cur) n max_while_iterations st o
          r lt,
    elim (while_loop-Ended (eval_bool env cur cond) (exec_stmt env s cur) max_while_iterations st) [
      | inl x ↦ inl x
      | inr (st', r) ↦ inr (
        st',
        r,
        while_loop-Spun (eval_bool env cur cond) (exec_stmt env s cur) max_while_iterations st st'
            r,
      )
    ],
  )
