-- ===== src/Control/Exec/Loops.antt =====
-- internal/extensions/procedures/control/exec.go: the loop of WHILE, round by round.
use haystak_tds_spi.Base.{
  ℕ, zero, suc, ◌<◌, ◌≡◌, refl, sym, ap, ◌∙◌, subst, ◌⊎◌, inl, inr, Bool, true, false, arith, codes,
}
use haystak_tds_spi.Control.State.{
  State, Run, Outcome, Error, plain, Flow, flow_none, flow_return, flow_break, flow_continue,
  set_flow,
}
use haystak_tds_spi.Control.Exec.{while_loop, behind_cond, behind_body, again}

-- the flow behind a body that another round follows
pub data GoesOn : Flow → Type 0 where
  no_flow : GoesOn flow_none
  continued : GoesOn flow_continue

module _ {Other World : Type 0} (cond : Run Other World Bool)
    (body : Run Other World (Unit {0})) where
  -- From a state the loop makes so many rounds to their end, and then comes to an outcome in the next
  -- one: by its condition, or in its body.
  pub data Spins : ℕ → State Other World → Outcome Other World (Unit {0}) → Type 0 where
    cond_fails :
        {st st' : State Other World} {e : Error} → cond st ≡ (inl e, st') → Spins 0 st (inl e, st')
    stops : {st st' : State Other World} → cond st ≡ (inr false, st') → Spins 0 st (inr tt, st')
    body_fails :
        {st st1 st' : State Other World} {e : Error}
        → cond st ≡ (inr true, st1)
        → body st1 ≡ (inl e, st')
        → Spins 0 st (inl e, st')
    breaks_off :
        {st st1 st' : State Other World}
        → cond st ≡ (inr true, st1)
        → body st1 ≡ (inr tt, st')
        → st'.flow ≡ flow_break
        → Spins 0 st (inr tt, set_flow flow_none st')
    returns_off :
        {st st1 st' : State Other World}
        → cond st ≡ (inr true, st1)
        → body st1 ≡ (inr tt, st')
        → st'.flow ≡ flow_return
        → Spins 0 st (inr tt, st')
    spins :
        {n : ℕ} {st st1 st2 : State Other World} {o : Outcome Other World (Unit {0})}
        → cond st ≡ (inr true, st1)
        → body st1 ≡ (inr tt, st2)
        → GoesOn st2.flow
        → Spins n (set_flow flow_none st2) o
        → Spins (suc n) st o

  again-goes :
      (fl : Flow) (next : Run Other World (Unit {0})) (st : State Other World)
      → GoesOn fl
      → fl ≡ st.flow
      → again fl next st ≡ next (set_flow flow_none st)
  unfolding again
  again-goes flow_none next st no_flow h = ap (λ f. next (set_flow f st)) (sym h)
  again-goes flow_continue next st continued h = refl
  again-goes flow_return next st g h = elim g [ ]
  again-goes flow_break next st g h = elim g [ ]

  -- What the rounds come to is what the loop gives, while they are fewer than the bound.
  pub while_loop-Spins :
      (n rounds : ℕ) (st : State Other World) (o : Outcome Other World (Unit {0}))
      → Spins n st o
      → n < rounds
      → while_loop cond body rounds st ≡ o
  unfolding while_loop behind_cond behind_body
  while_loop-Spins n zero st o s h = absurd (omega arith)
  while_loop-Spins zero (suc rounds) st o (cond_fails c) h = rw c refl
  while_loop-Spins zero (suc rounds) st o (stops c) h = rw c refl
  while_loop-Spins zero (suc rounds) st o (body_fails c b) h = rw (c, b) refl
  while_loop-Spins zero (suc rounds) st o (breaks_off c b f) h = rw (c, b, f) refl
  while_loop-Spins zero (suc rounds) st o (returns_off c b f) h = rw (c, b, f) refl
  while_loop-Spins (suc n) (suc rounds) st o (spins {st2 = st2} c b g s) h =
      rw (c, b)
        (again-goes st2.flow (while_loop cond body rounds) st2 g refl
          ∙ while_loop-Spins n rounds (set_flow flow_none st2) o s (omega arith))

  -- So many rounds to their end lead from a state to another.
  pub data Spun : ℕ → State Other World → State Other World → Type 0 where
    unspun : {st : State Other World} → Spun 0 st st
    spun :
        {n : ℕ} {st st1 st2 st' : State Other World}
        → cond st ≡ (inr true, st1)
        → body st1 ≡ (inr tt, st2)
        → GoesOn st2.flow
        → Spun n (set_flow flow_none st2) st'
        → Spun (suc n) st st'

  -- A loop that comes to no end within the bound fails.
  pub while_loop-Spun :
      (rounds : ℕ) (st st' : State Other World)
      → Spun rounds st st'
      → while_loop cond body rounds st
        ≡ (inl (plain (codes "control: WHILE exceeded 1000000 iterations")), st')
  unfolding while_loop behind_cond behind_body
  while_loop-Spun zero st st' unspun = refl
  while_loop-Spun (suc rounds) st st' (spun {st2 = st2} c b g s) =
      rw (c, b)
        (again-goes st2.flow (while_loop cond body rounds) st2 g refl
          ∙ while_loop-Spun rounds (set_flow flow_none st2) st' s)

  -- what the loop does from a state with so many rounds left
  abbrev pub Ended : ℕ → State Other World → Type 0
  Ended rounds st =
      ((n : ℕ) × (n < rounds) × Spins n st (while_loop cond body rounds st))
      ⊎ ((st' : State Other World) × Spun rounds st st')

  one_more :
      (rounds : ℕ) (st st1 st2 : State Other World)
      → cond st ≡ (inr true, st1)
      → body st1 ≡ (inr tt, st2)
      → GoesOn st2.flow
      → Ended rounds (set_flow flow_none st2)
      → Ended (suc rounds) st
  unfolding while_loop behind_cond behind_body
  one_more rounds st st1 st2 c b g (inl (n, lt, s)) = inl (
    suc n,
    omega arith,
    subst (λ o. Spins (suc n) st o)
        (sym (rw (c, b) (again-goes st2.flow (while_loop cond body rounds) st2 g refl)))
        (spins c b g s),
  )
  one_more rounds st st1 st2 c b g (inr (st', s)) = inr (st', spun c b g s)

  one_round :
      (rounds : ℕ) (st : State Other World)
      → ((st' : State Other World) → Ended rounds st')
      → Ended (suc rounds) st
  unfolding while_loop behind_cond behind_body again
  one_round rounds st later = with_cond (cond st) refl
    where
      with_flow :
          (st1 st2 : State Other World)
          → cond st ≡ (inr true, st1)
          → body st1 ≡ (inr tt, st2)
          → (fl : Flow) → st2.flow ≡ fl
          → Ended (suc rounds) st
      with_flow st1 st2 c b flow_none f =
          one_more rounds st st1 st2 c b (subst GoesOn (sym f) no_flow)
            (later (set_flow flow_none st2))
      with_flow st1 st2 c b flow_continue f =
          one_more rounds st st1 st2 c b (subst GoesOn (sym f) continued)
            (later (set_flow flow_none st2))
      with_flow st1 st2 c b flow_break f =
          inl
            (0, omega arith, subst (λ o. Spins 0 st o) (sym (rw (c, b, f) refl)) (breaks_off c b f))
      with_flow st1 st2 c b flow_return f =
          inl (
            0,
            omega arith,
            subst (λ o. Spins 0 st o) (sym (rw (c, b, f) refl)) (returns_off c b f),
          )

      with_body :
          (st1 : State Other World)
          → cond st ≡ (inr true, st1)
          → (o : Outcome Other World (Unit {0})) → body st1 ≡ o
          → Ended (suc rounds) st
      with_body st1 c (inl e, st') b =
          inl (0, omega arith, subst (λ o. Spins 0 st o) (sym (rw (c, b) refl)) (body_fails c b))
      with_body st1 c (inr u, st2) b = with_flow st1 st2 c b st2.flow refl

      with_cond : (o : Outcome Other World Bool) → cond st ≡ o → Ended (suc rounds) st
      with_cond (inl e, st') c =
          inl (0, omega arith, subst (λ o. Spins 0 st o) (sym (rw c refl)) (cond_fails c))
      with_cond (inr false, st') c =
          inl (0, omega arith, subst (λ o. Spins 0 st o) (sym (rw c refl)) (stops c))
      with_cond (inr true, st1) c = with_body st1 c (body st1) refl

  -- The loop comes to an outcome in a round before the bound, or makes all of the bound's rounds.
  pub while_loop-Ended : (rounds : ℕ) (st : State Other World) → Ended rounds st
  while_loop-Ended zero st = inr (st, unspun)
  while_loop-Ended (suc rounds) st = one_round rounds st (while_loop-Ended rounds)
