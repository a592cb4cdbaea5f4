-- ===== src/Control/Exec/Grows.antt =====
-- internal/extensions/procedures/control/exec.go: `state.results`, which statements add to.
use haystak_tds_spi.Base.{
  ℕ, zero, suc, ◌≡◌, refl, sym, ap, ◌∙◌, inl, inr, Bool, true, false, Option, some, List, [], ◌++◌,
  append_assoc, append-nil, length, take, take_append,
}
use haystak_tds_spi.Control.Exec.{
  behind_body, behind_cond, while_loop, behind_try, next_stmt, unless_flow, again, set_results,
  Flow, set_flow, flow_none, error_info_of,
}
use haystak_tds_spi.Control.Exec.Quiet.{Quiet}
use haystak_tds_spi.Control.State.{State, Run, Outcome, ErrorInfo, Rows, go_on, ◌>>=◌}
use haystak_tds_spi.Base.Dict.{bytes_eq}
use haystak_tds_spi.Control.State.{
  flow_none, flow_return, flow_break, flow_continue, set_flow, set_results, error_info_of,
}
use haystak_tds_spi.Control.Exec.{unless_flow, again}

module _ {Other World : Type 0} where
  -- The results of the state begin with these.
  abbrev pub Begins : List (Rows Other) → State Other World → Type 0
  Begins rs st = (more : List (Rows Other)) × (st.results ≡ rs ++ more)

  -- The call adds results at the end, or none, also where it fails.
  abbrev pub Grows : {A : Type 0} → Run Other World A → Type 0
  Grows m = (st : State Other World) → Begins st.results (m st).1

  pub Begins-trans :
      (rs : List (Rows Other)) (st st' : State Other World)
      → Begins rs st
      → Begins st.results st'
      → Begins rs st'
  Begins-trans rs st st' (a, h) (b, k) = (a ++ b, k ∙ ap (λ l. l ++ b) h ∙ append_assoc rs a b)

  pub Begins-refl : (st : State Other World) → Begins st.results st
  Begins-refl st = ([], sym (append-nil st.results))

  pub Quiet-Grows : {A : Type 0} (m : Run Other World A) → Quiet m → Grows m
  Quiet-Grows m q st =
      (let (w, h) = q st in ([], ap (λ s. s.results) h ∙ sym (append-nil st.results)))

  pub go_on-Begins :
      {A B : Type 0} (rs : List (Rows Other)) (f : A → Run Other World B)
      (o : Outcome Other World A)
      → Begins rs o.1
      → ((a : A) → Grows (f a))
      → Begins rs (go_on f o).1
  go_on-Begins rs f (inl e, st) h k = h
  go_on-Begins rs f (inr a, st) h k = Begins-trans rs st (f a st).1 h (k a st)

  pub bind-Grows :
      {A B : Type 0} (m : Run Other World A) (f : A → Run Other World B)
      → Grows m
      → ((a : A) → Grows (f a))
      → Grows (m >>= f)
  bind-Grows m f g k st = go_on-Begins st.results f (m st) (g st) k

  pub next_stmt-Begins :
      (rs : List (Rows Other)) (k : Run Other World (Unit {0})) (o : Outcome Other World (Unit {0}))
      → Grows k
      → Begins rs o.1
      → Begins rs (next_stmt k o).1
  unfolding next_stmt unless_flow
  next_stmt-Begins rs k (inl e, st) g h = h
  next_stmt-Begins rs k (inr u, st) g h = unless_flow-Begins st.flow
    where
      unless_flow-Begins : (fl : Flow) → Begins rs (unless_flow fl k st).1
      unless_flow-Begins flow_none = Begins-trans rs st (k st).1 h (g st)
      unless_flow-Begins flow_return = h
      unless_flow-Begins flow_break = h
      unless_flow-Begins flow_continue = h

  behind_body-Begins :
      (rs : List (Rows Other)) (next : Run Other World (Unit {0}))
      (o : Outcome Other World (Unit {0}))
      → Grows next
      → Begins rs o.1
      → Begins rs (behind_body next o).1
  unfolding behind_body again
  behind_body-Begins rs next (inl e, st) g h = h
  behind_body-Begins rs next (inr u, st) g h = again-Begins st.flow
    where
      again-Begins : (fl : Flow) → Begins rs (again fl next st).1
      again-Begins flow_none = Begins-trans rs st (next st).1 h (g st)
      again-Begins flow_return = h
      again-Begins flow_break = h
      again-Begins flow_continue =
          Begins-trans rs st (next (set_flow flow_none st)).1 h (g (set_flow flow_none st))

  behind_cond-Begins :
      (rs : List (Rows Other)) (body next : Run Other World (Unit {0}))
      (o : Outcome Other World Bool)
      → Grows body
      → Grows next
      → Begins rs o.1
      → Begins rs (behind_cond body next o).1
  unfolding behind_cond
  behind_cond-Begins rs body next (inl e, st) b g h = h
  behind_cond-Begins rs body next (inr false, st) b g h = h
  behind_cond-Begins rs body next (inr true, st) b g h =
      behind_body-Begins rs next (body st) g (Begins-trans rs st (body st).1 h (b st))

  pub while_loop-Grows :
      (cond : Run Other World Bool) (body : Run Other World (Unit {0})) (rounds : ℕ)
      → Grows cond
      → Grows body
      → Grows (while_loop cond body rounds)
  unfolding while_loop
  while_loop-Grows cond body zero c b st = Begins-refl st
  while_loop-Grows cond body (suc rounds) c b st =
      behind_cond-Begins st.results body (while_loop cond body rounds) (cond st) b
        (while_loop-Grows cond body rounds c b) (c st)

  -- The handler starts from the results that stood before the TRY.
  pub behind_try-cut :
      (rs : List (Rows Other)) (st : State Other World)
      → Begins rs st
      → take (length rs) st.results ≡ rs
  behind_try-cut rs st (more, h) = rw h (take_append rs more (length rs) refl)

  pub behind_try-Begins :
      (rs : List (Rows Other)) (handler : Option ErrorInfo → Run Other World (Unit {0}))
      (o : Outcome Other World (Unit {0}))
      → ((cur : Option ErrorInfo) → Grows (handler cur))
      → Begins rs o.1
      → Begins rs (behind_try handler (length rs) o).1
  unfolding behind_try
  behind_try-Begins rs handler (inr u, st) g h = h
  behind_try-Begins rs handler (inl e, st) g h =
      let back = set_results (take (length rs) st.results) (set_flow flow_none st) in
      Begins-trans rs back (handler (some (error_info_of e)) back).1
        ([], behind_try-cut rs st h ∙ sym (append-nil rs)) (g (some (error_info_of e)) back)
