-- ===== src/Server/Registry/Views.antt =====
-- What a session may see of the others: `ownSession` of a snapshot.
use haystak_tds_spi.Base.{
  ℕ, ◌≡◌, refl, ap, ◌≢◌, inl, inr, Option, none, some, List, [], ◌∷◌, arith, Option-cases,
}
use haystak_tds_spi.Base.Dict.{Dict, nat_eq, lookup}
use haystak_tds_spi.Server.Registry.{SessionInfo, own_session, Op, run, new_registry}
use haystak_tds_spi.Server.Registry.Ids.{run-IsConsistent}

module _ {Time : Type 0} where
  -- A row of a list, at some place in it.
  pub data Row (s : SessionInfo Time) : List (SessionInfo Time) → Type 0 where
    here : {all : List (SessionInfo Time)} → Row s (s ∷ all)
    there : {t : SessionInfo Time} {all : List (SessionInfo Time)} → Row s all → Row s (t ∷ all)

  -- A list that shows the sessions of a map, in whatever order Go's iteration gives.
  pub record Shows (sessions : Dict ℕ (SessionInfo Time)) (all : List (SessionInfo Time))
      : Type 0 where
    pub sound : (s : SessionInfo Time) → Row s all → lookup s.session_id sessions ≡ some s
    pub complete : (k : ℕ) (s : SessionInfo Time) → lookup k sessions ≡ some s → Row s all

  abbrev pub own_row : Option (SessionInfo Time) → List (SessionInfo Time)
  own_row none = []
  own_row (some s) = s ∷ []

  own_session-hit :
      (cur s : SessionInfo Time) (all : List (SessionInfo Time))
      → s.session_id ≡ cur.session_id
      → ((t : SessionInfo Time) → Row t all → t.session_id ≡ cur.session_id → t ≡ s)
      → Row s all
      → own_session cur all ≡ s ∷ []
  unfolding own_session
  own_session-hit cur s [] e unique r = elim r [ ]
  own_session-hit cur s (t ∷ all) e unique here = ground (arith, e)
  own_session-hit cur s (t ∷ all) e unique (there r) =
      ground (arith, unique t here, own_session-hit cur s all e (λ u at. unique u (there at)) r)

  own_session-miss :
      (cur : SessionInfo Time) (all : List (SessionInfo Time))
      → ((t : SessionInfo Time) → Row t all → t.session_id ≢ cur.session_id)
      → own_session cur all ≡ []
  unfolding own_session
  own_session-miss cur [] none_has = refl
  own_session-miss cur (t ∷ all) none_has =
      ground (arith, none_has t here, own_session-miss cur all (λ u r. none_has u (there r)))

  own_session_of :
      (cur : SessionInfo Time) (sessions : Dict ℕ (SessionInfo Time))
      (all : List (SessionInfo Time))
      → Shows sessions all
      → ((k : ℕ) (s : SessionInfo Time) → lookup k sessions ≡ some s → s.session_id ≡ k)
      → own_session cur all ≡ own_row (lookup cur.session_id sessions)
  own_session_of cur sessions all v keyed = elim (Option-cases (lookup cur.session_id sessions)) [
    | inl absent ↦ rw absent (
        own_session-miss cur all
          λ t at e. cc (absent, v.sound t at, ap (λ (k : ℕ). lookup k sessions) e))
    | inr (s, present) ↦ rw present (
        own_session-hit cur s all (keyed cur.session_id s present)
          (λ t at e. cc (present, v.sound t at, ap (λ (k : ℕ). lookup k sessions) e))
          (v.complete cur.session_id s present))
  ]

module _ {Conn Principal Time : Type 0} where
  -- After any operations, and in whatever order the map of sessions is iterated, `ownSession` gives
  -- exactly the caller's own session if it is live, and nothing if it is not.
  pub own_session-Shows :
      (cur : SessionInfo Time) (ops : List (Op Conn Principal Time)) (all : List (SessionInfo Time))
      → Shows (run ops new_registry).sessions all
      → own_session cur all ≡ own_row (lookup cur.session_id (run ops new_registry).sessions)
  own_session-Shows cur ops all v =
      own_session_of cur (run ops new_registry).sessions all v
        λ k s h. ((run-IsConsistent ops).keyed k s h).0
