-- ===== src/Server/Registry/Ids.antt =====
-- server/registry.go: session ids over any sequence of operations.
use haystak_tds_spi.Base.{
  ℕ, ◌≤◌, ◌<◌, ◌≡◌, refl, ◌≢◌, inl, inr, none, some, List, [], ◌∷◌, arith, ==_refl, Option-cases,
  Bytes,
}
use haystak_tds_spi.Base.Dict.{nat_eq, lookup, lookup-insert, lookup-delete}
use native.Mathlib.Nat.{le_refl, le_trans}
use haystak_tds_spi.Server.Registry.{
  SessionInfo, LiveSession, Registry, new_registry, attach, add, remove, Op, adds, attaches,
  removes, apply, run,
}

module _ {Conn Principal Time : Type 0} where
  -- Sessions stand under their own ids, all of them handed out already; a connection is kept only
  -- for a session that is there.
  pub record IsConsistent (r : Registry Conn Principal Time) : Type 0 where
    pub keyed :
        (k : ℕ) (s : SessionInfo Time)
        → lookup k r.sessions ≡ some s
        → (s.session_id ≡ k) × (k < r.next_spid)
    pub attached :
        (k : ℕ) (l : LiveSession Conn Principal Time)
        → lookup k r.conns ≡ some l
        → (l.info.session_id ≡ k) × (lookup k r.sessions ≢ none)

  new_registry-IsConsistent : IsConsistent new_registry
  unfolding lookup
  new_registry-IsConsistent = record { keyed = λ k s h. cc; attached = λ k l h. cc }

  next_grows :
      (op : Op Conn Principal Time) (r : Registry Conn Principal Time)
      → r.next_spid ≤ (apply op r).next_spid
  unfolding apply add attach remove
  next_grows (adds login host app at) r = omega arith
  next_grows (attaches info conn princ) r = ground arith
  next_grows (removes spid) r = le_refl r.next_spid

  add-IsConsistent :
      (login host app : Bytes) (at : Time) (r : Registry Conn Principal Time)
      → IsConsistent r
      → IsConsistent (add login host app at r).1
  unfolding add
  add-IsConsistent login host app at r v = record {
    keyed = λ k s h.
        ground
          (arith, v.keyed k s, lookup-insert r.next_spid k (add login host app at r).0 r.sessions);
    attached = λ k l h. (
      (v.attached k l h).0,
      λ gone. ground (
        arith,
        (v.attached k l h).1,
        lookup-insert r.next_spid k (add login host app at r).0 r.sessions,
      ),
    );
  }

  attach-IsConsistent :
      (info : SessionInfo Time) (conn : Conn) (princ : Principal) (r : Registry Conn Principal Time)
      → IsConsistent r
      → IsConsistent (attach info conn princ r)
  unfolding attach
  attach-IsConsistent info conn princ r v =
      elim (Option-cases (lookup info.session_id r.sessions)) [
        | inl absent ↦ rw (absent, attach) v
        | inr (s, present) ↦
            rw (present, attach)
              (record {
                keyed = v.keyed;
                attached = λ k l h. ground (
                  arith,
                  v.attached k l,
                  lookup-insert info.session_id k
                      (record { info = info; conn = conn; princ = princ }) r.conns,
                );
              })
      ]

  remove-IsConsistent :
      (spid : ℕ) (r : Registry Conn Principal Time) → IsConsistent r → IsConsistent (remove spid r)
  unfolding remove
  remove-IsConsistent spid r v = record {
    keyed = λ k s h. ground (arith, v.keyed k s, lookup-delete spid k r.sessions);
    attached = λ k l h.
        ground
          (arith, v.attached k l, lookup-delete spid k r.sessions, lookup-delete spid k r.conns);
  }

  pub apply-IsConsistent :
      (op : Op Conn Principal Time) (r : Registry Conn Principal Time)
      → IsConsistent r
      → IsConsistent (apply op r)
  unfolding apply
  apply-IsConsistent (adds login host app at) r v = add-IsConsistent login host app at r v
  apply-IsConsistent (attaches info conn princ) r v = attach-IsConsistent info conn princ r v
  apply-IsConsistent (removes spid) r v = remove-IsConsistent spid r v

  run_from :
      (ops : List (Op Conn Principal Time)) (r : Registry Conn Principal Time)
      → IsConsistent r
      → IsConsistent (run ops r) × (r.next_spid ≤ (run ops r).next_spid)
  unfolding run
  run_from [] r v = (v, le_refl r.next_spid)
  run_from (op ∷ ops) r v =
      let (later, grows) = run_from ops (apply op r) (apply-IsConsistent op r v) in
      (later, le_trans (next_grows op r) grows)

  -- Whatever the connections do and in whatever order, the registry stays consistent.
  pub run-IsConsistent : (ops : List (Op Conn Principal Time)) → IsConsistent (run ops new_registry)
  run-IsConsistent ops = (run_from ops new_registry new_registry-IsConsistent).0

  unused :
      (r : Registry Conn Principal Time) → IsConsistent r → lookup r.next_spid r.sessions ≡ none
  unused r v = elim (Option-cases (lookup r.next_spid r.sessions)) [
    | inl absent ↦ absent
    | inr (s, present) ↦ absurd (omega (arith, (v.keyed r.next_spid s present).1))
  ]

  -- An id handed out is new: no session has it, and whatever happens until the next login, that
  -- login gets a larger one.
  pub add_fresh :
      (before between : List (Op Conn Principal Time)) (login host app login' host' app' : Bytes)
      (at at' : Time)
      → (lookup
            (add login host app at (run before new_registry)).0.session_id
            (run before new_registry).sessions
          ≡ none)
        × ((add login host app at (run before new_registry)).0.session_id
            < (add login' host' app' at'
                (run between (add login host app at (run before new_registry)).1)).0.session_id)
  unfolding add
  add_fresh before between login host app login' host' app' at at' =
      let r = run before new_registry in
      let v = run-IsConsistent before in
      (
        unused r v,
        omega (
          arith,
          (run_from between (add login host app at r).1 (add-IsConsistent login host app at r v)).1,
        ),
      )

  -- A connection that is attached after its session was removed is not kept.
  pub attach-remove :
      (info : SessionInfo Time) (conn : Conn) (princ : Principal) (r : Registry Conn Principal Time)
      → attach info conn princ (remove info.session_id r) ≡ remove info.session_id r
  unfolding attach remove
  attach-remove info conn princ r =
      rw (lookup-delete info.session_id info.session_id r.sessions, attach)
        (rw (==_refl info.session_id) refl)
