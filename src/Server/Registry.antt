-- ===== src/Server/Registry.antt =====
-- server/registry.go: the live sessions, by their session id. Every method holds the mutex for its
-- whole body, so concurrent connections are a sequence of these operations. Connections,
-- principals and times are the environment's, passed on untouched: parameters.
pub mod Ids
pub mod Views
mod Tests
use haystak_tds_spi.Base.{
  ℕ, zero, suc, ◌+◌, ◌-◌, ◌*◌, ◌/◌, ◌%◌, ◌^◌, ◌≤◌, ◌<◌, min, ◌≡◌, refl, sym, ap, ◌∙◌, subst, ◌≢◌,
  ◌↔◌, ◌⊎◌, inl, inr, Bool, true, false, not, ◌&&◌, ◌||◌, Option, none, some, List, [], ◌∷◌, ◌++◌,
  map, append_assoc, append-nil, arith, ltb, leb, ◌==◌, if◌then◌else◌, ltb→lt, lt→ltb, leb→le,
  le→leb, ltb_false→le, leb_false→lt, le→ltb_false, ==_iff, ==_refl, Bool-cases, Option-cases,
  length, get_elem?, get_or, take, drop, replicate, length-append, take-append-drop, length-take,
  length-drop, take_append, drop_append, take_all, drop_all, drop-drop, length-replicate,
  length-map, Bytes, All, IsBytes, codes, All-append,
}
use haystak_tds_spi.Base.Result.{
  Result, ok, err, panic, no_fuel, ◌>>=◌, ◌>>◌, Returns, Yields, bind-eq-ok, Returns-bind,
}
use haystak_tds_spi.Base.Dict.{Dict, nat_eq, lookup, insert, delete}

-- `tds.SessionInfo`, over the type of times
pub record SessionInfo (Time : Type 0) : Type 0 where
  pub session_id : ℕ
  pub login_name : Bytes
  pub host : Bytes
  pub program : Bytes
  pub login_time : Time

-- `liveSession`
pub record LiveSession (Conn Principal Time : Type 0) : Type 0 where
  pub info : SessionInfo Time
  pub conn : Conn
  pub princ : Principal

-- `sessionRegistry`
pub record Registry (Conn Principal Time : Type 0) : Type 0 where
  pub next_spid : ℕ
  pub sessions : Dict ℕ (SessionInfo Time)
  pub conns : Dict ℕ (LiveSession Conn Principal Time)

module _ {Conn Principal Time : Type 0} where
  abbrev pub new_registry : Registry Conn Principal Time
  new_registry = record { next_spid = 51; sessions = []; conns = [] }

  pub attach :
      SessionInfo Time
      → Conn
      → Principal
      → Registry Conn Principal Time
      → Registry Conn Principal Time
  attach info conn princ r = elim (lookup info.session_id r.sessions) [
    | none ↦ r
    | some _ ↦ record r {
      conns = insert info.session_id (record { info = info; conn = conn; princ = princ }) r.conns;
    }
  ]

  pub live : Registry Conn Principal Time → List (LiveSession Conn Principal Time)
  live r = map (λ (p : ℕ × LiveSession Conn Principal Time). p.1) r.conns

  pub add :
      Bytes
      → Bytes
      → Bytes
      → Time
      → Registry Conn Principal Time
      → SessionInfo Time × Registry Conn Principal Time
  add login host app at r =
      let s : SessionInfo Time = record {
        session_id = r.next_spid;
        login_name = login;
        host = host;
        program = app;
        login_time = at;
      } in
      (s, record r { next_spid = r.next_spid + 1; sessions = insert r.next_spid s r.sessions })

  pub remove : ℕ → Registry Conn Principal Time → Registry Conn Principal Time
  remove spid r = record r { sessions = delete spid r.sessions; conns = delete spid r.conns }

  pub snapshot : Registry Conn Principal Time → List (SessionInfo Time)
  snapshot r = map (λ (p : ℕ × SessionInfo Time). p.1) r.sessions

-- `ownSession`: the caller's own row of a snapshot
pub own_session :
    {Time : Type 0} → SessionInfo Time → List (SessionInfo Time) → List (SessionInfo Time)
own_session cur [] = []
own_session cur (s ∷ all) = if s.session_id == cur.session_id then s ∷ [] else own_session cur all

-- What the connections do to the registry, in the order in which they take the mutex.
pub data Op (Conn Principal Time : Type 0) : Type 0 where
  adds : Bytes → Bytes → Bytes → Time → Op Conn Principal Time
  attaches : SessionInfo Time → Conn → Principal → Op Conn Principal Time
  removes : ℕ → Op Conn Principal Time

module _ {Conn Principal Time : Type 0} where
  pub apply : Op Conn Principal Time → Registry Conn Principal Time → Registry Conn Principal Time
  apply (adds login host app at) r = (add login host app at r).1
  apply (attaches info conn princ) r = attach info conn princ r
  apply (removes spid) r = remove spid r

  pub run :
      List (Op Conn Principal Time) → Registry Conn Principal Time → Registry Conn Principal Time
  run [] r = r
  run (op ∷ ops) r = run ops (apply op r)
