-- ===== src/Control/State.antt =====
-- internal/extensions/procedures/control/exec.go: `state` and `scope`, the errors, and the calls of
-- `routines.Runner`. The runner is a parameter: a function of the context's error, the text and a
-- state of its own. What a call gives is an error or a value, with the state behind it; a failed call
-- leaves the state as it has come to be, which TRY goes on from.
use haystak_tds_spi.Base.{ℕ, ◌⊎◌, inl, inr, Option, List, Bytes}
use haystak_tds_spi.Base.Int.{ℤ, pos}
use haystak_tds_spi.Base.Dict.{Dict, insert, bytes_eq}
use haystak_tds_spi.Control.Cell.{Cell, Formats}

-- `tds.ErrorInfo`, without the line and the procedure, which stay empty here
pub record ErrorInfo : Type 0 where
  pub number : ℤ
  pub message : Bytes
  pub severity : ℤ
  pub state : ℤ

-- an `error`: a `ctrlError`, or one of another type by its message
pub data Error : Type 0 where
  ctrl : ErrorInfo → Error
  plain : Bytes → Error

-- `errorInfoOf`
unfoldable pub error_info_of : Error → ErrorInfo
error_info_of (ctrl info) = info
error_info_of (plain message) = record {
  number = pos 50000;
  message = message;
  severity = pos 16;
  state = pos 1;
}

-- `flowKind`
pub data Flow : Type 0 where
  flow_none flow_return flow_break flow_continue : Flow

-- `tds.Rows`, by what Next and Values give: a row, or an error of Values
abbrev pub Rows : Type 0 → Type 0
Rows Other = List (Error ⊎ List (Cell Other))

-- `scope` and `state`, and the runner's own state
pub record State (Other World : Type 0) : Type 0 where
  pub vars : Dict Bytes Bytes
  pub types : Dict Bytes Bytes
  pub flow : Flow
  pub results : List (Rows Other)
  pub world : World

-- The code not in this package: the runner, the timer of WAITFOR (a duration in nanoseconds; an
-- error where the context is done first) and the formats of Go.
pub record Env (Other World : Type 0) : Type 0 where
  pub exec : Option ErrorInfo → Bytes → World → (Error ⊎ Option (Rows Other)) × World
  pub sleep : ℕ → World → Option Error × World
  pub formats : Formats Other

module _ {Other World : Type 0} where
  abbrev pub set_flow : Flow → State Other World → State Other World
  set_flow f st = record {
    vars = st.vars;
    types = st.types;
    flow = f;
    results = st.results;
    world = st.world;
  }

  abbrev pub set_vars : Dict Bytes Bytes → State Other World → State Other World
  set_vars vs st = record {
    vars = vs;
    types = st.types;
    flow = st.flow;
    results = st.results;
    world = st.world;
  }

  abbrev pub set_types : Dict Bytes Bytes → State Other World → State Other World
  set_types ts st = record {
    vars = st.vars;
    types = ts;
    flow = st.flow;
    results = st.results;
    world = st.world;
  }

  abbrev pub set_results : List (Rows Other) → State Other World → State Other World
  set_results rs st = record {
    vars = st.vars;
    types = st.types;
    flow = st.flow;
    results = rs;
    world = st.world;
  }

  abbrev pub set_world : World → State Other World → State Other World
  set_world w st = record {
    vars = st.vars;
    types = st.types;
    flow = st.flow;
    results = st.results;
    world = w;
  }

-- what a call gives
abbrev pub Outcome : Type 0 → Type 0 → Type 0 → Type 0
Outcome Other World A = (Error ⊎ A) × State Other World

abbrev pub Run : Type 0 → Type 0 → Type 0 → Type 0
Run Other World A = State Other World → Outcome Other World A

module _ {Other World : Type 0} where
  -- `if err != nil { return err }` in between
  abbrev pub go_on :
      {A B : Type 0} → (A → Run Other World B) → Outcome Other World A → Outcome Other World B
  go_on f (inl e, st) = (inl e, st)
  go_on f (inr a, st) = f a st

  infixl 5 ◌>>=◌ ◌>>◌
  abbrev pub ◌>>=◌ :
      {A B : Type 0} → Run Other World A → (A → Run Other World B) → Run Other World B
  (m >>= f) st = go_on f (m st)

  abbrev pub ◌>>◌ : {A B : Type 0} → Run Other World A → Run Other World B → Run Other World B
  m >> k = m >>= λ _. k

  abbrev pub give : {A : Type 0} → A → Run Other World A
  give a st = (inr a, st)

  abbrev pub fail : {A : Type 0} → Error → Run Other World A
  fail e st = (inl e, st)

  -- a call whose error is not looked at, with the value that then stays
  abbrev pub stayed : {A : Type 0} → A → Outcome Other World A → Outcome Other World A
  stayed a (inl e, st) = (inr a, st)
  stayed a (inr b, st) = (inr b, st)

  abbrev pub or_stay : {A : Type 0} → A → Run Other World A → Run Other World A
  or_stay a m st = stayed a (m st)

  abbrev pub bind_var : Bytes → Bytes → State Other World → State Other World
  bind_var name v st = set_vars (insert name v st.vars) st
