-- ===== src/Procedures/Proc.antt =====
-- internal/extensions/procedures/proc.go: `HandleDDL` and `ExecProc`. The store and the runner are
-- parameters, functions of a state of their own.
use haystak_tds_spi.Base.{
  ◌⊎◌, inl, inr, Bool, true, false, ◌||◌, Option, none, some, List, [], ◌∷◌, if◌then◌else◌, Bytes,
  codes,
}
use haystak_tds_spi.Base.Dict.{bytes_eq}
use haystak_tds_spi.Go.Strings.{trim_space}
use haystak_tds_spi.Batch.Declared.{upper}
use haystak_tds_spi.Control.Cell.{Formats}
use haystak_tds_spi.Procedures.Names.{has_head, after_drop, split_as, trim_last}
use haystak_tds_spi.Procedures.Params.{
  RoutineKind, routine_proc, RoutineParam, Routine, Arg, substitute_params,
}
use haystak_tds_spi.Procedures.Head.{parse_proc_head}

pub data ProcError : Type 0 where
  missing_as missing_name : ProcError
  store_error : Bytes → ProcError

-- the store, the runner and its current database
pub record Backend (World Rows : Type 0) : Type 0 where
  pub put_routine : Routine → World → Option ProcError × World
  pub get_routine : Bytes → Bytes → World → (ProcError ⊎ Option Routine) × World
  pub drop_routine : Bytes → Bytes → World → Option ProcError × World
  pub exec : Bytes → World → Rows × World
  pub current_db : Bytes

module _ {World Rows Other : Type 0} (backend : Backend World Rows) (f : Formats Other) where
  put_named : Bytes → Bytes → Bytes × List RoutineParam → World → Option ProcError × World
  put_named db body ([], params) w = (some missing_name, w)
  put_named db body (c ∷ name, params) w =
      backend.put_routine
        (record {
          database = db;
          schema = codes "dbo";
          name = c ∷ name;
          kind = routine_proc;
          body = body;
          params = params;
        })
        w

  -- `createProc`
  unfoldable pub create_proc : Bytes → Bytes → World → Option ProcError × World
  unfolding split_as put_named parse_proc_head
  create_proc db s w = elim (split_as s) [
    | none ↦ (some missing_as, w)
    | some (head, body) ↦ put_named db body (parse_proc_head head) w
  ]

  -- `routines.Drop`
  unfoldable pub drop_proc : Bytes → Bytes → World → Option ProcError × World
  drop_proc db [] w = (none, w)
  drop_proc db (c ∷ name) w = backend.drop_routine db (c ∷ name) w

  creates : Bytes → Bool
  unfolding has_head
  creates up =
      has_head up (codes "CREATE") (codes "PROCEDURE")
      || (has_head up (codes "CREATE") (codes "PROC")
          || (has_head up (codes "CREATE OR ALTER") (codes "PROCEDURE")
              || (has_head up (codes "CREATE OR ALTER") (codes "PROC")
                  || (has_head up (codes "ALTER") (codes "PROCEDURE")
                      || has_head up (codes "ALTER") (codes "PROC")))))

  drops : Bytes → Bool
  unfolding has_head
  drops up =
      has_head up (codes "DROP") (codes "PROCEDURE") || has_head up (codes "DROP") (codes "PROC")

  handled : Option ProcError × World → Bool × Option ProcError × World
  handled (e, w) = (true, e, w)

  ddl_of : Bytes → Bytes → World → Bool × Option ProcError × World
  unfolding creates drops create_proc drop_proc after_drop upper handled
  ddl_of db s w =
      if creates (upper s)
      then handled (create_proc db s w)
      else if drops (upper s)
      then handled (drop_proc db (after_drop s (codes "PROCEDURE" ∷ codes "PROC" ∷ [])) w)
      else (false, none, w)

  -- `HandleDDL`: whether it was one, the error, and the state behind it
  unfoldable pub handle_ddl : Bytes → Bytes → World → Bool × Option ProcError × World
  unfolding ddl_of trim_space trim_last
  handle_ddl db sql w = ddl_of db (trim_space (trim_last b';' (trim_space sql))) w

  is_proc : RoutineKind → Bool
  is_proc routine_proc = true
  is_proc _ = false

  exec_found :
      List (Arg Other) → (ProcError ⊎ Option Routine) × World → (ProcError ⊎ Option Rows) × World
  unfolding is_proc substitute_params
  exec_found args (inl e, w) = (inl e, w)
  exec_found args (inr none, w) = (inr none, w)
  exec_found args (inr (some r), w) =
      if is_proc r.kind
      then (let (rows, w') = backend.exec (substitute_params f r args) w in (inr (some rows), w'))
      else (inr none, w)

  -- `ExecProc`; none where the name is no stored procedure, and an error of the runner is among the rows
  unfoldable pub exec_proc : Bytes → List (Arg Other) → World → (ProcError ⊎ Option Rows) × World
  unfolding exec_found
  exec_proc name args w = exec_found args (backend.get_routine backend.current_db name w)
