-- ===== src/Wire/Rpc.antt =====
-- internal/wire/rpc.go: an RPC request as the SQL text that the engine runs. `sp_executesql` has the
-- values of its parameters written into its statement; any other procedure becomes an EXEC.
-- `sort.Slice` over the keys of a map is the parameter `arrange`: it is not stable and Go's order of
-- iteration is any, so nothing more is known of it than that longer names come first.
pub mod Cursor
pub mod Params
pub mod Numbers
pub mod RoundTrip
pub mod Values
pub mod Statements
mod Tests
use haystak_tds_spi.Base.{
  ℕ, zero, suc, ◌+◌, ◌-◌, ◌*◌, ◌/◌, ◌%◌, ◌^◌, ◌≤◌, ◌<◌, min, ◌≡◌, refl, sym, ap, ◌∙◌, subst, ◌≢◌,
  ◌↔◌, ◌⊎◌, inl, inr, Bool, true, false, not, ◌&&◌, ◌||◌, Option, none, some, List, [], ◌∷◌, ◌++◌,
  map, append_assoc, append-nil, arith, ltb, leb, ◌==◌, if◌then◌else◌, ltb→lt, lt→ltb, leb→le,
  le→leb, ltb_false→le, leb_false→lt, le→ltb_false, ==_iff, ==_refl, Bool-cases, Option-cases,
  length, get_elem?, get_or, take, drop, replicate, length-append, take-append-drop, length-take,
  length-drop, take_append, drop_append, take_all, drop_all, drop-drop, length-replicate,
  length-map, Bytes, All, IsBytes, codes, All-append,
}
use haystak_tds_spi.Base.Result.{Result, ok, err, panic, no_fuel}
use haystak_tds_spi.Base.Slices.{slice}
use haystak_tds_spi.Base.Dict.{Dict, bytes_eq, lookup, insert}
use haystak_tds_spi.Go.Binary.{le_value}
use haystak_tds_spi.Go.Floats.{FloatOps}
use haystak_tds_spi.Go.Fmt.{format_int}
use haystak_tds_spi.Go.Strings.{replace_all, split, fields, trim_space, has_prefix, equal_fold}
use haystak_tds_spi.Go.Utf.{runes}
use haystak_tds_spi.Value.{Value, null, bool, int, str, other}
use haystak_tds_spi.Wire.Rpc.Cursor.{Read, ◌>>=◌, ◌>>◌, give, stop, u16, ucs2n}
use haystak_tds_spi.Wire.Rpc.Params.{RpcParam, param}

-- the payload behind its ALL_HEADERS block, as `DecodeRPC` and `DecodeSQLBatch` find it
unfoldable pub skip_headers : Bytes → Bytes
skip_headers payload =
    let total = le_value (take 4 payload) in
    if leb 4 (length payload) && (leb 4 total && leb total (length payload))
    then drop total payload
    else payload

abbrev proc_id_execute_sql : ℕ
proc_id_execute_sql = 10

-- the name of the procedure, not empty, and the OptionFlags behind it
unfoldable pub rpc_header : Read Bytes
unfolding ◌>>=◌ u16 ucs2n
rpc_header = do
  name_len ← u16
  proc ←
      if name_len == 0xFFFF
      then (do pid ← u16; give (if pid == proc_id_execute_sql then codes "sp_executesql" else []))
      else ucs2n name_len
  if length proc == 0 then stop else (do _ ← u16; give proc)

-- the text between the commas of a declaration list that begin with @
declared_name : List Bytes → List Bytes
unfolding has_prefix
declared_name [] = []
declared_name (f ∷ fs) = if has_prefix f (codes "@") then f ∷ [] else []

names_of : List Bytes → List Bytes
unfolding fields trim_space declared_name
names_of [] = []
names_of (part ∷ parts) = declared_name (fields (trim_space part)) ++ names_of parts

-- `declaredNames`
unfoldable pub declared_names : Bytes → List Bytes
unfolding split names_of
declared_names decls = names_of (split b',' decls)

module _ {Float : Type 0} (ops : FloatOps Float) where
  -- `sqlLiteral`
  unfoldable pub sql_literal : Value Float → Bytes
  unfolding replace_all format_int
  sql_literal null = codes "NULL"
  sql_literal (str x) = b'\'' ∷ (replace_all x (codes "'") (codes "''") ++ b'\'' ∷ [])
  sql_literal (int x) = format_int x
  sql_literal (other x) = ops.format_g x
  sql_literal (bool true) = codes "1"
  sql_literal (bool false) = codes "0"

  argument : RpcParam Float → Bytes
  unfolding sql_literal
  argument p = (if length p.name == 0 then [] else p.name ++ codes " = ") ++ sql_literal p.val

  arguments : Bytes → List (RpcParam Float) → Bytes
  unfolding argument
  arguments lead [] = []
  arguments lead (p ∷ params) = lead ++ (argument p ++ arguments (codes ", ") params)

  -- `rebuildExec`
  unfoldable pub rebuild_exec : Bytes → List (RpcParam Float) → Bytes
  unfolding arguments
  rebuild_exec proc params = codes "EXEC " ++ (proc ++ arguments (codes " ") params)

  -- the first of the declared names that are left
  first_name : List Bytes → Bytes
  first_name [] = []
  first_name (n ∷ ns) = n

  -- the loop over `values`, `names` being those from `i` on
  unfoldable pub replacements :
      List Bytes → List (RpcParam Float) → Dict Bytes (Value Float) → Dict Bytes (Value Float)
  unfolding first_name insert
  replacements names [] repl = repl
  replacements names (p ∷ values) repl =
      let key = if length p.name == 0 then first_name names else p.name in
      replacements (drop 1 names) values (if length key == 0 then repl else insert key p.val repl)

  -- `repl[k]`, nil where there is none
  value_at : Bytes → Dict Bytes (Value Float) → Value Float
  value_at k repl = elim (lookup k repl) [ none ↦ null | some v ↦ v ]

  -- the loop over the sorted keys
  unfoldable pub substitute : Dict Bytes (Value Float) → List Bytes → Bytes → Bytes
  unfolding value_at lookup sql_literal
  substitute repl [] out = out
  substitute repl (k ∷ keys) out =
      substitute repl keys (replace_all out k (sql_literal (value_at k repl)))

  module _ (arrange : List Bytes → List Bytes) where
    -- `expandParams`
    unfoldable pub expand_params : Bytes → Bytes → List (RpcParam Float) → Bytes
    unfolding declared_names replacements substitute
    expand_params stmt decls values =
        let repl = replacements (declared_names decls) values [] in
        substitute repl (arrange (map (λ (e : Bytes × Value Float). e.0) repl)) stmt

    -- `v.(string)`, "" where v is none
    text_of : Value Float → Bytes
    text_of (str s) = s
    text_of _ = []

    second_text : List (RpcParam Float) → Bytes
    unfolding text_of
    second_text [] = []
    second_text (p ∷ params) = text_of p.val

    -- the branch of `sp_executesql`; `params[2:]` panics where there is one parameter
    unfoldable pub execute_sql : List (RpcParam Float) → Result ⊥ (Option Bytes)
    unfolding second_text slice
    execute_sql [] = ok none
    execute_sql (p ∷ params) =
        let stmt = text_of p.val in
        if length stmt == 0
        then ok none
        else elim (slice {E = ⊥} (p ∷ params) 2 (length (p ∷ params))) [
          | ok values ↦ ok (some (expand_params stmt (second_text params) values))
          | err e ↦ err e
          | panic ↦ panic
          | no_fuel ↦ no_fuel
        ]

    next_param :
        (Bytes → List (RpcParam Float)) → Option (RpcParam Float) × Bytes → List (RpcParam Float)
    next_param more (none, c) = []
    next_param more (some p, c) = p ∷ more c

    -- the loop over the parameters, up to the first that is not read; each takes a byte at least
    unfoldable pub params_loop : ℕ → Bytes → List (RpcParam Float)
    unfolding next_param param
    params_loop zero c = []
    params_loop (suc fuel) [] = []
    params_loop (suc fuel) (b ∷ c) = next_param (params_loop fuel) (param ops (b ∷ c))

    finish : Option Bytes × Bytes → Result ⊥ (Option Bytes)
    unfolding params_loop execute_sql rebuild_exec equal_fold runes
    finish (none, c) = ok none
    finish (some proc, c) =
        let params = params_loop (length c) c in
        if equal_fold (runes proc) (codes "sp_executesql")
        then execute_sql params
        else ok (some (rebuild_exec proc params))

    -- `DecodeRPC`
    unfoldable pub decode_rpc : Bytes → Result ⊥ (Option Bytes)
    unfolding skip_headers rpc_header finish
    decode_rpc payload = finish (rpc_header (skip_headers payload))
