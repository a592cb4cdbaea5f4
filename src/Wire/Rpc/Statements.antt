-- ===== src/Wire/Rpc/Statements.antt =====
-- internal/wire/rpc.go: what `sp_executesql` makes of its parameters.
use haystak_tds_spi.Base.{
  suc, ◌-◌, ◌≡◌, refl, ap, ◌∙◌, inl, inr, true, false, List, [], ◌∷◌, ◌++◌, map, append_assoc,
  arith, ◌==◌, ==_refl, Bool-cases, length, Bytes,
}
use haystak_tds_spi.Base.Result.{panic, Returns}
use haystak_tds_spi.Base.Slices.{slice_ok}
use haystak_tds_spi.Base.Dict.{bytes_eq}
use haystak_tds_spi.Go.Floats.{FloatOps}
use haystak_tds_spi.Value.{Value, str}
use haystak_tds_spi.Wire.Rpc.{
  replacements, substitute, declared_names, execute_sql, expand_params, sql_literal, text_of,
}
use haystak_tds_spi.Batch.Substitute.Laws.{NoAt}
use haystak_tds_spi.Batch.Quotes.{NoQuotes}
use haystak_tds_spi.Batch.Declared.{quote}
use haystak_tds_spi.Procedures.Params.Replace.{NoAt-quoted, literal_between}
use haystak_tds_spi.Base.Dict.{bytes_beq, insert, lookup_two, bytes_eq}
use haystak_tds_spi.Go.Strings.{has_prefix, replace_from, replace_all}
use haystak_tds_spi.Wire.Rpc.Params.{RpcParam}

abbrev pub parameter : {Float : Type 0} → Bytes → Bytes → RpcParam Float
parameter name text = record { name = name; val = str text }

-- A request with a statement and no other parameter panics: `params[2:]` is out of range.
pub execute_sql-panic :
    {Float : Type 0} (ops : FloatOps Float) (arrange : List Bytes → List Bytes) (name stmt : Bytes)
    → (length stmt == 0) ≡ false
    → execute_sql ops arrange (parameter name stmt ∷ []) ≡ panic
unfolding execute_sql
execute_sql-panic ops arrange name stmt h = rw h refl

-- With two parameters or more it does not, whatever they are.
pub execute_sql-Returns :
    {Float : Type 0} (ops : FloatOps Float) (arrange : List Bytes → List Bytes)
    (p q : RpcParam Float) (params : List (RpcParam Float))
    → Returns (execute_sql ops arrange (p ∷ q ∷ params))
unfolding execute_sql
execute_sql-Returns ops arrange p q params =
    elim (Bool-cases (length (text_of ops arrange p.val) == 0)) [
      | inl none_ ↦ rw none_ tt
      | inr some_ ↦
          rw
            (
              some_,
              slice_ok {E = ⊥} (p ∷ q ∷ params) 2 (length (p ∷ q ∷ params)) (omega arith)
                  (omega arith),
            )
            tt
    ]

has_prefix_here : (name rest : Bytes) → has_prefix (name ++ rest) name ≡ true
unfolding has_prefix
has_prefix_here [] rest = refl
has_prefix_here (c ∷ name) rest = rw (==_refl c) (has_prefix_here name rest)

-- the bytes that belong to an occurrence are passed over
replace_from-skip :
    (old new passed rest : Bytes)
    → replace_from old new (length passed) (passed ++ rest) ≡ replace_from old new 0 rest
unfolding replace_from
replace_from-skip old new [] rest = refl
replace_from-skip old new (c ∷ passed) rest = replace_from-skip old new passed rest

replace_from-NoAt : (name new s : Bytes) → NoAt s → replace_from (b'@' ∷ name) new 0 s ≡ s
unfolding replace_from has_prefix
replace_from-NoAt name new [] n = refl
replace_from-NoAt name new (c ∷ s) n = rw n.0 (ap (λ t. c ∷ t) (replace_from-NoAt name new s n.1))

-- strings.ReplaceAll of the only name in a text
replace_all_only :
    (name new front rest : Bytes)
    → NoAt front
    → NoAt rest
    → replace_all (front ++ (b'@' ∷ (name ++ rest))) (b'@' ∷ name) new ≡ front ++ (new ++ rest)
unfolding replace_all
replace_all_only name new [] rest n m = rw (has_prefix_here name rest) (
    ap (λ t. new ++ t)
      (ap (λ n. replace_from (b'@' ∷ name) new n (name ++ rest)) one_less
        ∙ replace_from-skip (b'@' ∷ name) new name rest
        ∙ replace_from-NoAt name new rest m))
  where
    one_less : suc (length name) - 1 ≡ length name
    one_less = omega arith
replace_all_only name new (c ∷ front) rest n m =
    rw n.0 (ap (λ t. c ∷ t) (replace_all_only name new front rest n.1 m))

-- the statement behind both replacements
both_replaced :
    (a b lit front rest : Bytes)
    → NoQuotes b
    → NoAt front
    → NoAt rest
    → replace_all
        (replace_all (front ++ (b'@' ∷ (a ++ rest))) (b'@' ∷ a) (quote (b'@' ∷ b)))
        (b'@' ∷ b)
        lit
      ≡ front ++ (b'\'' ∷ (lit ++ b'\'' ∷ rest))
both_replaced a b lit front rest q n m =
    ap (λ t. replace_all t (b'@' ∷ b) lit)
      (replace_all_only a (quote (b'@' ∷ b)) front rest n m ∙ literal_between b front rest q)
    ∙ replace_all_only b lit (front ++ b'\'' ∷ []) (b'\'' ∷ rest) (NoAt-quoted front n) (refl, m)
    ∙ append_assoc front (b'\'' ∷ []) (lit ++ b'\'' ∷ rest)

some_name : (s : Bytes) → (length (b'@' ∷ s) == 0) ≡ false
some_name s = ground arith

-- what the parameters of these names are kept as
two_replacements :
    {Float : Type 0} (ops : FloatOps Float) (names : List Bytes) (a b v w : Bytes)
    → replacements ops names (parameter (b'@' ∷ a) v ∷ parameter (b'@' ∷ b) w ∷ []) []
      ≡ insert (b'@' ∷ b) (str w) (insert (b'@' ∷ a) (str v) [])
unfolding replacements
two_replacements ops names a b v w =
    rw (some_name a, some_name b) (rw (some_name a, some_name b) refl)

-- A statement with one parameter in it, whose value is the name of a parameter that is replaced
-- after it: the literal of that one, whatever it is, is written inside the quotes of the first, so
-- that its text stands outside of them. So it is for any two names that differ, the second free of
-- quotes, and any statement with the first name in it once and no other `@`.
pub expand_params_nested :
    {Float : Type 0} (ops : FloatOps Float) (arrange : List Bytes → List Bytes)
    (decls a b v front rest : Bytes)
    → arrange ((b'@' ∷ a) ∷ (b'@' ∷ b) ∷ []) ≡ (b'@' ∷ a) ∷ (b'@' ∷ b) ∷ []
    → bytes_beq (b'@' ∷ a) (b'@' ∷ b) ≡ false
    → NoQuotes b
    → NoAt front
    → NoAt rest
    → expand_params ops arrange
        (front ++ (b'@' ∷ (a ++ rest)))
        decls
        (parameter (b'@' ∷ a) (b'@' ∷ b) ∷ parameter (b'@' ∷ b) v ∷ [])
      ≡ front ++ (b'\'' ∷ (sql_literal ops (str v) ++ b'\'' ∷ rest))
unfolding expand_params sql_literal quote
expand_params_nested {Float = Float} ops arrange decls a b v front rest h d q n m =
    let (seen, other) =
      lookup_two {V = Value Float} (b'@' ∷ a) (b'@' ∷ b) (str (b'@' ∷ b)) (str v) d in
    let stmt = front ++ (b'@' ∷ (a ++ rest)) in
    let repl = insert (b'@' ∷ b) (str v) (insert (b'@' ∷ a) (str (b'@' ∷ b)) []) in
    ap (λ r. substitute ops r (arrange (map (λ (e : Bytes × Value Float). e.0) r)) stmt)
      (two_replacements ops (declared_names decls) a b (b'@' ∷ b) v)
    ∙ ap (λ ks. substitute ops repl ks stmt) (keys ∙ h)
    ∙ unfold substitute in rw (seen, other) (both_replaced a b (quote v) front rest q n m)
  where
    keys :
        arrange (
          map
            (λ (e : Bytes × Value Float). e.0)
            (insert (b'@' ∷ b) (str v) (insert (b'@' ∷ a) (str (b'@' ∷ b)) [])))
        ≡ arrange ((b'@' ∷ a) ∷ (b'@' ∷ b) ∷ [])
    keys = unfold insert in rw d refl
