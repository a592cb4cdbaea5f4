-- ===== src/Exec/Truth.antt =====
-- internal/exec/truth.go: SQL's three truth values, and `evalTruth` of a predicate tree. The leaves
-- are the caller's, as in the code.
pub mod Kleene
use haystak_tds_spi.Base.{
  ℕ, zero, suc, ◌+◌, ◌-◌, ◌*◌, ◌/◌, ◌%◌, ◌^◌, ◌≤◌, ◌<◌, min, ◌≡◌, refl, sym, ap, ◌∙◌, subst, ◌≢◌,
  ◌↔◌, ◌⊎◌, inl, inr, Bool, true, false, not, ◌&&◌, ◌||◌, Option, none, some, List, [], ◌∷◌, ◌++◌,
  map, append_assoc, append-nil, arith, ltb, leb, ◌==◌, if◌then◌else◌, ltb→lt, lt→ltb, leb→le,
  le→leb, ltb_false→le, leb_false→lt, le→ltb_false, ==_iff, ==_refl, Bool-cases, Option-cases,
  length, get_elem?, get_or, take, drop, replicate, length-append, take-append-drop, length-take,
  length-drop, take_append, drop_append, take_all, drop_all, drop-drop, length-replicate,
  length-map, Bytes, All, IsBytes, codes, All-append,
}
use haystak_tds_spi.Base.Result.{
  Result, ok, err, panic, no_fuel, ◌>>=◌, ◌>>◌, Returns, Yields, bind-eq-ok, Returns-bind,
}

pub data Truth : Type 0 where
  truth_false truth_true truth_unknown : Truth

-- `truthOf`
abbrev pub truth_of : Bool → Truth
truth_of b = if b then truth_true else truth_false

-- the method `not`
abbrev pub negate : Truth → Truth
negate truth_true = truth_false
negate truth_false = truth_true
negate truth_unknown = truth_unknown

-- `tds.Expr`, by the first of its fields that is set: `always` has none, or is nil
mutual
  pub data Expr (P : Type 0) : Type 0 where
    always : Expr P
    constant : Bool → Expr P
    pred : P → Expr P
    negation : Expr P → Expr P
    all_of : Expr P → Exprs P → Expr P
    any_of : Expr P → Exprs P → Expr P

  pub data Exprs (P : Type 0) : Type 0 where
    none_left : Exprs P
    more : Expr P → Exprs P → Exprs P

-- what AND does with the value of one operand, `out` being what it has so far: the end of the
-- loop, or the new `out`
and_step : {E : Type 0} → Truth → (Truth → Result E Truth) → Truth → Result E Truth
and_step out continue truth_false = ok truth_false
and_step out continue truth_unknown = continue truth_unknown
and_step out continue truth_true = continue out

or_step : {E : Type 0} → Truth → (Truth → Result E Truth) → Truth → Result E Truth
or_step out continue truth_true = ok truth_true
or_step out continue truth_unknown = continue truth_unknown
or_step out continue truth_false = continue out

module _ {P E : Type 0} (leaf : P → Result E Truth) where
  mutual
    -- `evalTruth`
    pub eval_truth : Expr P → Result E Truth
    eval_truth always = ok truth_true
    eval_truth (constant b) = ok (truth_of b)
    eval_truth (pred p) = leaf p
    eval_truth (negation e) = do t ← eval_truth e; ok (negate t)
    eval_truth (all_of e es) = eval_truth e >>= and_step truth_true (eval_and es)
    eval_truth (any_of e es) = eval_truth e >>= or_step truth_false (eval_or es)

    -- the loops of AND and OR over the operands that are left
    eval_and : Exprs P → Truth → Result E Truth
    eval_and none_left out = ok out
    eval_and (more e es) out = eval_truth e >>= and_step out (eval_and es)

    eval_or : Exprs P → Truth → Result E Truth
    eval_or none_left out = ok out
    eval_or (more e es) out = eval_truth e >>= or_step out (eval_or es)
