-- ===== src/Exec/Truth/Kleene.antt =====
-- internal/exec/truth.go: `evalTruth` against Kleene's three-valued logic.
use haystak_tds_spi.Base.{
  ℕ, zero, suc, ◌-◌, true, false, ◌≡◌, refl, ap, ◌∙◌, ◌≢◌, ltb, if◌then◌else◌,
}
use haystak_tds_spi.Base.Result.{Result, ok}
use haystak_tds_spi.Exec.Truth.{
  Truth, truth_false, truth_true, truth_unknown, negate, Expr, Exprs, always, constant, pred,
  negation, all_of, any_of, none_left, more, and_step, or_step, eval_truth, eval_and, eval_or,
}

-- The truth values in the order false, unknown, true: AND is the least, OR the greatest.
pub rank : Truth → ℕ
rank truth_false = 0
rank truth_unknown = 1
rank truth_true = 2

pub conj : Truth → Truth → Truth
unfolding rank
conj a b = if ltb (rank a) (rank b) then a else b

pub disj : Truth → Truth → Truth
unfolding rank
disj a b = if ltb (rank a) (rank b) then b else a

-- The truth value of a rank, and NOT: the value as far from the other end of the order.
unfoldable pub of_rank : ℕ → Truth
of_rank zero = truth_false
of_rank (suc zero) = truth_unknown
of_rank (suc (suc n)) = truth_true

unfoldable pub opposite : Truth → Truth
unfolding of_rank rank
opposite t = of_rank (2 - rank t)

negate-opposite : (t : Truth) → negate t ≡ opposite t
unfolding opposite
negate-opposite truth_false = refl
negate-opposite truth_true = refl
negate-opposite truth_unknown = refl

module _ {P : Type 0} (v : P → Truth) where
  mutual
    -- The value of a tree, every operand evaluated.
    pub kleene : Expr P → Truth
    kleene always = truth_true
    kleene (constant true) = truth_true
    kleene (constant false) = truth_false
    kleene (pred p) = v p
    kleene (negation e) = opposite (kleene e)
    kleene (all_of e es) = conj (kleene e) (kleene_all es)
    kleene (any_of e es) = disj (kleene e) (kleene_any es)

    kleene_all : Exprs P → Truth
    kleene_all none_left = truth_true
    kleene_all (more e es) = conj (kleene e) (kleene_all es)

    kleene_any : Exprs P → Truth
    kleene_any none_left = truth_false
    kleene_any (more e es) = disj (kleene e) (kleene_any es)

-- A fact of two truth values, checked at the nine pairs.
at_pairs :
    (Q : Truth → Truth → Type 0)
    → Q truth_false truth_false
    → Q truth_false truth_true
    → Q truth_false truth_unknown
    → Q truth_true truth_false
    → Q truth_true truth_true
    → Q truth_true truth_unknown
    → Q truth_unknown truth_false
    → Q truth_unknown truth_true
    → Q truth_unknown truth_unknown
    → (a b : Truth) → Q a b
at_pairs Q a b c d e f g h i truth_false truth_false = a
at_pairs Q a b c d e f g h i truth_false truth_true = b
at_pairs Q a b c d e f g h i truth_false truth_unknown = c
at_pairs Q a b c d e f g h i truth_true truth_false = d
at_pairs Q a b c d e f g h i truth_true truth_true = e
at_pairs Q a b c d e f g h i truth_true truth_unknown = f
at_pairs Q a b c d e f g h i truth_unknown truth_false = g
at_pairs Q a b c d e f g h i truth_unknown truth_true = h
at_pairs Q a b c d e f g h i truth_unknown truth_unknown = i

conj_false : (out rest : Truth) → truth_false ≡ conj out (conj truth_false rest)
unfolding conj
conj_false =
    at_pairs (λ out rest. truth_false ≡ conj out (conj truth_false rest)) refl refl refl refl refl
      refl refl refl refl

conj_true : (out rest : Truth) → conj out rest ≡ conj out (conj truth_true rest)
unfolding conj
conj_true =
    at_pairs (λ out rest. conj out rest ≡ conj out (conj truth_true rest)) refl refl refl refl refl
      refl refl refl refl

conj_unknown :
    (out rest : Truth)
    → out ≢ truth_false
    → conj truth_unknown rest ≡ conj out (conj truth_unknown rest)
unfolding conj
conj_unknown =
    at_pairs
      (λ out rest. out ≢ truth_false → conj truth_unknown rest ≡ conj out (conj truth_unknown rest))
      (λ h. absurd (h refl)) (λ h. absurd (h refl)) (λ h. absurd (h refl)) (λ h. refl) (λ h. refl)
      (λ h. refl) (λ h. refl) (λ h. refl) (λ h. refl)

disj_true : (out rest : Truth) → truth_true ≡ disj out (disj truth_true rest)
unfolding disj
disj_true =
    at_pairs (λ out rest. truth_true ≡ disj out (disj truth_true rest)) refl refl refl refl refl
      refl refl refl refl

disj_false : (out rest : Truth) → disj out rest ≡ disj out (disj truth_false rest)
unfolding disj
disj_false =
    at_pairs (λ out rest. disj out rest ≡ disj out (disj truth_false rest)) refl refl refl refl refl
      refl refl refl refl

disj_unknown :
    (out rest : Truth)
    → out ≢ truth_true
    → disj truth_unknown rest ≡ disj out (disj truth_unknown rest)
unfolding disj
disj_unknown =
    at_pairs
      (λ out rest. out ≢ truth_true → disj truth_unknown rest ≡ disj out (disj truth_unknown rest))
      (λ h. refl) (λ h. refl) (λ h. refl) (λ h. absurd (h refl)) (λ h. absurd (h refl))
      (λ h. absurd (h refl)) (λ h. refl) (λ h. refl) (λ h. refl)

-- One operand of AND, before others that come to `rest`; and one of OR.
and_step-conj :
    {E : Type 0} (out t rest : Truth) (continue : Truth → Result E Truth)
    → out ≢ truth_false
    → ((o : Truth) → o ≢ truth_false → continue o ≡ ok (conj o rest))
    → and_step out continue t ≡ ok (conj out (conj t rest))
unfolding and_step
and_step-conj out truth_unknown rest continue h k =
    k truth_unknown (λ e. cc) ∙ ap ok (conj_unknown out rest h)
and_step-conj out truth_true rest continue h k = k out h ∙ ap ok (conj_true out rest)
and_step-conj out truth_false rest continue h k = ap ok (conj_false out rest)

or_step-disj :
    {E : Type 0} (out t rest : Truth) (continue : Truth → Result E Truth)
    → out ≢ truth_true
    → ((o : Truth) → o ≢ truth_true → continue o ≡ ok (disj o rest))
    → or_step out continue t ≡ ok (disj out (disj t rest))
unfolding or_step
or_step-disj out truth_unknown rest continue h k =
    k truth_unknown (λ e. cc) ∙ ap ok (disj_unknown out rest h)
or_step-disj out truth_false rest continue h k = k out h ∙ ap ok (disj_false out rest)
or_step-disj out truth_true rest continue h k = ap ok (disj_true out rest)

conj_top : (a : Truth) → conj truth_true a ≡ a
unfolding conj
conj_top truth_false = refl
conj_top truth_true = refl
conj_top truth_unknown = refl

conj_end : (a : Truth) → a ≡ conj a truth_true
unfolding conj
conj_end truth_false = refl
conj_end truth_true = refl
conj_end truth_unknown = refl

disj_bottom : (a : Truth) → disj truth_false a ≡ a
unfolding disj
disj_bottom truth_false = refl
disj_bottom truth_true = refl
disj_bottom truth_unknown = refl

disj_end : (a : Truth) → a ≡ disj a truth_false
unfolding disj
disj_end truth_false = refl
disj_end truth_true = refl
disj_end truth_unknown = refl

module _ {P E : Type 0} (leaf : P → Result E Truth) (v : P → Truth)
    (pure : (p : P) → leaf p ≡ ok (v p)) where
  mutual
    unfolding eval_truth kleene eval_and kleene_all eval_or kleene_any

    eval_truth_lem : (e : Expr P) → eval_truth leaf e ≡ ok (kleene v e)
    eval_truth_lem always = refl
    eval_truth_lem (constant true) = refl
    eval_truth_lem (constant false) = refl
    eval_truth_lem (pred p) = pure p
    eval_truth_lem (negation e) = rw (eval_truth_lem e) (ap ok (negate-opposite (kleene v e)))
    eval_truth_lem (all_of e es) = rw (eval_truth_lem e) (
        and_step-conj truth_true (kleene v e) (kleene_all v es) (eval_and leaf es) (λ h. cc)
          (eval_and_lem es)
        ∙ ap ok (conj_top (conj (kleene v e) (kleene_all v es))))
    eval_truth_lem (any_of e es) = rw (eval_truth_lem e) (
        or_step-disj truth_false (kleene v e) (kleene_any v es) (eval_or leaf es) (λ h. cc)
          (eval_or_lem es)
        ∙ ap ok (disj_bottom (disj (kleene v e) (kleene_any v es))))

    eval_and_lem :
        (es : Exprs P) (out : Truth)
        → out ≢ truth_false
        → eval_and leaf es out ≡ ok (conj out (kleene_all v es))
    eval_and_lem none_left out h = ap ok (conj_end out)
    eval_and_lem (more e es) out h =
        rw (eval_truth_lem e)
          (and_step-conj out (kleene v e) (kleene_all v es) (eval_and leaf es) h (eval_and_lem es))

    eval_or_lem :
        (es : Exprs P) (out : Truth)
        → out ≢ truth_true
        → eval_or leaf es out ≡ ok (disj out (kleene_any v es))
    eval_or_lem none_left out h = ap ok (disj_end out)
    eval_or_lem (more e es) out h =
        rw (eval_truth_lem e)
          (or_step-disj out (kleene v e) (kleene_any v es) (eval_or leaf es) h (eval_or_lem es))

-- Where no leaf fails, `evalTruth` gives the value of the tree in Kleene's logic, AND the least of its
-- operands, OR the greatest and NOT the value at the same distance from the other end, though it stops at the first that decides.
pub eval_truth-kleene :
    {P E : Type 0} (leaf : P → Result E Truth) (v : P → Truth) (e : Expr P)
    → ((p : P) → leaf p ≡ ok (v p))
    → eval_truth leaf e ≡ ok (kleene v e)
eval_truth-kleene leaf v e pure = eval_truth_lem leaf v pure e
