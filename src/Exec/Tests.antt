-- ===== src/Exec/Tests.antt =====
-- A predicate with an unknown leaf, and a full join of two small tables.
use haystak_tds_spi.Base.{
  ℕ, zero, suc, ◌≡◌, refl, Bool, false, List, [], ◌∷◌, ◌++◌, ◌==◌, if◌then◌else◌,
}
use haystak_tds_spi.Base.Result.{ok}
use haystak_tds_spi.Exec.Truth.{
  Truth, truth_false, truth_unknown, Expr, all_of, pred, negation, more, none_left, eval_truth,
}
use haystak_tds_spi.Exec.Truth.Kleene.{kleene, eval_truth-kleene}
use haystak_tds_spi.Exec.Join.{join, join_full, keeps_right}
use haystak_tds_spi.Exec.Join.Rows.{left_rows, lonely_right, join-left_rows}

-- NOT (p0 AND p1), with p0 unknown and p1 false
abbrev leaf_value : ℕ → Truth
leaf_value zero = truth_unknown
leaf_value (suc n) = truth_false

abbrev predicate : Expr ℕ
predicate = negation (all_of (pred 0) (more (pred 1) none_left))

eval_truth-kleene_example :
    eval_truth {E = ⊥} (λ (n : ℕ). ok (leaf_value n)) predicate ≡ ok (kleene leaf_value predicate)
eval_truth-kleene_example =
    eval_truth-kleene {E = ⊥} (λ (n : ℕ). ok (leaf_value n)) leaf_value predicate (λ n. refl)

-- the two columns of a combined row are equal
abbrev same : List ℕ → Bool
same (a ∷ b ∷ []) = a == b
same _ = false

abbrev left : List (List ℕ)
left = (1 ∷ []) ∷ (2 ∷ []) ∷ []

abbrev right : List (List ℕ)
right = (2 ∷ []) ∷ (3 ∷ []) ∷ []

join-left_rows_example :
    join {E = ⊥} (λ (r : List ℕ). ok (same r)) 0 join_full 1 1 right left
    ≡ ok (
        left_rows same 0 join_full 1 1 right left
        ++ (if keeps_right join_full
            then lonely_right same 0 join_full 1 1 right left right
            else []))
join-left_rows_example =
    join-left_rows {E = ⊥} (λ (r : List ℕ). ok (same r)) same 0 join_full 1 1 left right (λ r. refl)

full_join :
    join {E = ⊥} (λ (r : List ℕ). ok (same r)) 0 join_full 1 1 right left
    ≡ ok ((1 ∷ 0 ∷ []) ∷ (2 ∷ 2 ∷ []) ∷ (0 ∷ 3 ∷ []) ∷ [])
unfolding join
full_join = refl
