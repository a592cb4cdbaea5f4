-- ===== src/Exec/Join/Rows.antt =====
-- internal/exec/join.go: the rows of a join, said without loops and flags.
use haystak_tds_spi.Base.{
  ℕ, ◌≡◌, refl, sym, ap, ◌∙◌, inl, inr, Bool, true, false, not, ◌&&◌, ◌||◌, List, [], ◌∷◌, ◌++◌,
  map, append_assoc, arith, if◌then◌else◌, Bool-cases, replicate,
}
use haystak_tds_spi.Base.Result.{Result, ok}
use haystak_tds_spi.Exec.Join.{
  JoinType, keeps_left, keeps_right, match_right, padded_left, padded_right, join_loop, join,
  keep_if,
}

module _ {V : Type 0} (p : List V → Bool) where
  -- The combined rows of a left row that satisfy the condition, and whether there are any.
  pub matching : List V → List (List V) → List (List V)
  matching lr [] = []
  matching lr (rr ∷ rrows) =
      let rest = matching lr rrows in if p (lr ++ rr) then (lr ++ rr) ∷ rest else rest

  pub any_match : List V → List (List V) → Bool
  any_match lr [] = false
  any_match lr (rr ∷ rrows) = p (lr ++ rr) || any_match lr rrows

  -- Whether a right row has a left partner.
  pub has_left : List (List V) → List V → Bool
  has_left [] rr = false
  has_left (lr ∷ lrows) rr = p (lr ++ rr) || has_left lrows rr

  module _ (null : V) (jt : JoinType) (lwidth rwidth : ℕ) (rrows : List (List V)) where
    -- The rows of the left: each with its matches, or padded if it has none and the join keeps it.
    pub left_rows : List (List V) → List (List V)
    left_rows [] = []
    left_rows (lr ∷ lrows) =
        matching lr rrows
        ++ ((if not (any_match lr rrows) && keeps_left jt
              then (lr ++ replicate rwidth null) ∷ []
              else [])
            ++ left_rows lrows)

    -- The rows of the right that have no partner, padded.
    pub lonely_right : List (List V) → List (List V) → List (List V)
    lonely_right lrows [] = []
    lonely_right lrows (rr ∷ rest) =
        let more = lonely_right lrows rest in
        if has_left lrows rr then more else (replicate lwidth null ++ rr) ∷ more

or_true : (b : Bool) → (b || true) ≡ true
or_true b = ground arith

or_false : (b : Bool) → (b || false) ≡ b
or_false b = ground arith

or_assoc : (a b c : Bool) → ((a || b) || c) ≡ (a || (b || c))
or_assoc a b c = ground arith

module _ {V E : Type 0} (on : List V → Result E Bool) (p : List V → Bool)
    (pure : (r : List V) → on r ≡ ok (p r)) where
  match_right_lem :
      (lr : List V) (rrows : List (List V)) (f : List V → Bool)
      → match_right on lr rrows (map f rrows)
        ≡ ok (record {
          rows = matching p lr rrows;
          matched = any_match p lr rrows;
          flags = map (λ (rr : List V). f rr || p (lr ++ rr)) rrows;
        })
  unfolding match_right keep_if matching any_match
  match_right_lem lr [] f = refl
  match_right_lem lr (rr ∷ rrows) f =
      rw (pure (lr ++ rr), match_right_lem lr rrows f)
        (elim (Bool-cases (p (lr ++ rr))) [
          | inl hit ↦ rw (hit, or_true (f rr)) refl
          | inr miss ↦ rw (miss, or_false (f rr)) refl
        ])

  module _ (null : V) (jt : JoinType) (lwidth rwidth : ℕ) (rrows : List (List V)) where
    right_rows : (List V → Bool) → List (List V)
    right_rows f =
        if keeps_right jt
        then padded_right on null jt lwidth rwidth rrows rrows (map f rrows)
        else []

    join_loop_lem :
        (lrows : List (List V)) (f : List V → Bool)
        → join_loop on null jt lwidth rwidth rrows lrows (map f rrows)
          ≡ ok (
              left_rows p null jt lwidth rwidth rrows lrows
              ++ right_rows (λ rr. f rr || has_left p lrows rr))
    unfolding join_loop padded_left left_rows has_left right_rows
    join_loop_lem [] f =
        ap (λ (g : List V → Bool). ok (right_rows g)) (λ i rr. sym (or_false (f rr)) i)
    join_loop_lem (lr ∷ lrows) f =
        rw (match_right_lem lr rrows f, join_loop_lem lrows (λ (rr : List V). f rr || p (lr ++ rr)))
          (regroup (matching p lr rrows)
              (padded_left on null jt lwidth rwidth rrows lr (any_match p lr rrows))
              (left_rows p null jt lwidth rwidth rrows lrows)
              (right_rows (λ rr. (f rr || p (lr ++ rr)) || has_left p lrows rr))
            ∙ ap
                (λ (g : List V → Bool).
                  ok (left_rows p null jt lwidth rwidth rrows (lr ∷ lrows) ++ right_rows g))
                (λ i rr. or_assoc (f rr) (p (lr ++ rr)) (has_left p lrows rr) i))
      where
        regroup :
            (a b c d : List (List V))
            → ◌≡◌ {A = Result E (List (List V))}
                (ok (a ++ (b ++ (c ++ d))))
                (ok ((a ++ (b ++ c)) ++ d))
        regroup a b c d = ap ok (
            sym
              (append_assoc a (b ++ c) d ∙ ap (λ (x : List (List V)). a ++ x) (append_assoc b c d)))

    lonely :
        (lrows rest : List (List V))
        → padded_right on null jt lwidth rwidth rrows rest (map (has_left p lrows) rest)
          ≡ lonely_right p null jt lwidth rwidth rrows lrows rest
    unfolding padded_right lonely_right
    lonely lrows [] = refl
    lonely lrows (rr ∷ rest) = rw (lonely lrows rest) refl

-- Where the ON clause does not fail, `Join` gives the left rows in order, each with its matches in
-- order of the right rows, padded where it has none and the join keeps the left; then, where the
-- join keeps the right, the right rows without a partner, padded, each of them once.
pub join-left_rows :
    {V E : Type 0} (on : List V → Result E Bool) (p : List V → Bool) (null : V) (jt : JoinType)
    (lwidth rwidth : ℕ) (lrows rrows : List (List V))
    → ((r : List V) → on r ≡ ok (p r))
    → join on null jt lwidth rwidth rrows lrows
      ≡ ok (
          left_rows p null jt lwidth rwidth rrows lrows
          ++ (if keeps_right jt
              then lonely_right p null jt lwidth rwidth rrows lrows rrows
              else []))
unfolding join right_rows
join-left_rows on p null jt lwidth rwidth lrows rrows pure =
    join_loop_lem on p pure null jt lwidth rwidth rrows lrows (λ rr. false)
    ∙ ap
        (λ (x : List (List _)).
          ok (left_rows p null jt lwidth rwidth rrows lrows ++ (if keeps_right jt then x else [])))
        (lonely on p pure null jt lwidth rwidth rrows lrows rrows)
