-- ===== src/Exec/Join.antt =====
-- internal/exec/join.go: `Join`, a nested loop. `on` is the evaluation of the ON clause on a combined
-- row, always true where there is none; `null` is nil.
pub mod Rows
use haystak_tds_spi.Base.{
  ℕ, zero, suc, ◌+◌, ◌-◌, ◌*◌, ◌/◌, ◌%◌, ◌^◌, ◌≤◌, ◌<◌, min, ◌≡◌, refl, sym, ap, ◌∙◌, subst, ◌≢◌,
  ◌↔◌, ◌⊎◌, inl, inr, Bool, true, false, not, ◌&&◌, ◌||◌, Option, none, some, List, [], ◌∷◌, ◌++◌,
  map, append_assoc, append-nil, arith, ltb, leb, ◌==◌, if◌then◌else◌, ltb→lt, lt→ltb, leb→le,
  le→leb, ltb_false→le, leb_false→lt, le→ltb_false, ==_iff, ==_refl, Bool-cases, Option-cases,
  length, get_elem?, get_or, take, drop, replicate, length-append, take-append-drop, length-take,
  length-drop, take_append, drop_append, take_all, drop_all, drop-drop, length-replicate,
  length-map, Bytes, All, IsBytes, codes, All-append,
}
use haystak_tds_spi.Base.Result.{
  Result, ok, err, panic, no_fuel, ◌>>=◌, ◌>>◌, Returns, Yields, bind-eq-ok, Returns-bind,
}

-- `tds.JoinType`, of those that `Join` is called with
pub data JoinType : Type 0 where
  join_inner join_left join_right join_full join_cross : JoinType

abbrev pub keeps_left : JoinType → Bool
keeps_left join_left = true
keeps_left join_full = true
keeps_left _ = false

abbrev pub keeps_right : JoinType → Bool
keeps_right join_right = true
keeps_right join_full = true
keeps_right _ = false

-- what the inner loop leaves: the rows appended, `matched`, and `rightMatched`
pub record Matches (V : Type 0) : Type 0 where
  pub rows : List (List V)
  pub matched : Bool
  pub flags : List Bool

module _ {V E : Type 0} (on : List V → Result E Bool) where
  keep_if : Bool → List V → Bool → Matches V → Matches V
  keep_if true combined flag m = record {
    rows = combined ∷ m.rows;
    matched = true;
    flags = true ∷ m.flags;
  }
  keep_if false combined flag m = record {
    rows = m.rows;
    matched = m.matched;
    flags = flag ∷ m.flags;
  }

  -- the inner loop, over the right rows and their flags
  unfoldable pub match_right : List V → List (List V) → List Bool → Result E (Matches V)
  unfolding keep_if
  match_right lr (rr ∷ rrows) (flag ∷ flags) = do
    keep ← on (lr ++ rr)
    m ← match_right lr rrows flags
    ok (keep_if keep (lr ++ rr) flag m)
  match_right lr _ _ = ok (record { rows = []; matched = false; flags = [] })

  module _ (null : V) (jt : JoinType) (lwidth rwidth : ℕ) (rrows : List (List V)) where
    -- the row that an outer join adds for a left row without a match
    padded_left : List V → Bool → List (List V)
    padded_left lr matched =
        if not matched && keeps_left jt then (lr ++ replicate rwidth null) ∷ [] else []

    -- the last loop: the right rows without a match
    padded_right : List (List V) → List Bool → List (List V)
    padded_right (rr ∷ rrows) (flag ∷ flags) =
        let rest = padded_right rrows flags in
        if flag then rest else (replicate lwidth null ++ rr) ∷ rest
    padded_right _ _ = []

    -- the outer loop, and what follows it
    unfoldable pub join_loop : List (List V) → List Bool → Result E (List (List V))
    unfolding match_right padded_left padded_right
    join_loop [] flags = ok (if keeps_right jt then padded_right rrows flags else [])
    join_loop (lr ∷ lrows) flags = do
      m ← match_right lr rrows flags
      rest ← join_loop lrows m.flags
      ok (m.rows ++ (padded_left lr m.matched ++ rest))

    -- `Join`; the columns are the left ones and then the right ones
    unfoldable pub join : List (List V) → Result E (List (List V))
    unfolding join_loop
    join lrows = join_loop lrows (map (λ (r : List V). false) rrows)
