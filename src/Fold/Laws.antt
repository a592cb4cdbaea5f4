-- ===== src/Fold/Laws.antt =====
-- internal/fold/fold.go: `Compare` against the comparison of folded keys of its comment, and as an
-- order.
use haystak_tds_spi.Base.{
  ℕ, ◌≡◌, refl, sym, ap, ◌∙◌, ◌≢◌, ◌↔◌, inl, inr, true, false, ◌&&◌, [], ◌∷◌, ◌++◌, arith, ltb, leb,
  if◌then◌else◌, Bool-cases, Bytes,
}
use haystak_tds_spi.Fold.{
  Order, less, equal, greater, lower, lower_all, key, pad, compare_padded, compare, equals,
}

-- strings.Compare: bytes in order, a prefix first.
abbrev pub strings_compare : Bytes → Bytes → Order
strings_compare [] [] = equal
strings_compare [] (b ∷ y) = less
strings_compare (a ∷ x) [] = greater
strings_compare (a ∷ x) (b ∷ y) =
    let rest = strings_compare x y in if ltb a b then less else if ltb b a then greater else rest

not_upper : (c : ℕ) → (leb b'A' c && leb c b'Z') ≡ false → lower c ≡ c
unfolding lower
not_upper c h = rw h refl

key-lower_all : (s : Bytes) → key s ≡ lower_all s
unfolding key lower_all
key-lower_all [] = refl
key-lower_all (c ∷ cs) = elim (Bool-cases (leb b'A' c && leb c b'Z')) [
  | inl capital ↦ rw capital refl
  | inr plain ↦ rw plain (λ i. sym (not_upper c plain) i ∷ key-lower_all cs i)
]

lower_all-append : (a b : Bytes) → lower_all (a ++ b) ≡ lower_all a ++ lower_all b
unfolding lower_all
lower_all-append [] b = refl
lower_all-append (c ∷ a) b = ap (λ s. lower c ∷ s) (lower_all-append a b)

pub key-append : (a b : Bytes) → key (a ++ b) ≡ key a ++ key b
key-append a b = rw (key-lower_all, key-lower_all, key-lower_all) (lower_all-append a b)

pub key_space : (s : Bytes) → key (b' ' ∷ s) ≡ b' ' ∷ key s
unfolding key
key_space s = refl

compare_padded-key :
    (a b : Bytes) → compare_padded a b ≡ strings_compare (lower_all a) (lower_all b)
unfolding compare_padded lower_all
compare_padded-key [] [] = refl
compare_padded-key [] (b ∷ y) = refl
compare_padded-key (a ∷ x) [] = refl
compare_padded-key (a ∷ x) (b ∷ y) = ground (arith, compare_padded-key x y)

-- `Compare(a, b)` is `strings.Compare(Key(Pad(a)), Key(Pad(b)))`.
pub compare-strings_compare :
    (a b : Bytes) → compare a b ≡ strings_compare (key (pad a)) (key (pad b))
unfolding compare
compare-strings_compare a b = compare_padded-key (pad a) (pad b) ∙ λ i.
    strings_compare (sym (key-lower_all (pad a)) i) (sym (key-lower_all (pad b)) i)

strings_compare_refl : (s : Bytes) → strings_compare s s ≡ equal
strings_compare_refl [] = refl
strings_compare_refl (c ∷ s) = ground (arith, strings_compare_refl s)

eq_of_strings_compare : (a b : Bytes) → strings_compare a b ≡ equal → a ≡ b
eq_of_strings_compare [] [] h = refl
eq_of_strings_compare [] (b ∷ y) h = cc
eq_of_strings_compare (a ∷ x) [] h = cc
eq_of_strings_compare (a ∷ x) (b ∷ y) h = ground (arith, eq_of_strings_compare x y)

-- `Equal` holds exactly where the strings have one key after padding.
pub equals_iff : (a b : Bytes) → (equals a b ≡ true) ↔ (key (pad a) ≡ key (pad b))
unfolding equals
equals_iff a b = (
  λ h. eq_of_strings_compare _ _ (sym (compare-strings_compare a b) ∙ by_order (compare a b) h),
  λ e.
      rw
        (
          compare-strings_compare a b
              ∙ ap (λ k. strings_compare k (key (pad b))) e
              ∙ strings_compare_refl (key (pad b)),
          equals,
        )
        refl,
)
  where
    by_order : (o : Order) → (elim o [ equal ↦ true | _ ↦ false ]) ≡ true → o ≡ equal
    by_order equal h = refl
    by_order less h = cc
    by_order greater h = cc

abbrev pub flip : Order → Order
flip less = greater
flip equal = equal
flip greater = less

strings_compare-flip : (a b : Bytes) → strings_compare b a ≡ flip (strings_compare a b)
strings_compare-flip [] [] = refl
strings_compare-flip [] (b ∷ y) = refl
strings_compare-flip (a ∷ x) [] = refl
strings_compare-flip (a ∷ x) (b ∷ y) = ground (arith, strings_compare-flip x y)

strings_compare_trans :
    (a b c : Bytes)
    → strings_compare a b ≢ greater
    → strings_compare b c ≢ greater
    → strings_compare a c ≢ greater
strings_compare_trans [] [] c h k = k
strings_compare_trans [] (b ∷ y) [] h k = absurd (k refl)
strings_compare_trans [] (b ∷ y) (c ∷ z) h k = λ e. cc
strings_compare_trans (a ∷ x) [] c h k = absurd (h refl)
strings_compare_trans (a ∷ x) (b ∷ y) [] h k = k
strings_compare_trans (a ∷ x) (b ∷ y) (c ∷ z) h k = ground (arith, strings_compare_trans x y z)

-- Swapping the arguments of `Compare` negates its result.
pub compare-flip : (a b : Bytes) → compare b a ≡ flip (compare a b)
compare-flip a b =
    compare-strings_compare b a
    ∙ strings_compare-flip (key (pad a)) (key (pad b))
    ∙ ap flip (sym (compare-strings_compare a b))

-- `Compare` orders strings transitively: with `compare-flip`, a total preorder.
pub compare_trans :
    (a b c : Bytes) → compare a b ≢ greater → compare b c ≢ greater → compare a c ≢ greater
compare_trans a b c h k = rw compare-strings_compare (
    strings_compare_trans (key (pad a)) (key (pad b)) (key (pad c))
      (rw compare-strings_compare at h) (rw compare-strings_compare at k))
