-- ===== src/Fold.antt =====
-- internal/fold/fold.go: the default collation. Strings compare without their trailing spaces and
-- without the case of ASCII letters, bytes as they are.
pub mod Laws
pub mod RowKey
mod Tests
use haystak_tds_spi.Base.{
  ℕ, zero, suc, ◌+◌, ◌-◌, ◌*◌, ◌/◌, ◌%◌, ◌^◌, ◌≤◌, ◌<◌, min, ◌≡◌, refl, sym, ap, ◌∙◌, subst, ◌≢◌,
  ◌↔◌, ◌⊎◌, inl, inr, Bool, true, false, not, ◌&&◌, ◌||◌, Option, none, some, List, [], ◌∷◌, ◌++◌,
  map, append_assoc, append-nil, arith, ltb, leb, ◌==◌, if◌then◌else◌, ltb→lt, lt→ltb, leb→le,
  le→leb, ltb_false→le, leb_false→lt, le→ltb_false, ==_iff, ==_refl, Bool-cases, Option-cases,
  length, get_elem?, get_or, take, drop, replicate, length-append, take-append-drop, length-take,
  length-drop, take_append, drop_append, take_all, drop_all, drop-drop, length-replicate,
  length-map, Bytes, All, IsBytes, codes, All-append,
}
use haystak_tds_spi.Base.Result.{
  Result, ok, err, panic, no_fuel, ◌>>=◌, ◌>>◌, Returns, Yields, bind-eq-ok, Returns-bind,
}
use haystak_tds_spi.Go.Strings.{trim_right}

-- `lower`, on a byte
unfoldable pub lower : ℕ → ℕ
lower c = if leb b'A' c && leb c b'Z' then c + (b'a' - b'A') else c

-- the inner loop of `Key`: every byte from the first capital on
lower_all : Bytes → Bytes
lower_all [] = []
lower_all (c ∷ cs) = lower c ∷ lower_all cs

-- `Key`: the bytes before the first capital are copied as they are
unfoldable pub key : Bytes → Bytes
unfolding lower_all
key [] = []
key (c ∷ cs) =
    let rest = key cs in if leb b'A' c && leb c b'Z' then lower_all (c ∷ cs) else c ∷ rest

abbrev is_space : ℕ → Bool
is_space c = c == b' '

-- `Pad`
unfoldable pub pad : Bytes → Bytes
unfolding trim_right
pad s = trim_right is_space s

-- The results -1, 0 and 1 of `Compare`.
pub data Order : Type 0 where
  less equal greater : Order

-- The loop and the final `switch` of `Compare`, on the padded strings: the common length, byte by
-- byte, then the lengths.
unfoldable pub compare_padded : Bytes → Bytes → Order
compare_padded [] [] = equal
compare_padded [] (b ∷ bs) = less
compare_padded (a ∷ x) [] = greater
compare_padded (a ∷ x) (b ∷ y) =
    let rest = compare_padded x y in
    if not (lower a == lower b) then (if ltb (lower a) (lower b) then less else greater) else rest

-- `Compare`
unfoldable pub compare : Bytes → Bytes → Order
unfolding compare_padded pad lower
compare a b = compare_padded (pad a) (pad b)

-- `Equal`
unfoldable pub equals : Bytes → Bytes → Bool
equals a b = elim (compare a b) [ equal ↦ true | _ ↦ false ]
