-- ===== src/Fold/Tests.antt =====
-- Runs of fold.go, and the properties at concrete inputs.
use haystak_tds_spi.Base.{◌≡◌, refl, ◌↔◌, true, [], ◌∷◌, Bytes, codes}
use haystak_tds_spi.Value.{str}
use haystak_tds_spi.Fold.{lower, less, equal, key, pad, compare, equals}
use haystak_tds_spi.Fold.Laws.{
  strings_compare, compare-strings_compare, equals_iff, flip, compare-flip,
}
use haystak_tds_spi.Fold.RowKey.{row_key, row_key_shift}

runs :
    (compare (codes "Abc  ") (codes "aBC") ≡ equal)
    × (compare (codes "abc") (codes "ABD") ≡ less)
    × (key (codes "xYz") ≡ codes "xyz")
unfolding compare key lower
runs = (refl, refl, refl)

compare-strings_compare_example :
    compare (codes "Ab") (codes "aC ")
    ≡ strings_compare (key (pad (codes "Ab"))) (key (pad (codes "aC ")))
compare-strings_compare_example = compare-strings_compare (codes "Ab") (codes "aC ")

equals_iff_example :
    (equals (codes "A ") (codes "a") ≡ true) ↔ (key (pad (codes "A ")) ≡ key (pad (codes "a")))
equals_iff_example = equals_iff (codes "A ") (codes "a")

compare-flip_example : compare (codes "b") (codes "A") ≡ flip (compare (codes "A") (codes "b"))
compare-flip_example = compare-flip (codes "A") (codes "b")

abbrev no_other : ⊥ → Bytes
no_other x = absurd x

row_key_shift_example :
    row_key no_other (str (codes "x y") ∷ str (codes "z") ∷ []) []
    ≡ row_key no_other (str (codes "x") ∷ str (codes "y z") ∷ []) []
unfolding pad
row_key_shift_example =
    row_key_shift no_other (codes "x") (codes "y") (codes "z") refl refl refl refl
