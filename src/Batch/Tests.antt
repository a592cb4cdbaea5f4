-- ===== src/Batch/Tests.antt =====
-- internal/extensions/batch: instances on small texts.
use haystak_tds_spi.Base.{◌≡◌, refl, Bool, true, false, some, [], ◌∷◌, ◌++◌, Bytes, codes}
use haystak_tds_spi.Base.Dict.{Dict}
use haystak_tds_spi.Go.Utf.{string_of}
use haystak_tds_spi.Batch.Substitute.{substitute}
use haystak_tds_spi.Batch.Substitute.Laws.{substitute-NoAt, substitute-quote}
use haystak_tds_spi.Batch.Declared.{quote, unquote, fit_text}
use haystak_tds_spi.Batch.Declared.Fits.{fitted, fit_text-fitted}
use haystak_tds_spi.Batch.Quotes.{unquote-quote, unquote_unclosed}
use haystak_tds_spi.Control.Eval.{subst_vars}

abbrev sample_vars : Dict Bytes Bytes
sample_vars = (codes "a", codes "'x'") ∷ []

unquote-quote_example :
    (unquote (quote (codes "it's")) ≡ some (codes "it's", []))
    × (unquote (b'N' ∷ quote (codes "it's")) ≡ some (codes "it's", codes "N"))
unquote-quote_example = unquote-quote (codes "it's")

substitute-NoAt_example :
    (substitute (codes "a'b") sample_vars ≡ codes "a'b")
    × (subst_vars (codes "a'b") sample_vars ≡ codes "a'b")
substitute-NoAt_example = substitute-NoAt (codes "a'b") sample_vars (refl, (refl, (refl, tt)))

substitute-quote_example :
    (substitute (quote (codes "it's @a") ++ codes " @a") sample_vars
      ≡ quote (codes "it's @a") ++ substitute (codes " @a") sample_vars)
    × (subst_vars (quote (codes "it's @a") ++ codes " @a") sample_vars
        ≡ quote (codes "it's @a") ++ subst_vars (codes " @a") sample_vars)
substitute-quote_example = substitute-quote sample_vars (codes "it's @a") (codes " @a") refl

fit_text-fitted_example :
    fit_text (string_of (0x20AC ∷ b'a' ∷ b'b' ∷ [])) (some 2) true false
    ≡ string_of (fitted (0x20AC ∷ b'a' ∷ b'b' ∷ []) 2 true)
fit_text-fitted_example =
    fit_text-fitted (0x20AC ∷ b'a' ∷ b'b' ∷ []) 2 true (refl, (refl, (refl, tt)))

unquote_unclosed_example : unquote (codes "'abc") ≡ some (codes "ab", [])
unquote_unclosed_example = unquote_unclosed b'a' (codes "bc") (refl, (refl, (refl, tt)))

abbrev no_float : Bytes → Bool
no_float v = false
