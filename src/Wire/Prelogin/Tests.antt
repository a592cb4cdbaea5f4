-- ===== src/Wire/Prelogin/Tests.antt =====
-- Runs of prelogin.go, and the properties at concrete inputs.
use haystak_tds_spi.Base.{◌≡◌, refl, List, [], ◌∷◌, arith}
use haystak_tds_spi.Base.Result.{ok, err}
use haystak_tds_spi.Base.Dict.{nat_eq}
use haystak_tds_spi.Wire.Prelogin.{
  PreloginEntry, missing_terminator, truncated_entry, data_out_of_range, parse_prelogin,
  build_prelogin, server_prelogin_response, encrypt_not_sup,
}
use haystak_tds_spi.Wire.Prelogin.RoundTrip.{options_of, parse_prelogin-build_prelogin}

response :
    server_prelogin_response encrypt_not_sup
    ≡ 0 ∷ 0 ∷ 16 ∷ 0 ∷ 6 ∷ 1 ∷ 0 ∷ 22 ∷ 0 ∷ 1 ∷ 4 ∷ 0 ∷ 23 ∷ 0 ∷ 1 ∷ 255 ∷ 16 ∷ 0 ∷ 3 ∷ 232 ∷ 0 ∷ 6
      ∷ 2 ∷ 0 ∷ []
unfolding server_prelogin_response
response = refl

errors :
    (parse_prelogin (0 ∷ 0 ∷ 5 ∷ 0 ∷ 0 ∷ []) ≡ err missing_terminator)
    × (parse_prelogin (0 ∷ 0 ∷ []) ≡ err truncated_entry)
    × (parse_prelogin (0 ∷ 0 ∷ 6 ∷ 0 ∷ 1 ∷ 255 ∷ []) ≡ err data_out_of_range)
unfolding parse_prelogin
errors = (refl, refl, refl)

abbrev entries : List PreloginEntry
entries = record { option = 1; value = 3 ∷ [] } ∷ record { option = 0; value = 9 ∷ 8 ∷ [] } ∷ []

parse_prelogin-build_prelogin_example :
    parse_prelogin (build_prelogin entries) ≡ ok (record { options = options_of [] entries })
parse_prelogin-build_prelogin_example =
    parse_prelogin-build_prelogin entries (omega arith) (omega arith)
