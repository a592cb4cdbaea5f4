-- ===== src/Wire/Result/Tests.antt =====
-- Dates, errors and a result set of one row.
use haystak_tds_spi.Base.{◌≡◌, refl, List, [], ◌∷◌, arith, length, codes}
use haystak_tds_spi.Base.Result.{ok}
use haystak_tds_spi.Go.Utf.{runes, utf16_encode}
use haystak_tds_spi.Go.Binary.{put_le}
use haystak_tds_spi.Wire.Text.{units_of}
use haystak_tds_spi.Wire.Tokens.{parse_tokens}
use haystak_tds_spi.Wire.Tokens.Replies.{done_token}
use haystak_tds_spi.Wire.TypeInfo.{int64}
use haystak_tds_spi.Wire.Rpc.Values.{column}
use haystak_tds_spi.Wire.Result.{Column, build_error, login_error}
use haystak_tds_spi.Wire.Result.Dates.{Counts, days_since1-days_before}
use haystak_tds_spi.Wire.Result.Streams.{error_token, parse_tokens-build_error}

-- 2000-02-29
days_since1-days_before_example : Counts 1999 1 29
days_since1-days_before_example = days_since1-days_before 1999 1 29 (omega arith) (omega arith)

two_units : length (units_of (codes "no")) ≡ 2
unfolding units_of runes utf16_encode
two_units = refl

parse_tokens-build_error_example :
    (parse_tokens (build_error (codes "no"))
      ≡ ok (error_token (0 ∷ 0 ∷ 0 ∷ 0 ∷ []) 16 (codes "no") ∷ done_token 2 0 0 ∷ []))
    × (parse_tokens (login_error (codes "no"))
        ≡ ok (error_token (put_le 4 18456) 14 (codes "no") ∷ done_token 2 0 0 ∷ []))
parse_tokens-build_error_example = parse_tokens-build_error (codes "no") (omega (arith, two_units))

abbrev one_column : List Column
one_column = record { name = codes "n"; type = column int64 0 } ∷ []
