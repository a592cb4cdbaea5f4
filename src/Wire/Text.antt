-- ===== src/Wire/Text.antt =====
-- The text encodings of internal/wire: `ucs2` of login7.go, `bVarchar` of tokens.go, `usVarchar`
-- of result.go.
use haystak_tds_spi.Base.{ℕ, ◌%◌, ◌≡◌, ap, ◌∙◌, List, ◌∷◌, ◌++◌, length, Bytes}
use haystak_tds_spi.Go.Binary.{put_le}
use haystak_tds_spi.Go.Utf.{string_of, runes, utf16_encode, utf16_decode, units_le, le_units}
use haystak_tds_spi.Go.Utf.RoundTrip.{
  Scalars, runes-string_of, utf16_decode-utf16_encode, utf16_encode-Units, le_units-units_le,
}

-- `ucs2`: UTF-16LE to a string; an odd last byte is dropped
unfoldable pub ucs2 : Bytes → Bytes
ucs2 b = string_of (utf16_decode (le_units b))

-- `utf16.Encode([]rune(s))`
unfoldable pub units_of : Bytes → List ℕ
units_of s = utf16_encode (runes s)

-- `bVarchar`: a byte for the count of UTF-16 units, cut to its low bits, then the units
unfoldable pub b_varchar : Bytes → Bytes
b_varchar s = (length (units_of s) % 256) ∷ units_le (units_of s)

-- `usVarchar`: the same with two bytes for the count
unfoldable pub us_varchar : Bytes → Bytes
us_varchar s = put_le 2 (length (units_of s)) ++ units_le (units_of s)

-- Text made of Unicode scalar values survives the wire.
pub ucs2-units_le :
    (rs : List ℕ) → Scalars rs → ucs2 (units_le (units_of (string_of rs))) ≡ string_of rs
unfolding ucs2 units_of
ucs2-units_le rs s =
    rw (le_units-units_le (utf16_encode (runes (string_of rs))) (utf16_encode-Units _)) (
      ap (λ us. string_of (utf16_decode (utf16_encode us))) (runes-string_of rs s)
      ∙ ap string_of (utf16_decode-utf16_encode rs s))
