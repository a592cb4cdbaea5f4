-- ===== src/Go/Utf.antt =====
-- Text of Go: strings are UTF-8 bytes, `[]rune(s)` and `string(runes)` convert, and package
-- unicode/utf16 encodes and decodes runes. What is malformed becomes U+FFFD, a byte or a unit at a
-- time.
pub mod RoundTrip
use haystak_tds_spi.Base.{
  ℕ, zero, suc, ◌+◌, ◌-◌, ◌*◌, ◌/◌, ◌%◌, ◌^◌, ◌≤◌, ◌<◌, min, ◌≡◌, refl, sym, ap, ◌∙◌, subst, ◌≢◌,
  ◌↔◌, ◌⊎◌, inl, inr, Bool, true, false, not, ◌&&◌, ◌||◌, Option, none, some, List, [], ◌∷◌, ◌++◌,
  map, append_assoc, append-nil, arith, ltb, leb, ◌==◌, if◌then◌else◌, ltb→lt, lt→ltb, leb→le,
  le→leb, ltb_false→le, leb_false→lt, le→ltb_false, ==_iff, ==_refl, Bool-cases, Option-cases,
  length, get_elem?, get_or, take, drop, replicate, length-append, take-append-drop, length-take,
  length-drop, take_append, drop_append, take_all, drop_all, drop-drop, length-replicate,
  length-map, Bytes, All, IsBytes, codes, All-append,
}
use haystak_tds_spi.Base.Result.{
  Result, ok, err, panic, no_fuel, ◌>>=◌, ◌>>◌, Returns, Yields, bind-eq-ok, Returns-bind,
}

abbrev pub replacement : ℕ
replacement = 0xFFFD

abbrev in_range : ℕ → ℕ → ℕ → Bool
in_range lo hi c = leb lo c && leb c hi

abbrev pub is_surrogate : ℕ → Bool
is_surrogate r = in_range 0xD800 0xDFFF r

-- A rune that text can hold: a Unicode scalar value.
abbrev pub is_scalar : ℕ → Bool
is_scalar r = leb r 0x10FFFF && not (is_surrogate r)

-- utf8.AppendRune, on a scalar value
pub utf8_scalar : ℕ → Bytes
utf8_scalar r =
    if ltb r 0x80
    then r ∷ []
    else if ltb r 0x800
    then (0xC0 + r / 64) ∷ (0x80 + r % 64) ∷ []
    else if ltb r 0x10000
    then (0xE0 + r / 4096) ∷ (0x80 + r / 64 % 64) ∷ (0x80 + r % 64) ∷ []
    else (0xF0 + r / 262144) ∷ (0x80 + r / 4096 % 64) ∷ (0x80 + r / 64 % 64) ∷ (0x80 + r % 64) ∷ []

unfoldable pub utf8_rune : ℕ → Bytes
unfolding utf8_scalar
utf8_rune r = utf8_scalar (if is_scalar r then r else replacement)

-- string(runes)
unfoldable pub string_of : List ℕ → Bytes
unfolding utf8_rune
string_of [] = []
string_of (r ∷ rs) = utf8_rune r ++ string_of rs

abbrev bad : ℕ × ℕ
bad = (replacement, 0)

two : ℕ → Bytes → ℕ × ℕ
two b0 (b1 ∷ _) = if in_range 0x80 0xBF b1 then ((b0 - 0xC0) * 64 + (b1 - 0x80), 1) else bad
two b0 _ = bad

three : ℕ → ℕ → ℕ → Bytes → ℕ × ℕ
three lo hi b0 (b1 ∷ b2 ∷ _) =
    if in_range lo hi b1 && in_range 0x80 0xBF b2
    then ((b0 - 0xE0) * 4096 + (b1 - 0x80) * 64 + (b2 - 0x80), 2)
    else bad
three lo hi b0 _ = bad

four : ℕ → ℕ → ℕ → Bytes → ℕ × ℕ
four lo hi b0 (b1 ∷ b2 ∷ b3 ∷ _) =
    if in_range lo hi b1 && in_range 0x80 0xBF b2 && in_range 0x80 0xBF b3
    then ((b0 - 0xF0) * 262144 + (b1 - 0x80) * 4096 + (b2 - 0x80) * 64 + (b3 - 0x80), 3)
    else bad
four lo hi b0 _ = bad

-- utf8.DecodeRune: the rune, and how many bytes behind the first it takes
pub decode_rune : ℕ → Bytes → ℕ × ℕ
decode_rune b0 rest =
    if ltb b0 0x80
    then (b0, 0)
    else if in_range 0xC2 0xDF b0
    then two b0 rest
    else if in_range 0xE0 0xEF b0
    then three (if b0 == 0xE0 then 0xA0 else 0x80) (if b0 == 0xED then 0x9F else 0xBF) b0 rest
    else if in_range 0xF0 0xF4 b0
    then four (if b0 == 0xF0 then 0x90 else 0x80) (if b0 == 0xF4 then 0x8F else 0xBF) b0 rest
    else bad

pub runes_loop : ℕ → Bytes → List ℕ
runes_loop zero s = []
runes_loop (suc fuel) [] = []
runes_loop (suc fuel) (b0 ∷ rest) =
    let (r, more) = decode_rune b0 rest in r ∷ runes_loop fuel (drop more rest)

-- []rune(s). Each round takes a byte at least.
unfoldable pub runes : Bytes → List ℕ
unfolding runes_loop decode_rune two three four
runes s = runes_loop (length s) s

-- utf16.Encode
unfoldable pub utf16_encode : List ℕ → List ℕ
utf16_encode [] = []
utf16_encode (r ∷ rs) =
    let rest = utf16_encode rs in
    if is_scalar r
    then (if ltb r 0x10000
        then r ∷ rest
        else (0xD800 + (r - 0x10000) / 1024) ∷ (0xDC00 + (r - 0x10000) % 1024) ∷ rest)
    else replacement ∷ rest

abbrev is_high : ℕ → Bool
is_high u = in_range 0xD800 0xDBFF u

abbrev is_low : ℕ → Bool
is_low u = in_range 0xDC00 0xDFFF u

abbrev single : ℕ → ℕ
single u = if is_surrogate u then replacement else u

-- utf16.Decode
unfoldable pub utf16_decode : List ℕ → List ℕ
utf16_decode [] = []
utf16_decode (u ∷ []) = single u ∷ []
utf16_decode (u ∷ v ∷ us) = elim (is_high u && is_low v) [
  | true ↦ ((u - 0xD800) * 1024 + (v - 0xDC00) + 0x10000) ∷ utf16_decode us
  | false ↦ single u ∷ utf16_decode (v ∷ us)
]

-- Units in little endian, as the wire carries them.
unfoldable pub units_le : List ℕ → Bytes
units_le [] = []
units_le (u ∷ us) = (u % 256) ∷ (u / 256 % 256) ∷ units_le us

-- Two bytes to a unit; an odd byte at the end is dropped, as `len(b) / 2` drops it.
unfoldable pub le_units : Bytes → List ℕ
le_units (lo ∷ hi ∷ b) = (lo + 256 * hi) ∷ le_units b
le_units _ = []

euro : runes (codes "a" ++ 0xE2 ∷ 0x82 ∷ 0xAC ∷ 0xFF ∷ []) ≡ 97 ∷ 0x20AC ∷ replacement ∷ []
unfolding runes
euro = refl

smile : utf16_encode (0x1F600 ∷ []) ≡ 0xD83D ∷ 0xDE00 ∷ []
unfolding utf16_encode
smile = refl

smile_back : utf16_decode (0xD83D ∷ 0xDE00 ∷ 0xD83D ∷ 65 ∷ []) ≡ 0x1F600 ∷ replacement ∷ 65 ∷ []
unfolding utf16_decode
smile_back = refl
