-- ===== src/Go/Utf/RoundTrip.antt =====
-- UTF-8 and UTF-16 of text made of Unicode scalar values.
use haystak_tds_spi.Base.{
  ℕ, zero, suc, ◌+◌, ◌-◌, ◌*◌, ◌/◌, ◌%◌, ◌≤◌, ◌<◌, ◌≡◌, refl, ap, ◌∙◌, ◌⊎◌, inl, inr, true, false,
  List, [], ◌∷◌, ◌++◌, arith, ltb, if◌then◌else◌, ltb→lt, lt→ltb, ltb_false→le, le→ltb_false,
  Bool-cases, length, length-append, drop_append, Bytes, All,
}
use native.Mathlib.Nat.{le_refl}
use haystak_tds_spi.Go.Utf.{
  is_scalar, utf8_scalar, utf8_rune, string_of, two, three, four, decode_rune, runes_loop, runes,
  utf16_encode, utf16_decode, units_le, le_units,
}

abbrev pub Scalars : List ℕ → Type 0
Scalars = All (λ r. is_scalar r ≡ true)

utf8_length : (r : ℕ) → 0 < length (utf8_scalar r)
unfolding utf8_scalar
utf8_length r = ground arith

-- The bytes of a scalar value, taken apart into the first and those behind it.
abbrev Decodes : Bytes → Bytes → ℕ → Type 0
Decodes [] rest r = ⊥
Decodes (b0 ∷ bs) rest r = decode_rune b0 (bs ++ rest) ≡ (r, length bs)

decode_one : (r : ℕ) (rest : Bytes) → r < 0x80 → Decodes (utf8_scalar r) rest r
unfolding utf8_scalar decode_rune
decode_one r rest h = rw (lt→ltb r 0x80 h) (rw (lt→ltb r 0x80 h) refl)

decode_two : (r : ℕ) (rest : Bytes) → 0x80 ≤ r → r < 0x800 → Decodes (utf8_scalar r) rest r
unfolding utf8_scalar decode_rune two
decode_two r rest h k = rw (le→ltb_false r 0x80 h) (rw (lt→ltb r 0x800 k) (ground arith))

decode_three :
    (r : ℕ) (rest : Bytes)
    → 0x800 ≤ r
    → r < 0x10000
    → (r < 0xD800) ⊎ (0xDFFF < r)
    → Decodes (utf8_scalar r) rest r
unfolding utf8_scalar decode_rune three
decode_three r rest h k s =
    rw (le→ltb_false r 0x80 (omega arith))
      (rw (le→ltb_false r 0x800 h) (rw (lt→ltb r 0x10000 k) (ground arith)))

decode_four : (r : ℕ) (rest : Bytes) → 0x10000 ≤ r → r ≤ 0x10FFFF → Decodes (utf8_scalar r) rest r
unfolding utf8_scalar decode_rune four
decode_four r rest h k =
    rw (le→ltb_false r 0x80 (omega arith))
      (rw (le→ltb_false r 0x800 (omega arith)) (rw (le→ltb_false r 0x10000 h) (ground arith)))

utf16_pair :
    (r : ℕ) (us rs : List ℕ)
    → 0x10000 ≤ r
    → r ≤ 0x10FFFF
    → utf16_decode us ≡ rs
    → utf16_decode ((0xD800 + (r - 0x10000) / 1024) ∷ (0xDC00 + (r - 0x10000) % 1024) ∷ us) ≡ r ∷ rs
unfolding utf16_decode
utf16_pair r us rs h k e = ground arith

utf16_single :
    (r : ℕ) (us rs : List ℕ)
    → (r < 0xD800) ⊎ (0xDFFF < r)
    → utf16_decode us ≡ rs
    → utf16_decode (r ∷ us) ≡ r ∷ rs
unfolding utf16_decode
utf16_single r [] rs s e = ground arith
utf16_single r (u ∷ us) rs s e = ground arith

scalar_range : (r : ℕ) → is_scalar r ≡ true → ((r < 0xD800) ⊎ (0xDFFF < r)) × (r ≤ 0x10FFFF)
scalar_range r h = ground arith

decode_scalar : (r : ℕ) (rest : Bytes) → is_scalar r ≡ true → Decodes (utf8_scalar r) rest r
decode_scalar r rest h =
    let (s, top) = scalar_range r h in
    elim (Bool-cases (ltb r 0x80)) [
      | inl a ↦ decode_one r rest (ltb→lt r 0x80 a)
      | inr a ↦ elim (Bool-cases (ltb r 0x800)) [
        | inl b ↦ decode_two r rest (ltb_false→le r 0x80 a) (ltb→lt r 0x800 b)
        | inr b ↦ elim (Bool-cases (ltb r 0x10000)) [
          | inl c ↦ decode_three r rest (ltb_false→le r 0x800 b) (ltb→lt r 0x10000 c) s
          | inr c ↦ decode_four r rest (ltb_false→le r 0x10000 c) top
        ]
      ]
    ]

runes_step :
    (fuel r : ℕ) (xs rest : Bytes)
    → Decodes xs rest r
    → runes_loop (suc fuel) (xs ++ rest) ≡ r ∷ runes_loop fuel rest
unfolding runes_loop
runes_step fuel r [] rest d = absurd d
runes_step fuel r (b0 ∷ bs) rest d =
    rw d (ap (λ t. r ∷ runes_loop fuel t) (drop_append bs rest (length bs) refl))

runes_loop-string_of :
    (fuel : ℕ) (rs : List ℕ)
    → Scalars rs
    → length (string_of rs) ≤ fuel
    → runes_loop fuel (string_of rs) ≡ rs
unfolding string_of utf8_rune
runes_loop-string_of zero [] s h = unfold runes_loop in refl
runes_loop-string_of (suc fuel) [] s h = unfold runes_loop in refl
runes_loop-string_of zero (r ∷ rs) s h = absurd (
    omega (
      arith,
      utf8_length (if is_scalar r then r else 0xFFFD),
      length-append (utf8_scalar (if is_scalar r then r else 0xFFFD)) (string_of rs),
    ))
runes_loop-string_of (suc fuel) (r ∷ rs) s h = rw s.0 (
    runes_step fuel r (utf8_scalar r) (string_of rs) (decode_scalar r (string_of rs) s.0)
    ∙ ap (λ t. r ∷ t)
        (runes_loop-string_of fuel rs s.1 (
          omega (
            arith,
            utf8_length (if is_scalar r then r else 0xFFFD),
            length-append (utf8_scalar (if is_scalar r then r else 0xFFFD)) (string_of rs),
          ))))

-- A string made of scalar values has those runes.
pub runes-string_of : (rs : List ℕ) → Scalars rs → runes (string_of rs) ≡ rs
unfolding runes
runes-string_of rs s = runes_loop-string_of (length (string_of rs)) rs s (le_refl _)

encode_small :
    (r : ℕ) (rs : List ℕ)
    → is_scalar r ≡ true
    → ltb r 0x10000 ≡ true
    → utf16_encode (r ∷ rs) ≡ r ∷ utf16_encode rs
unfolding utf16_encode
encode_small r rs h k = rw (h, k) refl

encode_big :
    (r : ℕ) (rs : List ℕ)
    → is_scalar r ≡ true
    → ltb r 0x10000 ≡ false
    → utf16_encode (r ∷ rs)
      ≡ (0xD800 + (r - 0x10000) / 1024) ∷ (0xDC00 + (r - 0x10000) % 1024) ∷ utf16_encode rs
unfolding utf16_encode
encode_big r rs h k = rw (h, k) refl

pub utf16_decode-utf16_encode : (rs : List ℕ) → Scalars rs → utf16_decode (utf16_encode rs) ≡ rs
utf16_decode-utf16_encode [] s = unfold utf16_decode utf16_encode in refl
utf16_decode-utf16_encode (r ∷ rs) s =
    let (range, top) = scalar_range r s.0 in
    let ih = utf16_decode-utf16_encode rs s.1 in
    elim (Bool-cases (ltb r 0x10000)) [
      | inl small ↦
          ap utf16_decode
            (let e : utf16_encode (r ∷ rs) ≡ r ∷ utf16_encode rs = encode_small r rs s.0 small in e)
          ∙ utf16_single r (utf16_encode rs) rs range ih
      | inr big ↦
          ap utf16_decode (encode_big r rs s.0 big)
          ∙ utf16_pair r (utf16_encode rs) rs (ltb_false→le r 0x10000 big) top ih
    ]

-- A unit fits two bytes.
abbrev pub Units : List ℕ → Type 0
Units = All (λ u. u < 65536)

pub utf16_encode-Units : (rs : List ℕ) → Units (utf16_encode rs)
unfolding utf16_encode
utf16_encode-Units [] = tt
utf16_encode-Units (r ∷ rs) = ground (arith, utf16_encode-Units rs)

pub le_units-units_le : (us : List ℕ) → Units us → le_units (units_le us) ≡ us
unfolding le_units units_le
le_units-units_le [] h = refl
le_units-units_le (u ∷ us) h = λ i. low_high u h.0 i ∷ le_units-units_le us h.1 i
  where
    low_high : (u : ℕ) → u < 65536 → u % 256 + 256 * (u / 256 % 256) ≡ u
    low_high u h = omega arith

pub length-units_le : (us : List ℕ) → length (units_le us) ≡ 2 * length us
unfolding units_le
length-units_le [] = refl
length-units_le (u ∷ us) = omega (arith, length-units_le us)
