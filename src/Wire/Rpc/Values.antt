-- ===== src/Wire/Rpc/Values.antt =====
-- `typeValue` of internal/wire/rpc.go on what `typeInfo` and `encodeValue` of result.go write.
use haystak_tds_spi.Base.{
  ℕ, zero, suc, ◌-◌, ◌*◌, ◌^◌, ◌≤◌, ◌<◌, min, ◌≡◌, refl, ap, ◌∙◌, true, false, some, List, [], ◌∷◌,
  ◌++◌, append_assoc, arith, ◌==◌, length, take, drop, length-append, length-take, length-drop,
  Bytes,
}
use haystak_tds_spi.Base.Int.{ℤ, pos}
use haystak_tds_spi.Go.Binary.{put_le, le_value, length-put_le, le_value-put_u16, le_value-put_u64}
use haystak_tds_spi.Go.Floats.{FloatOps}
use haystak_tds_spi.Go.Utf.{string_of, units_le}
use haystak_tds_spi.Go.Utf.RoundTrip.{Scalars, length-units_le}
use haystak_tds_spi.Value.{int, str}
use haystak_tds_spi.Wire.Text.{ucs2, units_of, ucs2-units_le}
use haystak_tds_spi.Wire.TypeInfo.{
  ColumnType, Kind, type_info, nvarchar_is_max, string, int64, int32, int16, int8,
}
use haystak_tds_spi.Wire.Rpc.Cursor.{plp_loop, plp_string}
use haystak_tds_spi.Wire.Rpc.Params.{nvarchar_value, type_value}
use haystak_tds_spi.Wire.Rpc.Numbers.{
  Fits, low_bytes, le_int_8, le_int_4, le_int_2, le_int_1, signed_byte,
}
use haystak_tds_spi.Wire.Rpc.RoundTrip.{taken, var_int_put, plp_loop-plp_chunks}
use haystak_tds_spi.Wire.Result.Encode.{
  Wide, encode_value, nvarchar_text, plp_text, plp_chunks, chunk,
}

abbrev pub column : Kind → ℕ → ColumnType
column kind max_len = record { kind = kind; max_len = max_len; precision = 0; scale = 0 }

-- The integer kinds with a sign, and their widths.
pub data IntKind : Kind → ℕ → Type 0 where
  big : IntKind int64 64
  plain : IntKind int32 32
  small : IntKind int16 16

-- An integer that fits its column of 16, 32 or 64 bits is read back, signs and all.
pub type_value-encode_int :
    {Float : Type 0} (ops : FloatOps Float) {kind : Kind} {bits : ℕ} (max_len : ℕ) (n : ℤ)
    (rest : Bytes)
    → IntKind kind bits
    → Fits bits n
    → type_value ops (
        type_info (column kind max_len) ++ (encode_value ops (column kind max_len) (int n) ++ rest))
      ≡ (some (int n), rest)
unfolding type_value type_info encode_value
type_value-encode_int {Float = Float} ops max_len n rest big h =
    var_int_put 8 8 (low_bytes (Wide Float) 8 n) rest refl refl
    ∙ ap (λ (n : ℤ). (some (int n), rest)) (le_int_8 (Wide Float) n h)
type_value-encode_int {Float = Float} ops max_len n rest plain h =
    var_int_put 4 4 (low_bytes (Wide Float) 4 n) rest refl refl
    ∙ ap (λ (n : ℤ). (some (int n), rest)) (le_int_4 (Wide Float) n h)
type_value-encode_int {Float = Float} ops max_len n rest small h =
    var_int_put 2 2 (low_bytes (Wide Float) 2 n) rest refl refl
    ∙ ap (λ (n : ℤ). (some (int n), rest)) (le_int_2 (Wide Float) n h)

-- A TINYINT is a byte from 0 to 255. It is written as that byte, and read back with a sign: one below
-- 128 as it was, any other as 256 less.
type_value-encode_tiny :
    {Float : Type 0} (ops : FloatOps Float) (max_len n : ℕ) (rest : Bytes)
    → n < 256
    → type_value ops (
        type_info (column int8 max_len)
        ++ (encode_value ops (column int8 max_len) (int (pos n)) ++ rest))
      ≡ (some (int (signed_byte n)), rest)
unfolding type_value type_info encode_value
type_value-encode_tiny {Float = Float} ops max_len n rest h =
    var_int_put 1 1 (low_bytes (Wide Float) 1 (pos n)) rest refl refl
    ∙ ap (λ (n : ℤ). (some (int n), rest)) (le_int_1 (Wide Float) n h)

plp_string_header :
    {Float : Type 0} (n : ℕ) (hdr c : Bytes)
    → length hdr ≡ 8
    → le_value hdr ≡ n
    → (n == 2 ^ 64 - 1) ≡ false
    → plp_string {Float = Float} (hdr ++ c) ≡ plp_loop (suc (length c)) [] c
unfolding plp_string
plp_string_header n hdr c size e fits =
    let t = taken 8 hdr c size in rw (t.enough, t.these, t.behind, e, fits) refl

length-plp_chunks :
    (size fuel : ℕ) (text : Bytes)
    → 0 < size
    → length text ≤ fuel
    → length text ≤ length (plp_chunks size fuel text)
unfolding plp_chunks
length-plp_chunks size zero [] p h = omega arith
length-plp_chunks size (suc fuel) [] p h = omega arith
length-plp_chunks size zero (d ∷ text) p h = absurd (omega arith)
length-plp_chunks size (suc fuel) (d ∷ text) p h = omega (
  arith,
  length-plp_chunks size fuel (drop size (d ∷ text)) p (omega (arith, length-drop size (d ∷ text))),
  length-drop size (d ∷ text),
  length-take size (d ∷ text),
  length-append (put_le 4 (min size (length (d ∷ text))))
      (take size (d ∷ text) ++ plp_chunks size fuel (drop size (d ∷ text))),
  length-append (take size (d ∷ text)) (plp_chunks size fuel (drop size (d ∷ text))),
)

pub plp_string-plp_text :
    {Float : Type 0} (s rest : Bytes)
    → length (units_of s) < 2 ^ 62
    → plp_string {Float = Float} (plp_text s ++ rest)
      ≡ (some (str (ucs2 (units_le (units_of s)))), rest)
unfolding plp_text
plp_string-plp_text s rest h =
    ap plp_string (
      joined (put_le 8 (length bytes)) (plp_chunks chunk (length bytes) bytes) (0 ∷ 0 ∷ 0 ∷ 0 ∷ [])
        rest)
    ∙ (plp_string_header (length bytes) (put_le 8 (length bytes)) body
          (length-put_le 8 (length bytes))
          (le_value-put_u64 (length bytes) (omega (arith, length-units_le (units_of s))))
          (ground (arith, length-units_le (units_of s)))
        ∙ plp_loop-plp_chunks chunk (length bytes) (suc (length body)) bytes [] rest (omega arith)
            (omega arith) (omega arith)
            (omega (
              arith,
              length-plp_chunks chunk (length bytes) bytes (omega arith) (omega arith),
              length-append (plp_chunks chunk (length bytes) bytes) (0 ∷ 0 ∷ 0 ∷ 0 ∷ rest),
            )))
  where
    bytes : Bytes
    bytes = units_le (units_of s)

    body : Bytes
    body = plp_chunks chunk (length bytes) bytes ++ (0 ∷ 0 ∷ 0 ∷ 0 ∷ rest)

    joined : (a b c e : Bytes) → (a ++ (b ++ c)) ++ e ≡ a ++ (b ++ (c ++ e))
    joined a b c e = append_assoc a (b ++ c) e ∙ ap (λ (x : Bytes). a ++ x) (append_assoc b c e)

nvarchar_value_put :
    {Float : Type 0} (ops : FloatOps Float) (max len : ℕ) (m l b rest : Bytes)
    → length m ≡ 2
    → le_value m ≡ max
    → (max == 0xFFFF) ≡ false
    → length l ≡ 2
    → le_value l ≡ len
    → (len == 0xFFFF) ≡ false
    → length b ≡ len
    → nvarchar_value ops (m ++ (0x09 ∷ 0x04 ∷ 0xD0 ∷ 0x00 ∷ 0x34 ∷ (l ++ (b ++ rest))))
      ≡ (some (str (ucs2 b)), rest)
unfolding nvarchar_value
nvarchar_value_put ops max len m l b rest sm em fm sl el fl sb =
    let t = taken 2 m (0x09 ∷ 0x04 ∷ 0xD0 ∷ 0x00 ∷ 0x34 ∷ (l ++ (b ++ rest))) sm in
    let u = taken 5 (0x09 ∷ 0x04 ∷ 0xD0 ∷ 0x00 ∷ 0x34 ∷ []) (l ++ (b ++ rest)) refl in
    let v = taken 2 l (b ++ rest) sl in
    let w = taken len b rest sb in
    rw
      (
        t.enough, t.these, t.behind, em, fm, u.enough, v.enough, v.these, v.behind, el, fl,
        w.enough, w.these, w.behind,
      )
      refl

plp_value_put :
    {Float : Type 0} (ops : FloatOps Float) (c : Bytes)
    → nvarchar_value ops (0xFF ∷ 0xFF ∷ 0x09 ∷ 0x04 ∷ 0xD0 ∷ 0x00 ∷ 0x34 ∷ c) ≡ plp_string c
unfolding nvarchar_value
plp_value_put ops c =
    let t = taken 2 (0xFF ∷ 0xFF ∷ []) (0x09 ∷ 0x04 ∷ 0xD0 ∷ 0x00 ∷ 0x34 ∷ c) refl in
    let u = taken 5 (0x09 ∷ 0x04 ∷ 0xD0 ∷ 0x00 ∷ 0x34 ∷ []) c refl in rw (t.enough, u.enough) refl

-- Text in an nvarchar(max) column is read back, of any size that the length field holds.
pub type_value-encode_text_max :
    {Float : Type 0} (ops : FloatOps Float) (max_len : ℕ) (rs : List ℕ) (rest : Bytes)
    → nvarchar_is_max (column string max_len) ≡ true
    → Scalars rs
    → length (units_of (string_of rs)) < 2 ^ 62
    → type_value ops (
        type_info (column string max_len)
        ++ (encode_value ops (column string max_len) (str (string_of rs)) ++ rest))
      ≡ (some (str (string_of rs)), rest)
unfolding type_value type_info encode_value
type_value-encode_text_max ops max_len rs rest m s h = rw m (
    plp_value_put ops (plp_text (string_of rs) ++ rest)
    ∙ (plp_string-plp_text (string_of rs) rest h
        ∙ ap (λ (t : Bytes). (some (str t), rest)) (ucs2-units_le rs s)))

-- Text in a sized column is read back, if it has less than 32767 units.
pub type_value-encode_text :
    {Float : Type 0} (ops : FloatOps Float) (max_len : ℕ) (rs : List ℕ) (rest : Bytes)
    → nvarchar_is_max (column string max_len) ≡ false
    → Scalars rs
    → length (units_of (string_of rs)) < 32767
    → type_value ops (
        type_info (column string max_len)
        ++ (encode_value ops (column string max_len) (str (string_of rs)) ++ rest))
      ≡ (some (str (string_of rs)), rest)
unfolding type_value type_info encode_value nvarchar_text
type_value-encode_text ops max_len rs rest m s h = rw m (
    nvarchar_value_put ops (max_len * 2) (length (units_of (string_of rs)) * 2)
      (put_le 2 (max_len * 2)) (put_le 2 (length (units_of (string_of rs)) * 2))
      (units_le (units_of (string_of rs))) rest refl
      (le_value-put_u16 (max_len * 2) (ground (arith, m))) (ground (arith, m)) refl
      (le_value-put_u16 (length (units_of (string_of rs)) * 2) (omega arith)) (ground arith)
      (omega (arith, length-units_le (units_of (string_of rs))))
    ∙ ap (λ (t : Bytes). (some (str t), rest)) (ucs2-units_le rs s))
