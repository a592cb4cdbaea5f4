-- ===== src/Go/Binary.antt =====
-- encoding/binary of Go: fixed-width unsigned integers in both byte orders. A value too large for
-- the width is cut to its low bits, as the conversions `uint16(n)` and `uint32(n)` cut it.
use haystak_tds_spi.Base.{
  ℕ, zero, suc, ◌+◌, ◌*◌, ◌/◌, ◌%◌, ◌^◌, ◌<◌, ◌≡◌, refl, [], ◌∷◌, arith, Bytes, IsBytes, length,
}

-- LittleEndian.PutUint16, PutUint32 and PutUint64 into a fresh array of 2, 4 and 8 bytes
abbrev pub put_le : ℕ → ℕ → Bytes
put_le zero v = []
put_le (suc n) v = (v % 256) ∷ put_le n (v / 256)

-- LittleEndian.Uint16, Uint32 and Uint64 of a slice of that many bytes
abbrev pub le_value : Bytes → ℕ
le_value [] = 0
le_value (b ∷ bs) = b + 256 * le_value bs

-- BigEndian.PutUint16
abbrev pub put_u16_be : ℕ → Bytes
put_u16_be v = (v / 256 % 256) ∷ (v % 256) ∷ []

-- BigEndian.Uint16 of a slice of two bytes
abbrev pub u16_be : Bytes → ℕ
u16_be (hi ∷ lo ∷ []) = hi * 256 + lo
u16_be _ = 0

pub length-put_le : (n v : ℕ) → length (put_le n v) ≡ n
length-put_le zero v = refl
length-put_le (suc n) v = omega (arith, length-put_le n (v / 256))

pub put_le-IsBytes : (n v : ℕ) → IsBytes (put_le n v)
put_le-IsBytes zero v = tt
put_le-IsBytes (suc n) v = (omega arith, put_le-IsBytes n (v / 256))

pub le_value-put_u16 : (v : ℕ) → v < 65536 → le_value (put_le 2 v) ≡ v
le_value-put_u16 v h = omega arith

pub le_value-put_u32 : (v : ℕ) → v < 2 ^ 32 → le_value (put_le 4 v) ≡ v
le_value-put_u32 v h = omega arith

pub le_value-put_u64 : (v : ℕ) → v < 2 ^ 64 → le_value (put_le 8 v) ≡ v
le_value-put_u64 v h = omega arith

pub u16_be-put : (v : ℕ) → v < 65536 → u16_be (put_u16_be v) ≡ v
u16_be-put v h = omega arith
