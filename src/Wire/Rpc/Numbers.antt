-- ===== src/Wire/Rpc/Numbers.antt =====
-- The integers of an INTN value: `leInt` of internal/wire/rpc.go and `encodeIntN` of result.go.
use haystak_tds_spi.Base.{ltb, if◌then◌else◌, ℕ, ◌-◌, ◌^◌, ◌<◌, ◌≡◌, arith, take, Bytes}
use haystak_tds_spi.Base.Int.{ℤ, pos, negsuc}
use haystak_tds_spi.Go.Binary.{put_le}
use haystak_tds_spi.Value.{int}
use haystak_tds_spi.Wire.Rpc.Cursor.{le_int}
use haystak_tds_spi.Wire.Result.Encode.{to_uint64}

-- A signed integer of so many bits, one of them for the sign.
abbrev pub Fits : ℕ → ℤ → Type 0
Fits bits (pos n) = n < 2 ^ (bits - 1)
Fits bits (negsuc n) = n < 2 ^ (bits - 1)

abbrev pub low_bytes : Type 0 → ℕ → ℤ → Bytes
low_bytes Other size n = take size (put_le 8 (to_uint64 {Other = Other} (int n)))

pub le_int_8 : (Other : Type 0) (n : ℤ) → Fits 64 n → le_int (low_bytes Other 8 n) ≡ n
unfolding le_int to_uint64
le_int_8 Other (pos n) h = ground arith
le_int_8 Other (negsuc n) h = ground arith

pub le_int_4 : (Other : Type 0) (n : ℤ) → Fits 32 n → le_int (low_bytes Other 4 n) ≡ n
unfolding le_int to_uint64
le_int_4 Other (pos n) h = ground arith
le_int_4 Other (negsuc n) h = ground arith

pub le_int_2 : (Other : Type 0) (n : ℤ) → Fits 16 n → le_int (low_bytes Other 2 n) ≡ n
unfolding le_int to_uint64
le_int_2 Other (pos n) h = ground arith
le_int_2 Other (negsuc n) h = ground arith

-- A byte, read with the sign that its highest bit would be.
abbrev pub signed_byte : ℕ → ℤ
signed_byte n = if ltb n 128 then pos n else negsuc (255 - n)

pub le_int_1 :
    (Other : Type 0) (n : ℕ) → n < 256 → le_int (low_bytes Other 1 (pos n)) ≡ signed_byte n
unfolding le_int to_uint64
le_int_1 Other n h = ground arith
