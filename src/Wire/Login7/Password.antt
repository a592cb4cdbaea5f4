-- ===== src/Wire/Login7/Password.antt =====
-- internal/wire/login7.go: `decodePassword` and the obfuscation of a client.
use Prim.Native.Nat.{bit_or, bit_xor}
use haystak_tds_spi.Base.{
  ℕ, zero, suc, ◌*◌, ◌/◌, ◌%◌, ◌<◌, ◌≡◌, refl, ap, ◌∙◌, Bool, true, ◌&&◌, List, [], ◌∷◌, map, arith,
  ◌==◌, ==_iff, Bytes, IsBytes,
}
use haystak_tds_spi.Go.Utf.{string_of, units_le}
use haystak_tds_spi.Go.Utf.RoundTrip.{Scalars}
use haystak_tds_spi.Wire.Text.{ucs2, units_of, ucs2-units_le}
use haystak_tds_spi.Wire.Login7.{decode_byte, decode_password}

-- MS-TDS: swap the nibbles of the byte, then XOR with 0xA5.
unfoldable pub obfuscate : ℕ → ℕ
obfuscate c = bit_xor (bit_or (c * 16 % 256) (c / 16)) 0xA5

all_below : ℕ → (ℕ → Bool) → Bool
all_below zero p = true
all_below (suc n) p = p n && all_below n p

all_below_sound : (n : ℕ) (p : ℕ → Bool) (c : ℕ) → all_below n p ≡ true → c < n → p c ≡ true
unfolding all_below
all_below_sound zero p c h lt = absurd (omega arith)
all_below_sound (suc n) p c h lt = ground (arith, all_below_sound n p c)

decode_byte_table : all_below 256 (λ c. decode_byte (obfuscate c) == c) ≡ true
unfolding all_below decode_byte obfuscate
decode_byte_table = refl

pub decode_byte-obfuscate : (c : ℕ) → c < 256 → decode_byte (obfuscate c) ≡ c
decode_byte-obfuscate c h =
    (==_iff _ c).0 (all_below_sound 256 (λ c. decode_byte (obfuscate c) == c) c decode_byte_table h)

map_back : (b : Bytes) → IsBytes b → map decode_byte (map obfuscate b) ≡ b
map_back [] h = refl
map_back (c ∷ b) h = λ i. decode_byte-obfuscate c h.0 i ∷ map_back b h.1 i

units_le-IsBytes : (us : List ℕ) → IsBytes (units_le us)
unfolding units_le
units_le-IsBytes [] = tt
units_le-IsBytes (u ∷ us) = (omega arith, (omega arith, units_le-IsBytes us))

-- A password made of Unicode scalar values, sent as UTF-16LE with every byte obfuscated, comes out
-- as it was.
pub decode_password-obfuscate :
    (rs : List ℕ)
    → Scalars rs
    → decode_password (map obfuscate (units_le (units_of (string_of rs)))) ≡ string_of rs
unfolding decode_password
decode_password-obfuscate rs s =
    ap ucs2 (map_back (units_le (units_of (string_of rs))) (units_le-IsBytes _))
    ∙ ucs2-units_le rs s
