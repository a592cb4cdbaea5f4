-- ===== src/Wire/Rpc/Cursor.antt =====
-- internal/wire/rpc.go, the methods of `cur`. A cursor is the bytes from `pos` on; each method gives
-- its value, none where the code's `ok` is false, and the cursor as it leaves it.
use haystak_tds_spi.Base.{
  ℕ, zero, suc, ◌+◌, ◌-◌, ◌*◌, ◌/◌, ◌%◌, ◌^◌, ◌<◌, ◌≡◌, refl, sym, ap, ◌∙◌, ◌&&◌, Option, none,
  some, [], ◌∷◌, ◌++◌, arith, ltb, ◌==◌, if◌then◌else◌, le→ltb_false, length, take, drop,
  length-append, take_append, drop_append, Bytes,
}
use haystak_tds_spi.Base.Int.{ℤ, pos, negsuc}
use haystak_tds_spi.Go.Binary.{le_value, put_le, le_value-put_u16}
use haystak_tds_spi.Value.{Value, null, int, str}
use haystak_tds_spi.Wire.Text.{ucs2}

abbrev pub Read : Type 0 → Type 0
Read A = Bytes → Option A × Bytes

continue : {A B : Type 0} → (A → Read B) → Option A × Bytes → Option B × Bytes
continue f (none, c) = (none, c)
continue f (some a, c) = f a c

infixl 5 ◌>>=◌ ◌>>◌
unfoldable pub ◌>>=◌ : {A B : Type 0} → Read A → (A → Read B) → Read B
unfolding continue
(m >>= f) c = continue f (m c)

abbrev pub ◌>>◌ : {A B : Type 0} → Read A → Read B → Read B
m >> k = m >>= λ _. k

abbrev pub give : {A : Type 0} → A → Read A
give a c = (some a, c)

abbrev pub stop : {A : Type 0} → Read A
stop c = (none, c)

-- `byte`
unfoldable pub byte : Read ℕ
byte [] = (none, [])
byte (v ∷ c) = (some v, c)

-- `take`; its argument is never negative here
unfoldable pub take_bytes : ℕ → Read Bytes
take_bytes n c = if ltb (length c) n then (none, c) else (some (take n c), drop n c)

-- `u16`
unfoldable pub u16 : Read ℕ
unfolding ◌>>=◌ take_bytes
u16 = do b ← take_bytes 2; give (le_value b)

-- `u32`
unfoldable pub u32 : Read ℕ
unfolding ◌>>=◌ take_bytes
u32 = do b ← take_bytes 4; give (le_value b)

text_or_empty : Option Bytes × Bytes → Option Bytes × Bytes
text_or_empty (none, c) = (some [], c)
text_or_empty (some b, c) = (some (ucs2 b), c)

-- `ucs2n`: where the bytes are missing it reads none, and gives the empty string
unfoldable pub ucs2n : ℕ → Read Bytes
unfolding text_or_empty take_bytes
ucs2n chars c = text_or_empty (take_bytes (chars * 2) c)

-- `lenPrefixed1`; no bytes stand for nil
unfoldable pub len_prefixed1 : Read Bytes
unfolding ◌>>=◌ byte take_bytes
len_prefixed1 = do n ← byte; if n == 0 then give [] else take_bytes n

-- `int64(u)`, of 64 bits
abbrev pub signed64 : ℕ → ℤ
signed64 u = if ltb u (2 ^ 63) then pos u else negsuc (2 ^ 64 - 1 - u)

-- `leInt`: the bytes from the last one down, shifted into 64 bits; then the sign bit of a shorter
-- number is copied upwards
unfoldable pub le_int : Bytes → ℤ
le_int b =
    let u = le_value b % 2 ^ 64 in
    let bits = length b * 8 in
    signed64 (if ltb bits 64 && (u / 2 ^ (bits - 1) % 2 == 1) then u + (2 ^ 64 - 2 ^ bits) else u)

module _ {Float : Type 0} where
  -- `varInt`
  unfoldable pub var_int : Read (Value Float)
  unfolding ◌>>=◌ byte len_prefixed1 le_int
  var_int = do
    _ ← byte
    raw ← len_prefixed1
    give (if length raw == 0 then null else int (le_int raw))

  -- the loop of `plpString`, with `buf`
  unfoldable pub plp_loop : ℕ → Bytes → Read (Value Float)
  unfolding ◌>>=◌ take_bytes
  plp_loop zero buf = stop
  plp_loop (suc fuel) buf = do
    lb ← take_bytes 4
    let n = le_value lb
    if n == 0
        then give (str (ucs2 buf))
        else (do chunk ← take_bytes n; plp_loop fuel (buf ++ chunk))

  -- `plpString`. A round of its loop takes four bytes at least.
  unfoldable pub plp_string : Read (Value Float)
  unfolding ◌>>=◌ take_bytes plp_loop
  plp_string = do
    hdr ← take_bytes 8
    if le_value hdr == 2 ^ 64 - 1 then give null else (λ c. plp_loop (suc (length c)) [] c)

-- One step of a chain.
pub bind_some :
    {A B : Type 0} (m : Read A) (f : A → Read B) (c : Bytes) {rest : Bytes} {a : A}
    → m c ≡ (some a, rest)
    → (m >>= f) c ≡ f a rest
unfolding ◌>>=◌ continue
bind_some m f c e = rw e refl

pub take_bytes_append : (b rest : Bytes) → take_bytes (length b) (b ++ rest) ≡ (some b, rest)
unfolding take_bytes
take_bytes_append b rest =
    rw
      (
        le→ltb_false (length (b ++ rest)) (length b) (omega (arith, length-append b rest)),
        take_append b rest (length b) refl,
        drop_append b rest (length b) refl,
      )
      refl

pub take_bytes_at :
    (n : ℕ) (b rest : Bytes) → length b ≡ n → take_bytes n (b ++ rest) ≡ (some b, rest)
take_bytes_at n b rest e =
    ap (λ (n : ℕ). take_bytes n (b ++ rest)) (sym e) ∙ take_bytes_append b rest

pub u16_put : (v : ℕ) (rest : Bytes) → v < 65536 → u16 (put_le 2 v ++ rest) ≡ (some v, rest)
unfolding u16
u16_put v rest h =
    bind_some (take_bytes 2) (λ b. give (le_value b)) (put_le 2 v ++ rest)
      (take_bytes_at 2 (put_le 2 v) rest refl)
    ∙ ap (λ (n : ℕ). (some n, rest)) (le_value-put_u16 v h)
