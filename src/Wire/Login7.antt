-- ===== src/Wire/Login7.antt =====
-- internal/wire/login7.go: the identity fields of a LOGIN7 payload. Each is an offset and a count
-- of UTF-16 units, two bytes each, at a fixed place of the header; the password is obfuscated.
pub mod Password
pub mod Fields
mod Tests
use Prim.Native.Nat.{bit_or, bit_xor}
use haystak_tds_spi.Base.{
  ℕ, zero, suc, ◌+◌, ◌-◌, ◌*◌, ◌/◌, ◌%◌, ◌^◌, ◌≤◌, ◌<◌, min, ◌≡◌, refl, sym, ap, ◌∙◌, subst, ◌≢◌,
  ◌↔◌, ◌⊎◌, inl, inr, Bool, true, false, not, ◌&&◌, ◌||◌, Option, none, some, List, [], ◌∷◌, ◌++◌,
  map, append_assoc, append-nil, arith, ltb, leb, ◌==◌, if◌then◌else◌, ltb→lt, lt→ltb, leb→le,
  le→leb, ltb_false→le, leb_false→lt, le→ltb_false, ==_iff, ==_refl, Bool-cases, Option-cases,
  length, get_elem?, get_or, take, drop, replicate, length-append, take-append-drop, length-take,
  length-drop, take_append, drop_append, take_all, drop_all, drop-drop, length-replicate,
  length-map, Bytes, All, IsBytes, codes, All-append,
}
use haystak_tds_spi.Base.Result.{
  Result, ok, err, panic, no_fuel, ◌>>=◌, ◌>>◌, Returns, Yields, bind-eq-ok, Returns-bind,
}
use haystak_tds_spi.Base.Slices.{slice}
use haystak_tds_spi.Go.Binary.{le_value}
use haystak_tds_spi.Wire.Text.{ucs2}

pub record Login7 : Type 0 where
  pub host_name : Bytes
  pub user_name : Bytes
  pub password : Bytes
  pub app_name : Bytes
  pub server_name : Bytes
  pub database : Bytes

pub data LoginError : Type 0 where
  too_short : ℕ → LoginError
  field_out_of_range : ℕ → LoginError
  password_out_of_range : LoginError

-- `x := c ^ 0xA5; dec[i] = (x << 4) | (x >> 4)`, on a byte
unfoldable pub decode_byte : ℕ → ℕ
decode_byte c = let x = bit_xor c 0xA5 in bit_or (x * 16 % 256) (x / 16)

-- `decodePassword`
unfoldable pub decode_password : Bytes → Bytes
decode_password b = ucs2 (map decode_byte b)

-- the two numbers at `ibPos`
unfoldable pub u16_at : Bytes → ℕ → Result LoginError ℕ
u16_at payload pos = do b ← slice payload pos (pos + 2); ok (le_value b)

-- the bytes of the field at `ibPos`; `bad` is the error where they are out of range
unfoldable pub field_bytes : Bytes → ℕ → LoginError → Result LoginError Bytes
field_bytes payload pos bad = do
  ib ← u16_at payload pos
  cch ← u16_at payload (pos + 2)
  let end = ib + cch * 2
  if cch == 0 then ok [] else if ltb (length payload) end then err bad else slice payload ib end

-- the closure `str`; `ucs2` of no bytes is ""
unfoldable pub str_field : Bytes → ℕ → Result LoginError Bytes
str_field payload pos = do b ← field_bytes payload pos (field_out_of_range pos); ok (ucs2 b)

-- the password: empty if its count is 0
unfoldable pub password_field : Bytes → Result LoginError Bytes
password_field payload = do b ← field_bytes payload 44 password_out_of_range; ok (decode_password b)

-- `ParseLogin7`
unfoldable pub parse_login7 : Bytes → Result LoginError Login7
parse_login7 payload = if ltb (length payload) 72 then err (too_short (length payload)) else do
  host_name ← str_field payload 36
  user_name ← str_field payload 40
  password ← password_field payload
  app_name ← str_field payload 48
  server_name ← str_field payload 52
  database ← str_field payload 68
  ok (record {
    host_name = host_name;
    user_name = user_name;
    password = password;
    app_name = app_name;
    server_name = server_name;
    database = database;
  })
