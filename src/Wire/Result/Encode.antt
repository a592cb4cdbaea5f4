-- ===== src/Wire/Result/Encode.antt =====
-- internal/wire/result.go, `encodeValue` and what it calls: one value of a row.
use Prim.Native.Nat.{bit_or}
use haystak_tds_spi.Base.{
  ℕ, zero, suc, ◌+◌, ◌-◌, ◌*◌, ◌/◌, ◌%◌, ◌^◌, min, true, ◌&&◌, Option, none, some, [], ◌∷◌, ◌++◌,
  map, leb, ◌==◌, if◌then◌else◌, length, take, drop, replicate, Bytes, codes,
}
use haystak_tds_spi.Base.Int.{pos, negsuc}
use haystak_tds_spi.Go.Binary.{put_le}
use haystak_tds_spi.Go.Floats.{FloatOps}
use haystak_tds_spi.Go.Strings.{replace_all}
use haystak_tds_spi.Go.Utf.{units_le}
use haystak_tds_spi.Value.{Value, null, bool, int, other, sprint, sprint_slice}
use haystak_tds_spi.Wire.Text.{units_of}
use haystak_tds_spi.Wire.TypeInfo.{
  ColumnType, nvarchar_is_max, dec_storage, precision_of, int64, int32, int16, int8, float64,
  decimal, uuid, time, bytes,
}
use haystak_tds_spi.Wire.TypeInfo

-- a `time.Time` in UTC, to the second
pub record Moment : Type 0 where
  pub year : ℕ
  pub month : ℕ
  pub day : ℕ
  pub hour : ℕ
  pub minute : ℕ
  pub second : ℕ

-- the values that are no nil, bool, integer or string; `text` of a time is fmt's
pub data Wide (Float : Type 0) : Type 0 where
  float : Float → Wide Float
  blob : Bytes → Wide Float
  instant : Moment → (text : Bytes) → Wide Float

-- `toInt64`, as `uint64` of it
unfoldable pub to_uint64 : {Other : Type 0} → Value Other → ℕ
to_uint64 (int (pos n)) = n % 2 ^ 64
to_uint64 (int (negsuc n)) = 2 ^ 64 - 1 - n % 2 ^ 64
to_uint64 (bool true) = 1
to_uint64 _ = 0

-- `encodeIntN`
unfoldable pub encode_int_n : {Other : Type 0} → Value Other → ℕ → Bytes
unfolding to_uint64
encode_int_n null size = 0 ∷ []
encode_int_n v size = size ∷ take size (put_le 8 (to_uint64 v))

-- the case `types.Bool`
encode_bool : {Other : Type 0} → Value Other → Bytes
encode_bool null = 0 ∷ []
encode_bool (bool true) = 1 ∷ 1 ∷ []
encode_bool v = 1 ∷ 0 ∷ []

-- `encodeNVarchar`, of the value's text
unfoldable pub nvarchar_text : Bytes → Bytes
unfolding units_of units_le
nvarchar_text s = put_le 2 (length (units_of s) * 2) ++ units_le (units_of s)

abbrev pub chunk : ℕ
chunk = 2 ^ 20

-- the loop of `encodePLPString`, on the data from `off` on; a round takes a byte of it at least
unfoldable pub plp_chunks : ℕ → ℕ → Bytes → Bytes
plp_chunks size zero rest = []
plp_chunks size (suc fuel) [] = []
plp_chunks size (suc fuel) (b ∷ rest) =
    put_le 4 (min size (length (b ∷ rest)))
    ++ (take size (b ∷ rest) ++ plp_chunks size fuel (drop size (b ∷ rest)))

-- `encodePLPString`, of the value's text
unfoldable pub plp_text : Bytes → Bytes
unfolding units_of units_le plp_chunks
plp_text s =
    let bytes = units_le (units_of s) in
    put_le 8 (length bytes) ++ (plp_chunks chunk (length bytes) bytes ++ (0 ∷ 0 ∷ 0 ∷ 0 ∷ []))

-- `hexVal`
unfoldable pub hex_val : ℕ → Option ℕ
hex_val c =
    if leb b'0' c && leb c b'9'
    then some (c - b'0')
    else if leb b'a' c && leb c b'f'
    then some (c - b'a' + 10)
    else if leb b'A' c && leb c b'F'
    then some (c - b'A' + 10)
    else none

hex_pair : Option ℕ → Option ℕ → Option ℕ
hex_pair (some hi) (some lo) = some (bit_or (hi * 16) lo)
hex_pair _ _ = none

cons? : Option ℕ → Option Bytes → Option Bytes
cons? (some b) (some bs) = some (b ∷ bs)
cons? _ _ = none

-- the loop of `guidBytes`, on an even number of digits
unfoldable pub hex_bytes : Bytes → Option Bytes
unfolding hex_val hex_pair cons?
hex_bytes (a ∷ b ∷ s) = cons? (hex_pair (hex_val a) (hex_val b)) (hex_bytes s)
hex_bytes _ = some []

-- the swaps: the first three groups of a GUID are little endian
unfoldable pub swap_groups : Bytes → Bytes
swap_groups (b0 ∷ b1 ∷ b2 ∷ b3 ∷ b4 ∷ b5 ∷ b6 ∷ b7 ∷ b) = b3 ∷ b2 ∷ b1 ∷ b0 ∷ b5 ∷ b4 ∷ b7 ∷ b6 ∷ b
swap_groups b = b

-- `guidBytes`
unfoldable pub guid_bytes : Bytes → Option Bytes
unfolding hex_bytes swap_groups replace_all
guid_bytes s =
    let digits = replace_all s (codes "-") [] in
    if length digits == 32
    then elim (hex_bytes digits) [ none ↦ none | some b ↦ some (swap_groups b) ]
    else none

-- `daysSince1`, for a year after 0: Go's divisions are then of natural numbers
unfoldable pub days_since1 : ℕ → ℕ → ℕ → ℕ
days_since1 y m d =
    let a = (14 - m) / 12 in
    let yy = y + 4800 - a in
    let mm = m + 12 * a - 3 in
    let jdn = d + (153 * mm + 2) / 5 + 365 * yy + yy / 4 - yy / 100 + yy / 400 - 32045 in
    jdn - 1721426

-- three bytes of a number, low first
abbrev three_le : ℕ → Bytes
three_le n = take 3 (put_le 8 n)

module _ {Float : Type 0} (ops : FloatOps Float) where
  -- fmt.Sprintf("%v", v)
  unfoldable pub show_wide : Wide Float → Bytes
  unfolding sprint_slice
  show_wide (float f) = ops.show f
  show_wide (blob b) = sprint_slice (λ (t : Bytes). t) (map (λ (x : ℕ). int (pos x)) b)
  show_wide (instant t text) = text

  unfoldable pub text_of : Value (Wide Float) → Bytes
  unfolding sprint show_wide
  text_of v = sprint show_wide v

  -- `encodeNVarchar`
  unfoldable pub encode_nvarchar : Value (Wide Float) → Bytes
  unfolding nvarchar_text text_of
  encode_nvarchar null = 0xFF ∷ 0xFF ∷ []
  encode_nvarchar v = nvarchar_text (text_of v)

  -- `encodePLPString`
  unfoldable pub encode_plp_string : Value (Wide Float) → Bytes
  unfolding plp_text text_of
  encode_plp_string null = replicate 8 0xFF
  encode_plp_string v = plp_text (text_of v)

  -- `toFloat`
  to_float : Value (Wide Float) → Float
  to_float (int n) = ops.of_int n
  to_float (other (float f)) = f
  to_float _ = ops.zero_float

  -- the case `types.Float64`
  encode_float : Value (Wide Float) → Bytes
  unfolding to_float
  encode_float null = 0 ∷ []
  encode_float v = 8 ∷ put_le 8 (ops.bits64 (to_float v))

  -- `encodeDecimal`: the magnitude's eight bytes, in sixteen of which the storage takes its part
  unfoldable pub encode_decimal : ColumnType → Value (Wide Float) → Bytes
  unfolding to_float dec_storage
  encode_decimal t null = 0 ∷ []
  encode_decimal t v =
      let storage = dec_storage (precision_of t) in
      let f = to_float v in
      storage
      ∷ (if ops.is_negative f then 0 else 1)
      ∷ take (storage - 1) (put_le 8 (ops.magnitude f t.scale) ++ replicate 8 0)

  -- `encodeGUID`
  unfoldable pub encode_guid : Value (Wide Float) → Bytes
  unfolding guid_bytes text_of
  encode_guid null = 0 ∷ []
  encode_guid v = elim (guid_bytes (text_of v)) [ none ↦ 0 ∷ [] | some g ↦ 16 ∷ g ]

  -- `encodeDateTime2`
  unfoldable pub encode_date_time2 : Value (Wide Float) → Bytes
  unfolding days_since1
  encode_date_time2 (other (instant t text)) =
      6
      ∷ (three_le (t.hour * 3600 + t.minute * 60 + t.second)
          ++ three_le (days_since1 t.year t.month t.day))
  encode_date_time2 _ = 0 ∷ []

  -- `encodeVarbinary`
  unfoldable pub encode_varbinary : Value (Wide Float) → Bytes
  encode_varbinary (other (blob b)) = put_le 2 (length b) ++ b
  encode_varbinary _ = 0xFF ∷ 0xFF ∷ []

  -- `encodeValue`
  unfoldable pub encode_value : ColumnType → Value (Wide Float) → Bytes
  unfolding encode_int_n encode_bool encode_float encode_decimal encode_guid encode_date_time2
      encode_varbinary encode_plp_string encode_nvarchar
  encode_value t v = elim t.kind [
    | int64 ↦ encode_int_n v 8
    | int32 ↦ encode_int_n v 4
    | int8 ↦ encode_int_n v 1
    | int16 ↦ encode_int_n v 2
    | TypeInfo.bool ↦ encode_bool v
    | float64 ↦ encode_float v
    | decimal ↦ encode_decimal t v
    | uuid ↦ encode_guid v
    | time ↦ encode_date_time2 v
    | bytes ↦ encode_varbinary v
    | _ ↦ if nvarchar_is_max t then encode_plp_string v else encode_nvarchar v
  ]
