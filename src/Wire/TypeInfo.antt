-- ===== src/Wire/TypeInfo.antt =====
-- tds/types/types.go, `Kind` and `Type`; internal/wire/result.go, `typeInfo` with the type tokens.
use haystak_tds_spi.Base.{
  ℕ, ◌*◌, ◌%◌, Bool, ◌&&◌, ◌||◌, [], ◌∷◌, ◌++◌, ltb, leb, ◌==◌, if◌then◌else◌, Bytes,
}
use haystak_tds_spi.Go.Binary.{put_le}

abbrev pub type_intn : ℕ
type_intn = 0x26

abbrev pub type_bitn : ℕ
type_bitn = 0x68

abbrev pub type_fltn : ℕ
type_fltn = 0x6D

abbrev pub type_nvarchar : ℕ
type_nvarchar = 0xE7

abbrev pub type_ntext : ℕ
type_ntext = 0x63

abbrev pub type_text : ℕ
type_text = 0x23

abbrev pub type_guid : ℕ
type_guid = 0x24

abbrev pub type_decimaln : ℕ
type_decimaln = 0x6A

abbrev pub type_datetime2 : ℕ
type_datetime2 = 0x2A

abbrev pub type_bigvarbinary : ℕ
type_bigvarbinary = 0xA5

pub data Kind : Type 0 where
  unknown bool int32 int64 float64 decimal string bytes time uuid int8 int16 : Kind

-- `types.Type`; the lengths, precisions and scales are natural, and `max_len` is 0 where the code
-- has none or a negative one
pub record ColumnType : Type 0 where
  pub kind : Kind
  pub max_len : ℕ
  pub precision : ℕ
  pub scale : ℕ

-- `nvarcharIsMax`
abbrev pub nvarchar_is_max : ColumnType → Bool
nvarchar_is_max t = t.max_len == 0 || ltb 4000 t.max_len

-- `decStorage`
unfoldable pub dec_storage : ℕ → ℕ
dec_storage prec =
    if leb prec 9 then 5 else if leb prec 19 then 9 else if leb prec 28 then 13 else 17

-- a precision of 0 stands for 18
abbrev pub precision_of : ColumnType → ℕ
precision_of t = if t.precision == 0 then 18 else t.precision

-- `typeInfo`
unfoldable pub type_info : ColumnType → Bytes
unfolding dec_storage
type_info t = elim t.kind [
  | int64 ↦ type_intn ∷ 8 ∷ []
  | int32 ↦ type_intn ∷ 4 ∷ []
  | int8 ↦ type_intn ∷ 1 ∷ []
  | int16 ↦ type_intn ∷ 2 ∷ []
  | bool ↦ type_bitn ∷ 1 ∷ []
  | float64 ↦ type_fltn ∷ 8 ∷ []
  | decimal ↦
      type_decimaln ∷ dec_storage (precision_of t) ∷ (precision_of t % 256) ∷ (t.scale % 256) ∷ []
  | uuid ↦ type_guid ∷ 16 ∷ []
  | time ↦ type_datetime2 ∷ 0 ∷ []
  | bytes ↦
      type_bigvarbinary
      ∷ put_le 2 (if ltb 0 t.max_len && ltb t.max_len 8000 then t.max_len else 8000)
  | _ ↦
      type_nvarchar
      ∷ (put_le 2 (if nvarchar_is_max t then 0xFFFF else t.max_len * 2)
          ++ (0x09 ∷ 0x04 ∷ 0xD0 ∷ 0x00 ∷ 0x34 ∷ []))
]
