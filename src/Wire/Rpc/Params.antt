-- ===== src/Wire/Rpc/Params.antt =====
-- internal/wire/rpc.go, `typeValue` and `param`: one parameter of a request.
use haystak_tds_spi.Base.{ℕ, ◌-◌, ◌^◌, not, [], ◌∷◌, ◌==◌, if◌then◌else◌, length, Bytes}
use haystak_tds_spi.Go.Binary.{le_value}
use haystak_tds_spi.Go.Floats.{FloatOps}
use haystak_tds_spi.Value.{Value, null, bool, str, other}
use haystak_tds_spi.Wire.Text.{ucs2}
use haystak_tds_spi.Wire.TypeInfo.{
  type_intn, type_bitn, type_fltn, type_nvarchar, type_ntext, type_text,
}
use haystak_tds_spi.Wire.Rpc.Cursor.{
  Read, ◌>>=◌, give, stop, byte, take_bytes, u16, u32, ucs2n, len_prefixed1, var_int, plp_string,
}

-- `rpcParam`
pub record RpcParam (Float : Type 0) : Type 0 where
  pub name : Bytes
  pub val : Value Float

module _ {Float : Type 0} (ops : FloatOps Float) where
  -- `raw[0] != 0`, and nil where there are no bytes
  bit_value : Bytes → Value Float
  bit_value [] = null
  bit_value (b ∷ bs) = bool (not (b == 0))

  float_value : Bytes → Value Float
  float_value raw =
      if length raw == 8
      then other (ops.from_bits64 (le_value raw))
      else if length raw == 4
      then other (ops.from_bits32 (le_value raw))
      else null

  bitn_value : Read (Value Float)
  unfolding ◌>>=◌ byte len_prefixed1 bit_value
  bitn_value = do _ ← byte; raw ← len_prefixed1; give (bit_value raw)

  fltn_value : Read (Value Float)
  unfolding ◌>>=◌ byte len_prefixed1 float_value
  fltn_value = do _ ← byte; raw ← len_prefixed1; give (float_value raw)

  -- the case `typeNVARCHAR`
  unfoldable pub nvarchar_value : Read (Value Float)
  unfolding ◌>>=◌ u16 take_bytes plp_string
  nvarchar_value = do
    maxlen ← u16
    _ ← take_bytes 5
    if maxlen == 0xFFFF then plp_string else (do
      vlen ← u16
      if vlen == 0xFFFF then give null else (do raw ← take_bytes vlen; give (str (ucs2 raw))))

  -- the cases `typeNTEXT` and `typeTEXT`; `decode` is `ucs2` for the first
  long_text_value : (Bytes → Bytes) → Read (Value Float)
  unfolding ◌>>=◌ u32 take_bytes
  long_text_value decode = do
    _ ← take_bytes 4
    _ ← take_bytes 5
    dlen ← u32
    if dlen == 2 ^ 32 - 1 then give null else (do raw ← take_bytes dlen; give (str (decode raw)))

  -- the `switch` of `typeValue`
  unfoldable pub value_of_type : ℕ → Read (Value Float)
  unfolding bitn_value fltn_value nvarchar_value long_text_value var_int
  value_of_type tok =
      if tok == type_intn
      then var_int
      else if tok == type_bitn
      then bitn_value
      else if tok == type_fltn
      then fltn_value
      else if tok == type_nvarchar
      then nvarchar_value
      else if tok == type_ntext
      then long_text_value ucs2
      else if tok == type_text
      then long_text_value (λ raw. raw)
      else stop

  -- `typeValue`
  unfoldable pub type_value : Read (Value Float)
  unfolding ◌>>=◌ byte value_of_type
  type_value = do tok ← byte; value_of_type tok

  -- `param`
  unfoldable pub param : Read (RpcParam Float)
  unfolding ◌>>=◌ byte ucs2n type_value
  param = do
    nlen ← byte
    name ← ucs2n nlen
    _ ← byte
    val ← type_value
    give (record { name = name; val = val })
