-- ===== src/Wire/Result.antt =====
-- internal/wire/result.go: result sets and errors as token streams. Byte slices and times are values
-- that the code only passes to `encodeVarbinary` and `encodeDateTime2`: `Wide` holds them and the
-- floats. `Value.other` carries a `Wide`.
pub mod Encode
pub mod Streams
pub mod Dates
mod Tests
use Prim.Native.Nat.{bit_or}
use haystak_tds_spi.Base.{
  ℕ, zero, suc, ◌+◌, ◌-◌, ◌*◌, ◌/◌, ◌%◌, ◌^◌, ◌≤◌, ◌<◌, min, ◌≡◌, refl, sym, ap, ◌∙◌, subst, ◌≢◌,
  ◌↔◌, ◌⊎◌, inl, inr, Bool, true, false, not, ◌&&◌, ◌||◌, Option, none, some, List, [], ◌∷◌, ◌++◌,
  map, append_assoc, append-nil, arith, ltb, leb, ◌==◌, if◌then◌else◌, ltb→lt, lt→ltb, leb→le,
  le→leb, ltb_false→le, leb_false→lt, le→ltb_false, ==_iff, ==_refl, Bool-cases, Option-cases,
  length, get_elem?, get_or, take, drop, replicate, length-append, take-append-drop, length-take,
  length-drop, take_append, drop_append, take_all, drop_all, drop-drop, length-replicate,
  length-map, Bytes, All, IsBytes, codes, All-append,
}
use haystak_tds_spi.Base.Result.{
  Result, ok, err, panic, no_fuel, ◌>>=◌, ◌>>◌, Returns, Yields, bind-eq-ok, Returns-bind,
}
use haystak_tds_spi.Base.Int.{ℤ, pos, negsuc}
use haystak_tds_spi.Go.Binary.{put_le}
use haystak_tds_spi.Go.Floats.{FloatOps}
use haystak_tds_spi.Value.{Value, null, bool, int, str, other}
use haystak_tds_spi.Wire.Text.{ucs2, b_varchar, us_varchar}
use haystak_tds_spi.Wire.Rpc.{skip_headers}
use haystak_tds_spi.Wire.TypeInfo.{ColumnType, type_info}
use haystak_tds_spi.Wire.Tokens.{token_error, done_final, done_more, done_count, mk_token, done}
use haystak_tds_spi.Wire.Result.Encode.{Wide, encode_value}

-- `DecodeSQLBatch`
unfoldable pub decode_sql_batch : Bytes → Bytes
unfolding skip_headers
decode_sql_batch payload = ucs2 (skip_headers payload)

-- `catalog.Column`, as far as a result set has it
pub record Column : Type 0 where
  pub name : Bytes
  pub type : ColumnType

-- `doneStatus`
abbrev pub done_status : Bool → ℕ
done_status more = if more then done_more else done_final

-- the loop of `colMetadata`: user type, flags, type and name
column_entries : List Column → Bytes
unfolding type_info b_varchar
column_entries [] = []
column_entries (c ∷ cols) =
    0 ∷ 0 ∷ 0 ∷ 0 ∷ 0x01 ∷ 0x00 ∷ (type_info c.type ++ (b_varchar c.name ++ column_entries cols))

abbrev token_col_metadata : ℕ
token_col_metadata = 0x81

abbrev token_row : ℕ
token_row = 0xD1

-- `colMetadata`
unfoldable pub col_metadata : List Column → Bytes
unfolding column_entries
col_metadata cols = token_col_metadata ∷ (put_le 2 (length cols) ++ column_entries cols)

module _ {Float : Type 0} (ops : FloatOps Float) where
  -- `row[i]` for each column; a row that is too short panics
  unfoldable pub encode_row : List Column → List (Value (Wide Float)) → Result ⊥ Bytes
  unfolding encode_value
  encode_row [] row = ok []
  encode_row (c ∷ cols) [] = panic
  encode_row (c ∷ cols) (v ∷ row) = do
    rest ← encode_row cols row
    ok (encode_value ops c.type v ++ rest)

  -- the loop over the rows
  unfoldable pub encode_rows : List Column → List (List (Value (Wide Float))) → Result ⊥ Bytes
  unfolding encode_row
  encode_rows cols [] = ok []
  encode_rows cols (row ∷ rows) = do
    this ← encode_row cols row
    rest ← encode_rows cols rows
    ok (token_row ∷ (this ++ rest))

  -- `BuildResultSet`
  unfoldable pub build_result_set :
      List Column → List (List (Value (Wide Float))) → Bool → Result ⊥ Bytes
  unfolding col_metadata encode_rows done
  build_result_set cols rows more = do
    body ← encode_rows cols rows
    ok (col_metadata cols ++ (body ++ done (bit_or (done_status more) done_count) 0 (length rows)))

  -- `BuildResultResponse`
  unfoldable pub build_result_response :
      List Column → List (List (Value (Wide Float))) → Result ⊥ Bytes
  unfolding build_result_set
  build_result_response cols rows = build_result_set cols rows false

-- `DoneRows`
unfoldable pub done_rows : ℕ → Bool → Bytes
unfolding done
done_rows n more = done (bit_or (done_status more) done_count) 0 n

-- the body of an ERROR token: number, state, severity, message, server, procedure, line
unfoldable pub error_body : Bytes → ℕ → Bytes → Bytes
unfolding us_varchar b_varchar
error_body number severity msg =
    number
    ++ (1
        ∷ severity
        ∷ (us_varchar msg
            ++ (b_varchar (codes "haystak") ++ (b_varchar [] ++ (0 ∷ 0 ∷ 0 ∷ 0 ∷ [])))))

-- `BuildError`
unfoldable pub build_error : Bytes → Bytes
unfolding error_body mk_token done
build_error msg =
    mk_token token_error (error_body (0 ∷ 0 ∷ 0 ∷ 0 ∷ []) 16 msg)
    ++ done (bit_or done_final 0x0002) 0 0

-- `LoginError`
unfoldable pub login_error : Bytes → Bytes
unfolding error_body mk_token done
login_error msg =
    mk_token token_error (error_body (0x18 ∷ 0x48 ∷ 0x00 ∷ 0x00 ∷ []) 14 msg)
    ++ done (bit_or done_final 0x0002) 0 0
