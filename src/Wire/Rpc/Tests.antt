-- ===== src/Wire/Rpc/Tests.antt =====
-- Parameters of a few bytes.
use haystak_tds_spi.Base.{ℕ, ◌≡◌, refl, some, List, [], ◌∷◌, ◌++◌, arith, length, Bytes, codes}
use haystak_tds_spi.Base.Result.{panic}
use haystak_tds_spi.Base.Int.{negsuc}
use haystak_tds_spi.Go.Floats.{bits}
use haystak_tds_spi.Go.Utf.{runes, utf16_encode, string_of}
use haystak_tds_spi.Value.{int, str}
use haystak_tds_spi.Wire.Text.{units_of}
use haystak_tds_spi.Wire.TypeInfo.{type_info, string, int16}
use haystak_tds_spi.Wire.Rpc.{execute_sql, expand_params, sql_literal}
use haystak_tds_spi.Wire.Rpc.Params.{type_value}
use haystak_tds_spi.Wire.Rpc.Values.{
  column, small, type_value-encode_int, type_value-encode_text_max,
}
use haystak_tds_spi.Wire.Rpc.Statements.{parameter, execute_sql-panic, expand_params_nested}
use haystak_tds_spi.Wire.Result.Encode.{encode_value}

abbrev as_they_are : List Bytes → List Bytes
as_they_are keys = keys

type_value-encode_int_example :
    type_value bits (
      type_info (column int16 0)
      ++ (encode_value bits (column int16 0) (int (negsuc 299)) ++ (1 ∷ [])))
    ≡ (some (int (negsuc 299)), 1 ∷ [])
type_value-encode_int_example =
    type_value-encode_int bits 0 (negsuc 299) (1 ∷ []) small (omega arith)

abbrev smile : List ℕ
smile = 0x61 ∷ 0x1F600 ∷ []

three_units : length (units_of (string_of smile)) ≡ 3
unfolding units_of runes utf16_encode string_of
three_units = refl

type_value-encode_text_max_example :
    type_value bits (
      type_info (column string 0)
      ++ (encode_value bits (column string 0) (str (string_of smile)) ++ []))
    ≡ (some (str (string_of smile)), [])
type_value-encode_text_max_example =
    type_value-encode_text_max bits 0 smile [] refl (refl, (refl, tt)) (omega (arith, three_units))

execute_sql-panic_example :
    execute_sql bits as_they_are (parameter [] (codes "SELECT 1") ∷ []) ≡ panic
execute_sql-panic_example = execute_sql-panic bits as_they_are [] (codes "SELECT 1") refl

expand_params_nested_example :
    expand_params bits as_they_are
      (codes "WHERE x = " ++ (b'@' ∷ (codes "a" ++ codes ";")))
      (codes "@a nvarchar(9), @b nvarchar(9)")
      (parameter (codes "@a") (codes "@b") ∷ parameter (codes "@b") (codes " OR 1=1--") ∷ [])
    ≡ codes "WHERE x = "
      ++ (b'\'' ∷ (sql_literal bits (str (codes " OR 1=1--")) ++ b'\'' ∷ codes ";"))
expand_params_nested_example =
    expand_params_nested bits as_they_are (codes "@a nvarchar(9), @b nvarchar(9)") (codes "a")
      (codes "b") (codes " OR 1=1--") (codes "WHERE x = ") (codes ";") refl refl (refl, tt)
      (refl, (refl, (refl, (refl, (refl, (refl, (refl, (refl, (refl, (refl, tt)))))))))) (refl, tt)
