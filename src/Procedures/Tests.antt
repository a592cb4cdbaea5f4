-- ===== src/Procedures/Tests.antt =====
-- internal/extensions/procedures/proc.go: instances on small bodies.
use haystak_tds_spi.Base.{◌≡◌, refl, [], ◌∷◌, ◌++◌, codes}
use haystak_tds_spi.Base.Int.{pos}
use haystak_tds_spi.Control.Cell.{Formats}
use haystak_tds_spi.Batch.Declared.{quote}
use haystak_tds_spi.Go.Strings.{lower_byte}
use haystak_tds_spi.Batch.Scan.{is_name_part}
use haystak_tds_spi.Procedures.Params.{ends_name, replace_param, substitute_params}
use haystak_tds_spi.Procedures.Params.Replace.{
  replace_param_first, substitute_params_nested, two_params, arg,
}

replace_param_first_example :
    replace_param (codes "SELECT " ++ (codes "@id" ++ codes ", 1")) (codes "@id") (codes "7")
    ≡ codes "SELECT " ++ (codes "7" ++ replace_param (codes ", 1") (codes "@id") (codes "7"))
unfolding ends_name
replace_param_first_example =
    replace_param_first (codes "id") (codes "7") (codes "SELECT ") (codes ", 1")
      (refl, (refl, (refl, (refl, (refl, (refl, (refl, tt))))))) refl

abbrev no_formats : Formats (Unit {0})
no_formats = record {
  format_float = λ x. [];
  trunc_float = λ x. pos 0;
  format_time = λ x. [];
  sprint_other = λ x. [];
}

substitute_params_nested_example :
    substitute_params no_formats
      (two_params
        (codes "a")
        (codes "b")
        (codes "SELECT " ++ (b'@' ∷ (codes "a" ++ codes " FROM t"))))
      (arg (codes "@b") ∷ arg (codes "; DROP TABLE t --") ∷ [])
    ≡ codes "SELECT " ++ (b'\'' ∷ (quote (codes "; DROP TABLE t --") ++ b'\'' ∷ codes " FROM t"))
unfolding ends_name
substitute_params_nested_example =
    substitute_params_nested no_formats (codes "a") (codes "b") (codes "; DROP TABLE t --")
      (codes "SELECT ") (codes " FROM t") (unfold lower_byte in refl) (refl, tt)
      (refl, (refl, (refl, (refl, (refl, (refl, (refl, tt)))))))
      (refl, (refl, (refl, (refl, (refl, (refl, (refl, tt))))))) (unfold is_name_part in refl)
