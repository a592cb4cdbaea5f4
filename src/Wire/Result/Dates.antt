-- ===== src/Wire/Result/Dates.antt =====
-- internal/wire/result.go: `daysSince1` and the Gregorian calendar.
use haystak_tds_spi.Base.{
  ℕ, zero, suc, ◌+◌, ◌-◌, ◌*◌, ◌/◌, ◌%◌, ◌≤◌, ◌<◌, ◌≡◌, refl, Bool, not, ◌&&◌, ◌||◌, arith, ◌==◌,
  if◌then◌else◌,
}
use haystak_tds_spi.Wire.Result.Encode.{days_since1}

-- A year with a 29th of February.
abbrev pub is_leap : ℕ → Bool
is_leap y = (y % 4 == 0 && not (y % 100 == 0)) || y % 400 == 0

abbrev pub month_length : Bool → ℕ → ℕ
month_length leap m =
    if m == 2
    then (if leap then 29 else 28)
    else if m == 4 || (m == 6 || (m == 9 || m == 11))
    then 30
    else 31

-- The days of a year before its month `m + 1`, and the days before the year `y + 1`, counted one by
-- one from the start of the year 1.
pub days_before_month : Bool → ℕ → ℕ
days_before_month leap zero = 0
days_before_month leap (suc m) = days_before_month leap m + month_length leap (suc m)

pub days_before_year : ℕ → ℕ
days_before_year zero = 0
days_before_year (suc y) = days_before_year y + (if is_leap (suc y) then 366 else 365)

years_closed : (y : ℕ) → days_before_year y ≡ 365 * y + y / 4 - y / 100 + y / 400
unfolding days_before_year
years_closed zero = refl
years_closed (suc y) = ground (arith, years_closed y)

-- The date `d` of the month `m + 1` of the year `y + 1`.
abbrev pub Counts : ℕ → ℕ → ℕ → Type 0
Counts y m d =
    days_since1 (y + 1) (m + 1) d
    ≡ days_before_year y + days_before_month (is_leap (y + 1)) m + (d - 1)

-- `daysSince1` of a date is the number of days between it and the first of January of the year 1.
pub days_since1-days_before : (y m d : ℕ) → m < 12 → 1 ≤ d → Counts y m d
unfolding days_since1 days_before_month
days_since1-days_before y zero d h k = ground (arith, years_closed y)
days_since1-days_before y (suc zero) d h k = ground (arith, years_closed y)
days_since1-days_before y (suc (suc zero)) d h k = ground (arith, years_closed y)
days_since1-days_before y (suc (suc (suc zero))) d h k = ground (arith, years_closed y)
days_since1-days_before y (suc (suc (suc (suc zero)))) d h k = ground (arith, years_closed y)
days_since1-days_before y (suc (suc (suc (suc (suc zero))))) d h k = ground (arith, years_closed y)
days_since1-days_before y (suc (suc (suc (suc (suc (suc zero)))))) d h k =
    ground (arith, years_closed y)
days_since1-days_before y (suc (suc (suc (suc (suc (suc (suc zero))))))) d h k =
    ground (arith, years_closed y)
days_since1-days_before y (suc (suc (suc (suc (suc (suc (suc (suc zero)))))))) d h k =
    ground (arith, years_closed y)
days_since1-days_before y (suc (suc (suc (suc (suc (suc (suc (suc (suc zero))))))))) d h k =
    ground (arith, years_closed y)
days_since1-days_before y (suc (suc (suc (suc (suc (suc (suc (suc (suc (suc zero)))))))))) d h k =
    ground (arith, years_closed y)
days_since1-days_before y (suc (suc (suc (suc (suc (suc (suc (suc (suc (suc (suc zero))))))))))) d h
      k =
    ground (arith, years_closed y)
days_since1-days_before y (suc (suc (suc (suc (suc (suc (suc (suc (suc (suc (suc (suc m))))))))))))
      d h k =
    absurd (omega arith)
