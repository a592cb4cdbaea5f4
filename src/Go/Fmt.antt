-- ===== src/Go/Fmt.antt =====
-- package fmt and strconv of Go, as far as the program uses them on scalars: decimal numbers, and
-- the verb %v.
use haystak_tds_spi.Base.{
  ℕ, zero, suc, ◌+◌, ◌/◌, ◌%◌, ◌≡◌, refl, [], ◌∷◌, ltb, if◌then◌else◌, Bytes, codes,
}
use haystak_tds_spi.Base.Int.{ℤ, pos, negsuc}

-- the digits of a number, last first; the fuel exceeds their count
decimal_loop : ℕ → ℕ → Bytes → Bytes
decimal_loop zero n out = out
decimal_loop (suc fuel) n out =
    let out' = (b'0' + n % 10) ∷ out in
    let rest = decimal_loop fuel (n / 10) out' in if ltb n 10 then out' else rest

unfoldable pub decimal : ℕ → Bytes
unfolding decimal_loop
decimal n = decimal_loop (suc n) n []

-- strconv.FormatInt(n, 10)
unfoldable pub format_int : ℤ → Bytes
unfolding decimal
format_int (pos n) = decimal n
format_int (negsuc n) = b'-' ∷ decimal (n + 1)

minus_forty : format_int (negsuc 39) ≡ codes "-40"
unfolding format_int
minus_forty = refl
