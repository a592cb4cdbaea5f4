-- ===== src/Go/Floats.antt =====
-- What the program uses of Go's float64, which is a parameter of the model: math's conversions
-- from and to bits, the formats of strconv and fmt, and the arithmetic of `encodeDecimal`.
use haystak_tds_spi.Base.{ℕ, Bool, false, [], Bytes}
use haystak_tds_spi.Base.Int.{ℤ}

pub record FloatOps (Float : Type 0) : Type 0 where
  -- math.Float64frombits(b), float64(math.Float32frombits(b))
  pub from_bits64 : ℕ → Float
  pub from_bits32 : ℕ → Float
  -- math.Float64bits(f)
  pub bits64 : Float → ℕ
  -- float64(n)
  pub of_int : ℤ → Float
  pub zero_float : Float
  -- strconv.FormatFloat(f, 'g', -1, 64), fmt.Sprintf("%v", f)
  pub format_g : Float → Bytes
  pub show : Float → Bytes
  -- f < 0
  pub is_negative : Float → Bool
  -- uint64(math.Round(math.Abs(f) * math.Pow(10, scale)))
  pub magnitude : Float → ℕ → ℕ

-- Floats that are their bits, for tests.
abbrev pub bits : FloatOps ℕ
bits = record {
  from_bits64 = λ b. b;
  from_bits32 = λ b. b;
  bits64 = λ f. f;
  of_int = λ n. 0;
  zero_float = 0;
  format_g = λ f. [];
  show = λ f. [];
  is_negative = λ f. false;
  magnitude = λ f scale. f;
}
