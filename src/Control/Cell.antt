-- ===== src/Control/Cell.antt =====
-- internal/extensions/procedures/control/exec.go: the values of a row, `litOf`, `toInt` and
-- `nullLiteralForType`. What Go does with float64, time.Time and the types that no case names is a
-- parameter: `Formats`.
use haystak_tds_spi.Base.{
  ℕ, zero, suc, ◌+◌, ◌-◌, ◌*◌, ◌/◌, ◌%◌, ◌^◌, min, ◌≡◌, refl, Bool, true, false, not, Option, none,
  some, [], ◌∷◌, ◌++◌, ltb, leb, ◌==◌, if◌then◌else◌, Bytes, codes,
}
use haystak_tds_spi.Base.Int.{ℤ, pos, negsuc}
use haystak_tds_spi.Go.Fmt.{decimal, format_int}
use haystak_tds_spi.Go.Strings.{trim_space, equal_fold, replace_all, within}
use haystak_tds_spi.Go.Utf.{runes}

-- Go's `any`, with the cases that `litOf` and `toInt` tell apart; an int is an int64
pub data Cell (Other : Type 0) : Type 0 where
  null : Cell Other
  str : Bytes → Cell Other
  int : ℤ → Cell Other
  bool : Bool → Cell Other
  bytes : Bytes → Cell Other
  float time other : Other → Cell Other

pub record Formats (Other : Type 0) : Type 0 where
  -- strconv.FormatFloat(x, 'g', -1, 64)
  pub format_float : Other → Bytes
  -- the conversion int64(x)
  pub trunc_float : Other → ℤ
  -- x.Format("2006-01-02 15:04:05.000")
  pub format_time : Other → Bytes
  -- fmt.Sprintf("%v", x)
  pub sprint_other : Other → Bytes

-- strconv.ParseUint behind the digits read so far: none is a syntax error, and a number that is out
-- of range is the largest one
parse_digits : ℕ → Bytes → Option ℕ
parse_digits n [] = some n
parse_digits n (c ∷ s) =
    let n' = n * 10 + (c - b'0') in
    let rest = parse_digits n' s in
    if not (within b'0' b'9' c) then none else if leb (2 ^ 64) n' then some (2 ^ 64 - 1) else rest

parse_uint : Bytes → Option ℕ
unfolding parse_digits
parse_uint [] = none
parse_uint (c ∷ s) = parse_digits 0 (c ∷ s)

-- the ℤ whose opposite is the number
minus : ℕ → ℤ
minus zero = pos 0
minus (suc n) = negsuc n

signed : Bool → Option ℕ → ℤ
unfolding minus
signed neg none = pos 0
signed neg (some n) = if neg then minus (min n (2 ^ 63)) else pos (min n (2 ^ 63 - 1))

-- i, _ := strconv.ParseInt(s, 10, 64)
unfoldable pub parse_int : Bytes → ℤ
unfolding signed parse_uint
parse_int [] = pos 0
parse_int (c ∷ s) =
    if c == b'-'
    then signed true (parse_uint s)
    else if c == b'+'
    then signed false (parse_uint s)
    else signed false (parse_uint (c ∷ s))

hex_digit : ℕ → ℕ
hex_digit d = if ltb d 10 then b'0' + d else 87 + d

-- fmt.Sprintf("%x", s)
unfoldable pub hex : Bytes → Bytes
unfolding hex_digit
hex [] = []
hex (c ∷ s) = hex_digit (c / 16) ∷ hex_digit (c % 16) ∷ hex s

quoted : Bytes → Bytes
quoted s = b'\'' ∷ (s ++ b'\'' ∷ [])

-- the elements of a []byte, with spaces between
sprint_bytes : Bytes → Bytes
unfolding decimal
sprint_bytes [] = []
sprint_bytes (c ∷ []) = decimal c
sprint_bytes (c ∷ d ∷ s) = decimal c ++ (b' ' ∷ sprint_bytes (d ∷ s))

module _ {Other : Type 0} (f : Formats Other) where
  -- fmt.Sprintf("%v", v)
  unfoldable pub sprint : Cell Other → Bytes
  unfolding format_int sprint_bytes
  sprint null = codes "<nil>"
  sprint (str s) = s
  sprint (int n) = format_int n
  sprint (bool b) = if b then codes "true" else codes "false"
  sprint (bytes s) = b'[' ∷ (sprint_bytes s ++ b']' ∷ [])
  sprint (float x) = f.sprint_other x
  sprint (time x) = f.sprint_other x
  sprint (other x) = f.sprint_other x

  -- `litOf`
  unfoldable pub lit_of : Cell Other → Bytes
  unfolding format_int quoted hex replace_all
  lit_of null = codes "NULL"
  lit_of (str s) = quoted (replace_all s (codes "'") (codes "''"))
  lit_of (int n) = format_int n
  lit_of (bool b) = if b then codes "1" else codes "0"
  lit_of (bytes s) = codes "0x" ++ hex s
  lit_of (float x) = f.format_float x
  lit_of (time x) = quoted (f.format_time x)
  lit_of (other x) = quoted (f.sprint_other x)

  -- `toInt`
  unfoldable pub to_int : Cell Other → ℤ
  unfolding parse_int trim_space
  to_int (int n) = n
  to_int (float x) = f.trunc_float x
  to_int (bool b) = if b then pos 1 else pos 0
  to_int (str s) = parse_int (trim_space s)
  to_int _ = pos 0

-- the type of a DECLARE, trimmed: none, sysname, or itself
typed_null : Bytes → Bytes
unfolding equal_fold runes
typed_null [] = codes "NULL"
typed_null (c ∷ t) =
    codes "CAST(NULL AS "
    ++ ((if equal_fold (runes (c ∷ t)) (codes "sysname") then codes "nvarchar(128)" else c ∷ t)
        ++ codes ")")

-- `nullLiteralForType`
unfoldable pub null_literal_for_type : Bytes → Bytes
unfolding typed_null trim_space
null_literal_for_type typ = typed_null (trim_space typ)

clamped : parse_int (codes "-99999999999999999999x") ≡ negsuc 9223372036854775807
unfolding parse_int
clamped = refl

junk : parse_int (codes "12x") ≡ pos 0
unfolding parse_int
junk = refl
