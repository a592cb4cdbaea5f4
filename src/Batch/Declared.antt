-- ===== src/Batch/Declared.antt =====
-- internal/extensions/batch/declared.go. Characters are runes: what is cut and padded is the text's
-- runes, written back as UTF-8.
pub mod Fits
use haystak_tds_spi.Base.{
  ℕ, zero, ◌+◌, ◌-◌, ◌*◌, ◌^◌, ◌≡◌, refl, Bool, true, false, not, ◌||◌, Option, none, some, [], ◌∷◌,
  ◌++◌, map, ltb, leb, ◌==◌, if◌then◌else◌, length, take, replicate, Bytes, codes,
}
use haystak_tds_spi.Go.Strings.{trim_space, equal_fold, replace_all, upper_byte, has_prefix, within}
use haystak_tds_spi.Go.Utf.{runes, string_of}
use haystak_tds_spi.Base.Dict.{bytes_beq}
use haystak_tds_spi.Batch.Scan.{is_blank, skip_string}

unfoldable pub until_blank : Bytes → Bytes
unfolding is_blank
until_blank [] = []
until_blank (c ∷ s) = let rest = until_blank s in if is_blank c then [] else c ∷ rest

-- `firstWord`
unfoldable pub first_word : Bytes → Bytes
unfolding until_blank trim_space
first_word s = until_blank (trim_space s)

unfoldable pub upper : Bytes → Bytes
unfolding upper_byte
upper s = map upper_byte s

has_byte : ℕ → Bytes → Bool
has_byte b [] = false
has_byte b (c ∷ s) = c == b || has_byte b s

is_text_type : Bytes → Bool
is_text_type w =
    bytes_beq w (codes "CHAR")
    || (bytes_beq w (codes "VARCHAR")
        || (bytes_beq w (codes "NCHAR") || bytes_beq w (codes "NVARCHAR")))

-- the declared type, trimmed, with its first word in capitals
text_type_of : Bytes → Bytes → Option Bytes
unfolding is_text_type has_byte
text_type_of t w =
    if not (is_text_type w)
    then none
    else if has_byte b'(' t
    then some t
    else some (w ++ codes "(1)")

-- `DeclaredTextType`
unfoldable pub declared_text_type : Bytes → Option Bytes
unfolding text_type_of first_word upper trim_space replace_all
declared_text_type typ =
    text_type_of (trim_space typ)
      (upper (first_word (replace_all (trim_space typ) (codes "(") (codes " ("))))

-- The text between the first `(` and the first `)`, where they stand in this order.
inner_from : Bytes → Option Bytes
inner_from [] = none
inner_from (c ∷ s) =
    let rest = inner_from s in if c == b'(' then upto s else if c == b')' then none else rest
  where
    upto : Bytes → Option Bytes
    upto [] = none
    upto (c ∷ s) =
        let rest = upto s in
        if c == b')' then some [] else elim rest [ none ↦ none | some t ↦ some (c ∷ t) ]

digits : ℕ → Bytes → Option ℕ
digits n [] = if ltb n (2 ^ 63) then some n else none
digits n (c ∷ s) =
    let rest = digits (n * 10 + (c - b'0')) s in if within b'0' b'9' c then rest else none

not_negative : Option ℕ → Option ℕ
not_negative (some zero) = some zero
not_negative _ = none

-- strconv.Atoi; none for an error and for a negative number, which `fitText` does not tell apart
natural : Bytes → Option ℕ
unfolding digits not_negative
natural [] = none
natural (c ∷ []) = digits 0 (c ∷ [])
natural (c ∷ d ∷ s) =
    if c == b'+'
    then digits 0 (d ∷ s)
    else if c == b'-'
    then not_negative (digits 0 (d ∷ s))
    else digits 0 (c ∷ d ∷ s)

length_within : Option Bytes → Option ℕ
unfolding natural trim_space equal_fold runes
length_within none = none
length_within (some inner) =
    if equal_fold (runes (trim_space inner)) (codes "max") then none else natural (trim_space inner)

-- `declaredLength`: the length, none where it is negative, and whether the type pads
unfoldable pub declared_length : Bytes → Option ℕ × Bool
unfolding upper has_prefix inner_from length_within
declared_length cast = (
  length_within (inner_from cast),
  has_prefix (upper cast) (codes "CHAR") || has_prefix (upper cast) (codes "NCHAR"),
)

-- a text that is cut to so many characters, or the mark of a number that does not fit
unfoldable pub cut_text : Bytes → ℕ → Bool → Bytes
unfolding runes string_of
cut_text s n number =
    if leb (length (runes s)) n
    then s
    else if number
    then codes "*"
    else string_of (take n (runes s))

unfoldable pub pad_text : Bytes → ℕ → Bytes
unfolding runes
pad_text s n = s ++ replicate (n - length (runes s)) b' '

-- `fitText`
unfoldable pub fit_text : Bytes → Option ℕ → Bool → Bool → Bytes
unfolding cut_text pad_text
fit_text s none pad number = s
fit_text s (some n) pad number = let t = cut_text s n number in if pad then pad_text t n else t

unfoldable pub ends_here : Bytes → Bool
ends_here [] = true
ends_here (c ∷ s) = false

-- the text of a literal, behind its quote
unfoldable pub unquote_rest : Bytes → Bytes → Option (Bytes × Bytes)
unfolding skip_string replace_all ends_here
unquote_rest prefix [] = none
unquote_rest prefix (c ∷ s) =
    if ends_here (skip_string (c ∷ s)).1
    then some (replace_all (take (length s) (c ∷ s)) (codes "''") (codes "'"), prefix)
    else none

unfoldable pub unquote_at : Bytes → Bytes → Option (Bytes × Bytes)
unfolding unquote_rest
unquote_at prefix [] = none
unquote_at prefix (c ∷ s) = if c == b'\'' then unquote_rest prefix s else none

-- `unquote`: the text and the prefix
unfoldable pub unquote : Bytes → Option (Bytes × Bytes)
unfolding unquote_at
unquote [] = none
unquote (c ∷ s) = if c == b'N' || c == b'n' then unquote_at (c ∷ []) s else unquote_at [] (c ∷ s)

-- `quote`
unfoldable pub quote : Bytes → Bytes
unfolding replace_all
quote s = b'\'' ∷ (replace_all s (codes "'") (codes "''") ++ b'\'' ∷ [])

-- Whether strconv.ParseFloat(v, 64) gives no error is a parameter.
module _ (is_float : Bytes → Bool) where
  -- a value that is not empty and not NULL, and the text of its literal, if it is one
  fit_value : Bytes → Bytes → Option (Bytes × Bytes) → Bytes
  unfolding declared_length fit_text quote
  fit_value v cast (some (s, prefix)) =
      prefix ++ quote (fit_text s (declared_length cast).0 (declared_length cast).1 false)
  fit_value v cast none =
      if is_float v
      then quote (fit_text v (declared_length cast).0 (declared_length cast).1 true)
      else codes "CAST((" ++ (v ++ (codes ") AS " ++ (cast ++ codes ")")))

  fit_as : Bytes → Bytes → Option Bytes → Bytes
  unfolding fit_value trim_space equal_fold runes unquote ends_here
  fit_as value v none = value
  fit_as value v (some cast) =
      if ends_here v || equal_fold (runes v) (codes "null")
      then value
      else fit_value v cast (unquote v)

  -- `fitDeclared`
  unfoldable pub fit_declared : Bytes → Bytes → Bytes
  unfolding fit_as declared_text_type trim_space
  fit_declared value typ = fit_as value (trim_space value) (declared_text_type typ)

cut : fit_declared (λ v. false) (codes " N'abcd' ") (codes "nvarchar(3)") ≡ codes "N'abc'"
unfolding fit_declared
cut = refl

length_of : declared_length (codes "varchar( 12 )") ≡ (some 12, false)
unfolding declared_length
length_of = refl

its : unquote (codes "N'it''s'") ≡ some (codes "it's", codes "N")
unfolding unquote
its = refl
