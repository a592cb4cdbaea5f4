-- ===== src/Batch/Quotes.antt =====
-- internal/extensions/batch/declared.go: `quote` and `unquote`; `litOf` of
-- internal/extensions/procedures/control/exec.go writes a string the same way.
use haystak_tds_spi.Base.{
  ℕ, zero, suc, ◌≡◌, refl, sym, ap, ◌∙◌, inl, inr, false, some, [], ◌∷◌, ◌++◌, arith, ◌==◌,
  if◌then◌else◌, ==_iff, Bool-cases, length, length-append, take_append, Bytes, codes, All, take,
  suc,
}
use haystak_tds_spi.Go.Strings.{replace_all, replace_from, has_prefix}
use haystak_tds_spi.Batch.Scan.{skip_string, before}
use haystak_tds_spi.Batch.Declared.{quote, unquote, unquote_at, unquote_rest, ends_here}

-- each quote twice
abbrev pub double : Bytes → Bytes
double [] = []
double (c ∷ s) = if c == b'\'' then b'\'' ∷ b'\'' ∷ double s else c ∷ double s

pub replace_all-double : (s : Bytes) → replace_all s (codes "'") (codes "''") ≡ double s
unfolding replace_all replace_from has_prefix
replace_all-double [] = refl
replace_all-double (c ∷ s) = elim (Bool-cases (c == b'\'')) [
  | inl is_ ↦ rw is_ (ap (λ r. b'\'' ∷ b'\'' ∷ r) (replace_all-double s))
  | inr not_ ↦ rw not_ (ap (λ r. c ∷ r) (replace_all-double s))
]

double-replace_all : (s : Bytes) → replace_all (double s) (codes "''") (codes "'") ≡ s
unfolding replace_all replace_from has_prefix
double-replace_all [] = refl
double-replace_all (c ∷ s) = elim (Bool-cases (c == b'\'')) [
  | inl is_ ↦
      rw is_ (
        ap (λ r. b'\'' ∷ r) (double-replace_all s) ∙ ap (λ d. d ∷ s) (sym ((==_iff c b'\'').0 is_)))
  | inr not_ ↦ rw not_ (rw not_ (ap (λ r. c ∷ r) (double-replace_all s)))
]

skip_string-other :
    (c : ℕ) (s : Bytes)
    → (c == b'\'') ≡ false
    → skip_string (c ∷ s) ≡ before (c ∷ []) (skip_string s)
unfolding skip_string
skip_string-other c [] h = refl
skip_string-other c (d ∷ s) h = rw (skip_string, h) refl

-- the text does not begin with a quote
abbrev pub NoQuote : Bytes → Type 0
NoQuote [] = Unit
NoQuote (c ∷ s) = (c == b'\'') ≡ false

closing_quote : (rest : Bytes) → NoQuote rest → skip_string (b'\'' ∷ rest) ≡ (b'\'' ∷ [], rest)
unfolding skip_string
closing_quote [] h = refl
closing_quote (c ∷ rest) h = rw (skip_string, h) refl

-- behind the opening quote, a doubled text and a quote are passed over whole
pub skip_string-literal :
    (s rest : Bytes)
    → NoQuote rest
    → skip_string (double s ++ b'\'' ∷ rest) ≡ (double s ++ b'\'' ∷ [], rest)
unfolding skip_string
skip_string-literal [] rest h = closing_quote rest h
skip_string-literal (c ∷ s) rest h = elim (Bool-cases (c == b'\'')) [
  | inl is_ ↦ rw is_ (rw (skip_string-literal s rest h) refl)
  | inr not_ ↦ rw not_ (
      skip_string-other c (double s ++ b'\'' ∷ rest) not_
      ∙ ap (before (c ∷ [])) (skip_string-literal s rest h))
]

unquote_rest-closed :
    (prefix s : Bytes)
    → (skip_string (s ++ b'\'' ∷ [])).1 ≡ []
    → unquote_rest prefix (s ++ b'\'' ∷ []) ≡ some (replace_all s (codes "''") (codes "'"), prefix)
unfolding unquote_rest ends_here
unquote_rest-closed prefix [] h = rw h refl
unquote_rest-closed prefix (c ∷ s) h = rw h (
    ap (λ t. some (replace_all t (codes "''") (codes "'"), prefix))
      (take_append (c ∷ s) (b'\'' ∷ []) (length (s ++ b'\'' ∷ []))
        (length-append s (b'\'' ∷ []) ∙ omega arith)))

unquote_at-quote : (prefix s : Bytes) → unquote_at prefix (quote s) ≡ some (s, prefix)
unfolding unquote_at quote
unquote_at-quote prefix s = rw (replace_all-double s) (
    unquote_rest-closed prefix (double s) (ap (λ x. x.1) (skip_string-literal s [] tt))
    ∙ ap (λ t. some (t, prefix)) (double-replace_all s))

-- `unquote` reads back what `quote` has written, with no prefix and with the prefix N.
pub unquote-quote :
    (s : Bytes)
    → (unquote (quote s) ≡ some (s, [])) × (unquote (b'N' ∷ quote s) ≡ some (s, codes "N"))
unfolding unquote quote
unquote-quote s = (unquote_at-quote [] s, unquote_at-quote (codes "N") s)

-- the text holds no quote
abbrev pub NoQuotes : Bytes → Type 0
NoQuotes s = All (λ c. (c == b'\'') ≡ false) s

skip_string-free : (s : Bytes) → NoQuotes s → (skip_string s).1 ≡ []
unfolding skip_string
skip_string-free [] h = refl
skip_string-free (c ∷ s) h = ap (λ x. x.1) (skip_string-other c s h.0) ∙ skip_string-free s h.1

replace_all-free : (s : Bytes) → NoQuotes s → replace_all s (codes "''") (codes "'") ≡ s
unfolding replace_all replace_from has_prefix
replace_all-free [] h = refl
replace_all-free (c ∷ s) h = rw h.0 (ap (λ r. c ∷ r) (replace_all-free s h.1))

take-free : (n : ℕ) (s : Bytes) → NoQuotes s → NoQuotes (take n s)
take-free zero s h = tt
take-free (suc n) [] h = tt
take-free (suc n) (c ∷ s) h = (h.0, take-free n s h.1)

-- A quote and a text without quotes behind it, which no quote closes, `unquote` takes for a literal,
-- and drops the last byte of the text for the closing quote.
pub unquote_unclosed :
    (c : ℕ) (s : Bytes)
    → NoQuotes (c ∷ s)
    → unquote (b'\'' ∷ c ∷ s) ≡ some (take (length s) (c ∷ s), [])
unfolding unquote unquote_at unquote_rest ends_here
unquote_unclosed c s h = rw (skip_string-free (c ∷ s) h) (
    ap (λ t. some (t, []))
      (replace_all-free (take (length s) (c ∷ s)) (take-free (length s) (c ∷ s) h)))
