-- ===== src/Batch/Declared/Fits.antt =====
-- internal/extensions/batch/declared.go: how many characters `fitText` gives.
use haystak_tds_spi.Base.{
  ℕ, zero, suc, ◌-◌, ◌≤◌, ◌≡◌, refl, sym, ap, ◌∙◌, Bool, true, false, some, List, [], ◌∷◌, ◌++◌,
  append_assoc, arith, leb, if◌then◌else◌, leb→le, length, take, replicate, length-append,
  length-take, take_all, length-replicate, All-append,
}
use haystak_tds_spi.Go.Utf.{runes, string_of, utf8_rune}
use haystak_tds_spi.Go.Utf.RoundTrip.{Scalars, runes-string_of}
use haystak_tds_spi.Batch.Declared.{fit_text, cut_text, pad_text}

string_of-append : (rs ts : List ℕ) → string_of (rs ++ ts) ≡ string_of rs ++ string_of ts
unfolding string_of
string_of-append [] ts = refl
string_of-append (r ∷ rs) ts =
    ap (λ v. utf8_rune r ++ v) (string_of-append rs ts)
    ∙ sym (append_assoc (utf8_rune r) (string_of rs) (string_of ts))

spaces : (n : ℕ) → string_of (replicate n b' ') ≡ replicate n b' '
unfolding string_of utf8_rune
spaces zero = refl
spaces (suc n) = ap (λ v. b' ' ∷ v) (spaces n)

spaces-Scalars : (n : ℕ) → Scalars (replicate n b' ')
spaces-Scalars zero = tt
spaces-Scalars (suc n) = (refl, spaces-Scalars n)

take-Scalars : (n : ℕ) (rs : List ℕ) → Scalars rs → Scalars (take n rs)
take-Scalars zero rs h = tt
take-Scalars (suc n) [] h = tt
take-Scalars (suc n) (r ∷ rs) h = (h.0, take-Scalars n rs h.1)

cut_text-take :
    (rs : List ℕ) (n : ℕ) → Scalars rs → cut_text (string_of rs) n false ≡ string_of (take n rs)
unfolding cut_text
cut_text-take rs n h = rw (runes-string_of rs h) (cases (leb (length rs) n) refl)
  where
    cases :
        (b : Bool)
        → leb (length rs) n ≡ b
        → (if b then string_of rs else string_of (take n rs)) ≡ string_of (take n rs)
    cases true e = ap string_of (sym (take_all n rs (leb→le (length rs) n e)))
    cases false e = refl

-- the characters of a text that fits a type of length `n`
abbrev pub fitted : List ℕ → ℕ → Bool → List ℕ
fitted rs n true = take n rs ++ replicate (n - length (take n rs)) b' '
fitted rs n false = take n rs

-- `fitText` of a text cuts it to `n` characters, and pads it with spaces to `n` where the type pads.
pub fit_text-fitted :
    (rs : List ℕ) (n : ℕ) (pad : Bool)
    → Scalars rs
    → fit_text (string_of rs) (some n) pad false ≡ string_of (fitted rs n pad)
unfolding fit_text pad_text
fit_text-fitted rs n false h = cut_text-take rs n h
fit_text-fitted rs n true h = rw (cut_text-take rs n h) (
    ap (λ ts. string_of (take n rs) ++ replicate (n - length ts) b' ')
      (runes-string_of (take n rs) (take-Scalars n rs h))
    ∙ sym (
        string_of-append (take n rs) (replicate (n - length (take n rs)) b' ')
        ∙ ap (λ v. string_of (take n rs) ++ v) (spaces (n - length (take n rs)))))

fitted-Scalars : (rs : List ℕ) (n : ℕ) (pad : Bool) → Scalars rs → Scalars (fitted rs n pad)
fitted-Scalars rs n false h = take-Scalars n rs h
fitted-Scalars rs n true h =
    All-append _ (take n rs) (replicate (n - length (take n rs)) b' ') (take-Scalars n rs h)
      (spaces-Scalars (n - length (take n rs)))

length-fitted : (rs : List ℕ) (n : ℕ) (pad : Bool) → length (fitted rs n pad) ≤ n
length-fitted rs n false = omega (arith, length-take n rs)
length-fitted rs n true = omega (
  arith,
  length-take n rs,
  length-append (take n rs) (replicate (n - length (take n rs)) b' '),
  length-replicate {A = ℕ} (n - length (take n rs)) b' ',
)

-- A text that fits a declared length `n` has at most `n` characters.
pub fit_text_bounds :
    (rs : List ℕ) (n : ℕ) (pad : Bool)
    → Scalars rs
    → length (runes (fit_text (string_of rs) (some n) pad false)) ≤ n
fit_text_bounds rs n pad h =
    rw (fit_text-fitted rs n pad h)
      (rw (runes-string_of (fitted rs n pad) (fitted-Scalars rs n pad h)) (length-fitted rs n pad))
