-- ===== src/Go/Io.antt =====
-- package io of Go, as far as the wire layer uses it: `io.ReadFull` on a stream of bytes that
-- ends, and the interface `io.Writer`.
use haystak_tds_spi.Base.{
  ℕ, zero, suc, ◌≤◌, ◌≡◌, refl, ◌∙◌, Option, none, [], ◌∷◌, ◌++◌, arith, Bytes, length, take, drop,
  leb, le→leb, if◌then◌else◌, true, false, sym, inl, inr, Bool-cases, take_append, drop_append,
  length-append, take-append-drop, ap, length-take, leb→le,
}
use haystak_tds_spi.Base.Result.{Result, ok, err, Returns}

pub data ReadError : Type 0 where
  eof unexpected_eof : ReadError

-- The reader is what it has yet to deliver. A short read is `EOF` only where nothing was read.
unfoldable pub read_full : ℕ → Bytes → Result ReadError (Bytes × Bytes)
read_full n [] = if leb n 0 then ok ([], []) else err eof
read_full n (b ∷ bs) =
    if leb n (length (b ∷ bs)) then ok (take n (b ∷ bs), drop n (b ∷ bs)) else err unexpected_eof

-- An `io.Writer`: its state, its errors, and `Write`, which gives the error if there was one.
pub record Writer : Type 1 where
  pub State : Type 0
  pub Error : Type 0
  pub write : Bytes → State → Option Error × State

-- A `bytes.Buffer`, which never fails.
abbrev pub buffer : Writer
buffer = record { State = Bytes; Error = ⊥; write = λ p s. (none, s ++ p) }

pub read_full_enough : (n : ℕ) (s : Bytes) → n ≤ length s → read_full n s ≡ ok (take n s, drop n s)
unfolding read_full
read_full_enough zero [] h = refl
read_full_enough (suc n) [] h = absurd (omega arith)
read_full_enough n (b ∷ bs) h = rw (le→leb n (length (b ∷ bs)) h)

pub read_full-append :
    (n : ℕ) (xs ys : Bytes) → n ≡ length xs → read_full n (xs ++ ys) ≡ ok (xs, ys)
read_full-append n xs ys e =
    read_full_enough n (xs ++ ys) (omega (arith, length-append xs ys))
    ∙ (λ i. ok (take_append xs ys n e i, drop_append xs ys n e i))

-- What a full read gives is the front of the stream, of the length asked for.
pub read_full-eq-ok :
    (n : ℕ) (s a b : Bytes) → read_full n s ≡ ok (a, b) → (s ≡ a ++ b) × (length a ≡ n)
unfolding read_full
read_full-eq-ok zero [] a b h = ground arith
read_full-eq-ok (suc n) [] a b h = ground arith
read_full-eq-ok n (x ∷ s) a b h = elim (Bool-cases (leb n (length (x ∷ s)))) [
  | inl fits ↦ (
    sym (take-append-drop n (x ∷ s)) ∙ parts fits,
    sym (ap length (fronts fits))
        ∙ length-take n (x ∷ s)
        ∙ omega (arith, leb→le n (length (x ∷ s)) fits),
  )
  | inr short ↦ absurd (refused short)
]
  where
    given :
        leb n (length (x ∷ s)) ≡ true
        → ◌≡◌ {A = Result ReadError (Bytes × Bytes)}
            (ok (take n (x ∷ s), drop n (x ∷ s)))
            (ok (a, b))
    given fits = rw fits at h

    fronts : leb n (length (x ∷ s)) ≡ true → take n (x ∷ s) ≡ a
    fronts fits = cc (given fits)

    parts : leb n (length (x ∷ s)) ≡ true → take n (x ∷ s) ++ drop n (x ∷ s) ≡ a ++ b
    parts fits = cc (given fits)

    refused : leb n (length (x ∷ s)) ≡ false → ⊥
    refused short = cc (rw short at h)

-- A full read comes back.
pub read_full-Returns : (n : ℕ) (s : Bytes) → Returns (read_full n s)
unfolding read_full
read_full-Returns n [] = ground arith
read_full-Returns n (x ∷ s) = ground arith
