-- ===== src/Base/Slices.antt =====
-- Go's checked access to slices and strings: an index or a bound out of range panics.
use haystak_tds_spi.Base.Lists.{
  length, get_elem?, take, drop, length-append, take_append, drop_append,
}
use haystak_tds_spi.Base.Result.{Result, ok, panic}
use haystak_tds_spi.Base.Tests.{leb, if◌then◌else◌, le→leb}
use Prim.Native.Nat.{ℕ, zero, suc, ◌+◌, ◌-◌, ◌≤◌, ◌<◌}
use mathlib.Core.Bool.{◌&&◌}
use mathlib.Core.List.{List, [], ◌∷◌, ◌++◌}
use mathlib.Core.Option.{none, some}
use mathlib.Core.Path.{◌≡◌, refl, ap, ◌∙◌}
use native.Mathlib.Omega.{arith}

-- b[i]
unfoldable pub index {ℓ} : {E : Type 0} {A : Type ℓ} → List A → ℕ → Result E A
index b i = elim (get_elem? b i) [ none ↦ panic | some x ↦ ok x ]

-- b[i:j]
unfoldable pub slice {ℓ} : {E : Type 0} {A : Type ℓ} → List A → ℕ → ℕ → Result E (List A)
slice b i j = if leb i j && leb j (length b) then ok (take (j - i) (drop i b)) else panic

pub slice_ok {ℓ} :
    {E : Type 0} {A : Type ℓ} (b : List A) (i j : ℕ)
    → i ≤ j
    → j ≤ length b
    → slice {E = E} b i j ≡ ok (take (j - i) (drop i b))
unfolding slice
slice_ok b i j h k = rw (le→leb i j h, le→leb j (length b) k)

pub get_elem?-some {ℓ} :
    {A : Type ℓ} (b : List A) (i : ℕ) → i < length b → (x : A) × (get_elem? b i ≡ some x)
get_elem?-some [] i h = absurd (omega arith)
get_elem?-some (x ∷ b) zero h = (x, refl)
get_elem?-some (x ∷ b) (suc i) h = get_elem?-some b i (omega arith)

-- An index in range does not panic.
pub index_ok {ℓ} :
    {E : Type 0} {A : Type ℓ} (b : List A) (i : ℕ)
    → i < length b
    → (x : A) × (index {E = E} b i ≡ ok x)
unfolding index
index_ok b i h = let (x, e) = get_elem?-some b i h in (x, rw (e, index))

pub get_elem?_append {ℓ} :
    {A : Type ℓ} (xs ys : List A) (y : A) (i : ℕ)
    → i ≡ length xs
    → get_elem? (xs ++ y ∷ ys) i ≡ some y
get_elem?_append [] ys y zero e = refl
get_elem?_append [] ys y (suc i) e = absurd (omega arith)
get_elem?_append (x ∷ xs) ys y zero e = absurd (omega arith)
get_elem?_append (x ∷ xs) ys y (suc i) e = get_elem?_append xs ys y i (omega arith)

-- The element at a seam, and the piece between two seams.
pub index_append {ℓ} :
    {E : Type 0} {A : Type ℓ} (xs ys : List A) (y : A) (i : ℕ)
    → i ≡ length xs
    → index {E = E} (xs ++ y ∷ ys) i ≡ ok y
unfolding index
index_append xs ys y i e = rw (get_elem?_append xs ys y i e, index)

pub slice_append {ℓ} :
    {E : Type 0} {A : Type ℓ} (xs ys zs : List A) (i j : ℕ)
    → i ≡ length xs
    → j ≡ length xs + length ys
    → slice {E = E} (xs ++ (ys ++ zs)) i j ≡ ok ys
slice_append xs ys zs i j e f =
    slice_ok (xs ++ (ys ++ zs)) i j (omega arith)
      (omega (arith, length-append xs (ys ++ zs), length-append ys zs))
    ∙ ap ok (
        ap (take (j - i)) (drop_append xs (ys ++ zs) i e) ∙ take_append ys zs (j - i) (omega arith))

-- The same, at any equal payload.
pub index_at {ℓ} :
    {E : Type 0} {A : Type ℓ} (b xs ys : List A) (y : A) (i : ℕ)
    → b ≡ xs ++ y ∷ ys
    → i ≡ length xs
    → index {E = E} b i ≡ ok y
index_at {E = E} b xs ys y i cut e = ap (λ b. index {E = E} b i) cut ∙ index_append xs ys y i e

pub slice_at {ℓ} :
    {E : Type 0} {A : Type ℓ} (b xs ys zs : List A) (i j : ℕ)
    → b ≡ xs ++ (ys ++ zs)
    → i ≡ length xs
    → j ≡ length xs + length ys
    → slice {E = E} b i j ≡ ok ys
slice_at {E = E} b xs ys zs i j cut e f =
    ap (λ b. slice {E = E} b i j) cut ∙ slice_append xs ys zs i j e f
