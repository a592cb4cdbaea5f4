-- ===== src/Base/Dict.antt =====
-- Go maps as association lists. The program iterates over a map only where it sorts or counts the
-- result, so a map is what its lookups give.
use haystak_tds_spi.Base.ByteStrings.{Bytes}
use haystak_tds_spi.Base.Tests.{◌==◌ as nat_beq, ==_iff, if◌then◌else◌}
use Prim.Native.Nat.{ℕ}
use mathlib.Core.Bool.{Bool, true, false, ◌&&◌}
use mathlib.Core.List.{List, [], ◌∷◌}
use mathlib.Core.Logic.{◌↔◌}
use mathlib.Core.Option.{Option, none, some}
use mathlib.Core.Path.{◌≡◌, refl}
use native.Mathlib.Omega.{arith}

-- Go's `==` on a comparable type.
pub record Eq {ℓ} (A : Type ℓ) : Type ℓ where
  pub beq : A → A → Bool
  pub beq_iff : (a b : A) → (beq a b ≡ true) ↔ (a ≡ b)

instance abbrev pub nat_eq : Eq ℕ
nat_eq = record { beq = nat_beq; beq_iff = ==_iff }

-- `==` of strings, and bytes.Equal
abbrev pub bytes_beq : Bytes → Bytes → Bool
bytes_beq [] [] = true
bytes_beq (x ∷ xs) (y ∷ ys) = nat_beq x y && bytes_beq xs ys
bytes_beq _ _ = false

pub bytes_beq_iff : (a b : Bytes) → (bytes_beq a b ≡ true) ↔ (a ≡ b)
bytes_beq_iff [] [] = (λ _. refl, λ _. refl)
bytes_beq_iff [] (y ∷ ys) = (λ h. cc, λ h. cc)
bytes_beq_iff (x ∷ xs) [] = (λ h. cc, λ h. cc)
bytes_beq_iff (x ∷ xs) (y ∷ ys) = ground (arith, bytes_beq_iff xs ys)

instance abbrev pub bytes_eq : Eq Bytes
bytes_eq = record { beq = bytes_beq; beq_iff = bytes_beq_iff }

abbrev pub Dict {ℓ κ} : Type ℓ → Type κ → Type (ℓ ⊔ κ)
Dict K V = List (K × V)

module _ {ℓ κ} {K : Type ℓ} {V : Type κ} ⦃eq : Eq K⦄ where
  -- v, ok := m[k]
  unfoldable pub lookup : K → Dict K V → Option V
  lookup k [] = none
  lookup k ((j, v) ∷ m) = if eq.beq j k then some v else lookup k m

  -- m[k] = v
  unfoldable pub insert : K → V → Dict K V → Dict K V
  insert k v [] = (k, v) ∷ []
  insert k v ((j, w) ∷ m) = if eq.beq j k then (k, v) ∷ m else (j, w) ∷ insert k v m

  -- delete(m, k)
  unfoldable pub delete : K → Dict K V → Dict K V
  delete k [] = []
  delete k ((j, v) ∷ m) = let rest = delete k m in if eq.beq j k then rest else (j, v) ∷ rest

  pub lookup-insert :
      (k j : K) (v : V) (m : Dict K V)
      → lookup j (insert k v m) ≡ (if eq.beq k j then some v else lookup j m)
  unfolding lookup insert
  lookup-insert k j v [] = refl
  lookup-insert k j v ((i, w) ∷ m) =
      ground (arith, eq.beq_iff k j, eq.beq_iff i k, eq.beq_iff i j, lookup-insert k j v m)

  pub lookup-delete :
      (k j : K) (m : Dict K V) → lookup j (delete k m) ≡ (if eq.beq k j then none else lookup j m)
  unfolding lookup delete
  lookup-delete k j [] = ground arith
  lookup-delete k j ((i, w) ∷ m) =
      ground (arith, eq.beq_iff k j, eq.beq_iff i k, eq.beq_iff i j, lookup-delete k j m)

  -- what a map of two entries holds
  pub lookup_two :
      (j k : K) (v w : V)
      → eq.beq j k ≡ false
      → (lookup j (insert k w (insert j v [])) ≡ some v)
        × (lookup k (insert k w (insert j v [])) ≡ some w)
  unfolding lookup insert
  lookup_two j k v w h = rw (h, (eq.beq_iff j j).1 refl, (eq.beq_iff k k).1 refl) (refl, rw h refl)
