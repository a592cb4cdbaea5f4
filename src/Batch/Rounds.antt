-- ===== src/Batch/Rounds.antt =====
-- The loops `for i < len(s)` of internal/extensions/batch/batch.go and boundary.go and of
-- internal/extensions/procedures/control/lex.go. A round has the byte at the index and the text behind
-- it; it goes on only at a text that it shows to be no longer than that one, so a round that does not
-- advance is no definition.
use haystak_tds_spi.Base.{ℕ, zero, suc, ◌≤◌, ◌≡◌, refl, ap, [], ◌∷◌, arith, length, Bytes}
use mathlib.Core.Path.{fun_ext}

-- the rest of the loop, at a text of at most so many bytes
abbrev pub Next : Type 0 → ℕ → Type 0
Next Out n = (r : Bytes) → length r ≤ n → Out

abbrev pub Round : Type 0 → Type 0
Round Out = (c : ℕ) (s : Bytes) → Next Out (length s) → Out

pub below : (n m fuel : ℕ) → n ≤ m → suc m ≤ suc fuel → n ≤ fuel
below n m fuel h k = omega arith

-- the length of a text is fuel enough
pub enough : (n : ℕ) → n ≤ n
enough n = omega arith

module _ {Out : Type 0} (round : Round Out) (end_ : Out) where
  loop : (fuel : ℕ) (s : Bytes) → length s ≤ fuel → Out
  loop zero [] h = end_
  loop (suc fuel) [] h = end_
  loop zero (c ∷ s) h = absurd (omega arith)
  loop (suc fuel) (c ∷ s) h =
      round c s (λ r short. loop fuel r (below (length r) (length s) fuel short h))

  -- the loop on a text
  unfoldable pub rounds : Bytes → Out
  unfolding loop
  rounds s = loop (length s) s (enough (length s))

  loop-fuel : (f g : ℕ) (s : Bytes) (h : length s ≤ f) (k : length s ≤ g) → loop f s h ≡ loop g s k
  unfolding loop
  loop-fuel zero zero [] h k = refl
  loop-fuel zero (suc g) [] h k = refl
  loop-fuel (suc f) zero [] h k = refl
  loop-fuel (suc f) (suc g) [] h k = refl
  loop-fuel zero g (c ∷ s) h k = absurd (omega arith)
  loop-fuel (suc f) zero (c ∷ s) h k = absurd (omega arith)
  loop-fuel (suc f) (suc g) (c ∷ s) h k = ap (round c s) (
      fun_ext λ r. fun_ext λ short.
        loop-fuel f g r (below (length r) (length s) f short h)
          (below (length r) (length s) g short k))

  -- a round, and the loop on what it goes on at
  pub rounds-round : (c : ℕ) (s : Bytes) → rounds (c ∷ s) ≡ round c s (λ r short. rounds r)
  unfolding rounds loop
  rounds-round c s = ap (round c s) (
      fun_ext λ r. fun_ext λ short.
        loop-fuel (length s) (length r) r
          (below (length r) (length s) (length s) short (enough (suc (length s))))
          (enough (length r)))

  -- what holds at the end of the text, and at a text if it holds behind the round, holds of the loop
  pub rounds_induct :
      (P : Bytes → Out → Type 0)
      → P [] end_
      → ((c : ℕ) (s : Bytes) (next : Next Out (length s))
          → ((r : Bytes) (short : length r ≤ length s) → P r (next r short))
          → P (c ∷ s) (round c s next))
      → (s : Bytes) → P s (rounds s)
  unfolding rounds loop
  rounds_induct P at_end behind s = at_loop (length s) s (enough (length s))
    where
      at_loop : (fuel : ℕ) (s : Bytes) (h : length s ≤ fuel) → P s (loop fuel s h)
      at_loop zero [] h = at_end
      at_loop (suc fuel) [] h = at_end
      at_loop zero (c ∷ s) h = absurd (omega arith)
      at_loop (suc fuel) (c ∷ s) h =
          behind c s (λ r short. loop fuel r (below (length r) (length s) fuel short h))
            λ r short. at_loop fuel r (below (length r) (length s) fuel short h)
