-- ===== src/Batch/Substitute/Laws.antt =====
-- internal/extensions/batch/batch.go: the loop of `substitute`, whatever it skips.
use haystak_tds_spi.Base.{
  ℕ, ◌≤◌, ◌≡◌, refl, sym, ap, ◌∙◌, subst, false, Option, none, some, [], ◌∷◌, ◌++◌, append_assoc,
  ◌==◌, length, Bytes, All,
}
use haystak_tds_spi.Base.Dict.{Dict, bytes_eq}
use haystak_tds_spi.Batch.Rounds.{Next, rounds, rounds-round, rounds_induct}
use haystak_tds_spi.Batch.Scan.{Skip, comment_or_literal, skip_literal, skip_string, before}
use haystak_tds_spi.Batch.Substitute.{
  plain_round, substitute_at, substitute_round, substitute_in, substitute, substitute_at_short,
}
use haystak_tds_spi.Batch.Passes.{Passes, comment_or_literal-Passes, skip_literal-Passes}
use haystak_tds_spi.Batch.Declared.{quote}
use haystak_tds_spi.Control.Eval.{subst_vars}
use haystak_tds_spi.Batch.Quotes.{double, replace_all-double, skip_string-literal, NoQuote}
use haystak_tds_spi.Batch.Scan.{skip_comment}

-- the text holds no `@`
abbrev pub NoAt : Bytes → Type 0
NoAt s = All (λ c. (c == b'@') ≡ false) s

NoAt-append : (s t : Bytes) → NoAt (s ++ t) → NoAt t
NoAt-append [] t h = h
NoAt-append (c ∷ s) t h = NoAt-append s t h.1

module _ (skip : Skip) (passes : (c : ℕ) (s : Bytes) → Passes c s (skip c s))
    (vars : Dict Bytes Bytes) where
  -- the loop on a text
  abbrev pub substituted : Bytes → Bytes
  substituted = rounds (substitute_round skip passes vars) []

  pub substituted-round :
      (c : ℕ) (s written rest : Bytes)
      → substitute_at skip passes vars c s ≡ (written, rest)
      → substituted (c ∷ s) ≡ written ++ substituted rest
  unfolding substitute_round
  substituted-round c s written rest e =
      rounds-round (substitute_round skip passes vars) [] c s
      ∙ ap (λ (x : Bytes × Bytes). x.0 ++ substituted x.1) e

  at_skipped :
      (c : ℕ) (s t r : Bytes) → skip c s ≡ some (t, r) → substitute_at skip passes vars c s ≡ (t, r)
  unfolding substitute_at
  at_skipped c s t r e = rw (substitute_at, e) refl

  at_plain :
      (c : ℕ) (s : Bytes)
      → skip c s ≡ none
      → (c == b'@') ≡ false
      → substitute_at skip passes vars c s ≡ (c ∷ [], s)
  unfolding substitute_at plain_round
  at_plain c s e k = rw (substitute_at, e) (rw k refl)

  -- a round that comes to a known text and rest, where the rest of the loop leaves the rest alone
  round_at :
      (c : ℕ) (s : Bytes) (next : Next Bytes (length s))
      → ((r : Bytes) (short : length r ≤ length s) → NoAt r → next r short ≡ r)
      → (t r : Bytes) → substitute_at skip passes vars c s ≡ (t, r)
      → NoAt r
      → substitute_round skip passes vars c s next ≡ t ++ r
  unfolding substitute_round
  round_at c s next more t r e n =
      let x = substitute_at skip passes vars c s in
      ap (λ v. x.0 ++ v)
        (more x.1 (substitute_at_short skip passes vars c s)
          (subst (λ (y : Bytes × Bytes). NoAt y.1) (sym e) n))
      ∙ ap (λ (y : Bytes × Bytes). y.0 ++ y.1) e

  substituted-NoAt : (s : Bytes) → NoAt s → substituted s ≡ s
  unfolding substitute_round
  substituted-NoAt =
      rounds_induct (substitute_round skip passes vars) [] (λ s t. NoAt s → t ≡ s) (λ k. refl)
        λ c s next more k. either c s next more k (skip c s) refl (passes c s)
    where
      either :
          (c : ℕ) (s : Bytes) (next : Next Bytes (length s))
          → ((r : Bytes) (short : length r ≤ length s) → NoAt r → next r short ≡ r)
          → NoAt (c ∷ s)
          → (x : Option (Bytes × Bytes)) → skip c s ≡ x
          → Passes c s x
          → substitute_round skip passes vars c s next ≡ c ∷ s
      either c s next more k none e p = round_at c s next more (c ∷ []) s (at_plain c s e k.0) k.1
      either c s next more k (some (t, r)) e (u, eu, p) =
          round_at c s next more t r (at_skipped c s t r e)
            (NoAt-append u r (subst NoAt (sym p) k.1))
          ∙ ap (λ v. v ++ r) eu
          ∙ ap (λ v. c ∷ v) p

substitute_in-NoAt :
    (skip : Skip) (passes : (c : ℕ) (s : Bytes) → Passes c s (skip c s))
    → (vars : Dict Bytes Bytes) (s : Bytes) → NoAt s
    → substitute_in skip passes vars s ≡ s
unfolding substitute_in
substitute_in-NoAt skip passes [] s h = refl
substitute_in-NoAt skip passes ((k, v) ∷ vars) s h =
    substituted-NoAt skip passes ((k, v) ∷ vars) s h

-- A text with no `@` is left as it is, by `substitute` and by `subst`.
pub substitute-NoAt :
    (s : Bytes) (vars : Dict Bytes Bytes)
    → NoAt s
    → (substitute s vars ≡ s) × (subst_vars s vars ≡ s)
unfolding substitute subst_vars
substitute-NoAt s vars h = (
  substitute_in-NoAt comment_or_literal comment_or_literal-Passes vars s h,
  substitute_in-NoAt skip_literal skip_literal-Passes vars s h,
)

quote-append : (s rest : Bytes) → quote s ++ rest ≡ b'\'' ∷ (double s ++ b'\'' ∷ rest)
unfolding quote
quote-append s rest =
    ap (λ d. b'\'' ∷ ((d ++ b'\'' ∷ []) ++ rest)) (replace_all-double s)
    ∙ ap (λ v. b'\'' ∷ v) (append_assoc (double s) (b'\'' ∷ []) rest)

substituted-quote :
    (skip : Skip)
    → (passes : (c : ℕ) (s : Bytes) → Passes c s (skip c s))
    → ((s : Bytes) → skip b'\'' s ≡ some (before (b'\'' ∷ []) (skip_string s)))
    → (vars : Dict Bytes Bytes) (s rest : Bytes) → NoQuote rest
    → substituted skip passes vars (quote s ++ rest) ≡ quote s ++ substituted skip passes vars rest
substituted-quote skip passes quotes vars s rest h =
    let text = double s ++ b'\'' ∷ rest in
    ap (substituted skip passes vars) (quote-append s rest)
    ∙ substituted-round skip passes vars b'\'' text (b'\'' ∷ (double s ++ b'\'' ∷ [])) rest (
        at_skipped skip passes vars b'\'' text (b'\'' ∷ (double s ++ b'\'' ∷ [])) rest
          (quotes text ∙ ap (λ x. some (before (b'\'' ∷ []) x)) (skip_string-literal s rest h)))
    ∙ sym (
        quote-append s (substituted skip passes vars rest)
        ∙ ap (λ v. b'\'' ∷ v)
            (sym (append_assoc (double s) (b'\'' ∷ []) (substituted skip passes vars rest))))

substitute_in-quote :
    (skip : Skip) (passes : (c : ℕ) (s : Bytes) → Passes c s (skip c s))
    → ((s : Bytes) → skip b'\'' s ≡ some (before (b'\'' ∷ []) (skip_string s)))
    → (vars : Dict Bytes Bytes) (s rest : Bytes) → NoQuote rest
    → substitute_in skip passes vars (quote s ++ rest)
      ≡ quote s ++ substitute_in skip passes vars rest
unfolding substitute_in
substitute_in-quote skip passes quotes [] s rest h = refl
substitute_in-quote skip passes quotes ((k, v) ∷ vars) s rest h =
    substituted-quote skip passes quotes ((k, v) ∷ vars) s rest h

comment_or_literal-quote :
    (s : Bytes) → comment_or_literal b'\'' s ≡ some (before (b'\'' ∷ []) (skip_string s))
unfolding comment_or_literal skip_comment skip_literal
comment_or_literal-quote [] = refl
comment_or_literal-quote (c ∷ s) = refl

skip_literal-quote : (s : Bytes) → skip_literal b'\'' s ≡ some (before (b'\'' ∷ []) (skip_string s))
unfolding skip_literal
skip_literal-quote s = refl

-- A literal that `quote` has written is left as it is, whatever its text, `@` and quotes included,
-- where no quote follows it; the substitution goes on behind it.
pub substitute-quote :
    (vars : Dict Bytes Bytes) (s rest : Bytes)
    → NoQuote rest
    → (substitute (quote s ++ rest) vars ≡ quote s ++ substitute rest vars)
      × (subst_vars (quote s ++ rest) vars ≡ quote s ++ subst_vars rest vars)
unfolding substitute subst_vars
substitute-quote vars s rest h = (
  substitute_in-quote comment_or_literal comment_or_literal-Passes comment_or_literal-quote vars s
      rest h,
  substitute_in-quote skip_literal skip_literal-Passes skip_literal-quote vars s rest h,
)
