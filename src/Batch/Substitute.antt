-- ===== src/Batch/Substitute.antt =====
-- internal/extensions/batch/batch.go: `substitute`; `subst` of
-- internal/extensions/procedures/control/exec.go differs in what it skips.
pub mod Laws
use haystak_tds_spi.Base.{
  ℕ, zero, suc, ◌+◌, ◌-◌, ◌*◌, ◌/◌, ◌%◌, ◌^◌, ◌≤◌, ◌<◌, min, ◌≡◌, refl, sym, ap, ◌∙◌, subst, ◌≢◌,
  ◌↔◌, ◌⊎◌, inl, inr, Bool, true, false, not, ◌&&◌, ◌||◌, Option, none, some, List, [], ◌∷◌, ◌++◌,
  map, append_assoc, append-nil, arith, ltb, leb, ◌==◌, if◌then◌else◌, ltb→lt, lt→ltb, leb→le,
  le→leb, ltb_false→le, leb_false→lt, le→ltb_false, ==_iff, ==_refl, Bool-cases, Option-cases,
  length, get_elem?, get_or, take, drop, replicate, length-append, take-append-drop, length-take,
  length-drop, take_append, drop_append, take_all, drop_all, drop-drop, length-replicate,
  length-map, Bytes, All, IsBytes, codes, All-append,
}
use haystak_tds_spi.Base.Dict.{Dict, lookup, bytes_eq}
use haystak_tds_spi.Go.Strings.{lower_byte}
use haystak_tds_spi.Tsql.Lexer.Scan.{span}
use haystak_tds_spi.Batch.Rounds.{Round, rounds}
use haystak_tds_spi.Batch.Passes.{Passes, Parts-short, span-Parts, comment_or_literal-Passes}
use haystak_tds_spi.Batch.Scan.{Skip, comment_or_literal, is_name_part, skip_comment, skip_literal}

-- the value of a name, or the name with its `@`
unfoldable pub value_or : Bytes → Option Bytes → Bytes
value_or name none = b'@' ∷ name
value_or name (some v) = v

-- `@name`, behind the `@`
unfoldable pub variable : Dict Bytes Bytes → Bytes × Bytes → Bytes × Bytes
unfolding value_or lookup lower_byte
variable vars (name, rest) = (value_or name (lookup (map lower_byte name) vars), rest)

-- a round that nothing is skipped in: a variable, or the byte itself
unfoldable pub plain_round : Dict Bytes Bytes → ℕ → Bytes → Bytes × Bytes
unfolding variable span is_name_part
plain_round vars c s = if c == b'@' then variable vars (span is_name_part s) else (c ∷ [], s)

plain_round_short :
    (vars : Dict Bytes Bytes) (c : ℕ) (s : Bytes) → length (plain_round vars c s).1 ≤ length s
unfolding plain_round variable
plain_round_short vars c s = if_short (c == b'@')
  where
    if_short :
        (b : Bool)
        → length (if b then variable vars (span is_name_part s) else (c ∷ [], s)).1 ≤ length s
    if_short true = Parts-short s (span is_name_part s) (span-Parts is_name_part s)
    if_short false = omega arith

module _ (skip : Skip) (passes : (c : ℕ) (s : Bytes) → Passes c s (skip c s))
    (vars : Dict Bytes Bytes) where
  -- one round: the text that it writes, and the text that is left
  unfoldable pub substitute_at : ℕ → Bytes → Bytes × Bytes
  unfolding plain_round
  substitute_at c s = elim (skip c s) [ none ↦ plain_round vars c s | some x ↦ x ]

  pub substitute_at_short : (c : ℕ) (s : Bytes) → length (substitute_at c s).1 ≤ length s
  unfolding substitute_at
  substitute_at_short c s = either (skip c s) (passes c s)
    where
      either :
          (x : Option (Bytes × Bytes))
          → Passes c s x
          → length (elim x as (λ _. Bytes × Bytes) [ none ↦ plain_round vars c s | some y ↦ y ]).1
            ≤ length s
      either none h = plain_round_short vars c s
      either (some (t, r)) (u, e, h) = Parts-short s (u, r) h

  -- a round of the loop
  unfoldable pub substitute_round : Round Bytes
  unfolding substitute_at
  substitute_round c s next =
      (substitute_at c s).0 ++ next (substitute_at c s).1 (substitute_at_short c s)

unfoldable pub substitute_in :
    (skip : Skip) → ((c : ℕ) (s : Bytes) → Passes c s (skip c s)) → Dict Bytes Bytes → Bytes → Bytes
unfolding substitute_round rounds
substitute_in skip passes [] s = s
substitute_in skip passes ((k, v) ∷ vars) s =
    rounds (substitute_round skip passes ((k, v) ∷ vars)) [] s

-- `substitute`
unfoldable pub substitute : Bytes → Dict Bytes Bytes → Bytes
unfolding substitute_in comment_or_literal
substitute s vars = substitute_in comment_or_literal comment_or_literal-Passes vars s

bound :
    substitute (codes "SELECT @Ab+'@ab'--@ab") ((codes "ab", codes "'x'") ∷ [])
    ≡ codes "SELECT 'x'+'@ab'--@ab"
unfolding substitute
bound = refl
