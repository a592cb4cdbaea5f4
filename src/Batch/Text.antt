-- ===== src/Batch/Text.antt =====
-- internal/extensions/batch/batch.go: what DECLARE and SET are read with.
use haystak_tds_spi.Base.{
  ℕ, ◌+◌, ◌-◌, true, false, ◌&&◌, Option, none, some, List, [], ◌∷◌, ◌++◌, map, ◌==◌, if◌then◌else◌,
  length, Bytes,
}
use haystak_tds_spi.Go.Strings.{trim_space, lower_byte}
use haystak_tds_spi.Tsql.Lexer.Scan.{span}
use haystak_tds_spi.Batch.Rounds.{Round, rounds, enough}
use haystak_tds_spi.Batch.Passes.{or_skipped, skip_comment-Passes, skip_literal-Passes}
use haystak_tds_spi.Batch.Scan.{is_name_part, skip_comment, skip_literal}

unfoldable pub strip_round : Round Bytes
unfolding skip_comment skip_literal
strip_round c s next =
    or_skipped c s (skip_comment c s) (skip_comment-Passes c s) (λ t r short. b' ' ∷ next r short)
      (or_skipped c s (skip_literal c s) (skip_literal-Passes c s) (λ t r short. t ++ next r short)
        (c ∷ next s (enough (length s))))

-- `stripComments`
unfoldable pub strip_comments : Bytes → Bytes
unfolding strip_round trim_space rounds
strip_comments s = trim_space (rounds strip_round [] s)

deeper : ℕ → ℕ → ℕ
deeper c depth = if c == b'(' then depth + 1 else if c == b')' then depth - 1 else depth

-- the loops of `splitTopCommas` and of `topIndex`: the texts between the bytes `sep` outside of
-- parentheses, strings and [names]
top_round : ℕ → Round (ℕ → Bytes → List Bytes)
unfolding skip_literal deeper
top_round sep c s next depth part =
    or_skipped c s (skip_literal c s) (skip_literal-Passes c s)
      (λ t r short. next r short depth (part ++ t))
      (elim (c == sep && depth == 0) [
        | true ↦ part ∷ next s (enough (length s)) 0 []
        | false ↦ next s (enough (length s)) (deeper c depth) (part ++ c ∷ [])
      ])

-- `splitTopCommas`
unfoldable pub split_top_commas : Bytes → List Bytes
unfolding top_round rounds
split_top_commas s = rounds (top_round b',') (λ depth part. part ∷ []) s 0 []

-- the loop of `topIndex`: the texts in front of the byte and behind it
index_round : ℕ → Round (ℕ → Bytes → Option (Bytes × Bytes))
unfolding skip_literal deeper
index_round ch c s next depth front =
    or_skipped c s (skip_literal c s) (skip_literal-Passes c s)
      (λ t r short. next r short depth (front ++ t))
      (elim (c == ch && depth == 0) [
        | true ↦ some (front, s)
        | false ↦ next s (enough (length s)) (deeper c depth) (front ++ c ∷ [])
      ])

-- `topIndex`
unfoldable pub top_index : Bytes → ℕ → Option (Bytes × Bytes)
unfolding index_round rounds
top_index s ch = rounds (index_round ch) (λ depth front. none) s 0 []

-- `varName`: the name and what follows it
unfoldable pub var_name : Bytes → Option (Bytes × Bytes)
unfolding span is_name_part lower_byte
var_name [] = none
var_name (c ∷ s) =
    if c == b'@'
    then some (map lower_byte (span is_name_part s).0, (span is_name_part s).1)
    else none
