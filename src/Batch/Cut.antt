-- ===== src/Batch/Cut.antt =====
-- internal/extensions/batch/boundary.go: `statementEnd` and `cutStatements`; `TrimLeadingComments` of
-- batch.go.
pub mod Ends
use haystak_tds_spi.Base.{
  ℕ, zero, suc, ◌+◌, ◌-◌, ◌*◌, ◌/◌, ◌%◌, ◌^◌, ◌≤◌, ◌<◌, min, ◌≡◌, refl, sym, ap, ◌∙◌, subst, ◌≢◌,
  ◌↔◌, ◌⊎◌, inl, inr, Bool, true, false, not, ◌&&◌, ◌||◌, Option, none, some, List, [], ◌∷◌, ◌++◌,
  map, append_assoc, append-nil, arith, ltb, leb, ◌==◌, if◌then◌else◌, ltb→lt, lt→ltb, leb→le,
  le→leb, ltb_false→le, leb_false→lt, le→ltb_false, ==_iff, ==_refl, Bool-cases, Option-cases,
  length, get_elem?, get_or, take, drop, replicate, length-append, take-append-drop, length-take,
  length-drop, take_append, drop_append, take_all, drop_all, drop-drop, length-replicate,
  length-map, Bytes, All, IsBytes, codes, All-append,
}
use haystak_tds_spi.Base.Result.{
  Result, ok, err, panic, no_fuel, ◌>>=◌, ◌>>◌, Returns, Yields, bind-eq-ok, Returns-bind,
}
use haystak_tds_spi.Base.Result.{Result, ok, err, panic, no_fuel, ◌>>=◌}
use haystak_tds_spi.Base.Dict.{bytes_beq}
use haystak_tds_spi.Go.Strings.{trim_space, trim_left, is_space, equal_fold, has_prefix}
use haystak_tds_spi.Go.Utf.{runes}
use haystak_tds_spi.Tsql.Lexer.Scan.{span}
use haystak_tds_spi.Batch.Rounds.{Round, rounds, enough}
use haystak_tds_spi.Batch.Passes.{or_skipped, skip_comment-Passes}
use haystak_tds_spi.Batch.Scan.{
  is_name_part, is_blank, skip_comment, skip_string, skip_bracket, before,
}
use haystak_tds_spi.Batch.Declared.{upper}
use haystak_tds_spi.Batch.Boundary.{
  Word, Verdict, ends_at, ends_after, takes_all, goes, cut_if, is_lead, is_dml, folds_next,
  set_op_word, has_member, words,
}

-- The cases of `statementEnd`, at the word `w` (in capitals `u`) behind `prev` and before `ws`.
module _ (prev w : Word) (ws : List Word) (lead : Bytes) (values own_set : Bool) where
  -- the case SELECT
  at_select : Bytes → Bool → Verdict
  unfolding cut_if set_op_word folds_next is_lead
  at_select u hint =
      if bytes_beq u (codes "SELECT")
      then cut_if (not (set_op_word prev.text)) lead values own_set
      else if bytes_beq u (codes "WITH")
      then cut_if (not hint && not (folds_next ws (codes "ties"))) lead values own_set
      else cut_if (is_lead u) lead values own_set

  -- the case UPDATE, DELETE
  at_update : Bytes → Bool → Verdict
  unfolding cut_if is_lead
  at_update u hint =
      if bytes_beq u (codes "SET") && (bytes_beq lead (codes "UPDATE") && not own_set)
      then goes lead values true
      else cut_if (not hint && is_lead u) lead values own_set

  -- the case MERGE
  at_merge : Bytes → Bool → Verdict
  unfolding cut_if is_lead equal_fold runes has_member
  at_merge u hint =
      if bytes_beq u (codes "SET") && equal_fold (runes prev.text) (codes "update")
      then goes lead values own_set
      else cut_if
          (not (has_member u (map codes ("INSERT" ∷ "UPDATE" ∷ "DELETE" ∷ [])) || hint)
            && is_lead u)
          lead values own_set

  -- the case INSERT
  at_insert : Bytes → Bool → Verdict
  unfolding cut_if is_lead
  at_insert u hint =
      let values' = values || bytes_beq u (codes "VALUES") in
      if bytes_beq u (codes "SELECT") && not values'
      then goes lead values' own_set
      else cut_if
          (not (bytes_beq u (codes "EXEC") || (bytes_beq u (codes "EXECUTE") || hint)) && is_lead u)
          lead values' own_set

  -- the case DECLARE to WAITFOR
  at_simple : Bytes → Verdict
  unfolding cut_if is_lead
  at_simple u =
      if bytes_beq u (codes "CURSOR") && bytes_beq lead (codes "DECLARE")
      then takes_all
      else cut_if (is_lead u) lead values own_set

  by_lead : Bytes → Bool → Verdict
  unfolding at_select at_update at_merge at_insert at_simple is_dml has_member cut_if
  by_lead u hint =
      if bytes_beq lead (codes "CREATE") || bytes_beq lead (codes "ALTER")
      then takes_all
      else if bytes_beq lead (codes "USE")
      then ends_after
      else if has_member lead (
          map codes (
            "DECLARE" ∷ "SET" ∷ "EXEC" ∷ "EXECUTE" ∷ "PRINT" ∷ "DROP" ∷ "TRUNCATE" ∷ "RAISERROR"
            ∷ "THROW" ∷ "WAITFOR" ∷ []))
      then at_simple u
      else if bytes_beq lead (codes "WITH")
      then goes (if is_dml u then u else lead) values own_set
      else if bytes_beq lead (codes "SELECT")
      then at_select u hint
      else if bytes_beq lead (codes "UPDATE") || bytes_beq lead (codes "DELETE")
      then at_update u hint
      else if bytes_beq lead (codes "MERGE")
      then at_merge u hint
      else if bytes_beq lead (codes "INSERT")
      then at_insert u hint
      else cut_if (has_member u (map codes ("DECLARE" ∷ "USE" ∷ "SET" ∷ []))) lead values own_set

  -- the round of `statementEnd` at the word
  unfoldable pub verdict : Verdict
  unfolding by_lead upper
  verdict =
      if not (w.depth == 0)
      then goes lead values own_set
      else by_lead (upper w.text) (bytes_beq (upper w.text) (codes "WITH") && w.paren_after)

-- what the verdict at a word comes to, with the rest of the loop
unfoldable pub decide : Word → (Bytes → Bool → Bool → Bytes) → Verdict → Bytes
decide w next ends_at = w.at
decide w next ends_after = w.after
decide w next takes_all = []
decide w next (goes lead values own_set) = next lead values own_set

-- the loop of `statementEnd`: the text behind the statement
unfoldable pub end_from : Word → List Word → Bytes → Bool → Bool → Bytes
unfolding verdict decide
end_from prev [] lead values own_set = []
end_from prev (w ∷ ws) lead values own_set =
    decide w (end_from w ws) (verdict prev w ws lead values own_set)

unfoldable pub end_of : List Word → Bytes
unfolding end_from upper
end_of [] = []
end_of (w ∷ ws) = end_from w ws (upper w.text) false false

-- `statementEnd`: the text behind the statement that opens `s`
unfoldable pub statement_end : Bytes → Bytes
unfolding end_of words
statement_end s = end_of (words s)

-- a round of the loop of `TrimLeadingComments`
unfoldable pub trim_round : Round Bytes
unfolding is_blank skip_comment
trim_round c s next = elim (is_blank c) [
  | true ↦ next s (enough (length s))
  | false ↦
      or_skipped c s (skip_comment c s) (skip_comment-Passes c s) (λ t r short. next r short)
        (c ∷ s)
]

-- `TrimLeadingComments`
unfoldable pub trim_leading_comments : Bytes → Bytes
unfolding trim_round trim_space rounds
trim_leading_comments s = trim_space (rounds trim_round [] s)

unfoldable pub cut_one : Bytes → Bytes → List Bytes → List Bytes
unfolding trim_space
cut_one s rest more = trim_space (take (length s - length rest) s) ∷ more

-- the loop of `cutStatements`, at a text that is trimmed
unfoldable pub cut_round : ℕ → Bytes → Result ⊥ (List Bytes)
unfolding statement_end trim_leading_comments cut_one
cut_round fuel [] = ok []
cut_round zero (c ∷ s) = no_fuel
cut_round (suc fuel) (c ∷ s) = do
  more ← cut_round fuel (trim_leading_comments (statement_end (c ∷ s)))
  ok (cut_one (c ∷ s) (statement_end (c ∷ s)) more)

-- `cutStatements`
unfoldable pub cut_statements : Bytes → Result ⊥ (List Bytes)
unfolding cut_round trim_leading_comments
cut_statements s = cut_round (length s) (trim_leading_comments s)

two_statements :
    cut_statements (codes "UPDATE t SET a = 1 SET @x = 2 SELECT (SELECT 1) UNION SELECT 2")
    ≡ ok (
        codes "UPDATE t SET a = 1"
        ∷ codes "SET @x = 2"
        ∷ codes "SELECT (SELECT 1) UNION SELECT 2"
        ∷ [])
unfolding cut_statements
two_statements = refl
