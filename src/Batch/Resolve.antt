-- ===== src/Batch/Resolve.antt =====
-- internal/extensions/batch/batch.go: `Resolve` and what it calls. Whether strconv.ParseFloat reads a
-- text is a parameter.
pub mod Ends
use haystak_tds_spi.Base.{
  ℕ, zero, suc, ◌+◌, ◌-◌, ◌*◌, ◌/◌, ◌%◌, ◌^◌, ◌≤◌, ◌<◌, min, ◌≡◌, refl, sym, ap, ◌∙◌, subst, ◌≢◌,
  ◌↔◌, ◌⊎◌, inl, inr, Bool, true, false, not, ◌&&◌, ◌||◌, Option, none, some, List, [], ◌∷◌, ◌++◌,
  map, append_assoc, append-nil, arith, ltb, leb, ◌==◌, if◌then◌else◌, ltb→lt, lt→ltb, leb→le,
  le→leb, ltb_false→le, leb_false→lt, le→ltb_false, ==_iff, ==_refl, Bool-cases, Option-cases,
  length, get_elem?, get_or, take, drop, replicate, length-append, take-append-drop, length-take,
  length-drop, take_append, drop_append, take_all, drop_all, drop-drop, length-replicate,
  length-map, Bytes, All, IsBytes, codes, All-append,
}
use haystak_tds_spi.Base.Result.{Result, ok, err, panic, no_fuel, ◌>>=◌}
use haystak_tds_spi.Base.Result.{Result, ok, err, panic, no_fuel, ◌>>=◌}
use haystak_tds_spi.Base.Dict.{Dict, insert, lookup, bytes_eq, bytes_beq}
use haystak_tds_spi.Base.Slices.{slice}
use haystak_tds_spi.Go.Strings.{trim_space}
use haystak_tds_spi.Batch.Rounds.{Round, rounds, enough}
use haystak_tds_spi.Batch.Passes.{or_skipped, skip_comment-Passes, skip_literal-Passes}
use haystak_tds_spi.Batch.Scan.{skip_comment, skip_literal}
use haystak_tds_spi.Batch.Substitute.{substitute}
use haystak_tds_spi.Batch.Declared.{first_word, upper, fit_declared}
use haystak_tds_spi.Batch.Cut.{cut_statements}
use haystak_tds_spi.Batch.Text.{strip_comments, split_top_commas, top_index, var_name}

pub data BatchError : Type 0 where
  declare_expects : Bytes → BatchError
  set_expects : Bytes → BatchError

-- a round of the loop of `Split`, which gives the texts between the bytes at which it cuts; the text
-- passed since the last cut is `front`
unfoldable pub split_round : Round (Bytes → List Bytes)
unfolding skip_comment skip_literal
split_round c s next front =
    or_skipped c s (skip_comment c s) (skip_comment-Passes c s)
      (λ t r short. next r short (front ++ t))
      (or_skipped c s (skip_literal c s) (skip_literal-Passes c s)
        (λ t r short. next r short (front ++ t))
        (elim (c == b';') [
          | true ↦ front ∷ next s (enough (length s)) []
          | false ↦ next s (enough (length s)) (front ++ c ∷ [])
        ]))

unfoldable pub cut_all : List Bytes → Result ⊥ (List Bytes)
unfolding cut_statements
cut_all [] = ok []
cut_all (s ∷ ss) = do cuts ← cut_statements s; more ← cut_all ss; ok (cuts ++ more)

-- `Split`
unfoldable pub split_statements : Bytes → Result ⊥ (List Bytes)
unfolding split_round cut_all rounds
split_statements sql = cut_all (rounds split_round (λ front. front ∷ []) sql [])

-- `vars` and `types`
abbrev pub Bindings : Type 0
Bindings = Dict Bytes Bytes × Dict Bytes Bytes

module _ (is_float : Bytes → Bool) where
  -- a name of DECLARE with what follows it, and the sides of its `=`
  unfoldable pub declared : Bindings → Bytes → Bytes → Option (Bytes × Bytes) → Bindings
  unfolding insert fit_declared trim_space
  declared (vars, types) name rest none = (vars, insert name (trim_space rest) types)
  declared (vars, types) name rest (some (typ, value)) = (
    insert name (fit_declared is_float (trim_space value) typ) vars,
    insert name (trim_space typ) types,
  )

  unfoldable pub declare_part : Bindings → Bytes → Result BatchError Bindings
  unfolding var_name declared top_index
  declare_part b p = elim (var_name p) [
    | none ↦ err (declare_expects p)
    | some (name, rest) ↦ ok (declared b name rest (top_index rest b'='))
  ]

  unfoldable pub declare_parts : Bindings → List Bytes → Result BatchError Bindings
  unfolding declare_part trim_space
  declare_parts b [] = ok b
  declare_parts b (p ∷ ps) = do b' ← declare_part b (trim_space p); declare_parts b' ps

  -- `bindDeclare`
  unfoldable pub bind_declare : Bindings → Bytes → Result BatchError Bindings
  unfolding declare_parts split_top_commas trim_space slice
  bind_declare b stmt = do
    rest ← slice stmt 7 (length stmt)
    declare_parts b (split_top_commas (trim_space rest))

  type_or_empty : Option Bytes → Bytes
  type_or_empty none = []
  type_or_empty (some t) = t

  unfoldable pub set_value : Bindings → Bytes → Option (Bytes × Bytes) → Result BatchError Bindings
  unfolding insert lookup fit_declared trim_space type_or_empty
  set_value b name none = err (set_expects name)
  set_value (vars, types) name (some (l, value)) = ok (
    insert name (fit_declared is_float (trim_space value) (type_or_empty (lookup name types))) vars,
    types,
  )

  unfoldable pub set_of : Bindings → Option (Bytes × Bytes) → Result BatchError (Option Bindings)
  unfolding set_value top_index
  set_of b none = ok none
  set_of b (some (name, rest)) = do b' ← set_value b name (top_index rest b'='); ok (some b')

  -- `bindSet`; none where the SET is of no variable
  unfoldable pub bind_set : Bindings → Bytes → Result BatchError (Option Bindings)
  unfolding set_of var_name trim_space slice
  bind_set b stmt = do rest ← slice stmt 3 (length stmt); set_of b (var_name (trim_space rest))

  -- a statement that stays, or none, and the bindings behind it
  abbrev pub Step : Type 0
  Step = Option Bytes × Bindings

  unfoldable pub kept : Bindings → Bytes → Step
  unfolding substitute
  kept (vars, types) t = (some (substitute t vars), (vars, types))

  unfoldable pub after_set : Bindings → Bytes → Option Bindings → Step
  unfolding kept
  after_set b t none = kept b t
  after_set b t (some b') = (none, b')

  -- the loop of `Resolve` at a statement that is trimmed
  unfoldable pub resolve_stmt : Bindings → Bytes → Result BatchError Step
  unfolding bind_declare bind_set kept after_set strip_comments first_word upper
  resolve_stmt b [] = ok (none, b)
  resolve_stmt b (c ∷ t) =
      if bytes_beq (upper (first_word (c ∷ t))) (codes "DECLARE")
      then (bind_declare b (strip_comments (c ∷ t)) >>= λ b'. ok (none, b'))
      else if bytes_beq (upper (first_word (c ∷ t))) (codes "SET")
      then (bind_set b (strip_comments (c ∷ t)) >>= λ done. ok (after_set b (c ∷ t) done))
      else ok (kept b (c ∷ t))

  unfoldable pub with_stmt : Option Bytes → List Bytes → List Bytes
  with_stmt none out = out
  with_stmt (some s) out = s ∷ out

  unfoldable pub resolve_all : Bindings → List Bytes → Result BatchError (List Bytes)
  unfolding resolve_stmt with_stmt trim_space
  resolve_all b [] = ok []
  resolve_all b (s ∷ ss) = do
    (stays, b') ← resolve_stmt b (trim_space s)
    out ← resolve_all b' ss
    ok (with_stmt stays out)

  unfoldable pub joined : List Bytes → Bytes
  joined [] = []
  joined (s ∷ []) = s
  joined (s ∷ t ∷ ss) = s ++ (10 ∷ b';' ∷ 10 ∷ joined (t ∷ ss))

  unfoldable pub has_at : Bytes → Bool
  has_at [] = false
  has_at (c ∷ s) = c == b'@' || has_at s

  unfoldable pub of_statements : Result ⊥ (List Bytes) → Result BatchError Bytes
  unfolding resolve_all joined
  of_statements (ok ss) = do out ← resolve_all ([], []) ss; ok (joined out)
  of_statements (err e) = absurd e
  of_statements panic = panic
  of_statements no_fuel = no_fuel

  -- `Resolve`
  unfoldable pub resolve : Bytes → Result BatchError Bytes
  unfolding has_at of_statements split_statements
  resolve sql = if has_at sql then of_statements (split_statements sql) else ok sql

resolved :
    resolve
      (λ v. false)
      (codes "DECLARE @a varchar(2) = 'xyz', @b int; SET NOCOUNT ON SELECT @A, @b")
    ≡ ok (codes "SET NOCOUNT ON" ++ (10 ∷ b';' ∷ 10 ∷ codes "SELECT 'xy', @b"))
unfolding resolve
resolved = refl
