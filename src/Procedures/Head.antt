-- ===== src/Procedures/Head.antt =====
-- internal/extensions/procedures/proc.go: the head of a procedure.
use haystak_tds_spi.Base.{
  ℕ, ◌+◌, ◌≡◌, refl, Bool, true, false, not, ◌&&◌, ◌||◌, none, some, List, [], ◌∷◌, ◌++◌, ◌==◌,
  if◌then◌else◌, Bytes, codes,
}
use haystak_tds_spi.Base.Dict.{bytes_eq}
use haystak_tds_spi.Go.Strings.{trim_space, fields, has_prefix}
use haystak_tds_spi.Procedures.Names.{behind_fold, unqualify, trim_last, trim_prefix}
use haystak_tds_spi.Procedures.Params.{RoutineParam}

-- the loop of `splitName`, in front of and from the delimiter on
unfoldable pub split_name : Bytes → Bytes × Bytes
split_name [] = ([], [])
split_name (c ∷ s) =
    let rest : Bytes × Bytes = (c ∷ (split_name s).0, (split_name s).1) in
    if c == b' ' || (c == 9 || (c == b'(' || c == b'@')) then ([], c ∷ s) else rest

-- a last part that is not blank
last_part : Bytes → Bytes → List Bytes
last_part part [] = []
last_part part (c ∷ s) = part ∷ []

-- the loop of `splitTopComma`: `depth` is the count of `(` less that of `)`, below 0 too
split_round : Bool → ℕ → ℕ → Bytes → Bytes → List Bytes
unfolding last_part trim_space
split_round in_str opens closes part [] = last_part part (trim_space part)
split_round in_str opens closes part (c ∷ s) = elim (c == b'\'') [
  | true ↦ split_round (not in_str) opens closes (part ++ c ∷ []) s
  | false ↦ elim in_str [
    | true ↦ split_round true opens closes (part ++ c ∷ []) s
    | false ↦ elim (c == b',' && opens == closes) [
      | true ↦ part ∷ split_round false opens closes [] s
      | false ↦
          split_round false (if c == b'(' then opens + 1 else opens)
            (if c == b')' then closes + 1 else closes) (part ++ c ∷ []) s
    ]
  ]
]

-- `splitTopComma`
unfoldable pub split_top_comma : Bytes → List Bytes
unfolding split_round
split_top_comma s = split_round false 0 0 [] s

-- one part of the list of parameters, by its fields
param_of : List Bytes → List RoutineParam → List RoutineParam
unfolding has_prefix
param_of [] params = params
param_of (n ∷ []) params =
    if has_prefix n (codes "@") then record { name = n; typ = [] } ∷ params else params
param_of (n ∷ t ∷ more) params =
    if has_prefix n (codes "@") then record { name = n; typ = t } ∷ params else params

params_of : List Bytes → List RoutineParam
unfolding param_of fields trim_space
params_of [] = []
params_of (p ∷ ps) = param_of (fields (trim_space p)) (params_of ps)

-- `parseProcHead`, behind the word
head_of : Bytes → Bytes × List RoutineParam
unfolding split_name trim_space trim_last has_prefix params_of split_top_comma unqualify
head_of rest =
    let (name, after) = split_name (trim_space rest) in
    (
      unqualify name,
      params_of (
          split_top_comma
            (trim_last b')' (trim_space (trim_prefix (trim_space after) (codes "("))))),
    )

-- `parseProcHead`
unfoldable pub parse_proc_head : Bytes → Bytes × List RoutineParam
unfolding head_of behind_fold
parse_proc_head head = elim (behind_fold head (codes "PROCEDURE")) [
  | some rest ↦ head_of rest
  | none ↦ elim (behind_fold head (codes "PROC")) [ some rest ↦ head_of rest | none ↦ ([], []) ]
]

header : parse_proc_head (codes "create procedure dbo.[p] (@a int, @b decimal(10,2))") ≡ (
  codes "p",
  record { name = codes "@a"; typ = codes "int" }
      ∷ record { name = codes "@b"; typ = codes "decimal(10,2)" }
      ∷ [],
)
unfolding parse_proc_head
header = refl

-- Without parentheses round the list, the last `)` of a type is taken for that of the list.
bare_header :
    parse_proc_head (codes "create proc p @b decimal(10,2)")
    ≡ (codes "p", record { name = codes "@b"; typ = codes "decimal(10,2" } ∷ [])
unfolding parse_proc_head
bare_header = refl
