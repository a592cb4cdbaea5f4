-- ===== src/Control/Parser/Ends.antt =====
-- internal/extensions/procedures/control/parse.go: what each call leaves of the tokens.
use haystak_tds_spi.Base.{
  ℕ, zero, suc, ◌+◌, ◌-◌, ◌*◌, ◌≤◌, ◌≡◌, refl, inl, inr, Bool, true, false, ◌&&◌, List, [], ◌∷◌,
  arith, if◌then◌else◌, Bool-cases, length, Bytes, codes,
}
use haystak_tds_spi.Base.Result.{Result, ok, err, panic, no_fuel, ◌>>=◌}
use haystak_tds_spi.Control.Lex.{Tok, is_word, eq_kw, lex}
use haystak_tds_spi.Control.Syntax.{Stmt, Stmts}
use native.Mathlib.Nat.{le_refl}
use haystak_tds_spi.Control.Parse.{
  Lead, ParseError, Parse, skip_semis, read_text, lead_of, begin_word, if_word, while_word,
  waitfor_word, no_word, simple,
}
use haystak_tds_spi.Control.Parser.{
  expect_end_kw, close_block, begin_catch, else_follows, else_branch, if_stmt, while_stmt, waiting,
  waitfor_stmt, by_lead, block_stmt, try_stmt, begin_stmt, stmt_at, list_at, stmt, stmt_list, whole,
  parse_tokens_of, parse,
}
use haystak_tds_spi.Control.Parser.Leaves.{
  Ends, Leaves, Leaves-bind, Leaves-le, LeavesToks, LeavesToks-bind, skip_semis_short,
  read_text_short, raw_stmt_short,
}
use haystak_tds_spi.Control.Parser.Makes.{
  Ends-bind, Makes, makes_begin, makes_if, makes_while, makes_waitfor, makes_none, makes,
  lead_of-Makes,
}

expect_end_kw-LeavesToks :
    (kw : Bytes) (n : ℕ) (ts : List Tok) → length ts ≤ n → LeavesToks n (expect_end_kw kw ts)
unfolding expect_end_kw
expect_end_kw-LeavesToks kw n [] h = tt
expect_end_kw-LeavesToks kw n (t ∷ []) h = tt
expect_end_kw-LeavesToks kw n (t ∷ u ∷ ts) h = ground arith

begin_catch-LeavesToks : (n : ℕ) (ts : List Tok) → length ts ≤ n → LeavesToks n (begin_catch ts)
unfolding begin_catch
begin_catch-LeavesToks n [] h = tt
begin_catch-LeavesToks n (t ∷ []) h = tt
begin_catch-LeavesToks n (t ∷ u ∷ ts) h = ground arith

close_block-Leaves :
    (ss : Stmts) (n : ℕ) (ts : List Tok) → length ts ≤ n → Leaves n (close_block ss ts)
unfolding close_block
close_block-Leaves ss n [] h = tt
close_block-Leaves ss n (t ∷ ts) h = ground arith

module _ (n : ℕ) (stmt : List Tok → Parse Stmt)
    (short : (ts : List Tok) → length ts ≤ n → Leaves n (stmt ts)) where
  else_branch-Leaves :
      (cond : Bytes) (s : Stmt) (rest later : List Tok)
      → length rest ≤ n
      → length later ≤ n
      → Leaves n (else_branch stmt cond s rest (else_follows later))
  unfolding else_branch else_follows
  else_branch-Leaves cond s rest [] h k = h
  else_branch-Leaves cond s rest (t ∷ ts) h k = elim (Bool-cases (eq_kw t (codes "ELSE"))) [
    | inl yes_ ↦ rw yes_ (Leaves-bind n n (stmt ts) _ (short ts (omega arith)) λ a le. le)
    | inr no_ ↦ rw no_ h
  ]

  if_stmt-Leaves : (ts : List Tok) → length ts ≤ n → Leaves n (if_stmt stmt ts)
  unfolding if_stmt
  if_stmt-Leaves ts h =
      Leaves-bind n n (stmt (read_text ts).1) _
        (short (read_text ts).1 (omega (arith, read_text_short ts)))
        λ a le.
          else_branch-Leaves (read_text ts).0 a.0 a.1 (skip_semis a.1) le
            (omega (arith, skip_semis_short a.1))

  while_stmt-Leaves : (ts : List Tok) → length ts ≤ n → Leaves n (while_stmt stmt ts)
  unfolding while_stmt
  while_stmt-Leaves ts h =
      Leaves-bind n n (stmt (read_text ts).1) _
        (short (read_text ts).1 (omega (arith, read_text_short ts))) λ a le. le

module _ (n : ℕ) (list : Bool → List Tok → Parse Stmts)
    (short : (b : Bool) (ts : List Tok) → length ts ≤ n → Leaves n (list b ts)) where
  block_stmt-Leaves : (ts : List Tok) → length ts ≤ n → Leaves n (block_stmt list ts)
  unfolding block_stmt
  block_stmt-Leaves ts h =
      Leaves-bind n n (list true ts) _ (short true ts h) λ a le. close_block-Leaves a.0 n a.1 le

  try_stmt-Leaves : (ts : List Tok) → length ts ≤ n → Leaves n (try_stmt list ts)
  unfolding try_stmt
  try_stmt-Leaves ts h = Leaves-bind n n (list true ts) _ (short true ts h) λ a le.
      LeavesToks-bind n n (expect_end_kw (codes "TRY") a.1) _
        (expect_end_kw-LeavesToks (codes "TRY") n a.1 le)
        λ r2 le2.
          LeavesToks-bind n n (begin_catch (skip_semis r2)) _
            (begin_catch-LeavesToks n (skip_semis r2) (omega (arith, skip_semis_short r2)))
            λ r3 le3. Leaves-bind n n (list true r3) _ (short true r3 le3) λ b le4.
              LeavesToks-bind n n (expect_end_kw (codes "CATCH") b.1) _
                (expect_end_kw-LeavesToks (codes "CATCH") n b.1 le4) λ r5 le5. le5

  begin_stmt-Leaves : (ts : List Tok) → length ts ≤ n → Leaves n (begin_stmt list ts)
  unfolding begin_stmt
  begin_stmt-Leaves [] h = block_stmt-Leaves [] h
  begin_stmt-Leaves (u ∷ us) h = elim (Bool-cases (eq_kw u (codes "TRY"))) [
    | inl try_ ↦ rw try_ (try_stmt-Leaves us (omega arith))
    | inr other ↦ rw other (block_stmt-Leaves (u ∷ us) h)
  ]

waiting_short : (b : Bool) (ts : List Tok) → length (waiting b ts).1 ≤ length ts
unfolding waiting
waiting_short b ts = read_text_short ts

if-Leaves :
    {A : Type 0} (n : ℕ) (b : Bool) (x y : Parse A)
    → (b ≡ true → Leaves n x)
    → (b ≡ false → Leaves n y)
    → Leaves n (if b then x else y)
if-Leaves n true x y h k = h refl
if-Leaves n false x y h k = k refl

waitfor_stmt-Leaves : (ts : List Tok) → Leaves (length ts) (waitfor_stmt ts)
unfolding waitfor_stmt
waitfor_stmt-Leaves [] = waiting_short false []
waitfor_stmt-Leaves (u ∷ us) =
    if-Leaves (suc (length us)) (is_word u.kind) _ _
      (λ _. omega (arith, waiting_short (eq_kw u (codes "DELAY")) us))
      (λ _. waiting_short false (u ∷ us))

made-Leaves :
    (n : ℕ) (made : Result ParseError Stmt) (rest : List Tok)
    → Ends made
    → length rest ≤ n
    → Leaves n (made >>= λ s. ok (s, rest))
made-Leaves n (ok s) rest e h = h
made-Leaves n (err e') rest e h = tt
made-Leaves n panic rest e h = tt
made-Leaves n no_fuel rest e h = e

module _ (t : Tok) (ts : List Tok) (stmt : List Tok → Parse Stmt)
    (list : Bool → List Tok → Parse Stmts)
    (short : (us : List Tok) → length us ≤ length ts → Leaves (length ts) (stmt us))
    (shorts : (b : Bool) (us : List Tok)
      → length us ≤ length ts
      → Leaves (length ts) (list b us)) where
  lead-Leaves : (l : Lead) → Makes l → Leaves (length ts) (by_lead stmt list t ts l)
  unfolding by_lead
  lead-Leaves begin_word makes_begin =
      begin_stmt-Leaves (length ts) list shorts ts (le_refl (length ts))
  lead-Leaves if_word makes_if = if_stmt-Leaves (length ts) stmt short ts (le_refl (length ts))
  lead-Leaves while_word makes_while =
      while_stmt-Leaves (length ts) stmt short ts (le_refl (length ts))
  lead-Leaves waitfor_word makes_waitfor = waitfor_stmt-Leaves ts
  lead-Leaves (simple make) (makes m) =
      made-Leaves (length ts) (make (read_text ts).0) (read_text ts).1 (m (read_text ts).0)
        (read_text_short ts)
  lead-Leaves no_word makes_none = raw_stmt_short t ts

list_at-Leaves :
    (n : ℕ) (stmt : List Tok → Parse Stmt) (list : Bool → List Tok → Parse Stmts) (b : Bool)
    (ts : List Tok)
    → length ts ≤ n
    → Leaves (n - 1) (stmt ts)
    → (1 ≤ n → (us : List Tok) → length us ≤ n - 1 → Leaves (n - 1) (list b us))
    → Leaves n (list_at stmt list b ts)
unfolding list_at
list_at-Leaves n stmt list b [] h one more = h
list_at-Leaves n stmt list b (t ∷ ts) h one more =
    if-Leaves n (b && eq_kw t (codes "END")) _ _ (λ _. h)
      λ _. Leaves-bind (n - 1) n (stmt (t ∷ ts)) _ one λ a le.
        Leaves-bind (n - 1) n (list b a.1) _ (more (omega arith) a.1 le) λ c le'. omega arith

mutual
  unfolding stmt stmt_at

  stmt-Leaves :
      (fuel n : ℕ) (ts : List Tok)
      → length ts ≤ n
      → 2 * n + 1 ≤ fuel
      → Leaves (n - 1) (stmt fuel ts)
  stmt-Leaves zero n ts h k = absurd (omega arith)
  stmt-Leaves (suc fuel) n [] h k = tt
  stmt-Leaves (suc fuel) n (t ∷ ts) h k =
      Leaves-le (length ts) (n - 1) (stmt_at (stmt fuel) (stmt_list fuel) t ts) (omega arith) (
        lead-Leaves t ts (stmt fuel) (stmt_list fuel)
          (λ us le.
            Leaves-le (length ts - 1) (length ts) (stmt fuel us) (omega arith)
              (stmt-Leaves fuel (length ts) us le (omega arith)))
          (λ b us le. stmt_list-Leaves fuel (length ts) b us le (omega arith)) (lead_of t)
          (lead_of-Makes t))

  stmt_list-Leaves :
      (fuel n : ℕ) (b : Bool) (ts : List Tok)
      → length ts ≤ n
      → 2 * n + 2 ≤ fuel
      → Leaves n (stmt_list fuel b ts)
  stmt_list-Leaves zero n b ts h k = absurd (omega arith)
  stmt_list-Leaves (suc fuel) n b ts h k =
      list_at-Leaves n (stmt fuel) (stmt_list fuel) b (skip_semis ts)
        (omega (arith, skip_semis_short ts))
        (stmt-Leaves fuel n (skip_semis ts) (omega (arith, skip_semis_short ts)) (omega arith))
        λ pos us le. stmt_list-Leaves fuel (n - 1) b us le (omega arith)

whole-Ends : (ss : Stmts) (ts : List Tok) → Ends (whole ss ts)
unfolding whole
whole-Ends ss [] = tt
whole-Ends ss (t ∷ ts) = tt

Leaves-Ends : {A : Type 0} (n : ℕ) (r : Parse A) → Leaves n r → Ends r
Leaves-Ends n (ok a) h = tt
Leaves-Ends n (err e) h = tt
Leaves-Ends n panic h = tt
Leaves-Ends n no_fuel h = h

-- `parse` ends on every text: with statements, with an error, or in a panic.
pub parse-Ends : (sql : Bytes) → Ends (parse sql)
unfolding parse parse_tokens_of
parse-Ends sql =
    let n = length (lex sql) in
    Ends-bind (stmt_list (2 * n + 2) false (lex sql)) _
      (Leaves-Ends n (stmt_list (2 * n + 2) false (lex sql))
        (stmt_list-Leaves (2 * n + 2) n false (lex sql) (le_refl n) (le_refl (2 * n + 2))))
      λ a. whole-Ends a.0 a.1
