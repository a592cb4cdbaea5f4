-- ===== src/Control/Parser.antt =====
-- internal/extensions/procedures/control/parse.go: `parse`, `stmtList` and `stmt`. What a method does
-- between its calls of `stmt` and `stmtList` is a function of these two.
pub mod Leaves
pub mod Makes
pub mod Ends
pub mod Panics
use haystak_tds_spi.Base.{
  ℕ, zero, suc, ◌+◌, ◌-◌, ◌*◌, ◌/◌, ◌%◌, ◌^◌, ◌≤◌, ◌<◌, min, ◌≡◌, refl, sym, ap, ◌∙◌, subst, ◌≢◌,
  ◌↔◌, ◌⊎◌, inl, inr, Bool, true, false, not, ◌&&◌, ◌||◌, Option, none, some, List, [], ◌∷◌, ◌++◌,
  map, append_assoc, append-nil, arith, ltb, leb, ◌==◌, if◌then◌else◌, ltb→lt, lt→ltb, leb→le,
  le→leb, ltb_false→le, leb_false→lt, le→ltb_false, ==_iff, ==_refl, Bool-cases, Option-cases,
  length, get_elem?, get_or, take, drop, replicate, length-append, take-append-drop, length-take,
  length-drop, take_append, drop_append, take_all, drop_all, drop-drop, length-replicate,
  length-map, Bytes, All, IsBytes, codes, All-append,
}
use haystak_tds_spi.Base.Result.{
  Result, ok, err, panic, no_fuel, ◌>>=◌, ◌>>◌, Returns, Yields, bind-eq-ok, Returns-bind,
}
use haystak_tds_spi.Go.Strings.{trim_space, trim_left, trim_right}
use haystak_tds_spi.Control.Lex.{Tok, is_word, eq_kw, upper, lex}
use haystak_tds_spi.Control.Syntax.{
  Stmt, Stmts, block, if_then, if_else, while, try, waitfor, done, and_then, set, breaks, print,
}
use haystak_tds_spi.Control.Parse.{
  ParseError, unexpected, expected_end, expected_end_kw, expected_begin_catch, Parse, skip_semis,
  read_text, raw_stmt, Lead, lead_of, begin_word, if_word, while_word, waitfor_word, no_word,
  simple,
}

-- `expectEndKw`
unfoldable pub expect_end_kw : Bytes → List Tok → Result ParseError (List Tok)
unfolding eq_kw
expect_end_kw kw (t ∷ u ∷ ts) =
    if eq_kw t (codes "END") && eq_kw u kw then ok ts else err (expected_end_kw kw)
expect_end_kw kw _ = err (expected_end_kw kw)

-- END behind a block's statements
close_block : Stmts → List Tok → Parse Stmt
unfolding eq_kw
close_block ss [] = err expected_end
close_block ss (t ∷ ts) = if eq_kw t (codes "END") then ok (block ss, ts) else err expected_end

-- BEGIN CATCH
begin_catch : List Tok → Result ParseError (List Tok)
unfolding eq_kw
begin_catch (t ∷ u ∷ ts) =
    if eq_kw t (codes "BEGIN") && eq_kw u (codes "CATCH") then ok ts else err expected_begin_catch
begin_catch _ = err expected_begin_catch

-- whether ELSE follows, and the tokens behind it
else_follows : List Tok → Option (List Tok)
unfolding eq_kw
else_follows [] = none
else_follows (t ∷ ts) = if eq_kw t (codes "ELSE") then some ts else none

module _ (stmt : List Tok → Parse Stmt) where
  -- the branch of ELSE, or nothing: the semicolons in front of it are then left
  else_branch : Bytes → Stmt → List Tok → Option (List Tok) → Parse Stmt
  else_branch cond s rest none = ok (if_then cond s, rest)
  else_branch cond s rest (some ts) = do (els, rest') ← stmt ts; ok (if_else cond s els, rest')

  -- `ifStmt`, behind IF
  if_stmt : List Tok → Parse Stmt
  unfolding read_text else_branch else_follows skip_semis
  if_stmt ts = do
    let (cond, behind) = read_text ts
    (s, rest) ← stmt behind
    else_branch cond s rest (else_follows (skip_semis rest))

  -- `whileStmt`, behind WHILE
  while_stmt : List Tok → Parse Stmt
  unfolding read_text
  while_stmt ts = do
    let (cond, behind) = read_text ts
    (s, rest) ← stmt behind
    ok (while cond s, rest)

-- strings.Trim(strings.TrimSpace(s), "'")
unquoted : Bytes → Bytes
unfolding trim_space trim_left trim_right
unquoted s = trim_left (λ (c : ℕ). c == b'\'') (trim_right (λ (c : ℕ). c == b'\'') (trim_space s))

waiting : Bool → List Tok → Stmt × List Tok
unfolding read_text unquoted
waiting delay us = let (text, rest) = read_text us in (waitfor delay (unquoted text), rest)

-- the case WAITFOR, behind the word
unfoldable pub waitfor_stmt : List Tok → Parse Stmt
unfolding eq_kw waiting
waitfor_stmt [] = ok (waiting false [])
waitfor_stmt (u ∷ us) =
    if is_word u.kind
    then ok (waiting (eq_kw u (codes "DELAY")) us)
    else ok (waiting false (u ∷ us))

module _ (list : Bool → List Tok → Parse Stmts) where
  -- `block`, behind BEGIN
  block_stmt : List Tok → Parse Stmt
  unfolding close_block
  block_stmt ts = do (ss, rest) ← list true ts; close_block ss rest

  -- `tryStmt`, behind BEGIN TRY
  try_stmt : List Tok → Parse Stmt
  unfolding expect_end_kw begin_catch skip_semis
  try_stmt ts = do
    (body, r1) ← list true ts
    r2 ← expect_end_kw (codes "TRY") r1
    r3 ← begin_catch (skip_semis r2)
    (handler, r4) ← list true r3
    r5 ← expect_end_kw (codes "CATCH") r4
    ok (try body handler, r5)

  -- the case BEGIN
  begin_stmt : List Tok → Parse Stmt
  unfolding block_stmt try_stmt eq_kw
  begin_stmt [] = block_stmt []
  begin_stmt (u ∷ us) = if eq_kw u (codes "TRY") then try_stmt us else block_stmt (u ∷ us)

-- the cases of the `switch` of `stmt`, by the leading word
unfoldable pub by_lead :
    (List Tok → Parse Stmt) → (Bool → List Tok → Parse Stmts) → Tok → List Tok → Lead → Parse Stmt
unfolding if_stmt while_stmt waitfor_stmt begin_stmt read_text raw_stmt
by_lead stmt list t ts begin_word = begin_stmt list ts
by_lead stmt list t ts if_word = if_stmt stmt ts
by_lead stmt list t ts while_word = while_stmt stmt ts
by_lead stmt list t ts waitfor_word = waitfor_stmt ts
by_lead stmt list t ts (simple make) = do
  let (text, rest) = read_text ts
  s ← make text
  ok (s, rest)
by_lead stmt list t ts no_word = ok (raw_stmt (t ∷ ts))

-- `stmt` at the token `t` before `ts`
unfoldable pub stmt_at :
    (List Tok → Parse Stmt) → (Bool → List Tok → Parse Stmts) → Tok → List Tok → Parse Stmt
unfolding by_lead lead_of
stmt_at stmt list t ts = by_lead stmt list t ts (lead_of t)

-- the round of `stmtList` at these tokens, in a block or not
unfoldable pub list_at :
    (List Tok → Parse Stmt) → (Bool → List Tok → Parse Stmts) → Bool → List Tok → Parse Stmts
unfolding eq_kw
list_at stmt list in_block [] = ok (done, [])
list_at stmt list in_block (t ∷ ts) =
    let one = (do
      (s, rest) ← stmt (t ∷ ts)
      (ss, rest') ← list in_block rest
      ok (and_then s ss, rest')) in
    if in_block && eq_kw t (codes "END") then ok (done, t ∷ ts) else one

-- Each call spends a unit of fuel.
unfoldable mutual
  unfolding stmt_at list_at skip_semis

  -- `stmt`
  pub stmt : ℕ → List Tok → Parse Stmt
  stmt zero ts = no_fuel
  stmt (suc fuel) [] = panic
  stmt (suc fuel) (t ∷ ts) = stmt_at (stmt fuel) (stmt_list fuel) t ts

  -- `stmtList`, whose terminators are none or END
  pub stmt_list : ℕ → Bool → List Tok → Parse Stmts
  stmt_list zero in_block ts = no_fuel
  stmt_list (suc fuel) in_block ts = list_at (stmt fuel) (stmt_list fuel) in_block (skip_semis ts)

unfoldable pub whole : Stmts → List Tok → Result ParseError Stmts
whole ss [] = ok ss
whole ss (t ∷ ts) = err (unexpected t.text)

-- `parse`, of the tokens
unfoldable pub parse_tokens_of : List Tok → Result ParseError Stmts
unfolding stmt whole
parse_tokens_of ts = do (ss, rest) ← stmt_list (2 * length ts + 2) false ts; whole ss rest

-- `parse`
unfoldable pub parse : Bytes → Result ParseError Stmts
unfolding parse_tokens_of lex
parse sql = parse_tokens_of (lex sql)

abbrev loop_text : Bytes
loop_text = codes "WHILE @i < 3 BEGIN SET @i = @i + 1; IF @i = 2 BREAK ELSE PRINT 'x' END"

loop_parses :
    parse loop_text
    ≡ ok (
        and_then
          (while (codes "@i < 3") (
            block (
              and_then
                (set (codes "i") (codes "@i + 1"))
                (and_then (if_else (codes "@i = 2") breaks (print (codes "'x'"))) done))))
          done)
unfolding parse
loop_parses = refl

-- A condition and nothing behind it.
lone_if : parse (codes "IF 1 = 1") ≡ panic
unfolding parse
lone_if = refl
