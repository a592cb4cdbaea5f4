-- ===== src/Control/Parse.antt =====
-- internal/extensions/procedures/control/parse.go: the parser. The position in the tokens is the list
-- of tokens from it on; `peek` past the end panics.
use haystak_tds_spi.Base.{
  ℕ, ◌+◌, ◌-◌, Bool, true, false, not, ◌&&◌, ◌||◌, Option, none, some, List, [], ◌∷◌, ◌++◌, map,
  ltb, ◌==◌, if◌then◌else◌, length, drop, Bytes, codes,
}
use haystak_tds_spi.Base.Result.{Result, ok, err, ◌>>=◌}
use haystak_tds_spi.Go.Strings.{trim_space, has_prefix, lower_byte}
use haystak_tds_spi.Base.Dict.{bytes_beq}
use haystak_tds_spi.Control.Lex.{
  Kind, Tok, semi, paren_l, paren_r, is_word, eq_kw, upper, is_stmt_keyword,
}
use haystak_tds_spi.Control.Text.{top_eq, split_top_commas, first_word}
use haystak_tds_spi.Control.Syntax.{
  DeclVar, Stmt, raw, declare, set, print, returns, breaks, continues, throw, raiserror,
}

pub data ParseError : Type 0 where
  unexpected : Bytes → ParseError
  expected_end : ParseError
  expected_end_kw : Bytes → ParseError
  expected_begin_catch : ParseError
  declare_expects : Bytes → ParseError
  set_expects : Bytes → ParseError

-- What a method of the parser gives, with the tokens that are left.
abbrev pub Parse {ℓ} : Type ℓ → Type ℓ
Parse A = Result ParseError (A × List Tok)

abbrev pub is_semi : Kind → Bool
is_semi semi = true
is_semi _ = false

-- `skipSemis`
unfoldable pub skip_semis : List Tok → List Tok
skip_semis [] = []
skip_semis (t ∷ ts) = let rest = skip_semis ts in if is_semi t.kind then rest else t ∷ ts

-- the parentheses of a token
abbrev pub nest : Kind → ℕ → ℕ
nest paren_l depth = depth + 1
nest paren_r depth = depth - 1
nest _ depth = depth

-- `boundaryWord`: whether the token is a boundary, and `caseDepth` behind it
unfoldable pub boundary_word : Tok → ℕ → ℕ → Bool × ℕ
unfolding eq_kw is_stmt_keyword
boundary_word t depth case_depth =
    if not (is_word t.kind)
    then (false, case_depth)
    else if eq_kw t (codes "CASE")
    then (false, case_depth + 1)
    else if eq_kw t (codes "END") && ltb 0 case_depth
    then (false, case_depth - 1)
    else (depth == 0 && case_depth == 0 && is_stmt_keyword t, case_depth)

abbrev pub also : Tok → List Tok × List Tok → List Tok × List Tok
also t (ts, rest) = (t ∷ ts, rest)

-- the loop of `readCond`, and of `readToStmtBound`: the tokens of the statement, and those behind it
unfoldable pub read_bound : ℕ → ℕ → List Tok → List Tok × List Tok
unfolding boundary_word
read_bound depth case_depth [] = ([], [])
read_bound depth case_depth (t ∷ ts) =
    let depth' = nest t.kind depth in
    let b = boundary_word t depth' case_depth in
    let more = also t (read_bound depth' b.1 ts) in
    if is_semi t.kind then ([], ts) else if b.0 then ([], t ∷ ts) else more

-- `render`
unfoldable pub render : List Tok → Bytes
render [] = []
render (t ∷ []) = t.text
render (t ∷ u ∷ ts) = t.text ++ (b' ' ∷ render (u ∷ ts))

-- `readCond` and `readToStmtBound`
unfoldable pub read_text : List Tok → Bytes × List Tok
unfolding read_bound render
read_text ts = let (these, rest) = read_bound 0 0 ts in (render these, rest)

-- `lead` and `sawValues` of `rawStmt` at a token
unfoldable pub raw_lead : Bool → Bytes → Tok → Bytes
unfolding upper
raw_lead first lead t = if first && is_word t.kind then upper t.text else lead

unfoldable pub raw_saw : Bytes → Bool → Tok → Bool
unfolding eq_kw
raw_saw lead saw_values t =
    saw_values || (bytes_beq lead (codes "INSERT") && eq_kw t (codes "VALUES"))

-- INSERT goes on with SELECT or EXEC, unless VALUES came before
unfoldable pub insert_goes_on : Bytes → Bool → Tok → Bool
unfolding eq_kw
insert_goes_on lead saw_values t =
    bytes_beq lead (codes "INSERT")
    && (not saw_values
        && (eq_kw t (codes "SELECT") || (eq_kw t (codes "EXEC") || eq_kw t (codes "EXECUTE"))))

-- the loop of `rawStmt`
unfoldable pub raw_loop : Bool → Bytes → Bool → ℕ → ℕ → List Tok → List Tok × List Tok
unfolding boundary_word raw_lead raw_saw insert_goes_on
raw_loop first lead saw_values depth case_depth [] = ([], [])
raw_loop first lead saw_values depth case_depth (t ∷ ts) =
    let depth' = nest t.kind depth in
    let b = boundary_word t depth' case_depth in
    let lead' = raw_lead first lead t in
    let saw' = raw_saw lead' saw_values t in
    let more = also t (raw_loop false lead' saw' depth' b.1 ts) in
    if is_semi t.kind
    then ([], ts)
    else if not first && (b.0 && not (insert_goes_on lead' saw' t))
    then ([], t ∷ ts)
    else more

-- `rawStmt`
unfoldable pub raw_stmt : List Tok → Stmt × List Tok
unfolding raw_loop render
raw_stmt ts = let (these, rest) = raw_loop true [] false 0 0 ts in (raw (render these), rest)

abbrev pub lower : Bytes → Bytes
lower w = map lower_byte w

-- strings.TrimPrefix(name, "@")
abbrev pub without_at : Bytes → Bytes
without_at s = if has_prefix s (codes "@") then drop 1 s else s

-- one part of a DECLARE, trimmed
unfoldable pub decl_var : Bytes → Result ParseError DeclVar
unfolding first_word has_prefix lower_byte top_eq trim_space
decl_var part =
    let name = first_word part in
    let rest = trim_space (drop (length name) part) in
    if not (has_prefix name (codes "@"))
    then err (declare_expects part)
    else ok (elim (top_eq rest) [
      | none ↦ record { name = lower (without_at name); typ = rest; init = [] }
      | some (l, r) ↦ record {
        name = lower (without_at name);
        typ = trim_space l;
        init = trim_space r;
      }
    ])

unfoldable pub decl_vars : List Bytes → Result ParseError (List DeclVar)
unfolding decl_var trim_space
decl_vars [] = ok []
decl_vars (part ∷ parts) = do v ← decl_var (trim_space part); vs ← decl_vars parts; ok (v ∷ vs)

-- `setStmt`, of the text behind SET and its sides of the `=`
unfoldable pub set_at : Bytes → Option (Bytes × Bytes) → Result ParseError Stmt
unfolding trim_space has_prefix lower_byte
set_at body none =
    if has_prefix (trim_space body) (codes "@")
    then err (set_expects (trim_space body))
    else ok (raw (codes "SET " ++ body))
set_at body (some (l, r)) =
    if has_prefix (trim_space l) (codes "@")
    then ok (set (lower (without_at (trim_space l))) (trim_space r))
    else ok (raw (codes "SET " ++ body))

unfoldable pub set_stmt : Bytes → Result ParseError Stmt
unfolding top_eq set_at
set_stmt body = set_at body (top_eq body)

-- the leading words that `stmt` tells apart; a simple statement is a word and the text behind it
pub data Lead : Type 0 where
  begin_word if_word while_word waitfor_word no_word : Lead
  simple : (Bytes → Result ParseError Stmt) → Lead

unfoldable pub declare_stmt : Bytes → Result ParseError Stmt
unfolding decl_vars split_top_commas
declare_stmt body = do vars ← decl_vars (split_top_commas body); ok (declare vars)

unfoldable pub lead_of : Tok → Lead
unfolding eq_kw declare_stmt set_stmt
lead_of t =
    if eq_kw t (codes "BEGIN")
    then begin_word
    else if eq_kw t (codes "IF")
    then if_word
    else if eq_kw t (codes "WHILE")
    then while_word
    else if eq_kw t (codes "DECLARE")
    then simple declare_stmt
    else if eq_kw t (codes "SET")
    then simple set_stmt
    else if eq_kw t (codes "PRINT")
    then simple (λ body. ok (print body))
    else if eq_kw t (codes "THROW")
    then simple (λ body. ok (throw body))
    else if eq_kw t (codes "RAISERROR")
    then simple (λ body. ok (raiserror body))
    else if eq_kw t (codes "RETURN")
    then simple (λ body. ok returns)
    else if eq_kw t (codes "BREAK")
    then simple (λ body. ok breaks)
    else if eq_kw t (codes "CONTINUE")
    then simple (λ body. ok continues)
    else if eq_kw t (codes "WAITFOR")
    then waitfor_word
    else no_word
