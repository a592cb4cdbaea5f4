-- ===== src/Control/Detect.antt =====
-- internal/extensions/procedures/control/exec.go: `HasControlFlow`.
use haystak_tds_spi.Base.{
  ℕ, ◌+◌, ◌-◌, ◌≡◌, refl, Bool, true, false, not, ◌&&◌, ◌||◌, List, [], ◌∷◌, map, ◌==◌, Bytes,
  codes,
}
use haystak_tds_spi.Base.Dict.{bytes_eq, bytes_beq}
use haystak_tds_spi.Go.Strings.{has_prefix}
use haystak_tds_spi.Control.Lex.{
  Tok, word, paren_l, paren_r, semi, quoted, other, eq_kw, upper, has_member, lex,
}

control_leads : List Bytes
control_leads = map codes (
    "IF" ∷ "WHILE" ∷ "BEGIN" ∷ "RETURN" ∷ "PRINT" ∷ "THROW" ∷ "RAISERROR" ∷ "BREAK" ∷ "CONTINUE"
    ∷ "GOTO" ∷ "WAITFOR" ∷ [])

-- BEGIN TRAN, at BEGIN
is_transaction : List Tok → Bool
unfolding eq_kw
is_transaction [] = false
is_transaction (t ∷ ts) = eq_kw t (codes "TRAN") || eq_kw t (codes "TRANSACTION")

-- `@v =`, behind SELECT
assigns_var : List Tok → Bool
unfolding has_prefix
assigns_var (t ∷ u ∷ ts) = has_prefix t.text (codes "@") && bytes_beq u.text (codes "=")
assigns_var _ = false

-- whether a word before `ts`, outside of parentheses, shows control flow
shows_control : Bool → Tok → List Tok → Bool
unfolding upper has_member control_leads is_transaction assigns_var
shows_control at_start t ts =
    let kw = upper t.text in
    (not (bytes_beq kw (codes "BEGIN") && is_transaction ts) && has_member kw control_leads)
    || (at_start && (bytes_beq kw (codes "SELECT") && assigns_var ts))

-- the loop of `HasControlFlow`
control_from : ℕ → Bool → List Tok → Bool
unfolding shows_control
control_from depth at_start [] = false
control_from depth at_start (t ∷ ts) = elim t.kind [
  | paren_l ↦ control_from (depth + 1) false ts
  | paren_r ↦ control_from (depth - 1) false ts
  | semi ↦ control_from depth (depth == 0 || at_start) ts
  | word ↦ (depth == 0 && shows_control at_start t ts) || control_from depth false ts
  | quoted ↦ control_from depth false ts
  | other ↦ control_from depth false ts
]

-- `HasControlFlow`
unfoldable pub has_control_flow : Bytes → Bool
unfolding control_from lex
has_control_flow sql = control_from 0 true (lex sql)

assigning : has_control_flow (codes "SELECT 1; SELECT @a = 2") ≡ true
unfolding has_control_flow
assigning = refl

transaction : has_control_flow (codes "BEGIN TRAN; SELECT (@a)") ≡ false
unfolding has_control_flow
transaction = refl
