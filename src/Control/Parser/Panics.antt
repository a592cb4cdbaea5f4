-- ===== src/Control/Parser/Panics.antt =====
-- internal/extensions/procedures/control/parse.go: `stmt` at the end of the tokens.
use haystak_tds_spi.Base.{
  ℕ, suc, ◌+◌, ◌*◌, ◌≡◌, refl, sym, ap, subst, ◌⊎◌, inl, inr, false, List, [], ◌∷◌, arith, length,
  Bytes, codes,
}
use haystak_tds_spi.Base.Result.{panic, ◌>>=◌}
use haystak_tds_spi.Control.Lex.{Tok, word, tok}
use haystak_tds_spi.Control.Parse.{skip_semis, read_text, lead_of}
use haystak_tds_spi.Control.Parser.{
  stmt, stmt_list, stmt_at, by_lead, if_stmt, while_stmt, list_at, parse_tokens_of, whole,
}

module _ (k : ℕ) (cond : List Tok) (ends : (read_text cond).1 ≡ []) where
  if_panics : stmt_list (suc (suc (suc k))) false (tok word (codes "IF") ∷ cond) ≡ panic
  unfolding stmt_list stmt skip_semis list_at stmt_at by_lead if_stmt lead_of
  if_panics = rw ends refl

  while_panics : stmt_list (suc (suc (suc k))) false (tok word (codes "WHILE") ∷ cond) ≡ panic
  unfolding stmt_list stmt skip_semis list_at stmt_at by_lead while_stmt lead_of
  while_panics = rw ends refl

list_panics :
    (k : ℕ) (kw : Bytes) (cond : List Tok)
    → (kw ≡ codes "IF") ⊎ (kw ≡ codes "WHILE")
    → (read_text cond).1 ≡ []
    → stmt_list (suc (suc (suc k))) false (tok word kw ∷ cond) ≡ panic
list_panics k kw cond (inl e) h =
    subst (λ w. stmt_list (suc (suc (suc k))) false (tok word w ∷ cond) ≡ panic) (sym e)
      (if_panics k cond h)
list_panics k kw cond (inr e) h =
    subst (λ w. stmt_list (suc (suc (suc k))) false (tok word w ∷ cond) ≡ panic) (sym e)
      (while_panics k cond h)

-- A batch that is IF or WHILE and a condition, with no statement behind it, makes the parser panic:
-- it reads a token past the last one.
pub parse_tokens_of_panics :
    (kw : Bytes) (cond : List Tok)
    → (kw ≡ codes "IF") ⊎ (kw ≡ codes "WHILE")
    → (read_text cond).1 ≡ []
    → parse_tokens_of (tok word kw ∷ cond) ≡ panic
unfolding parse_tokens_of
parse_tokens_of_panics kw cond is_ h =
    let fuel : suc (suc (suc (2 * length cond + 1))) ≡ 2 * suc (length cond) + 2 = omega arith in
    ap (λ r. r >>= λ x. whole x.0 x.1)
      (subst (λ n. stmt_list n false (tok word kw ∷ cond) ≡ panic) fuel
        (list_panics (2 * length cond + 1) kw cond is_ h))
