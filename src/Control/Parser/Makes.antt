-- ===== src/Control/Parser/Makes.antt =====
-- internal/extensions/procedures/control/parse.go: what DECLARE, SET and the simple statements are made of.
use haystak_tds_spi.Base.{
  Bool, true, false, Option, none, some, List, [], ◌∷◌, arith, if◌then◌else◌, Bytes,
}
use haystak_tds_spi.Base.Result.{Result, ok, err, panic, no_fuel, ◌>>=◌}
use haystak_tds_spi.Control.Lex.{Tok}
use haystak_tds_spi.Control.Syntax.{Stmt, print, throw, raiserror, returns, breaks, continues}
use haystak_tds_spi.Go.Strings.{trim_space}
use haystak_tds_spi.Control.Text.{top_eq, split_top_commas}
use haystak_tds_spi.Control.Parse.{
  Lead, decl_var, decl_vars, declare_stmt, set_at, set_stmt, ParseError, lead_of, begin_word,
  if_word, while_word, waitfor_word, no_word, simple,
}
use haystak_tds_spi.Control.Parser.Leaves.{Ends}

pub Ends-bind :
    {A B : Type 0} (r : Result ParseError A) (f : A → Result ParseError B)
    → Ends r
    → ((a : A) → Ends (f a))
    → Ends (r >>= f)
Ends-bind (ok a) f h k = k a
Ends-bind (err e) f h k = tt
Ends-bind panic f h k = tt
Ends-bind no_fuel f h k = h

decl_vars-Ends : (parts : List Bytes) → Ends (decl_vars parts)
unfolding decl_vars decl_var
decl_vars-Ends [] = tt
decl_vars-Ends (part ∷ parts) =
    Ends-bind (decl_var (trim_space part)) _ (decl_var-Ends (trim_space part))
      λ v. Ends-bind (decl_vars parts) _ (decl_vars-Ends parts) λ vs. tt
  where
    decl_var-Ends : (part : Bytes) → Ends (decl_var part)
    decl_var-Ends part = ground arith

set_at-Ends : (body : Bytes) (sides : Option (Bytes × Bytes)) → Ends (set_at body sides)
unfolding set_at
set_at-Ends body none = ground arith
set_at-Ends body (some x) = ground arith

set_stmt-Ends : (body : Bytes) → Ends (set_stmt body)
unfolding set_stmt
set_stmt-Ends body = set_at-Ends body (top_eq body)

declare_stmt-Ends : (body : Bytes) → Ends (declare_stmt body)
unfolding declare_stmt
declare_stmt-Ends body =
    Ends-bind (decl_vars (split_top_commas body)) _ (decl_vars-Ends (split_top_commas body))
      λ vs. tt

-- A simple statement is made, or refused with an error.
pub data Makes : Lead → Type 0 where
  makes_begin : Makes begin_word
  makes_if : Makes if_word
  makes_while : Makes while_word
  makes_waitfor : Makes waitfor_word
  makes_none : Makes no_word
  makes :
      {make : Bytes → Result ParseError Stmt}
      → ((body : Bytes) → Ends (make body))
      → Makes (simple make)

if-Makes : (b : Bool) (x y : Lead) → Makes x → Makes y → Makes (if b then x else y)
if-Makes true x y h k = h
if-Makes false x y h k = k

kept : (make : Bytes → Stmt) → Makes (simple (λ body. ok (make body)))
kept make = makes (λ body. tt)

pub lead_of-Makes : (t : Tok) → Makes (lead_of t)
unfolding lead_of
lead_of-Makes t = if-Makes _ _ _ makes_begin (
    if-Makes _ _ _ makes_if (
      if-Makes _ _ _ makes_while (
        if-Makes _ _ _ (makes declare_stmt-Ends) (
          if-Makes _ _ _ (makes set_stmt-Ends) (
            if-Makes _ _ _ (kept print) (
              if-Makes _ _ _ (kept throw) (
                if-Makes _ _ _ (kept raiserror) (
                  if-Makes _ _ _ (kept (λ body. returns)) (
                    if-Makes _ _ _ (kept (λ body. breaks)) (
                      if-Makes _ _ _ (kept (λ body. continues))
                        (if-Makes _ _ _ makes_waitfor makes_none)))))))))))
