-- ===== src/Control/Parser/Leaves.antt =====
-- internal/extensions/procedures/control/parse.go: how many tokens the reading of texts leaves.
use haystak_tds_spi.Base.{
  ℕ, suc, ◌≤◌, Bool, true, false, List, [], ◌∷◌, arith, if◌then◌else◌, length, Bytes,
}
use haystak_tds_spi.Base.Result.{Result, ok, err, panic, no_fuel, ◌>>=◌}
use haystak_tds_spi.Control.Lex.{Tok}
use haystak_tds_spi.Control.Parse.{
  also, raw_lead, raw_saw, ParseError, Parse, skip_semis, boundary_word, nest, is_semi, read_bound,
  read_text, raw_loop, raw_stmt,
}

-- The call ends: with a value, an error or a panic.
abbrev pub Ends {ℓ} : {A : Type ℓ} → Result ParseError A → Type 0
Ends no_fuel = ⊥
Ends _ = Unit

-- It ends, and what it leaves is at most so many tokens.
abbrev pub Leaves : {A : Type 0} → ℕ → Parse A → Type 0
Leaves n (ok a) = length a.1 ≤ n
Leaves n no_fuel = ⊥
Leaves n _ = Unit

pub Leaves-bind :
    {A B : Type 0} (n m : ℕ) (r : Parse A) (f : A × List Tok → Parse B)
    → Leaves n r
    → ((a : A × List Tok) → length a.1 ≤ n → Leaves m (f a))
    → Leaves m (r >>= f)
Leaves-bind n m (ok a) f h k = k a h
Leaves-bind n m (err e) f h k = tt
Leaves-bind n m panic f h k = tt
Leaves-bind n m no_fuel f h k = h

pub Leaves-le : {A : Type 0} (n m : ℕ) (r : Parse A) → n ≤ m → Leaves n r → Leaves m r
Leaves-le n m (ok a) le h = omega arith
Leaves-le n m (err e) le h = tt
Leaves-le n m panic le h = tt
Leaves-le n m no_fuel le h = h

-- The same where the call gives the tokens alone.
abbrev pub LeavesToks : ℕ → Result ParseError (List Tok) → Type 0
LeavesToks n (ok ts) = length ts ≤ n
LeavesToks n no_fuel = ⊥
LeavesToks n _ = Unit

pub LeavesToks-bind :
    {B : Type 0} (n m : ℕ) (r : Result ParseError (List Tok)) (f : List Tok → Parse B)
    → LeavesToks n r
    → ((ts : List Tok) → length ts ≤ n → Leaves m (f ts))
    → Leaves m (r >>= f)
LeavesToks-bind n m (ok ts) f h k = k ts h
LeavesToks-bind n m (err e) f h k = tt
LeavesToks-bind n m panic f h k = tt
LeavesToks-bind n m no_fuel f h k = h

pub skip_semis_short : (ts : List Tok) → length (skip_semis ts) ≤ length ts
unfolding skip_semis
skip_semis_short [] = omega arith
skip_semis_short (t ∷ ts) = ground (arith, skip_semis_short ts)

pub read_bound_short : (d c : ℕ) (ts : List Tok) → length (read_bound d c ts).1 ≤ length ts
unfolding read_bound
read_bound_short d c [] = omega arith
read_bound_short d c (t ∷ ts) =
    ground (arith, read_bound_short (nest t.kind d) (boundary_word t (nest t.kind d) c).1 ts)

pub read_text_short : (ts : List Tok) → length (read_text ts).1 ≤ length ts
unfolding read_text
read_text_short ts = read_bound_short 0 0 ts

pub if_short :
    (n : ℕ) (b : Bool) (x y : List Tok × List Tok)
    → length x.1 ≤ n
    → length y.1 ≤ n
    → length (if b then x else y).1 ≤ n
if_short n true x y h k = h
if_short n false x y h k = k

pub later :
    (t : Tok) (n : ℕ) (x : List Tok × List Tok) → length x.1 ≤ n → length (also t x).1 ≤ suc n
later t n x h = omega arith

pub raw_loop_short :
    (first : Bool) (lead : Bytes) (saw : Bool) (d c : ℕ) (ts : List Tok)
    → length (raw_loop first lead saw d c ts).1 ≤ length ts
unfolding raw_loop
raw_loop_short first lead saw d c [] = omega arith
raw_loop_short first lead saw d c (t ∷ ts) =
    let lead' = raw_lead first lead t in
    let saw' = raw_saw lead' saw t in
    let c' = (boundary_word t (nest t.kind d) c).1 in
    if_short (suc (length ts)) (is_semi t.kind) ([], ts) _ (omega arith)
      (if_short (suc (length ts)) _ ([], t ∷ ts) _ (omega arith)
        (later t (length ts) (raw_loop false lead' saw' (nest t.kind d) c' ts)
          (raw_loop_short false lead' saw' (nest t.kind d) c' ts)))

pub raw_stmt_short : (t : Tok) (ts : List Tok) → length (raw_stmt (t ∷ ts)).1 ≤ length ts
unfolding raw_stmt raw_loop
raw_stmt_short t ts =
    let lead = raw_lead true [] t in
    if_short (length ts) (is_semi t.kind) ([], ts) _ (omega arith)
      (raw_loop_short false lead (raw_saw lead false t) (nest t.kind 0)
        (boundary_word t (nest t.kind 0) 0).1 ts)
