-- ===== src/Procedures/Params/Replace.antt =====
-- internal/extensions/procedures/proc.go: `replaceParam` and `substituteParams` on the names in a body.
use haystak_tds_spi.Base.{
  ℕ, zero, suc, ◌≤◌, ◌≡◌, refl, ap, ◌∙◌, inl, inr, true, false, [], ◌∷◌, ◌++◌, append_assoc, arith,
  ◌==◌, Bool-cases, length, drop, length-append, length-drop, take_append, drop_append, Bytes,
  codes,
}
use haystak_tds_spi.Base.Dict.{bytes_beq_iff, bytes_beq, lookup_two, bytes_eq}
use haystak_tds_spi.Go.Strings.{lower_byte}
use haystak_tds_spi.Control.Cell.{Formats, str}
use haystak_tds_spi.Batch.Declared.{quote}
use haystak_tds_spi.Batch.Substitute.Laws.{NoAt}
use haystak_tds_spi.Procedures.Names.{lit_sql}
use haystak_tds_spi.Batch.Scan.{is_name_part}
use haystak_tds_spi.Batch.Quotes.{NoQuotes, double, replace_all-double}
use haystak_tds_spi.Procedures.Params.{
  Routine, Arg, routine_proc, lower_all, ends_name, name_at, replace_round, replace_param,
  substitute_params, lit_sql,
}

-- a name that begins with `@` stands nowhere in front of another byte
name_at_other :
    (name : Bytes) (c : ℕ) (s : Bytes) → (c == b'@') ≡ false → name_at (b'@' ∷ name) (c ∷ s) ≡ false
unfolding name_at lower_byte
name_at_other name c s h = ground (arith, h)

replace_round-step :
    (name val : Bytes) (fuel c : ℕ) (s : Bytes)
    → (c == b'@') ≡ false
    → replace_round (b'@' ∷ name) val (suc fuel) (c ∷ s)
      ≡ c ∷ replace_round (b'@' ∷ name) val fuel s
unfolding replace_round
replace_round-step name val fuel c s h = rw (replace_round, name_at_other name c s h) refl

name_at_here : (name rest : Bytes) → ends_name rest ≡ true → name_at name (name ++ rest) ≡ true
unfolding name_at
name_at_here name rest h =
    rw (take_append name rest (length name) refl, drop_append name rest (length name) refl)
      (rw ((bytes_beq_iff (lower_all name) (lower_all name)).1 refl) h)

replace_round-here :
    (name val rest : Bytes) (fuel : ℕ)
    → ends_name rest ≡ true
    → replace_round (b'@' ∷ name) val (suc fuel) (b'@' ∷ (name ++ rest))
      ≡ val ++ replace_round (b'@' ∷ name) val fuel rest
unfolding replace_round
replace_round-here name val rest fuel h =
    rw (replace_round, name_at_here (b'@' ∷ name) rest h)
      (ap (λ s. val ++ replace_round (b'@' ∷ name) val fuel s)
        (drop_append name rest (length name) refl))

-- any two fuels that reach the end give the same text
replace_round-fuel :
    (name val : Bytes) (f g : ℕ) (s : Bytes)
    → length s ≤ f
    → length s ≤ g
    → replace_round (b'@' ∷ name) val f s ≡ replace_round (b'@' ∷ name) val g s
unfolding replace_round
replace_round-fuel name val zero zero s h k = refl
replace_round-fuel name val zero (suc g) [] h k = refl
replace_round-fuel name val zero (suc g) (c ∷ s) h k = absurd (omega arith)
replace_round-fuel name val (suc f) zero [] h k = refl
replace_round-fuel name val (suc f) zero (c ∷ s) h k = absurd (omega arith)
replace_round-fuel name val (suc f) (suc g) [] h k = refl
replace_round-fuel name val (suc f) (suc g) (c ∷ s) h k =
    let rest = drop (length name) s in
    let short = length-drop (length name) s in
    elim (Bool-cases (name_at (b'@' ∷ name) (c ∷ s))) [
      | inl here ↦
          rw (replace_round, here)
            (ap (λ t. val ++ t) (replace_round-fuel name val f g rest (omega arith) (omega arith)))
      | inr not_ ↦
          rw (replace_round, not_)
            (ap (λ t. c ∷ t) (replace_round-fuel name val f g s (omega arith) (omega arith)))
    ]

-- `replaceParam` writes the value for a whole name, the first behind a text with no `@`, and goes on
-- behind it.
pub replace_param_first :
    (name val front rest : Bytes)
    → NoAt front
    → ends_name rest ≡ true
    → replace_param (front ++ (b'@' ∷ (name ++ rest))) (b'@' ∷ name) val
      ≡ front ++ (val ++ replace_param rest (b'@' ∷ name) val)
unfolding replace_param
replace_param_first name val [] rest n h =
    let all = length-append name rest in
    replace_round-here name val rest (length (name ++ rest)) h
    ∙ ap (λ t. val ++ t)
        (replace_round-fuel name val (length (name ++ rest)) (length rest) rest (omega arith)
          (omega arith))
replace_param_first name val (c ∷ front) rest n h =
    replace_round-step name val (length (front ++ (b'@' ∷ (name ++ rest)))) c
      (front ++ (b'@' ∷ (name ++ rest))) n.0
    ∙ ap (λ t. c ∷ t) (replace_param_first name val front rest n.1 h)

-- without a name in it a text stays
replace_round-NoAt :
    (name val : Bytes) (fuel : ℕ) (s : Bytes)
    → NoAt s
    → length s ≤ fuel
    → replace_round (b'@' ∷ name) val fuel s ≡ s
unfolding replace_round
replace_round-NoAt name val zero [] n h = refl
replace_round-NoAt name val zero (c ∷ s) n h = absurd (omega arith)
replace_round-NoAt name val (suc fuel) [] n h = refl
replace_round-NoAt name val (suc fuel) (c ∷ s) n h =
    replace_round-step name val fuel c s n.0
    ∙ ap (λ t. c ∷ t) (replace_round-NoAt name val fuel s n.1 (omega arith))

-- the only name in a text is replaced, and nothing else
replace_param_only :
    (name val front rest : Bytes)
    → NoAt front
    → NoAt rest
    → ends_name rest ≡ true
    → replace_param (front ++ (b'@' ∷ (name ++ rest))) (b'@' ∷ name) val ≡ front ++ (val ++ rest)
replace_param_only name val front rest n m h =
    replace_param_first name val front rest n h
    ∙ ap (λ t. front ++ (val ++ t))
        (unfold replace_param in replace_round-NoAt name val (length rest) rest m (omega arith))

-- A routine with two parameters.
abbrev pub two_params : Bytes → Bytes → Bytes → Routine
two_params a b body = record {
  database = codes "db";
  schema = codes "dbo";
  name = codes "p";
  kind = routine_proc;
  body = body;
  params =
      record { name = b'@' ∷ a; typ = codes "nvarchar" }
      ∷ record { name = b'@' ∷ b; typ = codes "nvarchar" }
      ∷ [];
}

abbrev pub arg : {Other : Type 0} → Bytes → Arg Other
arg v = record { name = []; val = str v }

double_free : (s : Bytes) → NoQuotes s → double s ≡ s
double_free [] q = refl
double_free (c ∷ s) q = rw q.0 (ap (λ t. c ∷ t) (double_free s q.1))

-- the literal of a text free of quotes
pub quote_free : (s : Bytes) → NoQuotes s → quote s ≡ b'\'' ∷ (s ++ b'\'' ∷ [])
unfolding quote
quote_free s q = ap (λ t. b'\'' ∷ (t ++ b'\'' ∷ [])) (replace_all-double s ∙ double_free s q)

pub NoAt-quoted : (front : Bytes) → NoAt front → NoAt (front ++ b'\'' ∷ [])
NoAt-quoted [] n = (refl, tt)
NoAt-quoted (c ∷ front) n = (n.0, NoAt-quoted front n.1)

-- the literal of a name, with its quotes on the side of the texts around it
pub literal_between :
    (b front rest : Bytes)
    → NoQuotes b
    → front ++ (quote (b'@' ∷ b) ++ rest) ≡ (front ++ b'\'' ∷ []) ++ (b'@' ∷ (b ++ b'\'' ∷ rest))
literal_between b front rest q =
    rw
      (
        quote_free (b'@' ∷ b) (refl, q),
        append_assoc front (b'\'' ∷ []) (b'@' ∷ (b ++ b'\'' ∷ rest)),
        append_assoc b (b'\'' ∷ []) rest,
      )
      refl

-- the body behind both replacements, the value of each parameter being known
both_replaced :
    (a b v front rest : Bytes)
    → NoAt front
    → NoAt rest
    → ends_name rest ≡ true
    → NoQuotes b
    → replace_param
        (replace_param (front ++ (b'@' ∷ (a ++ rest))) (b'@' ∷ a) (quote (b'@' ∷ b)))
        (b'@' ∷ b)
        (quote v)
      ≡ front ++ (b'\'' ∷ (quote v ++ b'\'' ∷ rest))
both_replaced a b v front rest n m h q =
    ap (λ t. replace_param t (b'@' ∷ b) (quote v))
      (replace_param_only a (quote (b'@' ∷ b)) front rest n m h ∙ literal_between b front rest q)
    ∙ replace_param_only b (quote v) (front ++ b'\'' ∷ []) (b'\'' ∷ rest) (NoAt-quoted front n)
        (refl, m) (unfold ends_name is_name_part in refl)
    ∙ append_assoc front (b'\'' ∷ []) (quote v ++ b'\'' ∷ rest)

-- Where the first of two arguments is the name of the second parameter, the literal of the second,
-- whatever it is, is written into the quotes of the first, and its text stands outside of them. So
-- it is for any two names that differ, the second free of quotes, and any body with the first name
-- in it once, as a whole word, and no other `@`.
pub substitute_params_nested :
    {Other : Type 0} (f : Formats Other) (a b v front rest : Bytes)
    → bytes_beq (lower_all (b'@' ∷ a)) (lower_all (b'@' ∷ b)) ≡ false
    → NoQuotes b
    → NoAt front
    → NoAt rest
    → ends_name rest ≡ true
    → substitute_params f
        (two_params a b (front ++ (b'@' ∷ (a ++ rest))))
        (arg (b'@' ∷ b) ∷ arg v ∷ [])
      ≡ front ++ (b'\'' ∷ (quote v ++ b'\'' ∷ rest))
unfolding substitute_params quote lit_sql
substitute_params_nested f a b v front rest d q n m h =
    let (seen, other) =
      lookup_two (lower_all (b'@' ∷ a)) (lower_all (b'@' ∷ b)) (quote (b'@' ∷ b)) (quote v) d in
    rw (seen, other) (both_replaced a b v front rest n m h q)
