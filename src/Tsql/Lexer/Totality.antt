-- ===== src/Tsql/Lexer/Totality.antt =====
-- internal/tsql/lexer.go: what each round of `lex` leaves of the text.
use haystak_tds_spi.Base.{
  ℕ, zero, suc, ◌+◌, ◌-◌, ◌≤◌, ◌<◌, ◌≡◌, refl, inl, inr, Bool, true, false, ◌&&◌, ◌||◌, Option,
  none, some, List, [], ◌∷◌, arith, ◌==◌, if◌then◌else◌, Bool-cases, Option-cases, length, take,
  drop, length-drop, Bytes,
}
use haystak_tds_spi.Base.Result.{Result, ok, err, panic, no_fuel, Returns, Yields, Returns-bind}
use native.Mathlib.Nat.{le_refl}
use haystak_tds_spi.Tsql.Lexer.{
  LexToken, LexError, Round, TokKind, closed, run_of, number, comparison, punctuation, words, scan,
  next_round, lex_loop, lex, next_is, t_string, t_number, unterminated_string, t_ident,
  unterminated_bracket, unterminated_quote, word_kind,
}
use haystak_tds_spi.Tsql.Lexer.Scan.{
  is_digit, is_hex_digit, is_ident_start, is_ident_part, skip_line, skip_block, scan_string,
  scan_to, span, prepend,
}

-- A round that leaves no more than so many bytes.
abbrev Leaves : ℕ → Round → Type 0
Leaves n r = Yields (λ (x : Option LexToken × Bytes). length x.1 ≤ n) r

abbrev Short : ℕ → Option (Bytes × Bytes) → Type 0
Short n none = Unit
Short n (some x) = length x.1 ≤ n

skip_line_short : (s : Bytes) → length (skip_line s) ≤ length s
unfolding skip_line
skip_line_short [] = omega arith
skip_line_short (c ∷ s) = ground (arith, skip_line_short s)

skip_block_short : (depth : ℕ) (s : Bytes) → length (skip_block depth s) ≤ length s
unfolding skip_block
skip_block_short depth [] = omega arith
skip_block_short depth (c ∷ []) = omega arith
skip_block_short depth (c ∷ d ∷ s) = ground (
  arith,
  skip_block_short (depth + 1) s,
  skip_block_short (depth - 1) s,
  skip_block_short depth (d ∷ s),
)

prepend-Short : (n c : ℕ) (o : Option (Bytes × Bytes)) → Short n o → Short (suc n) (prepend c o)
unfolding prepend
prepend-Short n c none h = tt
prepend-Short n c (some x) h = omega arith

scan_to-Short : (close : ℕ) (s : Bytes) → Short (length s) (scan_to close s)
unfolding scan_to
scan_to-Short close [] = tt
scan_to-Short close (c ∷ s) = elim (Bool-cases (c == close)) [
  | inl here ↦ rw here (omega arith)
  | inr later ↦ rw later (prepend-Short (length s) c (scan_to close s) (scan_to-Short close s))
]

scan_string-Short : (s : Bytes) → Short (length s) (scan_string s)
unfolding scan_string
scan_string-Short [] = tt
scan_string-Short (c ∷ []) = elim (Bool-cases (c == b'\'')) [
  | inl quote ↦ rw (quote, scan_string) (omega arith)
  | inr plain ↦ rw (plain, scan_string) tt
]
scan_string-Short (c ∷ d ∷ s) = elim (Bool-cases (c == b'\'')) [
  | inl quote ↦ elim (Bool-cases (d == b'\'')) [
    | inl again ↦
        rw (quote, again, scan_string)
          (weaker (prepend b'\'' (scan_string s))
            (prepend-Short (length s) b'\'' (scan_string s) (scan_string-Short s)))
    | inr other ↦ rw (quote, other, scan_string) (omega arith)
  ]
  | inr plain ↦
      rw (plain, scan_string)
        (prepend-Short (suc (length s)) c (scan_string (d ∷ s)) (scan_string-Short (d ∷ s)))
]
  where
    weaker :
        (o : Option (Bytes × Bytes)) → Short (suc (length s)) o → Short (suc (suc (length s))) o
    weaker none h = tt
    weaker (some x) h = omega arith

span_short : (p : ℕ → Bool) (s : Bytes) → length (span p s).1 ≤ length s
unfolding span
span_short p [] = omega arith
span_short p (c ∷ s) = ground (arith, span_short p s)

closed-Leaves :
    (n : ℕ) (kind : TokKind) (bad : LexError) (o : Option (Bytes × Bytes))
    → Short n o
    → Leaves n (closed kind bad o)
unfolding closed
closed-Leaves n kind bad none h = tt
closed-Leaves n kind bad (some x) h = h

run_of-Leaves :
    (n : ℕ) (kind : Bytes → TokKind) (lead : Bytes) (x : Bytes × Bytes)
    → length x.1 ≤ n
    → Leaves n (run_of kind lead x)
unfolding run_of
run_of-Leaves n kind lead x h = h

span_next : (p : ℕ → Bool) (c : ℕ) (s : Bytes) → p c ≡ true → length (span p (c ∷ s)).1 ≤ length s
unfolding span
span_next p c s h = rw h (span_short p s)

drop_short : (n : ℕ) (s : Bytes) → length (drop n s) ≤ length s
drop_short n s = omega (arith, length-drop n s)

number-Leaves : (c : ℕ) (s : Bytes) → is_digit c ≡ true → Leaves (length s) (number c s)
unfolding number
number-Leaves c s h = elim (Bool-cases (c == b'0' && (next_is b'x' s || next_is b'X' s))) [
  | inl hex ↦ rw hex (
      run_of-Leaves (length s) (λ w. t_number) (c ∷ take 1 s) (span is_hex_digit (drop 1 s))
        (omega (arith, span_short is_hex_digit (drop 1 s), drop_short 1 s)))
  | inr plain ↦ rw plain (
      run_of-Leaves (length s) (λ w. t_number) []
        (span (λ (d : ℕ). is_digit d || d == b'.') (c ∷ s))
        (span_next (λ (d : ℕ). is_digit d || d == b'.') c s (rw h refl)))
]

comparison-Leaves : (c : ℕ) (s : Bytes) → Leaves (length s) (comparison c s)
unfolding comparison
comparison-Leaves c s = ground (arith, drop_short 1 s)

if-Leaves :
    (n : ℕ) (b : Bool) (x y : Round)
    → (b ≡ true → Leaves n x)
    → (b ≡ false → Leaves n y)
    → Leaves n (if b then x else y)
if-Leaves n true x y h k = h refl
if-Leaves n false x y h k = k refl

words-Leaves : (c : ℕ) (s : Bytes) → Leaves (length s) (words c s)
unfolding words
words-Leaves c s =
    if-Leaves (length s) (c == b'<' || c == b'>') _ _ (λ _. comparison-Leaves c s)
      λ _.
        if-Leaves (length s) (c == b'\'') _ _
          (λ _.
            closed-Leaves (length s) t_string unterminated_string (scan_string s)
              (scan_string-Short s))
          λ _.
            if-Leaves (length s) ((c == b'N' || c == b'n') && next_is b'\'' s) _ _
              (λ _.
                closed-Leaves (length s) t_string unterminated_string (scan_string (drop 1 s))
                  (shorter (scan_string (drop 1 s)) (scan_string-Short (drop 1 s))))
              λ _.
                if-Leaves (length s) (c == b'[') _ _
                  (λ _.
                    closed-Leaves (length s) t_ident unterminated_bracket (scan_to b']' s)
                      (scan_to-Short b']' s))
                  λ _.
                    if-Leaves (length s) (c == b'"') _ _
                      (λ _.
                        closed-Leaves (length s) t_ident unterminated_quote (scan_to b'"' s)
                          (scan_to-Short b'"' s))
                      λ _.
                        if-Leaves (length s) (c == b'@') _ _
                          (λ _.
                            run_of-Leaves (length s) (λ w. t_ident) (c ∷ [])
                              (span (λ (d : ℕ). d == b'@' || is_ident_part d) s)
                              (span_short (λ (d : ℕ). d == b'@' || is_ident_part d) s))
                          λ _.
                            if-Leaves (length s) (is_digit c) _ _ (λ h. number-Leaves c s h)
                              λ _.
                                if-Leaves (length s) (is_ident_start c) _ _
                                  (λ i.
                                    run_of-Leaves (length s) word_kind []
                                      (span is_ident_part (c ∷ s))
                                      (span_next is_ident_part c s
                                        (unfold is_ident_part in rw i refl)))
                                  λ _. tt
  where
    shorter : (o : Option (Bytes × Bytes)) → Short (length (drop 1 s)) o → Short (length s) o
    shorter none h = tt
    shorter (some x) h = omega (arith, drop_short 1 s)

scan-Leaves : (c : ℕ) (s : Bytes) → Leaves (length s) (scan c s)
unfolding scan
scan-Leaves c s =
    if-Leaves (length s) (c == b' ' || (c == 9 || (c == 10 || c == 13))) _ _
      (λ _. le_refl (length s))
      λ _.
        if-Leaves (length s) (c == b'-' && next_is b'-' s) _ _ (λ _. skip_line_short s)
          λ _.
            if-Leaves (length s) (c == b'/' && next_is b'*' s) _ _
              (λ _. omega (arith, skip_block_short 1 (drop 1 s), drop_short 1 s))
              λ _. (elim (Option-cases (punctuation c)) [
                | inl other ↦ rw other (words-Leaves c s)
                | inr (kind, e) ↦ rw e (le_refl (length s))
              ])

next_round-Returns :
    (n : ℕ) (more : Bytes → Result LexError (List LexToken)) (r : Round)
    → Leaves n r
    → ((rest : Bytes) → length rest ≤ n → Returns (more rest))
    → Returns (next_round more r)
unfolding next_round
next_round-Returns n more (ok (tok, rest)) h k = Returns-bind (more rest) _ (k rest h) λ toks e. tt
next_round-Returns n more (err e) h k = tt
next_round-Returns n more panic h k = h
next_round-Returns n more no_fuel h k = h

lex_loop-Returns : (fuel : ℕ) (s : Bytes) → length s < fuel → Returns (lex_loop fuel s)
unfolding lex_loop
lex_loop-Returns zero s h = absurd (omega arith)
lex_loop-Returns (suc fuel) [] h = tt
lex_loop-Returns (suc fuel) (c ∷ s) h =
    next_round-Returns (length s) (lex_loop fuel) (scan c s) (scan-Leaves c s)
      λ rest le. lex_loop-Returns fuel rest (omega arith)

-- `lex` comes back on every text, with tokens or with an error.
pub lex-Returns : (s : Bytes) → Returns (lex s)
unfolding lex
lex-Returns s = lex_loop-Returns (suc (length s)) s (omega arith)
