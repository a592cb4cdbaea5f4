-- ===== src/Batch/Cut/Ends.antt =====
-- internal/extensions/batch/boundary.go: `cutStatements` ends.
use haystak_tds_spi.Base.{
  ℕ, zero, suc, ◌≤◌, Bool, true, false, Option, none, some, List, [], ◌∷◌, arith, length, Bytes,
  All,
}
use haystak_tds_spi.Base.Result.{ok, Returns, Returns-bind}
use haystak_tds_spi.Go.Strings.{trim_space, trim_left, trim_right, is_space}
use haystak_tds_spi.Batch.Scan.{skip_comment, is_blank}
use haystak_tds_spi.Batch.Rounds.{Next, rounds, rounds_induct, enough}
use haystak_tds_spi.Batch.Passes.{or_skipped, passed-short, Passes, skip_comment-Passes}
use haystak_tds_spi.Batch.Boundary.{
  Word, round_at, listed, words_round, round_at-Fine, Fine, Fine-short, Within, no_word, one_word,
  words, Verdict, ends_at, ends_after, takes_all, goes,
}
use haystak_tds_spi.Batch.Cut.{
  verdict, decide, end_from, end_of, statement_end, trim_round, trim_leading_comments, cut_one,
  cut_round, cut_statements, upper,
}

All-Within : (m n : ℕ) (ws : List Word) → m ≤ n → All (Within m) ws → All (Within n) ws
All-Within m n [] le h = tt
All-Within m n (w ∷ ws) le h = ((omega (arith, h.0), omega (arith, h.0)), All-Within m n ws le h.1)

-- the words behind the first stand behind the first byte
abbrev Tail : ℕ → List Word → Type 0
Tail n [] = Unit
Tail zero (w ∷ ws) = ⊥
Tail (suc n) (w ∷ ws) = All (Within n) ws

Tail-le : (m n : ℕ) (ws : List Word) → m ≤ n → Tail m ws → Tail n ws
Tail-le m n [] le h = tt
Tail-le zero n (w ∷ ws) le h = absurd h
Tail-le (suc m) zero (w ∷ ws) le h = absurd (omega arith)
Tail-le (suc m) (suc n) (w ∷ ws) le h = All-Within m n ws (omega arith) h

-- where the words stand
abbrev Placed : ℕ → List Word → Type 0
Placed n ws = All (Within n) ws × Tail n ws

listed-Placed :
    (n : ℕ) (x : Option Word × ℕ × Bytes) (ws : List Word)
    → Fine n x
    → Placed (length x.2) ws
    → Placed (suc n) (listed x.0 ws)
unfolding listed
listed-Placed n (none, d, r) ws (no_word h) (all, tail) = (
  All-Within (length r) (suc n) ws (omega arith) all,
  Tail-le (length r) (suc n) ws (omega arith) tail,
)
listed-Placed n (some w, d, r) ws (one_word a b h) (all, tail) = (
  ((a, omega arith), All-Within (length r) (suc n) ws (omega arith) all),
  All-Within (length r) n ws h all,
)

words-Placed : (s : Bytes) → Placed (length s) (words s)
unfolding words words_round
words-Placed s =
    rounds_induct words_round (λ depth. []) (λ s ws. (depth : ℕ) → Placed (length s) (ws depth))
      (λ depth. (tt, tt))
      (λ c s next more depth.
        let x = round_at depth c s in
        let short = Fine-short (length s) x (round_at-Fine depth c s) in
        listed-Placed (length s) x (next x.2 short x.1) (round_at-Fine depth c s)
          (more x.2 short x.1))
      s 0

decide_short :
    (n : ℕ) (w : Word) (next : Bytes → Bool → Bool → Bytes) (v : Verdict)
    → Within n w
    → ((l : Bytes) (b o : Bool) → length (next l b o) ≤ n)
    → length (decide w next v) ≤ n
unfolding decide
decide_short n w next ends_at h k = h.0
decide_short n w next ends_after h k = h.1
decide_short n w next takes_all h k = omega arith
decide_short n w next (goes l b o) h k = k l b o

end_from_short :
    (n : ℕ) (prev : Word) (ws : List Word) (lead : Bytes) (values own_set : Bool)
    → All (Within n) ws
    → length (end_from prev ws lead values own_set) ≤ n
unfolding end_from
end_from_short n prev [] lead values own_set h = omega arith
end_from_short n prev (w ∷ ws) lead values own_set h =
    decide_short n w (end_from w ws) (verdict prev w ws lead values own_set) h.0
      λ l b o. end_from_short n w ws l b o h.1

statement_end_short : (c : ℕ) (s : Bytes) → length (statement_end (c ∷ s)) ≤ length s
unfolding statement_end end_of
statement_end_short c s = end_of_short (words (c ∷ s)) (words-Placed (c ∷ s)).1
  where
    end_of_short : (ws : List Word) → Tail (suc (length s)) ws → length (end_of ws) ≤ length s
    end_of_short [] h = omega arith
    end_of_short (w ∷ ws) h = end_from_short (length s) w ws (upper w.text) false false h

trim_left_short : (p : ℕ → Bool) (s : Bytes) → length (trim_left p s) ≤ length s
unfolding trim_left
trim_left_short p [] = omega arith
trim_left_short p (c ∷ s) = ground (arith, trim_left_short p s)

trim_right_short : (p : ℕ → Bool) (s : Bytes) → length (trim_right p s) ≤ length s
unfolding trim_right
trim_right_short p [] = omega arith
trim_right_short p (c ∷ s) = ground (arith, trim_right_short p s)

trim_space_short : (s : Bytes) → length (trim_space s) ≤ length s
unfolding trim_space
trim_space_short s =
    omega (arith, trim_left_short is_space (trim_right is_space s), trim_right_short is_space s)

trim_round_short : (s : Bytes) → length (rounds trim_round [] s) ≤ length s
unfolding trim_round
trim_round_short =
    rounds_induct trim_round [] (λ s t. length t ≤ length s) (omega arith)
      λ c s next more.
        either c s next more (is_blank c) (skip_comment c s) (skip_comment-Passes c s)
  where
    either :
        (c : ℕ) (s : Bytes) (next : Next Bytes (length s))
        → ((r : Bytes) (short : length r ≤ length s) → length (next r short) ≤ length r)
        → (b : Bool) (x : Option (Bytes × Bytes)) (p : Passes c s x)
        → length (elim b as (λ _. Bytes) [
          | true ↦ next s (enough (length s))
          | false ↦ or_skipped c s x p (λ t r short. next r short) (c ∷ s)
        ])
          ≤ suc (length s)
    either c s next more true x p = omega (arith, more s (enough (length s)))
    either c s next more false none p = omega arith
    either c s next more false (some (t, r)) p =
        let short = passed-short c s t r p in omega (arith, more r short)

trim_leading_comments_short : (s : Bytes) → length (trim_leading_comments s) ≤ length s
unfolding trim_leading_comments
trim_leading_comments_short s =
    omega (arith, trim_space_short (rounds trim_round [] s), trim_round_short s)

cut_round-Returns : (fuel : ℕ) (s : Bytes) → length s ≤ fuel → Returns (cut_round fuel s)
unfolding cut_round
cut_round-Returns fuel [] h = tt
cut_round-Returns zero (c ∷ s) h = absurd (omega arith)
cut_round-Returns (suc fuel) (c ∷ s) h =
    let rest = trim_leading_comments (statement_end (c ∷ s)) in
    Returns-bind (cut_round fuel rest) (λ more. ok (cut_one (c ∷ s) (statement_end (c ∷ s)) more))
      (cut_round-Returns fuel rest (
        omega
          (arith, trim_leading_comments_short (statement_end (c ∷ s)), statement_end_short c s)))
      λ more e. tt

-- `cutStatements` ends on every text: each statement that it cuts off has a byte at least.
pub cut_statements-Returns : (s : Bytes) → Returns (cut_statements s)
unfolding cut_statements
cut_statements-Returns s =
    cut_round-Returns (length s) (trim_leading_comments s) (trim_leading_comments_short s)
