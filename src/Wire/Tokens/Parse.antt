-- ===== src/Wire/Tokens/Parse.antt =====
-- internal/wire/tokens.go: `ParseTokens` on streams of tokens, and on any input.
use haystak_tds_spi.Base.{
  ℕ, zero, suc, ◌+◌, ◌≤◌, ◌<◌, ◌≡◌, refl, sym, ap, ◌∙◌, inl, inr, true, false, List, [], ◌∷◌, ◌++◌,
  append_assoc, append-nil, arith, ltb, leb, if◌then◌else◌, le→leb, ltb_false→le, leb_false→lt,
  le→ltb_false, Bool-cases, length, length-append, Bytes, All,
}
use haystak_tds_spi.Base.Result.{ok, err, ◌>>=◌, Returns}
use haystak_tds_spi.Base.Slices.{slice, index_at, slice_at, index_ok, slice_ok}
use haystak_tds_spi.Go.Binary.{put_le, le_value-put_u16}
use haystak_tds_spi.Wire.Tokens.{
  Token, TokenError, is_done, is_prefixed, mk_token, parse_loop, parse_tokens, truncated_body,
}
use haystak_tds_spi.Wire.Tokens.Streams.{IsToken, encode_token, encode_tokens}

inside : (n i : ℕ) → i < n → leb n i ≡ false
inside n i h = ground arith

parse_loop-done :
    (fuel : ℕ) (b pre value rest : Bytes) (typ : ℕ) (toks : List Token)
    → b ≡ pre ++ (typ ∷ (value ++ rest))
    → is_done typ ≡ true
    → length value ≡ 12
    → parse_loop (suc fuel) b (length pre) toks
      ≡ parse_loop fuel b (length pre + 1 + 12) (toks ++ record { type = typ; value = value } ∷ [])
unfolding parse_loop
parse_loop-done fuel b pre value rest typ toks cut d size =
    let long : length pre + 1 + 12 ≤ length b =
      omega (
        arith,
        ap length cut,
        length-append pre (typ ∷ (value ++ rest)),
        length-append value rest,
      ) in
    rw
      (
        inside (length b) (length pre) (omega arith),
        index_at {E = TokenError} b pre (value ++ rest) typ (length pre) cut refl,
      )
      (rw
        (
          d,
          le→ltb_false (length b) (length pre + 1 + 12) long,
          slice_at {E = TokenError} b (pre ++ typ ∷ []) value rest (length pre + 1)
              (length pre + 1 + 12) (cut ∙ sym (append_assoc pre (typ ∷ []) (value ++ rest)))
              (omega (arith, length-append pre (typ ∷ [])))
              (omega (arith, length-append pre (typ ∷ []))),
        )
        refl)

parse_loop-prefixed :
    (fuel : ℕ) (b pre value rest : Bytes) (typ : ℕ) (toks : List Token)
    → b ≡ pre ++ (typ ∷ (put_le 2 (length value) ++ (value ++ rest)))
    → is_done typ ≡ false
    → is_prefixed typ ≡ true
    → length value < 65536
    → parse_loop (suc fuel) b (length pre) toks
      ≡ parse_loop fuel b
          (length pre + 1 + 2 + length value)
          (toks ++ record { type = typ; value = value } ∷ [])
unfolding parse_loop
parse_loop-prefixed fuel b pre value rest typ toks cut d p size =
    let long : length pre + 1 + 2 + length value ≤ length b = omega (
      arith,
      ap length cut,
      length-append pre (typ ∷ (put_le 2 (length value) ++ (value ++ rest))),
      length-append value rest,
    ) in
    rw
      (
        inside (length b) (length pre) (omega arith),
        index_at {E = TokenError} b pre (put_le 2 (length value) ++ (value ++ rest)) typ
            (length pre) cut refl,
      )
      (rw
        (
          d,
          p,
          le→ltb_false (length b) (length pre + 1 + 2) (omega arith),
          slice_at {E = TokenError} b (pre ++ typ ∷ []) (put_le 2 (length value)) (value ++ rest)
              (length pre + 1) (length pre + 1 + 2) (cut ∙ sym (append_assoc pre (typ ∷ []) _))
              (omega (arith, length-append pre (typ ∷ [])))
              (omega (arith, length-append pre (typ ∷ []))),
        )
        (rw
          (
            le_value-put_u16 (length value) size,
            le→ltb_false (length b) (length pre + 1 + 2 + length value) long,
            slice_at {E = TokenError} b (pre ++ typ ∷ put_le 2 (length value)) value rest
                (length pre + 1 + 2) (length pre + 1 + 2 + length value)
                (cut ∙ sym (append_assoc pre (typ ∷ put_le 2 (length value)) (value ++ rest)))
                (omega (arith, length-append pre (typ ∷ put_le 2 (length value))))
                (omega (arith, length-append pre (typ ∷ put_le 2 (length value)))),
          )
          refl))

parse_loop-end :
    (fuel : ℕ) (b : Bytes) (i : ℕ) (toks : List Token)
    → length b ≤ i
    → parse_loop (suc fuel) b i toks ≡ ok toks
unfolding parse_loop
parse_loop-end fuel b i toks h = rw (le→leb (length b) i h) refl

-- One round, on one token.
parse_loop-token :
    (fuel : ℕ) (b pre rest : Bytes) (t : Token) (toks : List Token)
    → IsToken t
    → b ≡ pre ++ (encode_token t ++ rest)
    → parse_loop (suc fuel) b (length pre) toks
      ≡ parse_loop fuel b (length (pre ++ encode_token t)) (toks ++ t ∷ [])
unfolding encode_token mk_token
parse_loop-token fuel b pre rest t toks v cut = elim (Bool-cases (is_done t.type)) [
  | inl d ↦
      let cut' : b ≡ pre ++ (t.type ∷ (t.value ++ rest)) = rw d at cut in
      parse_loop-done fuel b pre t.value rest t.type toks cut' d (v.done_size d)
      ∙ ap (λ (i : ℕ). parse_loop fuel b i (toks ++ t ∷ [])) (rw d (done_end d))
  | inr d ↦
      let cut' : b ≡ pre ++ (t.type ∷ ((put_le 2 (length t.value) ++ t.value) ++ rest)) =
        rw d at cut in
      parse_loop-prefixed fuel b pre t.value rest t.type toks cut' d (prefixed d)
        (v.prefixed_size d)
      ∙ ap (λ (i : ℕ). parse_loop fuel b i (toks ++ t ∷ [])) (rw d (prefixed_end d))
]
  where
    done_end : is_done t.type ≡ true → length pre + 1 + 12 ≡ length (pre ++ t.type ∷ t.value)
    done_end d = omega (arith, length-append pre (t.type ∷ t.value), v.done_size d)

    prefixed_end :
        is_done t.type ≡ false
        → length pre + 1 + 2 + length t.value
          ≡ length (pre ++ t.type ∷ (put_le 2 (length t.value) ++ t.value))
    prefixed_end d =
        omega (arith, length-append pre (t.type ∷ (put_le 2 (length t.value) ++ t.value)))

    prefixed : is_done t.type ≡ false → is_prefixed t.type ≡ true
    prefixed d = rw d at v.known

length-encode_token : (t : Token) → 0 < length (encode_token t)
unfolding encode_token mk_token
length-encode_token t = ground arith

parse_loop-tokens :
    (fuel : ℕ) (b pre : Bytes) (ts toks : List Token)
    → All IsToken ts
    → b ≡ pre ++ encode_tokens ts
    → length (encode_tokens ts) < fuel
    → parse_loop fuel b (length pre) toks ≡ ok (toks ++ ts)
unfolding encode_tokens
parse_loop-tokens zero b pre ts toks v cut h = absurd (omega arith)
parse_loop-tokens (suc fuel) b pre [] toks v cut h =
    parse_loop-end fuel b (length pre) toks (omega (arith, ap length cut, length-append pre []))
    ∙ ap ok (sym (append-nil toks))
parse_loop-tokens (suc fuel) b pre (t ∷ ts) toks v cut h =
    parse_loop-token fuel b pre (encode_tokens ts) t toks v.0 cut
    ∙ parse_loop-tokens fuel b (pre ++ encode_token t) ts (toks ++ t ∷ []) v.1
        (cut ∙ sym (append_assoc pre (encode_token t) (encode_tokens ts)))
        (omega (arith, length-append (encode_token t) (encode_tokens ts), length-encode_token t))
    ∙ ap ok (append_assoc toks (t ∷ []) ts)

-- `ParseTokens` reads every stream of tokens back.
pub parse_tokens-encode_tokens :
    (ts : List Token) → All IsToken ts → parse_tokens (encode_tokens ts) ≡ ok ts
unfolding parse_tokens
parse_tokens-encode_tokens ts v =
    parse_loop-tokens (suc (length (encode_tokens ts))) (encode_tokens ts) [] ts [] v refl
      (omega arith)

module _ (fuel : ℕ) (b : Bytes) (i typ : ℕ) (toks : List Token)
    (ih : (j : ℕ) (toks' : List Token)
      → i < j
      → j ≤ length b
      → Returns (parse_loop fuel b j toks')) where
  body-Returns :
      (n : ℕ)
      → i + 1 + 2 ≤ length b
      → Returns (
          if ltb (length b) (i + 1 + 2 + n)
          then err truncated_body
          else (slice b (i + 1 + 2) (i + 1 + 2 + n) >>= λ value.
              parse_loop fuel b
                (i + 1 + 2 + n)
                (toks ++ record { type = typ; value = value } ∷ [])))
  body-Returns n h = elim (Bool-cases (ltb (length b) (i + 1 + 2 + n))) [
    | inl cut ↦ rw cut tt
    | inr fits ↦
        rw
          (
            fits,
            slice_ok {E = TokenError} b (i + 1 + 2) (i + 1 + 2 + n) (omega arith)
                (ltb_false→le _ _ fits),
          )
          (ih _ _ (omega arith) (ltb_false→le _ _ fits))
  ]

parse_loop-Returns :
    (fuel : ℕ) (b : Bytes) (i : ℕ) (toks : List Token)
    → i ≤ length b
    → length b < fuel + i
    → Returns (parse_loop fuel b i toks)
unfolding parse_loop
parse_loop-Returns zero b i toks le h = absurd (omega arith)
parse_loop-Returns (suc fuel) b i toks le h = elim (Bool-cases (leb (length b) i)) [
  | inl past ↦ rw past tt
  | inr more ↦
      let (typ, e) = index_ok {E = TokenError} b i (leb_false→lt (length b) i more) in
      rw (more, e)
        (elim (Bool-cases (is_done typ)) [
          | inl d ↦ elim (Bool-cases (ltb (length b) (i + 1 + 12))) [
            | inl cut ↦ rw (d, cut) tt
            | inr fits ↦
                let room : i + 1 + 12 ≤ length b = ltb_false→le (length b) (i + 1 + 12) fits in
                rw (d, fits, slice_ok {E = TokenError} b (i + 1) (i + 1 + 12) (omega arith) room)
                  (parse_loop-Returns fuel b (i + 1 + 12) _ room (omega arith))
          ]
          | inr d ↦ elim (Bool-cases (is_prefixed typ)) [
            | inl p ↦ elim (Bool-cases (ltb (length b) (i + 1 + 2))) [
              | inl cut ↦ rw (d, p, cut) tt
              | inr fits ↦
                  let room : i + 1 + 2 ≤ length b = ltb_false→le (length b) (i + 1 + 2) fits in
                  rw
                    (d, p, fits, slice_ok {E = TokenError} b (i + 1) (i + 1 + 2) (omega arith) room)
                    (body-Returns fuel b i typ toks
                      (λ j toks' lt le'. parse_loop-Returns fuel b j toks' le' (omega arith)) _
                      room)
            ]
            | inr p ↦ rw (d, p) tt
          ]
        ])
]

-- `ParseTokens` comes back on every input, with tokens or with an error.
pub parse_tokens-Returns : (b : Bytes) → Returns (parse_tokens b)
unfolding parse_tokens
parse_tokens-Returns b = parse_loop-Returns (suc (length b)) b 0 [] (omega arith) (omega arith)
