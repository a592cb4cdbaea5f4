-- ===== src/Wire/Prelogin/RoundTrip.antt =====
-- internal/wire/prelogin.go: `ParsePrelogin` on what `BuildPrelogin` writes.
use haystak_tds_spi.Base.{
  ℕ, zero, suc, ◌+◌, ◌*◌, ◌≤◌, ◌<◌, ◌≡◌, refl, sym, ap, ◌∙◌, ◌≢◌, false, List, [], ◌∷◌, ◌++◌,
  append_assoc, append-nil, arith, leb, ◌==◌, le→ltb_false, length, length-append, Bytes, All,
}
use haystak_tds_spi.Base.Result.{ok}
use haystak_tds_spi.Base.Dict.{Dict, nat_eq, insert}
use haystak_tds_spi.Base.Slices.{index_at, slice_at}
use haystak_tds_spi.Go.Binary.{put_u16_be, u16_be-put}
use haystak_tds_spi.Wire.Prelogin.{
  PreloginError, PreloginEntry, parse_loop, parse_prelogin, build_loop, build_prelogin,
}

-- The option table of entries whose data starts at offset `off`, and that data.
abbrev table_of : ℕ → List PreloginEntry → Bytes
table_of off [] = []
table_of off (e ∷ es) =
    (e.option ∷ (put_u16_be off ++ put_u16_be (length e.value)))
    ++ table_of (off + length e.value) es

abbrev pub values_of : List PreloginEntry → Bytes
values_of [] = []
values_of (e ∷ es) = e.value ++ values_of es

-- The map that the entries fill in order, the last of an option's entries standing.
unfoldable pub options_of : Dict ℕ Bytes → List PreloginEntry → Dict ℕ Bytes
options_of opts [] = opts
options_of opts (e ∷ es) = options_of (insert e.option e.value opts) es

-- No entry has the terminator for its token.
abbrev pub IsTable : List PreloginEntry → Type 0
IsTable = All (λ (e : PreloginEntry). e.option ≢ 0xFF)

length-table_of : (off : ℕ) (es : List PreloginEntry) → length (table_of off es) ≡ 5 * length es
length-table_of off [] = refl
length-table_of off (e ∷ es) = omega (arith, length-table_of (off + length e.value) es)

build_loop-parts :
    (header_len : ℕ) (table values : Bytes) (es : List PreloginEntry)
    → build_loop header_len table values es
      ≡ (table ++ table_of (header_len + length values) es, values ++ values_of es)
unfolding build_loop
build_loop-parts header_len table values [] =
    λ i. (sym (append-nil table) i, sym (append-nil values) i)
build_loop-parts header_len table values (e ∷ es) =
    build_loop-parts header_len
      (table
        ++ (e.option ∷ (put_u16_be (header_len + length values) ++ put_u16_be (length e.value))))
      (values ++ e.value) es
    ∙ λ i. (
      (append_assoc table
              (e.option ∷ (put_u16_be (header_len + length values) ++ put_u16_be (length e.value)))
              (table_of (header_len + length (values ++ e.value)) es)
            ∙ ap
                (λ (n : ℕ).
                  table
                  ++ ((e.option
                        ∷ (put_u16_be (header_len + length values) ++ put_u16_be (length e.value)))
                      ++ table_of n es))
                offset)
          i,
      append_assoc values e.value (values_of es) i,
    )
  where
    offset : header_len + length (values ++ e.value) ≡ header_len + length values + length e.value
    offset = omega (arith, length-append values e.value)

beq_false : (a b : ℕ) → a ≢ b → (a == b) ≡ false
beq_false a b h = ground arith

-- One round of the loop, on an entry whose data is where it says.
parse_loop-entry :
    (fuel : ℕ) (payload pre more front value back : Bytes) (token off : ℕ) (opts : Dict ℕ Bytes)
    → payload ≡ pre ++ ((token ∷ (put_u16_be off ++ put_u16_be (length value))) ++ more)
    → payload ≡ front ++ (value ++ back)
    → length front ≡ off
    → off + length value < 65536
    → token ≢ 0xFF
    → parse_loop (suc fuel) payload (length pre) opts
      ≡ parse_loop fuel payload (length pre + 5) (insert token value opts)
unfolding parse_loop
parse_loop-entry fuel payload pre more front value back token off opts cut cut' o b t =
    let long : length pre + 5 ≤ length payload = omega (
      arith,
      ap length cut,
      length-append pre ((token ∷ (put_u16_be off ++ put_u16_be (length value))) ++ more),
    ) in
    let reach : off + length value ≤ length payload =
      omega
        (arith, ap length cut', length-append front (value ++ back), length-append value back) in
    rw
      (
        ltb_inside (length payload) (length pre) (omega arith),
        index_at {E = PreloginError} payload pre
            (put_u16_be off ++ (put_u16_be (length value) ++ more)) token (length pre) cut refl,
        beq_false token 0xFF t,
        le→ltb_false (length payload) (length pre + 5) long,
        slice_at {E = PreloginError} payload (pre ++ token ∷ []) (put_u16_be off)
            (put_u16_be (length value) ++ more) (length pre + 1) (length pre + 3)
            (cut ∙ sym (append_assoc pre (token ∷ []) _))
            (omega (arith, length-append pre (token ∷ [])))
            (omega (arith, length-append pre (token ∷ []))),
        slice_at {E = PreloginError} payload (pre ++ token ∷ put_u16_be off)
            (put_u16_be (length value)) more (length pre + 3) (length pre + 5)
            (cut ∙ sym (append_assoc pre (token ∷ put_u16_be off) _))
            (omega (arith, length-append pre (token ∷ put_u16_be off)))
            (omega (arith, length-append pre (token ∷ put_u16_be off))),
        u16_be-put off (omega arith),
        u16_be-put (length value) (omega arith),
        le→ltb_false (length payload) off (omega arith),
        le→ltb_false (length payload) (off + length value) reach,
        slice_at {E = PreloginError} payload front value back off (off + length value) cut' (sym o)
            (omega arith),
      )
      refl
  where
    ltb_inside : (n i : ℕ) → i < n → leb n i ≡ false
    ltb_inside n i h = ground arith

-- The last round, at the terminator.
parse_loop-end :
    (fuel : ℕ) (payload pre tail : Bytes) (opts : Dict ℕ Bytes)
    → payload ≡ pre ++ (0xFF ∷ tail)
    → parse_loop (suc fuel) payload (length pre) opts ≡ ok (record { options = opts })
unfolding parse_loop
parse_loop-end fuel payload pre tail opts cut =
    rw (inside, index_at {E = PreloginError} payload pre tail 0xFF (length pre) cut refl) refl
  where
    long : length pre < length payload
    long = omega (arith, ap length cut, length-append pre (0xFF ∷ tail))

    inside : leb (length payload) (length pre) ≡ false
    inside = ground (arith, long)

parse_loop-table :
    (es : List PreloginEntry) (fuel : ℕ) (payload pre front tail back : Bytes) (off : ℕ)
    (opts : Dict ℕ Bytes)
    → payload ≡ pre ++ (table_of off es ++ (0xFF ∷ tail))
    → payload ≡ front ++ (values_of es ++ back)
    → length front ≡ off
    → off + length (values_of es) < 65536
    → IsTable es
    → length es < fuel
    → parse_loop fuel payload (length pre) opts ≡ ok (record { options = options_of opts es })
unfolding options_of
parse_loop-table es zero payload pre front tail back off opts cut cut' o b t h =
    absurd (omega arith)
parse_loop-table [] (suc fuel) payload pre front tail back off opts cut cut' o b t h =
    parse_loop-end fuel payload pre tail opts cut
parse_loop-table (e ∷ es) (suc fuel) payload pre front tail back off opts cut cut' o b t h =
    parse_loop-entry fuel payload pre (table_of (off + length e.value) es ++ (0xFF ∷ tail)) front
      e.value (values_of es ++ back) e.option off opts cut
      (cut' ∙ ap (λ xs. front ++ xs) (append_assoc e.value (values_of es) back)) o
      (omega (arith, length-append e.value (values_of es))) t.0
    ∙ ap (λ (i : ℕ). parse_loop fuel payload i (insert e.option e.value opts))
        (let five : length pre + 5 ≡ length (pre ++ entry) =
            omega (arith, length-append pre entry) in
          five)
    ∙ parse_loop-table es fuel payload (pre ++ entry) (front ++ e.value) tail back
        (off + length e.value) _ (cut ∙ sym (append_assoc pre entry _))
        (cut'
          ∙ ap (λ xs. front ++ xs) (append_assoc e.value (values_of es) back)
          ∙ sym (append_assoc front e.value _))
        (omega (arith, length-append front e.value))
        (omega (arith, length-append e.value (values_of es))) t.1 (omega arith)
  where
    entry : Bytes
    entry = e.option ∷ (put_u16_be off ++ put_u16_be (length e.value))

-- What `BuildPrelogin` writes, `ParsePrelogin` reads back: the entries' options, with the data that
-- the last entry for each gives, if no token is the terminator and the payload fits the 16-bit
-- offsets.
pub parse_prelogin-build_prelogin :
    (es : List PreloginEntry)
    → IsTable es
    → length es * 5 + 1 + length (values_of es) < 65536
    → parse_prelogin (build_prelogin es) ≡ ok (record { options = options_of [] es })
unfolding parse_prelogin build_prelogin
parse_prelogin-build_prelogin es t b =
    let n = length es * 5 + 1 in
    let payload = table_of n es ++ (0xFF ∷ values_of es) in
    let built : build_prelogin es ≡ payload = rw build_loop-parts (shifted n) in
    ap parse_prelogin built
    ∙ parse_loop-table es (suc (length payload)) payload [] (table_of n es ++ 0xFF ∷ [])
        (values_of es) [] n [] refl
        (sym (append_assoc (table_of n es) (0xFF ∷ []) (values_of es ++ []) ∙ rw append-nil refl))
        (omega (arith, length-append (table_of n es) (0xFF ∷ []), length-table_of n es)) b t
        (omega (arith, length-append (table_of n es) (0xFF ∷ values_of es), length-table_of n es))
  where
    shifted :
        (n : ℕ)
        → table_of (n + 0) es ++ (0xFF ∷ values_of es) ≡ table_of n es ++ (0xFF ∷ values_of es)
    shifted n =
        ap (λ (k : ℕ). table_of k es ++ (0xFF ∷ values_of es))
          (let z : n + 0 ≡ n = omega arith in z)
