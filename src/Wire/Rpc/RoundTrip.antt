-- ===== src/Wire/Rpc/RoundTrip.antt =====
-- internal/wire/rpc.go: the cursor on a length and so many bytes behind it, of an integer and of
-- text in chunks.
use haystak_tds_spi.Base.{
  ℕ, zero, suc, ◌^◌, ◌≤◌, ◌<◌, min, ◌≡◌, refl, sym, ap, ◌∙◌, false, some, [], ◌∷◌, ◌++◌,
  append_assoc, append-nil, arith, ltb, ◌==◌, le→ltb_false, length, take, drop, length-append,
  take-append-drop, length-take, length-drop, take_append, drop_append, Bytes,
}
use haystak_tds_spi.Go.Binary.{put_le, le_value, length-put_le, le_value-put_u32}
use haystak_tds_spi.Value.{int, str}
use haystak_tds_spi.Wire.Text.{ucs2}
use haystak_tds_spi.Wire.Rpc.Cursor.{le_int, var_int, plp_loop}
use haystak_tds_spi.Wire.Result.Encode.{plp_chunks}

-- What a read of the next bytes rests on, once for all.
pub record Taken (n : ℕ) (b rest : Bytes) : Type 0 where
  pub enough : ltb (length (b ++ rest)) n ≡ false
  pub these : take n (b ++ rest) ≡ b
  pub behind : drop n (b ++ rest) ≡ rest

pub taken : (n : ℕ) (b rest : Bytes) → length b ≡ n → Taken n b rest
taken n b rest e = record {
  enough = le→ltb_false (length (b ++ rest)) n (omega (arith, length-append b rest));
  these = take_append b rest n (sym e);
  behind = drop_append b rest n (sym e);
}

pub var_int_put :
    {Float : Type 0} (most size : ℕ) (b rest : Bytes)
    → length b ≡ size
    → (size == 0) ≡ false
    → var_int {Float = Float} (most ∷ size ∷ (b ++ rest)) ≡ (some (int (le_int b)), rest)
unfolding var_int
var_int_put most size b rest e some_ =
    let t = taken size b rest e in rw (some_, t.enough, t.these, t.behind, e) (rw some_ refl)

plp_end :
    {Float : Type 0} (plenty : ℕ) (buf rest : Bytes)
    → plp_loop {Float = Float} (suc plenty) buf (0 ∷ 0 ∷ 0 ∷ 0 ∷ rest)
      ≡ (some (str (ucs2 buf)), rest)
unfolding plp_loop
plp_end plenty buf rest = let t = taken 4 (0 ∷ 0 ∷ 0 ∷ 0 ∷ []) rest refl in rw (t.enough) refl

plp_step :
    {Float : Type 0} (plenty n : ℕ) (lb piece buf rest : Bytes)
    → length lb ≡ 4
    → le_value lb ≡ n
    → (n == 0) ≡ false
    → length piece ≡ n
    → plp_loop {Float = Float} (suc plenty) buf (lb ++ (piece ++ rest))
      ≡ plp_loop plenty (buf ++ piece) rest
unfolding plp_loop
plp_step plenty n lb piece buf rest size e some_ f =
    let t = taken 4 lb (piece ++ rest) size in
    let u = taken n piece rest f in
    rw (t.enough, t.these, t.behind, e, some_, u.enough, u.these, u.behind) refl

-- The chunks of any data come back in one piece.
pub plp_loop-plp_chunks :
    {Float : Type 0} (size fuel plenty : ℕ) (text buf rest : Bytes)
    → 0 < size
    → size < 2 ^ 32
    → length text ≤ fuel
    → length text < plenty
    → plp_loop {Float = Float} plenty buf (plp_chunks size fuel text ++ (0 ∷ 0 ∷ 0 ∷ 0 ∷ rest))
      ≡ (some (str (ucs2 (buf ++ text))), rest)
unfolding plp_chunks
plp_loop-plp_chunks size fuel zero text buf rest p q h k = absurd (omega arith)
plp_loop-plp_chunks size zero (suc plenty) [] buf rest p q h k =
    plp_end plenty buf rest ∙ rw (append-nil buf) refl
plp_loop-plp_chunks size (suc fuel) (suc plenty) [] buf rest p q h k =
    plp_end plenty buf rest ∙ rw (append-nil buf) refl
plp_loop-plp_chunks size zero (suc plenty) (d ∷ text) buf rest p q h k = absurd (omega arith)
plp_loop-plp_chunks size (suc fuel) (suc plenty) (d ∷ text) buf rest p q h k =
    ap (plp_loop (suc plenty) buf)
      (joined (put_le 4 m) piece (plp_chunks size fuel behind) (0 ∷ 0 ∷ 0 ∷ 0 ∷ rest))
    ∙ (plp_step plenty m (put_le 4 m) piece buf
          (plp_chunks size fuel behind ++ (0 ∷ 0 ∷ 0 ∷ 0 ∷ rest)) (length-put_le 4 m)
          (le_value-put_u32 m (omega arith)) some_ (length-take size (d ∷ text))
        ∙ (plp_loop-plp_chunks size fuel plenty behind (buf ++ piece) rest p q
              (omega (arith, length-drop size (d ∷ text)))
              (omega (arith, length-drop size (d ∷ text)))
            ∙ ap (λ (b : Bytes). (some (str (ucs2 b)), rest))
                (append_assoc buf piece behind
                  ∙ ap (λ (b : Bytes). buf ++ b) (take-append-drop size (d ∷ text)))))
  where
    m : ℕ
    m = min size (length (d ∷ text))

    piece : Bytes
    piece = take size (d ∷ text)

    behind : Bytes
    behind = drop size (d ∷ text)

    some_ : (m == 0) ≡ false
    some_ = ground arith

    joined : (a b c e : Bytes) → (a ++ (b ++ c)) ++ e ≡ a ++ (b ++ (c ++ e))
    joined a b c e = append_assoc a (b ++ c) e ∙ ap (λ (x : Bytes). a ++ x) (append_assoc b c e)
