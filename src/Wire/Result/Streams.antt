-- ===== src/Wire/Result/Streams.antt =====
-- internal/wire/result.go: errors and result sets as token streams.
use Prim.Native.Nat.{bit_or}
use haystak_tds_spi.Base.{
  ℕ, ◌+◌, ◌*◌, ◌≤◌, ◌<◌, ◌≡◌, refl, ap, ◌∙◌, Bool, List, [], ◌∷◌, ◌++◌, append-nil, append_assoc,
  arith, length, length-append, Bytes, All, codes,
}
use haystak_tds_spi.Base.Result.{ok, Returns, Returns-bind}
use haystak_tds_spi.Go.Binary.{put_le}
use haystak_tds_spi.Go.Floats.{FloatOps}
use haystak_tds_spi.Go.Utf.{runes, utf16_encode, units_le}
use haystak_tds_spi.Go.Utf.RoundTrip.{length-units_le}
use haystak_tds_spi.Value.{Value}
use haystak_tds_spi.Wire.Text.{us_varchar, b_varchar, units_of}
use haystak_tds_spi.Wire.Tokens.{Token, parse_tokens, mk_token, done}
use haystak_tds_spi.Wire.Tokens.Parse.{parse_tokens-encode_tokens}
use haystak_tds_spi.Wire.Tokens.Streams.{IsToken, encode_token, encode_tokens}
use haystak_tds_spi.Wire.Tokens.Replies.{token, done_token, done_token-IsToken}
use haystak_tds_spi.Wire.Result.{
  Column, error_body, build_error, login_error, encode_row, encode_rows, build_result_set,
}
use haystak_tds_spi.Wire.Result.Encode.{Wide}

-- An ERROR token in the order of its fields: the number, the state 1, the severity, the message with
-- the count of its UTF-16 units, the server name, no procedure and the line 0.
abbrev pub error_token : Bytes → ℕ → Bytes → Token
error_token number severity msg = token 0xAA (
    number
    ++ (1
        ∷ severity
        ∷ (put_le 2 (length (units_of msg))
            ++ (units_le (units_of msg)
                ++ (7 ∷ b'h' ∷ 0 ∷ b'a' ∷ 0 ∷ b'y' ∷ 0 ∷ b's' ∷ 0 ∷ b't' ∷ 0 ∷ b'a' ∷ 0 ∷ b'k' ∷ 0
                    ∷ 0 ∷ 0 ∷ 0 ∷ 0 ∷ 0 ∷ [])))))

-- what the code writes is that layout
error_body-layout :
    (number : Bytes) (severity : ℕ) (msg : Bytes)
    → token 0xAA (error_body number severity msg) ≡ error_token number severity msg
unfolding error_body us_varchar b_varchar units_of runes utf16_encode units_le
error_body-layout number severity msg =
    ap (λ t. token 0xAA (number ++ (1 ∷ severity ∷ t)))
      (append_assoc (put_le 2 (length (utf16_encode (runes msg))))
        (units_le (utf16_encode (runes msg))) _)

length-us_varchar : (s : Bytes) → length (us_varchar s) ≡ 2 + 2 * length (units_of s)
unfolding us_varchar
length-us_varchar s = omega (arith, length-units_le (units_of s))

-- The names behind the message: a server name of seven units and an empty procedure.
names_size : length (b_varchar (codes "haystak") ++ (b_varchar [] ++ (0 ∷ 0 ∷ 0 ∷ 0 ∷ []))) ≡ 20
unfolding b_varchar units_of runes utf16_encode units_le
names_size = refl

error_token-IsToken :
    (number : Bytes) (severity : ℕ) (msg : Bytes)
    → length number ≡ 4
    → length (units_of msg) < 32000
    → IsToken (token 0xAA (error_body number severity msg))
unfolding error_body
error_token-IsToken number severity msg e h = record {
  known = refl;
  done_size = λ x. cc;
  prefixed_size = λ _. omega (
    arith,
    e,
    names_size,
    length-us_varchar msg,
    length-append number (
        1
        ∷ severity
        ∷ (us_varchar msg
            ++ (b_varchar (codes "haystak") ++ (b_varchar [] ++ (0 ∷ 0 ∷ 0 ∷ 0 ∷ []))))),
    length-append (us_varchar msg)
        (b_varchar (codes "haystak") ++ (b_varchar [] ++ (0 ∷ 0 ∷ 0 ∷ 0 ∷ []))),
  );
}

error_tokens :
    (number : Bytes) (severity : ℕ) (msg : Bytes)
    → length number ≡ 4
    → length (units_of msg) < 32000
    → parse_tokens (mk_token 0xAA (error_body number severity msg) ++ done (bit_or 0 2) 0 0)
      ≡ ok (error_token number severity msg ∷ done_token 2 0 0 ∷ [])
error_tokens number severity msg e h =
    (ap parse_tokens (encoded number severity msg)
      ∙ parse_tokens-encode_tokens
          (token 0xAA (error_body number severity msg) ∷ done_token 2 0 0 ∷ [])
          (error_token-IsToken number severity msg e h, (done_token-IsToken 2 0 0, tt)))
    ∙ ap (λ t. ok (t ∷ done_token 2 0 0 ∷ [])) (error_body-layout number severity msg)
  where
    encoded :
        (number : Bytes) (severity : ℕ) (msg : Bytes)
        → mk_token 0xAA (error_body number severity msg) ++ done (bit_or 0 2) 0 0
          ≡ encode_tokens (token 0xAA (error_body number severity msg) ∷ done_token 2 0 0 ∷ [])
    encoded number severity msg =
        unfold encode_tokens encode_token done done_token in rw (append-nil (put_le 2 0)) refl

-- A failed batch and a failed login parse as an ERROR with their number, severity and message, and a
-- DONE with the error bit, where the message is of less than 32000 UTF-16 units.
pub parse_tokens-build_error :
    (msg : Bytes)
    → length (units_of msg) < 32000
    → (parse_tokens (build_error msg)
        ≡ ok (error_token (0 ∷ 0 ∷ 0 ∷ 0 ∷ []) 16 msg ∷ done_token 2 0 0 ∷ []))
      × (parse_tokens (login_error msg)
          ≡ ok (error_token (put_le 4 18456) 14 msg ∷ done_token 2 0 0 ∷ []))
unfolding build_error login_error
parse_tokens-build_error msg h =
    (error_tokens (0 ∷ 0 ∷ 0 ∷ 0 ∷ []) 16 msg refl h, error_tokens (put_le 4 18456) 14 msg refl h)

module _ {Float : Type 0} (ops : FloatOps Float) where
  encode_row-Returns :
      (cols : List Column) (row : List (Value (Wide Float)))
      → length cols ≤ length row
      → Returns (encode_row ops cols row)
  unfolding encode_row
  encode_row-Returns [] row h = tt
  encode_row-Returns (c ∷ cols) [] h = absurd (omega arith)
  encode_row-Returns (c ∷ cols) (v ∷ row) h =
      Returns-bind (encode_row ops cols row) _ (encode_row-Returns cols row (omega arith))
        λ rest e. tt

  encode_rows-Returns :
      (cols : List Column) (rows : List (List (Value (Wide Float))))
      → All (λ row. length cols ≤ length row) rows
      → Returns (encode_rows ops cols rows)
  unfolding encode_rows
  encode_rows-Returns cols [] h = tt
  encode_rows-Returns cols (row ∷ rows) h =
      Returns-bind (encode_row ops cols row) _ (encode_row-Returns cols row h.0) λ this e.
        Returns-bind (encode_rows ops cols rows) _ (encode_rows-Returns cols rows h.1) λ rest e'. tt

-- A result set is written, without a panic, if no row is shorter than the columns.
pub build_result_set-Returns :
    {Float : Type 0} (ops : FloatOps Float) (cols : List Column)
    (rows : List (List (Value (Wide Float)))) (more : Bool)
    → All (λ row. length cols ≤ length row) rows
    → Returns (build_result_set ops cols rows more)
unfolding build_result_set
build_result_set-Returns ops cols rows more h =
    Returns-bind (encode_rows ops cols rows) _ (encode_rows-Returns ops cols rows h) λ body e. tt
