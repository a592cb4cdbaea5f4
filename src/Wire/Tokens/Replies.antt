-- ===== src/Wire/Tokens/Replies.antt =====
-- internal/wire/tokens.go: the replies to a login and to USE, as streams of tokens.
use haystak_tds_spi.Base.{
  ℕ, ◌+◌, ◌*◌, ◌<◌, ◌≡◌, refl, ap, ◌∙◌, List, [], ◌∷◌, ◌++◌, append-nil, arith, length,
  length-append, Bytes, codes,
}
use haystak_tds_spi.Base.Result.{ok}
use haystak_tds_spi.Go.Binary.{put_le}
use haystak_tds_spi.Go.Utf.{runes, utf16_encode, units_le}
use haystak_tds_spi.Go.Utf.RoundTrip.{length-units_le}
use haystak_tds_spi.Wire.Text.{b_varchar, units_of}
use haystak_tds_spi.Wire.Tokens.{
  Token, done, env_change, database_change, env_change_database, parse_tokens, token_done,
  token_env_change, token_login_ack, done_final, default_collation,
}
use haystak_tds_spi.Wire.Tokens.Parse.{parse_tokens-encode_tokens}
use haystak_tds_spi.Wire.Tokens.Streams.{IsToken, encode_token, encode_tokens}

abbrev pub token : ℕ → Bytes → Token
token typ value = record { type = typ; value = value }

-- The token that each builder makes.
unfoldable pub done_token : ℕ → ℕ → ℕ → Token
done_token status cur_cmd row_count =
    token token_done (put_le 2 status ++ (put_le 2 cur_cmd ++ put_le 8 row_count))

unfoldable pub env_change_token : ℕ → Bytes → Bytes → Token
env_change_token typ new_val old_val =
    token token_env_change (typ ∷ (b_varchar new_val ++ b_varchar old_val))

unfoldable pub collation_token : Token
collation_token = token token_env_change (7 ∷ 5 ∷ (default_collation ++ 0 ∷ []))

unfoldable pub login_ack_token : Bytes → Token
login_ack_token server_name =
    token token_login_ack (
      0x01
      ∷ 0x74
      ∷ 0x00
      ∷ 0x00
      ∷ 0x04
      ∷ (b_varchar server_name ++ (0x10 ∷ 0x00 ∷ 0x03 ∷ 0xE8 ∷ [])))

length-b_varchar : (s : Bytes) → length (b_varchar s) ≡ 1 + 2 * length (units_of s)
unfolding b_varchar
length-b_varchar s = omega (arith, length-units_le (units_of s))

pub done_token-IsToken :
    (status cur_cmd row_count : ℕ) → IsToken (done_token status cur_cmd row_count)
unfolding done_token
done_token-IsToken status cur_cmd row_count = record {
  known = refl;
  done_size = λ _. refl;
  prefixed_size = λ e. cc;
}

env_change_token-IsToken :
    (typ : ℕ) (new_val old_val : Bytes)
    → length (units_of new_val) + length (units_of old_val) < 32000
    → IsToken (env_change_token typ new_val old_val)
unfolding env_change_token
env_change_token-IsToken typ new_val old_val h = record {
  known = refl;
  done_size = λ e. cc;
  prefixed_size = λ _. omega (
    arith,
    length-append (b_varchar new_val) (b_varchar old_val),
    length-b_varchar new_val,
    length-b_varchar old_val,
  );
}

done-encode :
    (status cur_cmd row_count : ℕ)
    → done status cur_cmd row_count ≡ encode_token (done_token status cur_cmd row_count)
unfolding done encode_token done_token
done-encode status cur_cmd row_count = refl

env_change-encode :
    (typ : ℕ) (new_val old_val : Bytes)
    → env_change typ new_val old_val ≡ encode_token (env_change_token typ new_val old_val)
unfolding env_change encode_token env_change_token
env_change-encode typ new_val old_val = refl

-- The tokens of a login's acceptance, in order.
unfoldable pub login_tokens : Bytes → Bytes → List Token
login_tokens server_name database =
    env_change_token 1 database []
    ∷ collation_token
    ∷ env_change_token 4 (codes "4096") (codes "4096")
    ∷ login_ack_token server_name
    ∷ done_token done_final 0 0
    ∷ []

units_of_empty : length (units_of []) ≡ 0
unfolding units_of runes utf16_encode
units_of_empty = refl

-- A text with the count of its UTF-16 units in one byte.
unfoldable pub counted : List ℕ → Bytes
unfolding utf16_encode units_le
counted rs = length (utf16_encode rs) ∷ units_le (utf16_encode rs)

-- What a client reads in the reply to its login, byte by byte: the database, the collation, the
-- packet size 4096, the acknowledgement of TDS 7.4 with the server's name and version, and DONE.
unfoldable pub reply_tokens : List ℕ → List ℕ → List Token
reply_tokens server_name database =
    token 0xE3 (1 ∷ (counted database ++ 0 ∷ []))
    ∷ token 0xE3 (7 ∷ 5 ∷ 0x09 ∷ 0x04 ∷ 0xD0 ∷ 0x00 ∷ 0x34 ∷ 0 ∷ [])
    ∷ token 0xE3 (
        4 ∷ 4 ∷ b'4' ∷ 0 ∷ b'0' ∷ 0 ∷ b'9' ∷ 0 ∷ b'6' ∷ 0 ∷ 4 ∷ b'4' ∷ 0 ∷ b'0' ∷ 0 ∷ b'9' ∷ 0
        ∷ b'6' ∷ 0 ∷ [])
    ∷ token 0xAD (1 ∷ 0x74 ∷ 0 ∷ 0 ∷ 4 ∷ (counted server_name ++ 0x10 ∷ 0 ∷ 3 ∷ 0xE8 ∷ []))
    ∷ token 0xFD (0 ∷ 0 ∷ 0 ∷ 0 ∷ 0 ∷ 0 ∷ 0 ∷ 0 ∷ 0 ∷ 0 ∷ 0 ∷ 0 ∷ [])
    ∷ []

-- So for the reply to USE: the new database and a final DONE.
pub parse_tokens-database_change :
    (db : Bytes)
    → length (units_of db) < 32000
    → parse_tokens (database_change db)
      ≡ ok (env_change_token 1 db [] ∷ done_token done_final 0 0 ∷ [])
parse_tokens-database_change db h =
    ap parse_tokens (change-encode db)
    ∙ parse_tokens-encode_tokens (env_change_token 1 db [] ∷ done_token done_final 0 0 ∷ []) (
      env_change_token-IsToken 1 db [] (omega (arith, units_of_empty)),
      (done_token-IsToken done_final 0 0, tt),
    )
  where
    change-encode :
        (db : Bytes)
        → database_change db
          ≡ encode_tokens (env_change_token 1 db [] ∷ done_token done_final 0 0 ∷ [])
    change-encode db =
        unfold database_change env_change_database encode_tokens in
        rw
          (
            env_change-encode 1 db [],
            done-encode done_final 0 0,
            append-nil (encode_token (done_token done_final 0 0)),
          )
          refl
