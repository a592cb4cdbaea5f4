-- ===== src/Wire/Tokens/Streams.antt =====
-- Streams of tokens as a specification: what a list of tokens looks like on the wire.
use haystak_tds_spi.Base.{
  ◌<◌, ◌≡◌, true, false, ◌||◌, List, [], ◌∷◌, ◌++◌, if◌then◌else◌, length, Bytes,
}
use haystak_tds_spi.Wire.Tokens.{Token, is_done, is_prefixed, mk_token}

-- A token that the stream can hold: a DONE with its twelve bytes, or one of the prefixed types with
-- a body that fits the length field.
pub record IsToken (t : Token) : Type 0 where
  pub known : (is_done t.type || is_prefixed t.type) ≡ true
  pub done_size : is_done t.type ≡ true → length t.value ≡ 12
  pub prefixed_size : is_done t.type ≡ false → length t.value < 65536

unfoldable pub encode_token : Token → Bytes
encode_token t = if is_done t.type then t.type ∷ t.value else mk_token t.type t.value

unfoldable pub encode_tokens : List Token → Bytes
encode_tokens [] = []
encode_tokens (t ∷ ts) = encode_token t ++ encode_tokens ts
