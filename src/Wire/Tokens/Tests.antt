-- ===== src/Wire/Tokens/Tests.antt =====
-- The token stream of small replies.
use haystak_tds_spi.Base.{◌≡◌, refl, List, [], ◌∷◌, arith, All}
use haystak_tds_spi.Base.Result.{ok}
use haystak_tds_spi.Wire.Tokens.{Token, parse_tokens}
use haystak_tds_spi.Wire.Tokens.Streams.{IsToken, encode_tokens}
use haystak_tds_spi.Wire.Tokens.Parse.{parse_tokens-encode_tokens}
use haystak_tds_spi.Wire.Tokens.Replies.{token, done_token, done_token-IsToken}

abbrev two_tokens : List Token
two_tokens = token 0xAB (1 ∷ 2 ∷ 3 ∷ []) ∷ done_token 0x10 0 7 ∷ []

two_tokens-IsToken : All IsToken two_tokens
two_tokens-IsToken = (
  record { known = refl; done_size = λ e. cc; prefixed_size = λ _. omega arith },
  (done_token-IsToken 0x10 0 7, tt),
)

parse_tokens-encode_tokens_example : parse_tokens (encode_tokens two_tokens) ≡ ok two_tokens
parse_tokens-encode_tokens_example = parse_tokens-encode_tokens two_tokens two_tokens-IsToken
