-- ===== src/Wire/Tokens.antt =====
-- internal/wire/tokens.go: the token stream of a response. A token is a type byte and, for a DONE,
-- twelve bytes, or else a length of two bytes (little endian) and that many.
pub mod Streams
pub mod Parse
pub mod Replies
mod Tests
use haystak_tds_spi.Base.{
  ℕ, zero, suc, ◌+◌, ◌-◌, ◌*◌, ◌/◌, ◌%◌, ◌^◌, ◌≤◌, ◌<◌, min, ◌≡◌, refl, sym, ap, ◌∙◌, subst, ◌≢◌,
  ◌↔◌, ◌⊎◌, inl, inr, Bool, true, false, not, ◌&&◌, ◌||◌, Option, none, some, List, [], ◌∷◌, ◌++◌,
  map, append_assoc, append-nil, arith, ltb, leb, ◌==◌, if◌then◌else◌, ltb→lt, lt→ltb, leb→le,
  le→leb, ltb_false→le, leb_false→lt, le→ltb_false, ==_iff, ==_refl, Bool-cases, Option-cases,
  length, get_elem?, get_or, take, drop, replicate, length-append, take-append-drop, length-take,
  length-drop, take_append, drop_append, take_all, drop_all, drop-drop, length-replicate,
  length-map, Bytes, All, IsBytes, codes, All-append,
}
use haystak_tds_spi.Base.Result.{
  Result, ok, err, panic, no_fuel, ◌>>=◌, ◌>>◌, Returns, Yields, bind-eq-ok, Returns-bind,
}
use Prim.Native.Nat.{bit_or}
use haystak_tds_spi.Base.Slices.{index, slice}
use haystak_tds_spi.Go.Binary.{put_le, le_value}
use haystak_tds_spi.Wire.Text.{b_varchar}

abbrev pub token_error : ℕ
token_error = 0xAA

abbrev pub token_info : ℕ
token_info = 0xAB

abbrev pub token_login_ack : ℕ
token_login_ack = 0xAD

abbrev pub token_env_change : ℕ
token_env_change = 0xE3

abbrev pub token_done : ℕ
token_done = 0xFD

abbrev pub token_done_proc : ℕ
token_done_proc = 0xFE

abbrev pub token_done_in_proc : ℕ
token_done_in_proc = 0xFF

abbrev pub done_final : ℕ
done_final = 0x0000

abbrev pub done_more : ℕ
done_more = 0x0001

abbrev pub done_count : ℕ
done_count = 0x0010

abbrev env_database : ℕ
env_database = 1

abbrev env_packet_size : ℕ
env_packet_size = 4

abbrev env_sql_collation : ℕ
env_sql_collation = 7

abbrev pub default_collation : Bytes
default_collation = 0x09 ∷ 0x04 ∷ 0xD0 ∷ 0x00 ∷ 0x34 ∷ []

abbrev tds_version_74 : Bytes
tds_version_74 = 0x74 ∷ 0x00 ∷ 0x00 ∷ 0x04 ∷ []

abbrev prog_version : Bytes
prog_version = 0x10 ∷ 0x00 ∷ 0x03 ∷ 0xE8 ∷ []

pub record Token : Type 0 where
  pub type : ℕ
  pub value : Bytes

pub data TokenError : Type 0 where
  truncated_done truncated_length truncated_body : TokenError
  unknown_token : ℕ → TokenError

-- `mkToken`; a body of 65536 bytes or more has its length cut to sixteen bits
unfoldable pub mk_token : ℕ → Bytes → Bytes
mk_token typ body = typ ∷ (put_le 2 (length body) ++ body)

-- `done`
unfoldable pub done : ℕ → ℕ → ℕ → Bytes
done status cur_cmd row_count =
    token_done ∷ (put_le 2 status ++ (put_le 2 cur_cmd ++ put_le 8 row_count))

-- `envChange`
unfoldable pub env_change : ℕ → Bytes → Bytes → Bytes
env_change typ new_val old_val =
    mk_token token_env_change (typ ∷ (b_varchar new_val ++ b_varchar old_val))

-- `envChangeCollation`
unfoldable pub env_change_collation : Bytes
env_change_collation =
    mk_token token_env_change
      (env_sql_collation ∷ (length default_collation ∷ default_collation) ++ 0x00 ∷ [])

-- `loginAck`
unfoldable pub login_ack : Bytes → Bytes
login_ack server_name =
    mk_token token_login_ack (0x01 ∷ (tds_version_74 ++ (b_varchar server_name ++ prog_version)))

-- `BuildLoginResponse`
unfoldable pub build_login_response : Bytes → Bytes → Bytes
build_login_response server_name database =
    env_change env_database database []
    ++ (env_change_collation
        ++ (env_change env_packet_size (codes "4096") (codes "4096")
            ++ (login_ack server_name ++ done done_final 0 0)))

-- `EmptyDone`
unfoldable pub empty_done : Bytes
empty_done = done done_final 0 0

-- `AttentionAck`
unfoldable pub attention_ack : Bytes
attention_ack = done 0x0020 0 0

-- `DoneWithCount`
unfoldable pub done_with_count : ℕ → Bytes
done_with_count n = done (bit_or done_final done_count) 0 n

-- `EnvChangeDatabase`
unfoldable pub env_change_database : Bytes → Bytes
env_change_database db = env_change env_database db []

-- `DatabaseChange`
unfoldable pub database_change : Bytes → Bytes
database_change db = env_change_database db ++ done done_final 0 0

abbrev pub is_done : ℕ → Bool
is_done typ = typ == token_done || typ == token_done_proc || typ == token_done_in_proc

abbrev pub is_prefixed : ℕ → Bool
is_prefixed typ =
    typ == token_login_ack || typ == token_env_change || typ == token_info || typ == token_error

-- The loop of `ParseTokens`, with `i` and `toks`.
pub parse_loop : ℕ → Bytes → ℕ → List Token → Result TokenError (List Token)
parse_loop zero b i toks = no_fuel
parse_loop (suc fuel) b i toks = if leb (length b) i then ok toks else do
  typ ← index b i
  if is_done typ
      then (if ltb (length b) (i + 1 + 12) then err truncated_done else do
        value ← slice b (i + 1) (i + 1 + 12)
        parse_loop fuel b (i + 1 + 12) (toks ++ record { type = typ; value = value } ∷ []))
      else if is_prefixed typ
      then (if ltb (length b) (i + 1 + 2) then err truncated_length else do
        len ← slice b (i + 1) (i + 1 + 2)
        let n = le_value len
        if ltb (length b) (i + 1 + 2 + n) then err truncated_body else do
          value ← slice b (i + 1 + 2) (i + 1 + 2 + n)
          parse_loop fuel b (i + 1 + 2 + n) (toks ++ record { type = typ; value = value } ∷ []))
      else err (unknown_token typ)

-- `ParseTokens`. Each round takes a byte at least.
unfoldable pub parse_tokens : Bytes → Result TokenError (List Token)
unfolding parse_loop index slice
parse_tokens b = parse_loop (suc (length b)) b 0 []
