-- ===== src/Wire/Prelogin.antt =====
-- internal/wire/prelogin.go: the option table that opens a connection. Each entry of five bytes
-- gives an option's token and where its data lies in the same payload; 0xFF ends the table.
pub mod RoundTrip
pub mod Safety
mod Tests
use haystak_tds_spi.Base.{
  ℕ, zero, suc, ◌+◌, ◌-◌, ◌*◌, ◌/◌, ◌%◌, ◌^◌, ◌≤◌, ◌<◌, min, ◌≡◌, refl, sym, ap, ◌∙◌, subst, ◌≢◌,
  ◌↔◌, ◌⊎◌, inl, inr, Bool, true, false, not, ◌&&◌, ◌||◌, Option, none, some, List, [], ◌∷◌, ◌++◌,
  map, append_assoc, append-nil, arith, ltb, leb, ◌==◌, if◌then◌else◌, ltb→lt, lt→ltb, leb→le,
  le→leb, ltb_false→le, leb_false→lt, le→ltb_false, ==_iff, ==_refl, Bool-cases, Option-cases,
  length, get_elem?, get_or, take, drop, replicate, length-append, take-append-drop, length-take,
  length-drop, take_append, drop_append, take_all, drop_all, drop-drop, length-replicate,
  length-map, Bytes, All, IsBytes, codes, All-append,
}
use haystak_tds_spi.Base.Result.{
  Result, ok, err, panic, no_fuel, ◌>>=◌, ◌>>◌, Returns, Yields, bind-eq-ok, Returns-bind,
}
use haystak_tds_spi.Base.Dict.{Dict, nat_eq, lookup, insert}
use haystak_tds_spi.Base.Slices.{index, slice}
use haystak_tds_spi.Go.Binary.{put_u16_be, u16_be}

-- `PreloginOption`, a byte
abbrev pub prelogin_version : ℕ
prelogin_version = 0x00

abbrev pub prelogin_encryption : ℕ
prelogin_encryption = 0x01

abbrev pub prelogin_mars : ℕ
prelogin_mars = 0x04

abbrev pub prelogin_terminator : ℕ
prelogin_terminator = 0xFF

-- `Encryption`, a byte
abbrev pub encrypt_off : ℕ
encrypt_off = 0x00

abbrev pub encrypt_on : ℕ
encrypt_on = 0x01

abbrev pub encrypt_not_sup : ℕ
encrypt_not_sup = 0x02

abbrev pub encrypt_req : ℕ
encrypt_req = 0x03

pub record PreloginEntry : Type 0 where
  pub option : ℕ
  pub value : Bytes

pub record Prelogin : Type 0 where
  pub options : Dict ℕ Bytes

pub data PreloginError : Type 0 where
  missing_terminator truncated_entry data_out_of_range : PreloginError

-- `Prelogin.Encryption`: the first byte of the encryption option, if it has one
unfoldable pub encryption : Prelogin → Option ℕ
unfolding lookup
encryption p = elim (lookup prelogin_encryption p.options) [
  | none ↦ none
  | some v ↦ elim v [ [] ↦ none | b ∷ _ ↦ some b ]
]

-- The loop of `ParsePrelogin`, with `i` and `opts`.
pub parse_loop : ℕ → Bytes → ℕ → Dict ℕ Bytes → Result PreloginError Prelogin
parse_loop zero payload i opts = no_fuel
parse_loop (suc fuel) payload i opts = if leb (length payload) i then err missing_terminator else do
  token ← index payload i
  if token == prelogin_terminator
      then ok (record { options = opts })
      else if ltb (length payload) (i + 5)
      then err truncated_entry
      else do
        off_bytes ← slice payload (i + 1) (i + 3)
        len_bytes ← slice payload (i + 3) (i + 5)
        let off = u16_be off_bytes
        let end = off + u16_be len_bytes
        if ltb (length payload) off || ltb (length payload) end then err data_out_of_range else do
          value ← slice payload off end
          parse_loop fuel payload (i + 5) (insert token value opts)

-- `ParsePrelogin`. Each round takes five bytes of the table.
unfoldable pub parse_prelogin : Bytes → Result PreloginError Prelogin
unfolding parse_loop insert index slice
parse_prelogin payload = parse_loop (suc (length payload)) payload 0 []

-- The loop of `BuildPrelogin`, with `table` and `data`.
pub build_loop : ℕ → Bytes → Bytes → List PreloginEntry → Bytes × Bytes
build_loop header_len table values [] = (table, values)
build_loop header_len table values (e ∷ es) =
    build_loop header_len
      (table
        ++ (e.option ∷ (put_u16_be (header_len + length values) ++ put_u16_be (length e.value))))
      (values ++ e.value) es

-- `BuildPrelogin`
unfoldable pub build_prelogin : List PreloginEntry → Bytes
unfolding build_loop
build_prelogin entries =
    let (table, values) = build_loop (length entries * 5 + 1) [] [] entries in
    table ++ (prelogin_terminator ∷ [] ++ values)

-- `ServerPreloginResponse`
unfoldable pub server_prelogin_response : ℕ → Bytes
unfolding build_prelogin
server_prelogin_response enc = build_prelogin (
    record { option = prelogin_version; value = 0x10 ∷ 0x00 ∷ 0x03 ∷ 0xE8 ∷ 0x00 ∷ 0x06 ∷ [] }
    ∷ record { option = prelogin_encryption; value = enc ∷ [] }
    ∷ record { option = prelogin_mars; value = 0 ∷ [] }
    ∷ [])
