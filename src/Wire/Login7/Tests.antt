-- ===== src/Wire/Login7/Tests.antt =====
-- A LOGIN7 payload with a user and a password, and the rest of its fields empty.
use haystak_tds_spi.Base.{ℕ, ◌+◌, ◌≡◌, refl, List, [], ◌∷◌, ◌++◌, map, arith, replicate, Bytes}
use haystak_tds_spi.Base.Result.{ok}
use haystak_tds_spi.Base.Slices.{slice}
use haystak_tds_spi.Wire.Login7.{parse_login7, u16_at}
use haystak_tds_spi.Wire.Login7.Password.{obfuscate}
use haystak_tds_spi.Wire.Login7.Fields.{Carries, empty, located, text, parse_login7-Carries}
use haystak_tds_spi.Wire.Text.{units_of}
use haystak_tds_spi.Go.Utf.{string_of, units_le, runes, utf16_encode}

abbrev fields_header : Bytes
fields_header =
    replicate 40 0 ++ ((72 ∷ 0 ∷ 2 ∷ 0 ∷ []) ++ ((76 ∷ 0 ∷ 1 ∷ 0 ∷ []) ++ replicate 24 0))

-- user "sa", password "x"
abbrev payload : Bytes
payload = fields_header ++ (0x73 ∷ 0 ∷ 0x61 ∷ 0 ∷ 0x22 ∷ 0xA5 ∷ [])

abbrev sa : List ℕ
sa = 0x73 ∷ 0x61 ∷ []

no_text :
    (pos : ℕ)
    → u16_at payload pos ≡ ok 0
    → u16_at payload (pos + 2) ≡ ok 0
    → Carries payload pos (text [])
unfolding string_of units_of runes utf16_encode units_le
no_text pos e f = empty 0 e f

user_text : Carries payload 40 (text sa)
unfolding string_of units_of runes utf16_encode units_le u16_at slice
user_text = located fields_header (0x22 ∷ 0xA5 ∷ []) 2 refl refl refl refl

password_text : Carries payload 44 (map obfuscate (text (0x78 ∷ [])))
unfolding string_of units_of runes utf16_encode units_le u16_at slice obfuscate
password_text = located (fields_header ++ (0x73 ∷ 0 ∷ 0x61 ∷ 0 ∷ [])) [] 1 refl refl refl refl

Zeros : List ℕ → Type 0
Zeros [] = Unit
Zeros (p ∷ ps) = (u16_at payload p ≡ ok 0) × ((u16_at payload (p + 2) ≡ ok 0) × Zeros ps)

all-Zeros : Zeros (36 ∷ 48 ∷ 52 ∷ 68 ∷ [])
unfolding Zeros u16_at slice
all-Zeros = (refl, (refl, (refl, (refl, (refl, (refl, (refl, (refl, tt))))))))

parse_login7-Carries_example :
    parse_login7 payload
    ≡ ok (record {
      host_name = string_of [];
      user_name = string_of sa;
      password = string_of (0x78 ∷ []);
      app_name = string_of [];
      server_name = string_of [];
      database = string_of [];
    })
parse_login7-Carries_example =
    parse_login7-Carries payload [] sa (0x78 ∷ []) [] [] [] (omega arith) tt (refl, (refl, tt))
      (refl, tt) tt tt tt host user_text password_text app server db
  where
    host : Carries payload 36 (text [])
    host = unfold Zeros in no_text 36 (all-Zeros).0 (all-Zeros).1.0

    app : Carries payload 48 (text [])
    app = unfold Zeros in no_text 48 (all-Zeros).1.1.0 (all-Zeros).1.1.1.0

    server : Carries payload 52 (text [])
    server = unfold Zeros in no_text 52 (all-Zeros).1.1.1.1.0 (all-Zeros).1.1.1.1.1.0

    db : Carries payload 68 (text [])
    db = unfold Zeros in no_text 68 (all-Zeros).1.1.1.1.1.1.0 (all-Zeros).1.1.1.1.1.1.1.0
