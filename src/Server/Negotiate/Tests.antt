-- ===== src/Server/Negotiate/Tests.antt =====
-- Runs of `negotiateEncryption`, and the properties at concrete inputs.
use haystak_tds_spi.Base.{◌≡◌, refl, true, false, some, [], ◌∷◌, Bytes}
use haystak_tds_spi.Base.Result.{ok, Yields}
use haystak_tds_spi.Wire.Prelogin.{parse_prelogin}
use haystak_tds_spi.Server.Negotiate.{
  FailsClosed, client_without_tls, negotiate_encryption, negotiate_encryption-FailsClosed,
  parse_prelogin,
}

-- a PRELOGIN with ENCRYPT_NOT_SUP
abbrev cleartext_client : Bytes
cleartext_client = 1 ∷ 0 ∷ 6 ∷ 0 ∷ 1 ∷ 255 ∷ 2 ∷ []

refused_run :
    negotiate_encryption true false cleartext_client
    ≡ ok (record { reply = 3; use_tls = false; refused = some client_without_tls })
unfolding negotiate_encryption parse_prelogin
refused_run = refl

negotiate_encryption-FailsClosed_example :
    Yields FailsClosed (negotiate_encryption true false cleartext_client)
negotiate_encryption-FailsClosed_example = negotiate_encryption-FailsClosed cleartext_client
