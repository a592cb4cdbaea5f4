-- ===== src/Server/Negotiate.antt =====
-- server/server.go, `negotiateEncryption`: the answer to a PRELOGIN, whether TLS follows, and
-- whether the connection is refused.
mod Tests
use haystak_tds_spi.Base.{
  ℕ, zero, suc, ◌+◌, ◌-◌, ◌*◌, ◌/◌, ◌%◌, ◌^◌, ◌≤◌, ◌<◌, min, ◌≡◌, refl, sym, ap, ◌∙◌, subst, ◌≢◌,
  ◌↔◌, ◌⊎◌, inl, inr, Bool, true, false, not, ◌&&◌, ◌||◌, Option, none, some, List, [], ◌∷◌, ◌++◌,
  map, append_assoc, append-nil, arith, ltb, leb, ◌==◌, if◌then◌else◌, ltb→lt, lt→ltb, leb→le,
  le→leb, ltb_false→le, leb_false→lt, le→ltb_false, ==_iff, ==_refl, Bool-cases, Option-cases,
  length, get_elem?, get_or, take, drop, replicate, length-append, take-append-drop, length-take,
  length-drop, take_append, drop_append, take_all, drop_all, drop-drop, length-replicate,
  length-map, Bytes, All, IsBytes, codes, All-append,
}
use haystak_tds_spi.Base.Result.{
  Result, ok, err, panic, no_fuel, ◌>>=◌, ◌>>◌, Returns, Yields, bind-eq-ok, Returns-bind,
}
use haystak_tds_spi.Wire.Prelogin.{
  Prelogin, PreloginError, parse_prelogin, encryption, encrypt_on, encrypt_not_sup, encrypt_req,
}
use haystak_tds_spi.Wire.Prelogin.Safety.{parse_prelogin-Returns}

pub data Refusal : Type 0 where
  prelogin_unreadable : PreloginError → Refusal
  client_without_tls : Refusal

-- the three results: the encryption to answer, `useTLS`, and the error
pub record Answer : Type 0 where
  pub reply : ℕ
  pub use_tls : Bool
  pub refused : Option Refusal

abbrev answer : ℕ → Bool → Option Refusal → Answer
answer reply use_tls refused = record { reply = reply; use_tls = use_tls; refused = refused }

-- `enc, ok := pl.Encryption(); wantsTLS := ok && enc != wire.EncryptNotSup`
unfoldable pub wants_tls : Prelogin → Bool
unfolding encryption
wants_tls pl = elim (encryption pl) [ none ↦ false | some enc ↦ not (enc == encrypt_not_sup) ]

-- behind `pl, perr := wire.ParsePrelogin(payload)`
negotiate_parsed : Bool → Result PreloginError Prelogin → Result ⊥ Answer
negotiate_parsed required (err perr) = ok (
    if required
    then answer encrypt_req false (some (prelogin_unreadable perr))
    else answer encrypt_not_sup false none)
negotiate_parsed required (ok pl) = ok (
    if wants_tls pl
    then (if required then answer encrypt_req true none else answer encrypt_on true none)
    else if required
    then answer encrypt_req false (some client_without_tls)
    else answer encrypt_not_sup false none)
negotiate_parsed required panic = panic
negotiate_parsed required no_fuel = no_fuel

pub negotiate_encryption : Bool → Bool → Bytes → Result ⊥ Answer
unfolding negotiate_parsed wants_tls
negotiate_encryption tls_configured allow_plaintext payload =
    if not tls_configured
    then ok (answer encrypt_not_sup false none)
    else negotiate_parsed (not allow_plaintext) (parse_prelogin payload)

parsed-Yields :
    (required : Bool) (parsed : Result PreloginError Prelogin) (P : Answer → Type 0)
    → Returns parsed
    → ((perr : PreloginError)
        → P (
            if required
            then answer encrypt_req false (some (prelogin_unreadable perr))
            else answer encrypt_not_sup false none))
    → ((pl : Prelogin)
        → parsed ≡ ok pl
        → P (
            if wants_tls pl
            then (if required then answer encrypt_req true none else answer encrypt_on true none)
            else if required
            then answer encrypt_req false (some client_without_tls)
            else answer encrypt_not_sup false none))
    → Yields P (negotiate_parsed required parsed)
unfolding negotiate_parsed
parsed-Yields required (ok pl) P r e k = k pl refl
parsed-Yields required (err perr) P r e k = e perr
parsed-Yields required panic P r e k = r
parsed-Yields required no_fuel P r e k = r

-- What a listener that requires encryption may answer: always ENCRYPT_REQ, and a session without
-- TLS only as a refusal.
abbrev pub FailsClosed : Answer → Type 0
FailsClosed a = (a.reply ≡ encrypt_req) × (a.refused ≡ none → a.use_tls ≡ true)

-- A listener with TLS configured that does not allow plaintext fails closed on every PRELOGIN,
-- readable or not: it answers ENCRYPT_REQ, and goes on only under TLS.
pub negotiate_encryption-FailsClosed :
    (payload : Bytes) → Yields FailsClosed (negotiate_encryption true false payload)
unfolding negotiate_encryption
negotiate_encryption-FailsClosed payload =
    parsed-Yields true (parse_prelogin payload) FailsClosed (parse_prelogin-Returns payload)
      (λ perr. (refl, λ h. cc)) (λ pl e. ground arith)

-- Where plaintext is allowed or TLS is not configured, no PRELOGIN is refused.
pub negotiate_encryption_lenient :
    (tls_configured allow_plaintext : Bool) (payload : Bytes)
    → (tls_configured ≡ false) ⊎ (allow_plaintext ≡ true)
    → Yields (λ a. a.refused ≡ none) (negotiate_encryption tls_configured allow_plaintext payload)
unfolding negotiate_encryption
negotiate_encryption_lenient false allow_plaintext payload h = refl
negotiate_encryption_lenient true false payload h = absurd (ground arith)
negotiate_encryption_lenient true true payload h =
    parsed-Yields false (parse_prelogin payload) (λ a. a.refused ≡ none)
      (parse_prelogin-Returns payload) (λ perr. refl) (λ pl e. ground arith)

-- The client asks for TLS: its PRELOGIN is readable and advertises any support of encryption.
abbrev pub asks_tls : Result PreloginError Prelogin → Bool
asks_tls (ok pl) = wants_tls pl
asks_tls _ = false

use_tls-parsed :
    (required : Bool) (parsed : Result PreloginError Prelogin)
    → Returns parsed
    → Yields (λ a. a.use_tls ≡ asks_tls parsed) (negotiate_parsed required parsed)
unfolding negotiate_parsed
use_tls-parsed required (ok pl) r = ground arith
use_tls-parsed required (err perr) r = ground arith
use_tls-parsed required panic r = r
use_tls-parsed required no_fuel r = r

-- TLS follows exactly where it is configured and the client asks for it.
pub use_tls-negotiate_encryption :
    (tls_configured allow_plaintext : Bool) (payload : Bytes)
    → Yields
        (λ a. a.use_tls ≡ (tls_configured && asks_tls (parse_prelogin payload)))
        (negotiate_encryption tls_configured allow_plaintext payload)
unfolding negotiate_encryption negotiate_parsed
use_tls-negotiate_encryption false allow_plaintext payload = refl
use_tls-negotiate_encryption true allow_plaintext payload =
    use_tls-parsed (not allow_plaintext) (parse_prelogin payload) (parse_prelogin-Returns payload)
