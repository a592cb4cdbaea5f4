-- ===== src/Wire/Login7/Fields.antt =====
-- internal/wire/login7.go: `ParseLogin7` and the fields of a payload.
use haystak_tds_spi.Base.{
  ℕ, ◌+◌, ◌-◌, ◌*◌, ◌≤◌, ◌≡◌, refl, sym, ap, inl, inr, List, [], ◌∷◌, ◌++◌, map, arith, ltb, ◌==◌,
  ltb_false→le, le→ltb_false, ==_iff, Bool-cases, length, take, drop, length-append, Bytes,
}
use haystak_tds_spi.Base.Result.{ok, Returns, Returns-bind}
use haystak_tds_spi.Base.Slices.{slice_ok, slice_at}
use haystak_tds_spi.Go.Binary.{le_value}
use haystak_tds_spi.Go.Utf.{string_of, units_le}
use haystak_tds_spi.Go.Utf.RoundTrip.{Scalars}
use haystak_tds_spi.Wire.Text.{units_of, ucs2-units_le}
use haystak_tds_spi.Wire.Login7.{
  LoginError, field_out_of_range, password_out_of_range, u16_at, field_bytes, str_field,
  password_field, parse_login7,
}
use haystak_tds_spi.Wire.Login7.Password.{obfuscate, decode_password-obfuscate}

-- The field whose two numbers stand at `pos` holds the bytes `b`: it is empty, or `b` lies in the
-- payload at its offset and has two bytes for each unit that it counts.
pub data Carries (payload : Bytes) (pos : ℕ) : Bytes → Type 0 where
  empty :
      (ib : ℕ)
      → u16_at payload pos ≡ ok ib
      → u16_at payload (pos + 2) ≡ ok 0
      → Carries payload pos []
  located :
      {b : Bytes} (before after : Bytes) (cch : ℕ)
      → u16_at payload pos ≡ ok (length before)
      → u16_at payload (pos + 2) ≡ ok cch
      → length b ≡ cch * 2
      → payload ≡ before ++ (b ++ after)
      → Carries payload pos b

field_bytes-Carries :
    {payload b : Bytes} {pos : ℕ} (bad : LoginError)
    → Carries payload pos b
    → field_bytes payload pos bad ≡ ok b
unfolding field_bytes
field_bytes-Carries bad (empty ib e f) = rw (e, f) refl
field_bytes-Carries {payload} {b} {pos} bad (located before after cch e f size cut) =
    elim (Bool-cases (cch == 0)) [
      | inl none_ ↦
          rw (e, f, none_) (ap ok (sym (nothing b (omega (arith, (==_iff cch 0).0 none_)))))
      | inr some_ ↦
          rw
            (
              e,
              f,
              some_,
              le→ltb_false (length payload) (length before + cch * 2) (
                  omega (
                    arith,
                    ap length cut,
                    length-append before (b ++ after),
                    length-append b after,
                  )),
            )
            (slice_at {E = LoginError} payload before b after (length before)
              (length before + cch * 2) cut refl (omega arith))
    ]
  where
    nothing : (b : Bytes) → length b ≡ 0 → b ≡ []
    nothing [] h = refl
    nothing (x ∷ b) h = absurd (omega arith)

abbrev pub text : List ℕ → Bytes
text rs = units_le (units_of (string_of rs))

str_field-Carries :
    {payload : Bytes} {pos : ℕ} (rs : List ℕ)
    → Scalars rs
    → Carries payload pos (text rs)
    → str_field payload pos ≡ ok (string_of rs)
unfolding str_field
str_field-Carries {pos = pos} rs s c =
    rw (field_bytes-Carries (field_out_of_range pos) c) (ap ok (ucs2-units_le rs s))

password_field-Carries :
    {payload : Bytes} (rs : List ℕ)
    → Scalars rs
    → Carries payload 44 (map obfuscate (text rs))
    → password_field payload ≡ ok (string_of rs)
unfolding password_field
password_field-Carries rs s c =
    rw (field_bytes-Carries password_out_of_range c) (ap ok (decode_password-obfuscate rs s))

-- `ParseLogin7` reads a LOGIN7 payload whose fields carry these texts, wherever in the payload they
-- lie: the password obfuscated, the rest as they are.
pub parse_login7-Carries :
    (payload : Bytes) (host user password app server db : List ℕ)
    → 72 ≤ length payload
    → Scalars host
    → Scalars user
    → Scalars password
    → Scalars app
    → Scalars server
    → Scalars db
    → Carries payload 36 (text host)
    → Carries payload 40 (text user)
    → Carries payload 44 (map obfuscate (text password))
    → Carries payload 48 (text app)
    → Carries payload 52 (text server)
    → Carries payload 68 (text db)
    → parse_login7 payload
      ≡ ok (record {
        host_name = string_of host;
        user_name = string_of user;
        password = string_of password;
        app_name = string_of app;
        server_name = string_of server;
        database = string_of db;
      })
unfolding parse_login7
parse_login7-Carries payload host user password app server db long h u p a s d ch cu cp ca cs cd =
    rw
      (
        le→ltb_false (length payload) 72 long,
        str_field-Carries host h ch,
        str_field-Carries user u cu,
        password_field-Carries password p cp,
        str_field-Carries app a ca,
        str_field-Carries server s cs,
        str_field-Carries db d cd,
      )
      refl

u16_at_ok :
    (payload : Bytes) (pos : ℕ) → pos + 2 ≤ length payload → (n : ℕ) × (u16_at payload pos ≡ ok n)
unfolding u16_at
u16_at_ok payload pos h = (
  le_value (take (pos + 2 - pos) (drop pos payload)),
  rw (slice_ok {E = LoginError} payload pos (pos + 2) (omega arith) h) refl,
)

field_bytes-Returns :
    (payload : Bytes) (pos : ℕ) (bad : LoginError)
    → pos + 4 ≤ length payload
    → Returns (field_bytes payload pos bad)
unfolding field_bytes
field_bytes-Returns payload pos bad h =
    let (ib, e) = u16_at_ok payload pos (omega arith) in
    let (cch, f) = u16_at_ok payload (pos + 2) (omega arith) in
    rw (e, f)
      (elim (Bool-cases (cch == 0)) [
        | inl none_ ↦ rw none_ tt
        | inr some_ ↦ elim (Bool-cases (ltb (length payload) (ib + cch * 2))) [
          | inl out ↦ rw (some_, out) tt
          | inr fits ↦
              rw
                (
                  some_,
                  fits,
                  slice_ok {E = LoginError} payload ib (ib + cch * 2) (omega arith)
                      (ltb_false→le _ _ fits),
                )
                tt
        ]
      ])

str_field-Returns :
    (payload : Bytes) (pos : ℕ) → pos + 4 ≤ length payload → Returns (str_field payload pos)
unfolding str_field
str_field-Returns payload pos h =
    Returns-bind (field_bytes payload pos _) _ (field_bytes-Returns payload pos _ h) λ b e. tt

-- `ParseLogin7` comes back on every payload: no field is sliced out of range.
pub parse_login7-Returns : (payload : Bytes) → Returns (parse_login7 payload)
unfolding parse_login7 password_field
parse_login7-Returns payload = elim (Bool-cases (ltb (length payload) 72)) [
  | inl short ↦ rw short tt
  | inr long ↦
      let room : 72 ≤ length payload = ltb_false→le (length payload) 72 long in
      let str = λ (pos : ℕ) (h : pos + 4 ≤ 72). str_field-Returns payload pos (omega arith) in
      rw long (
        Returns-bind _ _ (str 36 (omega arith)) λ host e1.
          Returns-bind _ _ (str 40 (omega arith)) λ user e2.
            Returns-bind _ _
              (Returns-bind _ _ (field_bytes-Returns payload 44 password_out_of_range (omega arith))
                λ b e. tt)
              λ password e3. Returns-bind _ _ (str 48 (omega arith)) λ app e4.
                Returns-bind _ _ (str 52 (omega arith))
                  λ server e5. Returns-bind _ _ (str 68 (omega arith)) λ db e6. tt)
]
