-- ===== src/Wire/Prelogin/Safety.antt =====
-- internal/wire/prelogin.go: `ParsePrelogin` on any payload.
use haystak_tds_spi.Base.{
  ℕ, zero, suc, ◌+◌, ◌≤◌, ◌<◌, inl, inr, ◌||◌, [], arith, ltb, leb, ◌==◌, if◌then◌else◌,
  ltb_false→le, leb_false→lt, Bool-cases, length, Bytes,
}
use haystak_tds_spi.Base.Result.{err, ◌>>=◌, Returns}
use haystak_tds_spi.Base.Dict.{Dict, nat_eq, insert}
use haystak_tds_spi.Base.Slices.{slice, index_ok, slice_ok}
use haystak_tds_spi.Wire.Prelogin.{PreloginError, parse_loop, parse_prelogin, data_out_of_range}

module _ (fuel : ℕ) (payload : Bytes) (i token : ℕ) (opts : Dict ℕ Bytes)
    (ih : (opts' : Dict ℕ Bytes) → Returns (parse_loop fuel payload (i + 5) opts')) where
  value-Returns :
      (off end : ℕ)
      → off ≤ end
      → Returns (
          if ltb (length payload) off || ltb (length payload) end
          then err data_out_of_range
          else (slice payload off end >>= λ value.
              parse_loop fuel payload (i + 5) (insert token value opts)))
  value-Returns off end h =
      elim (Bool-cases (ltb (length payload) off || ltb (length payload) end)) [
        | inl out ↦ rw out tt
        | inr within ↦
            rw
              (
                within,
                slice_ok payload off end h (let b : end ≤ length payload = ground arith in b),
              )
              (ih _)
      ]

-- The fuel is enough while it exceeds the bytes that are left of the table.
parse_loop-Returns :
    (fuel : ℕ) (payload : Bytes) (i : ℕ) (opts : Dict ℕ Bytes)
    → i ≤ length payload
    → length payload < fuel + i
    → Returns (parse_loop fuel payload i opts)
unfolding parse_loop
parse_loop-Returns zero payload i opts le h = absurd (omega arith)
parse_loop-Returns (suc fuel) payload i opts le h = elim (Bool-cases (leb (length payload) i)) [
  | inl past ↦ rw past tt
  | inr inside ↦
      let (token, e) =
        index_ok {E = PreloginError} payload i (leb_false→lt (length payload) i inside) in
      rw (inside, e)
        (elim (Bool-cases (token == 0xFF)) [
          | inl stop ↦ rw stop tt
          | inr more ↦ elim (Bool-cases (ltb (length payload) (i + 5))) [
            | inl cut ↦ rw (more, cut) tt
            | inr room ↦
                let fits : i + 5 ≤ length payload = ltb_false→le (length payload) (i + 5) room in
                rw
                  (
                    more,
                    room,
                    slice_ok payload (i + 1) (i + 3) (omega arith) (omega arith),
                    slice_ok payload (i + 3) (i + 5) (omega arith) (omega arith),
                  )
                  (value-Returns fuel payload i token opts
                    (λ o. parse_loop-Returns fuel payload (i + 5) o fits (omega arith)) _ _
                    (omega arith))
          ]
        ])
]

-- `ParsePrelogin` comes back on every payload, with options or with an error: no index and no slice
-- is out of range, and the loop ends.
pub parse_prelogin-Returns : (payload : Bytes) → Returns (parse_prelogin payload)
unfolding parse_prelogin
parse_prelogin-Returns payload =
    parse_loop-Returns (suc (length payload)) payload 0 [] (omega arith) (omega arith)
