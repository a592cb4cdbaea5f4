-- ===== src/Control/Waitfor.antt =====
-- internal/extensions/procedures/control/waitfor.go: `parseDelay`, `atoiOr` and `execWaitfor`. A
-- time.Duration is the 64 bits of its nanoseconds.
pub mod Bounds
use haystak_tds_spi.Base.{
  ℕ, ◌+◌, ◌-◌, ◌*◌, ◌%◌, ◌^◌, ◌≡◌, refl, ◌⊎◌, inl, inr, Bool, ◌||◌, Option, none, some, List, [],
  ◌∷◌, ltb, leb, ◌==◌, if◌then◌else◌, Bytes, codes,
}
use haystak_tds_spi.Go.Strings.{trim_space, split, within}
use haystak_tds_spi.Control.State.{Env, State, Run, Error, set_world}

abbrev pub second : ℕ
second = 1000000000

-- `maxWaitfor`
abbrev pub max_waitfor : ℕ
max_waitfor = 30 * second

-- the loop of `atoiOr`, in an int of 64 bits
unfoldable pub atoi_loop : ℕ → Bytes → ℕ
atoi_loop n [] = n
atoi_loop n (c ∷ s) =
    let rest = atoi_loop ((n * 10 + (c - b'0')) % 2 ^ 64) s in
    if within b'0' b'9' c then rest else n

-- `atoiOr`
unfoldable pub atoi_or : Bytes → ℕ
unfolding atoi_loop trim_space
atoi_or s = atoi_loop 0 (trim_space s)

unfoldable pub delay_of_parts : List Bytes → ℕ
unfolding atoi_or
delay_of_parts (h ∷ m ∷ s ∷ []) =
    (atoi_or h * (3600 * second) + atoi_or m * (60 * second) + atoi_or s * second) % 2 ^ 64
delay_of_parts _ = 0

-- `parseDelay`
unfoldable pub parse_delay : Bytes → ℕ
unfolding delay_of_parts split trim_space
parse_delay s = delay_of_parts (split b':' (trim_space s))

-- the duration of the timer, or none where it is not started; from 2 ^ 63 on a duration is negative
unfoldable pub timer_of : ℕ → Option ℕ
timer_of d =
    if d == 0 || leb (2 ^ 63) d
    then none
    else if ltb max_waitfor d
    then some max_waitfor
    else some d

module _ {Other World : Type 0} (env : Env Other World) where
  unfoldable pub waited :
      State Other World → Option Error × World → (Error ⊎ Unit {0}) × State Other World
  waited st (none, w) = (inr tt, set_world w st)
  waited st (some e, w) = (inl e, set_world w st)

  unfoldable pub wait : Option ℕ → Run Other World (Unit {0})
  unfolding waited
  wait none st = (inr tt, st)
  wait (some d) st = waited st (env.sleep d st.world)

  -- `execWaitfor`
  unfoldable pub exec_waitfor : Bool → Bytes → Run Other World (Unit {0})
  unfolding wait timer_of parse_delay
  exec_waitfor is_delay val st =
      if is_delay then wait (timer_of (parse_delay val)) st else (inr tt, st)

two_seconds : parse_delay (codes " 00:00:02 ") ≡ 2 * second
unfolding parse_delay
two_seconds = refl
