-- ===== src/Control/Waitfor/Bounds.antt =====
-- internal/extensions/procedures/control/waitfor.go: how long a WAITFOR can take.
use haystak_tds_spi.Base.{
  ℕ, ◌≤◌, ◌≡◌, refl, ap, Bool, true, false, Option, none, some, arith, if◌then◌else◌, Bytes,
}
use haystak_tds_spi.Control.State.{Env, State}
use haystak_tds_spi.Control.Waitfor.{exec_waitfor, wait, waited, timer_of, parse_delay, max_waitfor}

if-some :
    (P : ℕ → Type 0) (b : Bool) (x y : Option ℕ)
    → (b ≡ true → (d : ℕ) → x ≡ some d → P d)
    → (b ≡ false → (d : ℕ) → y ≡ some d → P d)
    → (d : ℕ) → (if b then x else y) ≡ some d
    → P d
if-some P true x y h k = h refl
if-some P false x y h k = k refl

timer_of_bounds : (v d : ℕ) → timer_of v ≡ some d → (1 ≤ d) × (d ≤ max_waitfor)
unfolding timer_of
timer_of_bounds v d h = ground (arith, h)

-- `execWaitfor` starts its timer for a nanosecond at least and 30 seconds at most: where two timers
-- agree on these durations, every WAITFOR does the same with either.
pub exec_waitfor_bounds :
    {Other World : Type 0} (env env' : Env Other World)
    → ((d : ℕ) (w : World) → 1 ≤ d → d ≤ max_waitfor → env.sleep d w ≡ env'.sleep d w)
    → (delay : Bool) (text : Bytes) (st : State Other World)
    → exec_waitfor env delay text st ≡ exec_waitfor env' delay text st
unfolding exec_waitfor wait waited
exec_waitfor_bounds env env' same false text st = refl
exec_waitfor_bounds env env' same true text st = agree (timer_of (parse_delay text)) refl
  where
    agree : (t : Option ℕ) → timer_of (parse_delay text) ≡ t → wait env t st ≡ wait env' t st
    agree none h = refl
    agree (some d) h =
        (let (lo, hi) = timer_of_bounds (parse_delay text) d h in
          ap (waited env st) (same d st.world lo hi))
