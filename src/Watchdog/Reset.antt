-- ===== src/Watchdog/Reset.antt =====
-- From a hang to the reset of the board. The SWDT is a parameter: `up t` says that it has not reset the board by
-- time `t`, in ticks.
use native.Mathlib.Nat.{div-lt_iff_lt-mul, add-mul}
use zybo_rtos_sensor_aggrega.Prelude.{
  ℕ, suc, ◌+◌, ◌-◌, ◌*◌, ◌^◌, ◌≤◌, ◌<◌, ◌≡◌, ◌⊎◌, inl, inr, List, [], ◌∷◌, arith,
}
use zybo_rtos_sensor_aggrega.Watchdog.{Wdog}
use zybo_rtos_sensor_aggrega.Watchdog.Schedule.{
  Event, kicks, All, Hung, HangsOn, elapsed_ms, hang_is_caught,
}

-- One of the times.
abbrev pub One : (ℕ → Type 0) → List ℕ → Type 0
One P [] = ⊥
One P (t ∷ ts) = P t ⊎ One P ts

-- At most so many milliseconds from one time to the other.
abbrev pub Within : ℕ → ℕ → ℕ → ℕ → Type 0
Within hz ms t t' = (t' - t) * 1000 ≤ ms * hz

module _ (hz limit timeout_ms t0 : ℕ) (pos : 0 < hz) where
  add_up :
      (t t' : ℕ)
      → elapsed_ms hz t0 t ≤ limit
      → Within hz timeout_ms t t'
      → elapsed_ms hz t0 t' ≤ limit + timeout_ms
  add_up t t' early near =
      let until : (t - t0) * 1000 < suc limit * hz =
        (div-lt_iff_lt-mul {k = hz} {x = (t - t0) * 1000} {y = suc limit} pos).0 (omega arith) in
      let sum : (suc limit + timeout_ms) * hz ≡ suc limit * hz + timeout_ms * hz =
        add-mul (suc limit) timeout_ms hz in
      let short : elapsed_ms hz t0 t' < suc limit + timeout_ms =
        (div-lt_iff_lt-mul {k = hz} {x = (t' - t0) * 1000} {y = suc limit + timeout_ms} pos).1
          (omega (arith, sum)) in
      omega (arith, short)

  One-add_up :
      (t' : ℕ) (ts : List ℕ)
      → All (λ t. elapsed_ms hz t0 t ≤ limit) ts
      → One (λ t. Within hz timeout_ms t t') ts
      → elapsed_ms hz t0 t' ≤ limit + timeout_ms
  One-add_up t' [] all impossible = absurd impossible
  One-add_up t' (t ∷ ts) all (inl near) = add_up t t' all.0 near
  One-add_up t' (t ∷ ts) all (inr later) = One-add_up t' ts all.1 later

-- A client checks in for the last time at `t0` and then never again, and the SWDT resets the board unless it
-- was kicked within the last `timeout_ms`. Then the board is reset before more than the client's limit
-- and the time-out of the SWDT have passed since, whatever the other clients and the test commands do:
-- sooner by a check period than app_config.h promises. The supervisor wakes at least once a second; the
-- tick rate is at most 2^20 Hz, the limit under 2^16 ms. `prev` is when it kicked last before the events.
pub reset_in_time :
    (hz period limit : ℕ)
    → 0 < hz
    → hz ≤ 2 ^ 20
    → period ≤ hz
    → limit < 2 ^ 16
    → (client t0 prev timeout_ms : ℕ) (es : List Event) (w : Wdog) (up : ℕ → Type 0)
    → Hung client t0 limit w
    → t0 ≤ prev
    → elapsed_ms hz t0 prev ≤ limit
    → HangsOn client period prev es
    → ((t : ℕ) → up t → One (λ kicked. Within hz timeout_ms kicked t) (prev ∷ kicks hz w es))
    → (t : ℕ) → up t
    → elapsed_ms hz t0 t ≤ limit + timeout_ms
reset_in_time hz period limit pos fast often modest client t0 prev timeout_ms es w up h order early
      on documented t running =
    One-add_up hz limit timeout_ms t0 pos t (prev ∷ kicks hz w es)
      (
        early,
        hang_is_caught hz period limit pos fast often modest client t0 prev es w h order early on,
      )
      (documented t running)
