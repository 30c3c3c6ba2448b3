-- ===== src/Wdt/Timeout.antt =====
-- The timeout that the driver sets up, against the one that it is asked for.
use native.Mathlib.Nat.{le-div_iff_mul-le, mul-le-mul, mul-le-mul_right, div-lt_iff_lt-mul}
use zybo_rtos_sensor_aggrega.Prelude.{
  ℕ, ◌+◌, ◌-◌, ◌*◌, ◌/◌, ◌^◌, ◌≤◌, ◌<◌, ◌≡◌, ◌⊎◌, refl, ◌∙◌, Bool, true, Option, none, some, List,
  [], ◌∷◌, arith, u64,
}
use zybo_rtos_sensor_aggrega.Wdt.{
  ok, Call, stop, set_prescaler, set_reload, enable_reset, disable_irq, Wdt, crv_max, prescalers,
  crv_of, choose, actual_ms, init,
}

-- What the choice of a prescaler promises.
pub record Chosen (timeout_ms clock_hz divider crv : ℕ) : Type 0 where
  pub listed : (divider ≡ 8) ⊎ (divider ≡ 64) ⊎ (divider ≡ 512) ⊎ (divider ≡ 4096)
  pub reload : crv ≡ crv_of timeout_ms clock_hz divider
  pub fits : crv ≤ crv_max
  pub finest : (divider ≡ 8) ⊎ (crv_max < crv_of timeout_ms clock_hz (divider / 8))

choose-Chosen :
    (timeout_ms clock_hz divider crv : ℕ)
    → choose timeout_ms clock_hz prescalers ≡ some (divider, crv)
    → Chosen timeout_ms clock_hz divider crv
unfolding choose
choose-Chosen timeout_ms clock_hz divider crv e = record {
  listed = ground arith;
  reload = ground arith;
  fits = ground arith;
  finest = ground arith;
}

module _ (timeout_ms clock_hz divider crv : ℕ) (c : Chosen timeout_ms clock_hz divider crv)
    (asked : timeout_ms < 2 ^ 32) (slow : clock_hz < 2 ^ 32) (fast : 2 ^ 16 ≤ clock_hz) where
  -- The period of the SWDT in clock cycles times 1000.
  abbrev cycles : ℕ
  cycles = (crv + 1) * 4096 * divider * 1000

  pub divider_bounds : (8 ≤ divider) × (divider ≤ 4096)
  divider_bounds = omega (arith, c.listed)

  request_fits : timeout_ms * clock_hz < 2 ^ 64
  request_fits = omega (
    arith,
    mul-le-mul {n₁ = timeout_ms} {m₁ = clock_hz} {n₂ = 2 ^ 32 - 1} {m₂ = 2 ^ 32 - 1} (omega arith)
        (omega arith),
  )

  reload_lem : crv ≡ timeout_ms * clock_hz / (1000 * divider) / 4096
  unfolding crv_of
  reload_lem =
      let e : u64 (timeout_ms * clock_hz) ≡ timeout_ms * clock_hz = omega (arith, request_fits) in
      let e' : u64 (1000 * divider) ≡ 1000 * divider = omega (arith, divider_bounds) in
      c.reload ∙ rw (e, e') refl

  cycles_bounds :
      (timeout_ms * clock_hz < cycles)
      × (cycles ≤ timeout_ms * clock_hz + 4096000 * divider)
      × (cycles ≤ 4096 * 4096 * 4096 * 1000)
  cycles_bounds =
      let b = 1000 * divider in
      let n = timeout_ms * clock_hz in
      let q = n / b in
      let pos : 0 < b = omega (arith, divider_bounds) in
      let above : n < (q + 1) * b =
        (div-lt_iff_lt-mul {k = b} {x = n} {y = q + 1} pos).0 (omega arith) in
      let below : q * b ≤ n = (le-div_iff_mul-le {k = b} {x = q} {y = n} pos).0 (omega arith) in
      let up : (q + 1) * b ≤ (crv + 1) * 4096 * b =
        mul-le-mul_right b (omega (arith, reload_lem)) in
      let down : crv * 4096 * b ≤ q * b = mul-le-mul_right b (omega (arith, reload_lem)) in
      let top : (crv + 1) * divider ≤ 4096 * 4096 =
        mul-le-mul {n₁ = crv + 1} {m₁ = divider} {n₂ = 4096} {m₂ = 4096} (omega (arith, c.fits))
          (omega (arith, divider_bounds)) in
      (omega arith, omega arith, omega arith)

  actual_lem : actual_ms clock_hz divider crv ≡ cycles / clock_hz
  unfolding actual_ms
  actual_lem =
      let small = cycles_bounds.2 in
      let e : u64 ((crv + 1) * 2 ^ 12) ≡ (crv + 1) * 4096 = omega (arith, c.fits) in
      let e' : u64 ((crv + 1) * 4096 * divider) ≡ (crv + 1) * 4096 * divider =
        omega (arith, small) in
      let e'' : u64 ((crv + 1) * 4096 * divider * 1000) ≡ cycles = omega (arith, small) in
      let short : cycles / clock_hz < 2 ^ 32 =
        (div-lt_iff_lt-mul {k = clock_hz} {x = cycles} {y = 2 ^ 32} (omega arith)).1
          (omega (arith, small)) in
      rw (e, e', e'') (omega arith)

  timeout_bounds :
      (timeout_ms ≤ actual_ms clock_hz divider crv)
      × (actual_ms clock_hz divider crv * clock_hz ≤ timeout_ms * clock_hz + 4096000 * divider)
  timeout_bounds =
      let pos : 0 < clock_hz = omega arith in
      let q = cycles / clock_hz in
      let enough : timeout_ms ≤ q =
        (le-div_iff_mul-le {k = clock_hz} {x = timeout_ms} {y = cycles} pos).1
          (omega (arith, cycles_bounds)) in
      let over : q * clock_hz ≤ cycles =
        (le-div_iff_mul-le {k = clock_hz} {x = q} {y = cycles} pos).0 (omega arith) in
      rw actual_lem (enough, omega (arith, over, cycles_bounds))

-- `wdt_drv_init` that succeeds has asked for a timeout above 0 with a prescaler of the table and a
-- reload value that fits its 12 bits; with a clock of at least 2^16 Hz the timeout set up is never
-- shorter than the one asked for, and exceeds it by at most one reload step of 4096 prescaled cycles;
-- and no finer prescaler would have fitted.
pub init_timeout :
    (found configured : Bool) (clock_hz timeout_ms : ℕ) (w w' : Wdt) (calls : List Call)
    → timeout_ms < 2 ^ 32
    → clock_hz < 2 ^ 32
    → 2 ^ 16 ≤ clock_hz
    → init found configured clock_hz timeout_ms w ≡ (ok, calls, w')
    → (divider : ℕ) × (crv : ℕ) × Chosen timeout_ms clock_hz divider crv
      × (0 < timeout_ms)
      × (calls ≡ stop ∷ set_prescaler divider ∷ set_reload crv ∷ enable_reset ∷ disable_irq ∷ [])
      × (w'.ready ≡ true)
      × (timeout_ms ≤ w'.timeout_ms)
      × (w'.timeout_ms * clock_hz ≤ timeout_ms * clock_hz + 4096000 * divider)
init_timeout found configured clock_hz timeout_ms w w' calls asked slow fast e =
    go (choose timeout_ms clock_hz prescalers) refl
  where
    go :
        (o : Option (ℕ × ℕ))
        → choose timeout_ms clock_hz prescalers ≡ o
        → (divider : ℕ) × (crv : ℕ) × Chosen timeout_ms clock_hz divider crv
          × (0 < timeout_ms)
          × (calls
              ≡ stop ∷ set_prescaler divider ∷ set_reload crv ∷ enable_reset ∷ disable_irq ∷ [])
          × (w'.ready ≡ true)
          × (timeout_ms ≤ w'.timeout_ms)
          × (w'.timeout_ms * clock_hz ≤ timeout_ms * clock_hz + 4096000 * divider)
    go none n = absurd (unfold init in ground arith)
    go (some (divider, crv)) n =
        let c = choose-Chosen timeout_ms clock_hz divider crv n in
        let b = timeout_bounds timeout_ms clock_hz divider crv c asked slow fast in
        let set : w'.timeout_ms ≡ actual_ms clock_hz divider crv = unfold init in ground arith in
        (
          divider,
          crv,
          c,
          unfold init in ground arith,
          unfold init in ground arith,
          unfold init in ground arith,
          rw set b.0,
          rw set b.1,
        )

-- `wdt_drv_init` succeeds whenever the driver finds and initialises the device, the clock runs, and
-- the timeout is above 0 and fits the largest prescaler.
init_succeeds :
    (clock_hz timeout_ms : ℕ) (w : Wdt)
    → 0 < timeout_ms
    → 0 < clock_hz
    → crv_of timeout_ms clock_hz 4096 ≤ crv_max
    → (init true true clock_hz timeout_ms w).0 ≡ ok
unfolding init choose
init_succeeds clock_hz timeout_ms w pos runs fits = ground arith
