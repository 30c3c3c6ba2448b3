-- ===== src/SampleTimer/Period.antt =====
-- The period that the timer reports.
use zybo_rtos_sensor_aggrega.Prelude.{
  ℕ, suc, if◌then◌else◌, ◌+◌, ◌*◌, ◌/◌, ◌^◌, ◌≤◌, ◌<◌, ◌≡◌, inl, inr, refl, Bool-cases, ◌==◌, u64,
  arith,
}
use native.Mathlib.Nat.{pow-suc, one-le-pow, pow-le-pow_right, mul-le-mul, div-lt_iff_lt-mul}
use zybo_rtos_sensor_aggrega.SampleTimer.{Ttc, clock_divisor, period_of}

-- What the prescaler divides the clock by.
abbrev pub divides_by : Ttc → ℕ → ℕ
divides_by c prescaler = if prescaler == c.ps_disable then 1 else 2 ^ (prescaler + 1)

clock_divisor_lem :
    (c : Ttc) (prescaler : ℕ)
    → prescaler < 16
    → (clock_divisor c prescaler ≡ divides_by c prescaler) × (divides_by c prescaler ≤ 2 ^ 16)
unfolding clock_divisor
clock_divisor_lem c prescaler small =
    let power : 2 ^ (prescaler + 1) ≡ 2 * 2 ^ prescaler =
      let next : prescaler + 1 ≡ suc prescaler = omega arith in
      rw next (omega (arith, pow-suc 2 prescaler)) in
    let bound : 2 ^ (prescaler + 1) ≤ 2 ^ 16 =
      pow-le-pow_right {n = 2} (omega arith) {i = prescaler + 1} {j = 16} (omega arith) in
    let positive : 0 < 2 ^ prescaler = one-le-pow prescaler 2 (omega arith) in
    elim (Bool-cases (prescaler == c.ps_disable)) [
      | inl disabled ↦ rw disabled (refl, omega arith)
      | inr divides ↦ rw divides (omega (arith, power, bound), bound)
    ]

-- With an interval of 16 bits, a prescaler of 4 bits and a clock of at least 2^20 Hz nothing wraps: the
-- reported period is that of the counter, rounded down to a microsecond.
pub period_exact :
    (c : Ttc) (clock_hz interval prescaler : ℕ)
    → interval < 2 ^ 16
    → prescaler < 16
    → 2 ^ 20 ≤ clock_hz
    → period_of c clock_hz interval prescaler
      ≡ (interval + 1) * divides_by c prescaler * 1000000 / clock_hz
unfolding period_of
period_exact c clock_hz interval prescaler hi hp hc =
    let (e, d) = clock_divisor_lem c prescaler hp in
    let count : (interval + 1) * divides_by c prescaler ≤ 2 ^ 16 * 2 ^ 16 =
      mul-le-mul {n₂ = 2 ^ 16} {m₂ = 2 ^ 16} (omega arith) d in
    let e1 : u64 (interval + 1) ≡ interval + 1 = omega arith in
    let n = (interval + 1) * divides_by c prescaler in
    let e2 : u64 n ≡ n = omega (arith, count) in
    let e3 : u64 (n * 1000000) ≡ n * 1000000 = omega (arith, count) in
    let short : n * 1000000 / clock_hz < 2 ^ 32 =
      (div-lt_iff_lt-mul {k = clock_hz} {x = n * 1000000} {y = 2 ^ 32} (omega arith)).1
        (omega (arith, count)) in
    rw (e, e1, e2, e3) (omega (arith, short))
