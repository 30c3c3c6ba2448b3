-- ===== src/Uptime/Exact.antt =====
-- The split of the timer count (system/uptime.c) into seconds and rest, against exact microseconds.
use native.Mathlib.Nat.{
  div-add-mod, mod-lt, mul-le-mul_right, mul-add-div, div-lt_iff_lt-mul, le-div_iff_mul-le,
}
use zybo_rtos_sensor_aggrega.Prelude.{ℕ, ◌+◌, ◌*◌, ◌/◌, ◌%◌, ◌^◌, ◌≤◌, ◌<◌, ◌≡◌, arith, u64}
use zybo_rtos_sensor_aggrega.Uptime.{uptime_us}

-- `uptime_us` is the count times 10^6 over the counts per second, rounded down, with no overflow for
-- any 64-bit count, if there are at least 2^20 and fewer than 2^29 counts to a second.
pub uptime_exact :
    (counts_per_sec counts : ℕ)
    → 2 ^ 20 ≤ counts_per_sec
    → counts_per_sec < 2 ^ 29
    → counts < 2 ^ 64
    → uptime_us counts_per_sec counts ≡ counts * 1000000 / counts_per_sec
unfolding uptime_us
uptime_exact c n low high fits =
    let pos : 0 < c = omega arith in
    let w = n / c in
    let r = n % c in
    let rest : r < c = mod-lt n pos in
    let whole : 2 ^ 20 * w ≤ c * w = mul-le-mul_right w low in
    let parts : c * w + r ≡ n = div-add-mod n c in
    let tail : r * 1000000 / c < 1000000 =
      (div-lt_iff_lt-mul {k = c} {x = r * 1000000} {y = 1000000} pos).1 (omega arith) in
    let split : n * 1000000 ≡ c * (w * 1000000) + r * 1000000 = omega arith in
    let e : u64 (w * 1000000) ≡ w * 1000000 = omega arith in
    let e' : u64 (r * 1000000) ≡ r * 1000000 = omega arith in
    rw (e, e', split, mul-add-div) (omega arith)

-- `uptime_us` never goes backwards as the 64-bit count grows, if there are at least 2^20 and fewer
-- than 2^29 counts to a second.
uptime_mono :
    (counts_per_sec counts counts' : ℕ)
    → 2 ^ 20 ≤ counts_per_sec
    → counts_per_sec < 2 ^ 29
    → counts ≤ counts'
    → counts' < 2 ^ 64
    → uptime_us counts_per_sec counts ≤ uptime_us counts_per_sec counts'
uptime_mono c n n' low high order fits =
    let pos : 0 < c = omega arith in
    let q = n * 1000000 / c in
    let below : q * c ≤ n * 1000000 =
      (le-div_iff_mul-le {k = c} {x = q} {y = n * 1000000} pos).0 (omega arith) in
    rw (uptime_exact c n low high (omega arith), uptime_exact c n' low high fits)
      ((le-div_iff_mul-le {k = c} {x = q} {y = n' * 1000000} pos).1 (omega arith))
