-- ===== src/Fault/Halt.antt =====
-- How long the fault handler waits, and what code it prints.
use Prim.Native.String.{String}
use zybo_rtos_sensor_aggrega.Prelude.{
  ℕ, zero, suc, ◌+◌, ◌-◌, ◌%◌, ◌^◌, ◌≤◌, ◌<◌, ◌≡◌, refl, ◌∙◌, false, not, some, List, [], ◌∷◌, ◌++◌,
  ltb, ◌==◌, if◌then◌else◌, length, sub64, arith,
}
use zybo_rtos_sensor_aggrega.Prelude.Int.{ℤ, pos, negsuc, pos_part, neg_part}
use zybo_rtos_sensor_aggrega.Spin.{spin_from_start}
use zybo_rtos_sensor_aggrega.Console
use zybo_rtos_sensor_aggrega.Console.Decimal.{parse, write_dec_lem, magnitude_of-lem}
use zybo_rtos_sensor_aggrega.Gpio
use zybo_rtos_sensor_aggrega.Gpio.{Gpio}
use zybo_rtos_sensor_aggrega.Fault.{
  Act, exception_disable, write, write_dec, led, report, blink, too_early, busy_wait_us,
}

-- The busy wait ends, with every fuel above `k`, if the reading `k` of a 64-bit clock that never goes behind
-- `start_us` is the delay or more behind it; it ends at the first reading that is.
busy_wait_us-ends :
    (delay_us start_us : ℕ) (reads : ℕ → ℕ) (k fuel : ℕ)
    → ((j : ℕ) → start_us ≤ reads j)
    → ((j : ℕ) → reads j < 2 ^ 64)
    → start_us + delay_us ≤ reads k
    → k < fuel
    → (n : ℕ) × (busy_wait_us delay_us start_us reads fuel ≡ some (n + 1))
      × (n ≤ k)
      × (start_us + delay_us ≤ reads n)
      × ((j : ℕ) → j < n → reads j < start_us + delay_us)
unfolding busy_wait_us
busy_wait_us-ends delay_us start_us reads k fuel forward fits late few =
    let elapsed : (j : ℕ) → sub64 (reads j) start_us ≡ reads j - start_us =
      λ j. omega (arith, forward j, fits j) in
    let ends : too_early start_us delay_us (reads k) ≡ false =
      ground (arith, elapsed k, late, forward k) in
    let (n, e, few', over, before) =
      spin_from_start (too_early start_us delay_us) reads k fuel ends few in
    (
      n,
      e,
      few',
      ground (arith, elapsed n, over, forward n),
      λ j h. ground (arith, elapsed j, before j h, forward j),
    )

is_negative_lem : (code : ℤ) → Console.is_negative code ≡ ltb 0 (neg_part code)
is_negative_lem (pos n) = refl
is_negative_lem (negsuc n) = ground arith

-- A fault report masks the exceptions first and prints any 32-bit code in full: its sign, and digits that
-- read back as its magnitude, that of the least 32-bit value too.
report_lem :
    (what : String) (code : ℤ)
    → pos_part code < 2 ^ 31
    → neg_part code ≤ 2 ^ 31
    → (n : ℕ) × (report what code
        ≡ exception_disable
          ∷ write "\n\nFATAL: "
          ∷ write what
          ∷ write " failed, code "
          ∷ ((if ltb 0 (neg_part code) then write "-" ∷ [] else []) ++ (write_dec n ∷ [])))
      × (n ≡ pos_part code + neg_part code)
      × (parse 0 (Console.write_dec n) ≡ n)
unfolding report
report_lem what code hp hn =
    let (same, small) = magnitude_of-lem code hp hn in
    let (digits, short, back) = write_dec_lem (Console.magnitude_of code) (omega (arith, small)) in
    (Console.magnitude_of code, rw (← is_negative_lem code) refl, same, back)

-- The writes to the pin of the LED.
unfoldable pub written : List Act → ℕ
written [] = 0
written (led calls ∷ acts) = length calls + written acts
written (act ∷ acts) = written acts

toggle_lem :
    (g : Gpio)
    → ((Gpio.led_toggle g).1.led_on ≡ (if g.ready then not g.led_on else g.led_on))
      × ((Gpio.led_toggle g).1.ready ≡ g.ready)
      × (length (Gpio.led_toggle g).0 ≡ (if g.ready then 1 else 0))
unfolding Gpio.led_toggle Gpio.led_set
toggle_lem g = (ground arith, ground arith, ground arith)

-- The blinking after a fault: with the LED set up, each round turns it over, so after any number of rounds
-- it is as at the start or turned over, by turns; without it nothing is written.
blink_lem :
    (rounds : ℕ) (g : Gpio)
    → ((blink rounds g).1.led_on
        ≡ (if g.ready then if rounds % 2 == 0 then g.led_on else not g.led_on else g.led_on))
      × ((blink rounds g).1.ready ≡ g.ready)
      × (written (blink rounds g).0 ≡ (if g.ready then rounds else 0))
unfolding blink written
blink_lem zero g = (ground arith, refl, ground arith)
blink_lem (suc rounds) g =
    let (calls, g1) = Gpio.led_toggle g in
    let (on, ready, count) = blink_lem rounds g1 in
    let (on1, ready1, count1) = toggle_lem g in
    (ground (arith, on, on1, ready1), ready ∙ ready1, ground (arith, count, ready1, count1))
