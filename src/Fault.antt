-- ===== src/Fault.antt =====
-- sw/stage4_watchdog/src/system/fault.c, and the hooks of system/rtos_hooks.c: the last words of the firmware.
-- What they do comes out as a list of acts; the clock and whether the SWDT runs are arguments.
pub mod Halt
mod Tests
use Prim.Native.String.{String}
use mathlib.Core.Option
use zybo_rtos_sensor_aggrega.Prelude.{
  ℕ, zero, suc, Bool, Option, none, some, List, [], ◌∷◌, ◌++◌, ltb, if◌then◌else◌, sub64,
}
use zybo_rtos_sensor_aggrega.Prelude.Int.{ℤ}
use zybo_rtos_sensor_aggrega.Spin.{spin}
use zybo_rtos_sensor_aggrega.Console
use zybo_rtos_sensor_aggrega.Gpio
use zybo_rtos_sensor_aggrega.Gpio.{Gpio}

pub data Act : Type 0 where
  exception_disable : Act
  write : String → Act
  write_dec : ℕ → Act
  wait_tx_idle : Act
  uptime_init : Act
  led : List Gpio.Call → Act

-- `FAULT_BLINK_HALF_PERIOD_US`.
abbrev pub blink_half_period_us : ℕ
blink_half_period_us = 100_000

-- The condition of the loop in `fault_busy_wait_us`.
abbrev pub too_early : ℕ → ℕ → ℕ → Bool
too_early start_us delay_us now_us = ltb (sub64 now_us start_us) delay_us

-- `fault_busy_wait_us` with so many readings of the clock allowed: the number taken after the first.
pub busy_wait_us : ℕ → ℕ → (ℕ → ℕ) → ℕ → Option ℕ
busy_wait_us delay_us start_us reads fuel = spin (too_early start_us delay_us) reads 0 fuel

-- `fault_park` up to its endless loop.
pub park : Bool → List Act
park wdt_running =
    write (
      if wdt_running
      then "\nwaiting for the watchdog to reset the board\n"
      else "\nsystem halted\n")
    ∷ wait_tx_idle
    ∷ uptime_init
    ∷ []

-- So many rounds of that loop, the waits apart.
pub blink : ℕ → Gpio → List Act × Gpio
blink zero g = ([], g)
blink (suc rounds) g =
    let (calls, g1) = Gpio.led_toggle g in
    let (acts, g2) = blink rounds g1 in (led calls ∷ acts, g2)

-- What is done before `fault_park`.
pub report : String → ℤ → List Act
report what code =
    exception_disable
    ∷ write "\n\nFATAL: "
    ∷ write what
    ∷ write " failed, code "
    ∷ ((if Console.is_negative code then write "-" ∷ [] else [])
        ++ (write_dec (Console.magnitude_of code) ∷ []))

pub halt : String → ℤ → Bool → List Act
halt what code wdt_running = report what code ++ park wdt_running

pub halt_str : String → String → Bool → List Act
halt_str what detail wdt_running =
    exception_disable
    ∷ write "\n\nFATAL: "
    ∷ write what
    ∷ write ": "
    ∷ write detail
    ∷ park wdt_running

-- `vApplicationStackOverflowHook` and `vApplicationMallocFailedHook`.
pub stack_overflow_hook : Option String → Bool → List Act
stack_overflow_hook task_name wdt_running =
    halt_str "stack overflow in task" (Option.get_or task_name "?") wdt_running

pub malloc_failed_hook : Bool → List Act
malloc_failed_hook wdt_running =
    halt_str "heap exhausted" "pvPortMalloc() returned NULL" wdt_running
