-- ===== src/Wdt.antt =====
-- sw/stage4_watchdog/src/drivers/wdt_drv.c: the choice of a prescaler and a reload value for the SWDT,
-- and its start and kicks. The calls of the Xilinx driver appear as a list, in order; whether its
-- lookup and initialisation succeed, and its clock, are arguments.
pub mod Timeout
pub mod Started
mod Tests
use zybo_rtos_sensor_aggrega.Prelude.{
  ℕ, ◌+◌, ◌*◌, ◌/◌, ◌^◌, Bool, true, false, not, Option, none, some, List, [], ◌∷◌, ltb, ◌==◌,
  if◌then◌else◌, u32, u64,
}

pub data Status : Type 0 where
  ok err_lookup err_init err_range : Status

-- Calls of XWdtPs. A prescaler is named by its divider, a reload value by its CRV.
pub data Call : Type 0 where
  stop : Call
  set_prescaler : ℕ → Call
  set_reload : ℕ → Call
  enable_reset : Call
  disable_irq : Call
  start_timer : Call
  restart : Call

-- The file's static variables.
pub record Wdt : Type 0 where
  pub ready : Bool
  pub running : Bool
  pub timeout_ms : ℕ

-- `WDT_CRV_MAX`.
abbrev pub crv_max : ℕ
crv_max = 0xfff

-- The dividers of `s_prescalers`.
abbrev pub prescalers : List ℕ
prescalers = 8 ∷ 64 ∷ 512 ∷ 4096 ∷ []

pub crv_of : ℕ → ℕ → ℕ → ℕ
crv_of timeout_ms clock_hz divider = u64 (timeout_ms * clock_hz) / u64 (1000 * divider) / 2 ^ 12

-- The loop: the smallest prescaler whose reload value fits.
pub choose : ℕ → ℕ → List ℕ → Option (ℕ × ℕ)
choose timeout_ms clock_hz [] = none
choose timeout_ms clock_hz (divider ∷ rest) =
    let crv = crv_of timeout_ms clock_hz divider in
    let others = choose timeout_ms clock_hz rest in
    if ltb crv_max crv then others else some (divider, crv)

-- The timeout that a prescaler and a reload value give, in ms.
pub actual_ms : ℕ → ℕ → ℕ → ℕ
actual_ms clock_hz divider crv =
    u32 (u64 (u64 (u64 ((crv + 1) * 2 ^ 12) * divider) * 1000) / clock_hz)

pub init : Bool → Bool → ℕ → ℕ → Wdt → Status × List Call × Wdt
init found configured clock_hz timeout_ms w =
    let idle = record w { ready = false } in
    if timeout_ms == 0
    then (err_range, [], idle)
    else if not found
    then (err_lookup, [], idle)
    else if not configured
    then (err_init, [], idle)
    else if clock_hz == 0
    then (err_init, [], idle)
    else elim (choose timeout_ms clock_hz prescalers) [
      | none ↦ (err_range, stop ∷ [], idle)
      | some (divider, crv) ↦ (
        ok,
        stop ∷ set_prescaler divider ∷ set_reload crv ∷ enable_reset ∷ disable_irq ∷ [],
        record w { ready = true; timeout_ms = actual_ms clock_hz divider crv },
      )
    ]

pub start : Wdt → List Call × Wdt
start w = if not w.ready then ([], w) else (start_timer ∷ restart ∷ [], record w { running = true })

pub kick : Wdt → List Call
kick w = if w.running then restart ∷ [] else []

pub is_running : Wdt → Bool
is_running w = w.running

pub timeout_ms_of : Wdt → ℕ
timeout_ms_of w = if w.running then w.timeout_ms else 0
