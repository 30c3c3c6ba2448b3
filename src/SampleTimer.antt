-- ===== src/SampleTimer.antt =====
-- sw/stage4_watchdog/src/drivers/sample_timer.c: the TTC counter that wakes the producer. What XTtcPs
-- and the port of FreeRTOS answer is an argument; what is asked of them comes out as a list of calls.
pub mod Period
pub mod Setup
mod Tests
use zybo_rtos_sensor_aggrega.Prelude.{
  ℕ, ◌+◌, ◌*◌, ◌/◌, ◌^◌, Bool, true, false, ◌||◌, ◌&&◌, not, Option, none, some, List, [], ◌∷◌,
  ◌==◌, if◌then◌else◌, u32, u64, bit_and,
}
use zybo_rtos_sensor_aggrega.Watchdog.{is_none}

pub data Status : Type 0 where
  ok err_param err_lookup err_init err_rate err_irq err_busy : Status

-- What `XTtcPs_CfgInitialize` returns.
pub data XilStatus : Type 0 where
  success device_is_started failure : XilStatus

-- `sample_timer_cb_t` with its context, by their addresses.
pub record Callback : Type 0 where
  pub function : ℕ
  pub context : ℕ

-- The file's static variables, the instance of XTtcPs apart.
pub record SampleTimer : Type 0 where
  pub tick_cb : Option Callback
  pub period_us : ℕ
  pub ready : Bool

-- Calls of XTtcPs, of the port, and of the callback.
pub data Call : Type 0 where
  set_options : Call
  set_interval : ℕ → Call
  set_prescaler : ℕ → Call
  disable_interrupts : Call
  get_interrupt_status : Call
  clear_interrupt_status : ℕ → Call
  install_handler : Call
  enable_interrupts : Call
  enable_irq : Call
  start_counter : Call
  stop_counter : Call
  tick : Callback → Call

-- `TTC_PRESCALER_INVALID`.
abbrev pub ttc_prescaler_invalid : ℕ
ttc_prescaler_invalid = 0xff

abbrev pub usec_per_sec : ℕ
usec_per_sec = 1_000_000

-- The constants of xttcps.h.
pub record Ttc : Type 0 where
  pub interval_mask : ℕ
  pub ps_disable : ℕ

-- What answers `sample_timer_init`: `calc` is `XTtcPs_CalcIntervalFromFreq`.
pub record InitEnv : Type 0 where
  pub found : Bool
  pub initialized : XilStatus
  pub options_set : Bool
  pub calc : ℕ → ℕ × ℕ
  pub input_clock_hz : ℕ
  pub installed : Bool

-- `sample_timer_isr`; `irq_status` is what the interrupt status register reads.
unfoldable pub isr : Ttc → ℕ → SampleTimer → List Call
isr c irq_status t = get_interrupt_status ∷ clear_interrupt_status irq_status ∷ (elim t.tick_cb [
  | none ↦ []
  | some cb ↦ if bit_and irq_status c.interval_mask == 0 then [] else tick cb ∷ []
])

unfoldable pub clock_divisor : Ttc → ℕ → ℕ
clock_divisor c prescaler = if prescaler == c.ps_disable then 1 else u64 (2 * 2 ^ prescaler)

-- The period that an interval and a prescaler give, in µs.
unfoldable pub period_of : Ttc → ℕ → ℕ → ℕ → ℕ
period_of c clock_hz interval prescaler =
    u32 (u64 (u64 (u64 (interval + 1) * clock_divisor c prescaler) * usec_per_sec) / clock_hz)

-- The last steps of `sample_timer_init`, from the choice of a period on.
unfoldable pub set_up :
    Ttc → InitEnv → ℕ → Callback → SampleTimer → Status × List Call × SampleTimer
set_up c env rate_hz cb t =
    let (interval, prescaler) = env.calc rate_hz in
    let t' = record t {
      tick_cb = some cb;
      period_us = period_of c env.input_clock_hz interval prescaler;
    } in
    if prescaler == ttc_prescaler_invalid
    then (err_rate, set_options ∷ [], t)
    else if not env.installed
    then (
      err_irq,
      set_options
          ∷ set_interval interval
          ∷ set_prescaler prescaler
          ∷ disable_interrupts
          ∷ get_interrupt_status
          ∷ install_handler
          ∷ [],
      t',
    )
    else (
      ok,
      set_options
          ∷ set_interval interval
          ∷ set_prescaler prescaler
          ∷ disable_interrupts
          ∷ get_interrupt_status
          ∷ install_handler
          ∷ enable_interrupts
          ∷ enable_irq
          ∷ [],
      record t' { ready = true },
    )

-- `sample_timer_init`; `tick_cb` is `none` for NULL.
unfoldable pub init :
    Ttc → InitEnv → ℕ → Option Callback → SampleTimer → Status × List Call × SampleTimer
init c env rate_hz none t = (err_param, [], record t { ready = false })
init c env rate_hz (some cb) t =
    let idle = record t { ready = false } in
    if rate_hz == 0
    then (err_param, [], idle)
    else if not env.found
    then (err_lookup, [], idle)
    else elim (env.initialized) [
      | device_is_started ↦ (err_busy, [], idle)
      | failure ↦ (err_init, [], idle)
      | success ↦
          if not env.options_set
          then (err_init, set_options ∷ [], idle)
          else set_up c env rate_hz cb idle
    ]

unfoldable pub start : SampleTimer → List Call
start t = if t.ready then start_counter ∷ [] else []

pub stop : SampleTimer → List Call
stop t = if t.ready then stop_counter ∷ [] else []

unfoldable pub period_us_of : SampleTimer → ℕ
period_us_of t = t.period_us
