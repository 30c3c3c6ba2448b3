-- ===== src/SampleTimer/Setup.antt =====
-- What `sample_timer_init` reports and leaves.
use zybo_rtos_sensor_aggrega.Prelude.{
  ℕ, ◌≡◌, refl, Bool, true, false, ◌||◌, not, Option, none, some, List, [], ◌∷◌, ◌++◌, ◌==◌,
  if◌then◌else◌, bit_and, arith,
}
use zybo_rtos_sensor_aggrega.SampleTimer.{
  Status, ok, err_param, err_lookup, err_init, err_rate, err_irq, err_busy, success,
  device_is_started, failure, Callback, SampleTimer, Call, start_counter, stop_counter, tick,
  get_interrupt_status, clear_interrupt_status, ttc_prescaler_invalid, Ttc, InitEnv, isr, set_up,
  init, start, stop, period_of,
}

abbrev pub is_ok : Status → Bool
is_ok ok = true
is_ok status = false

-- The status of the first step that fails.
abbrev pub first_failure : InitEnv → ℕ → Option Callback → Status
first_failure env rate_hz none = err_param
first_failure env rate_hz (some cb) =
    if rate_hz == 0
    then err_param
    else if not env.found
    then err_lookup
    else elim (env.initialized) [
      | device_is_started ↦ err_busy
      | failure ↦ err_init
      | success ↦
          if not env.options_set
          then err_init
          else if (env.calc rate_hz).1 == ttc_prescaler_invalid
          then err_rate
          else if not env.installed
          then err_irq
          else ok
    ]

-- What an interrupt does with a callback hooked up: it is acknowledged, and ticks if the interval has ended.
abbrev pub ticks : Ttc → ℕ → Callback → List Call
ticks c irq_status cb =
    get_interrupt_status
    ∷ clear_interrupt_status irq_status
    ∷ (if bit_and irq_status c.interval_mask == 0 then [] else tick cb ∷ [])

-- `sample_timer_init` with a callback reports the first step that fails; after it the timer can be started
-- and stopped exactly if it reported success, and then an interrupt calls this callback, if the interval
-- has ended, and the reported period is that of the interval and prescaler chosen.
pub init_lem :
    (c : Ttc) (env : InitEnv) (rate_hz irq_status : ℕ) (cb : Callback) (t : SampleTimer)
    → let (status, calls, t') = init c env rate_hz (some cb) t in
      let period = period_of c env.input_clock_hz (env.calc rate_hz).0 (env.calc rate_hz).1 in
      (status ≡ first_failure env rate_hz (some cb))
      × (start t' ≡ (if is_ok status then start_counter ∷ [] else []))
      × (stop t' ≡ (if is_ok status then stop_counter ∷ [] else []))
      × ((if is_ok status then isr c irq_status t' else ticks c irq_status cb)
          ≡ ticks c irq_status cb)
      × ((if is_ok status then t'.period_us else period) ≡ period)
unfolding init set_up start stop isr
init_lem c env rate_hz irq_status cb t =
    (ground arith, ground arith, ground arith, ground arith, ground arith)

-- Whether the counter is started.
abbrev pub starts : List Call → Bool
starts [] = false
starts (start_counter ∷ calls) = true
starts (call ∷ calls) = starts calls

pub starts-append : (xs ys : List Call) → starts (xs ++ ys) ≡ (starts xs || starts ys)
starts-append [] ys = refl
starts-append (x ∷ xs) ys =
    elim x as (λ (c : Call). starts ((c ∷ xs) ++ ys) ≡ (starts (c ∷ xs) || starts ys)) [
      | start_counter ↦ refl
      | _ ↦ starts-append xs ys
    ]

-- The set-up leaves the counter stopped, and the timer ready exactly if it succeeds.
pub init-leaves :
    (c : Ttc) (env : InitEnv) (rate_hz : ℕ) (cb : Callback) (t : SampleTimer)
    → let (status, calls, t') = init c env rate_hz (some cb) t in
      (starts calls ≡ false) × (t'.ready ≡ is_ok status)
unfolding init set_up
init-leaves c env rate_hz cb t = (ground arith, ground arith)
