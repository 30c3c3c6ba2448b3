-- ===== src/Producer/Timer/Start.antt =====
-- Whether the producer reaches its loop.
use zybo_rtos_sensor_aggrega.Prelude.{
  ℕ, ◌≡◌, refl, ap, ◌∙◌, Bool, false, some, List, [], ◌∷◌, if◌then◌else◌,
}
use zybo_rtos_sensor_aggrega.Prelude.Int.{pos}
use zybo_rtos_sensor_aggrega.Config.{app_sample_rate_hz}
use zybo_rtos_sensor_aggrega.Fault
use zybo_rtos_sensor_aggrega.SampleTimer
use zybo_rtos_sensor_aggrega.SampleTimer.{
  Status, Callback, SampleTimer, Call, Ttc, InitEnv, start_counter, init, start, period_of,
  period_us_of,
}
use zybo_rtos_sensor_aggrega.SampleTimer.Setup.{
  is_ok, first_failure, starts, starts-append, init_lem, init-leaves,
}
use zybo_rtos_sensor_aggrega.Producer.{initial}
use zybo_rtos_sensor_aggrega.Producer.Timer.{Entry, halted, looping, timer_code, after_init, enter}

-- How the task goes on, by the status.
abbrev pub entry_of : Status → ℕ → Bool → Entry
entry_of status period wdt_running =
    if is_ok status
    then looping (initial period)
    else halted (Fault.halt "sample timer init" (pos (timer_code status)) wdt_running)

after_init_lem :
    (wdt_running : Bool) (status : Status) (calls : List Call) (t : SampleTimer) (period : ℕ)
    → starts calls ≡ false
    → start t ≡ (if is_ok status then start_counter ∷ [] else [])
    → (if is_ok status then t.period_us else period) ≡ period
    → let (calls', t', entry) = after_init wdt_running status calls t in
      (entry ≡ entry_of status period wdt_running) × (starts calls' ≡ is_ok status) × (t' ≡ t)
unfolding after_init period_us_of
after_init_lem wdt_running SampleTimer.ok calls t period quiet started same = (
  ap (λ us. looping (initial us)) same,
  rw (starts-append calls (start t), quiet, started) refl,
  refl,
)
after_init_lem wdt_running SampleTimer.err_param calls t period quiet started same =
    (refl, quiet, refl)
after_init_lem wdt_running failed calls t period quiet started same = (refl, quiet, refl)

-- The producer reaches its loop exactly if the set-up of the timer succeeds; it then has the period of the
-- interval and prescaler chosen, and has started the counter. Otherwise it ends in `fault_halt`, with
-- the code of the first step that failed, and the counter is never started.
pub enter_lem :
    (c : Ttc) (env : InitEnv) (cb : Callback) (wdt_running : Bool) (t : SampleTimer)
    → let (calls, t', entry) = enter c env cb wdt_running t in
      let status = first_failure env app_sample_rate_hz (some cb) in
      let (interval, prescaler) = env.calc app_sample_rate_hz in
      (entry ≡ (
        if is_ok status
        then looping (initial (period_of c env.input_clock_hz interval prescaler))
        else halted (Fault.halt "sample timer init" (pos (timer_code status)) wdt_running)))
      × (starts calls ≡ is_ok status)
      × (t'.ready ≡ is_ok status)
unfolding enter
enter_lem c env cb wdt_running t =
    let (reported, started, _, _, period) = init_lem c env app_sample_rate_hz 0 cb t in
    let (quiet, ready) = init-leaves c env app_sample_rate_hz cb t in
    let (interval, prescaler) = env.calc app_sample_rate_hz in
    let us = period_of c env.input_clock_hz interval prescaler in
    let (status, calls, t') = init c env app_sample_rate_hz (some cb) t in
    let (entry, starting, kept) =
      after_init_lem wdt_running status calls t' us quiet started period in
    (
      entry ∙ ap (λ k. entry_of k us wdt_running) reported,
      starting ∙ ap is_ok reported,
      ap (λ (k : SampleTimer). k.ready) kept ∙ ready ∙ ap is_ok reported,
    )
