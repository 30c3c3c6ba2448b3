-- ===== src/Producer/Timer.antt =====
-- The producer's side of the sample timer: `producer_timer_tick_cb`, which the timer's interrupt calls, and the
-- start of `producer_task`, before its loop. The notification of FreeRTOS is a parameter.
pub mod Start
pub mod Ticks
mod Tests
use Prim.Native.String.{String}
use zybo_rtos_sensor_aggrega.Prelude.{
  ℕ, ◌+◌, Bool, true, false, Option, none, some, List, [], ◌∷◌, ◌++◌,
}
use zybo_rtos_sensor_aggrega.Prelude.Int.{ℤ, pos}
use zybo_rtos_sensor_aggrega.Config.{app_sample_rate_hz}
use zybo_rtos_sensor_aggrega.Rtos.{Notification}
use zybo_rtos_sensor_aggrega.Fault
use zybo_rtos_sensor_aggrega.SampleTimer
use zybo_rtos_sensor_aggrega.SampleTimer.{
  Status, Callback, SampleTimer, Ttc, InitEnv, tick, isr, period_us_of,
}
use zybo_rtos_sensor_aggrega.SensorLog.{SensorLog}
use zybo_rtos_sensor_aggrega.Producer.{Producer, PassEnv, initial, sample_pass}

-- The enumerators' values.
abbrev pub timer_code : Status → ℕ
timer_code SampleTimer.ok = 0
timer_code SampleTimer.err_param = 1
timer_code SampleTimer.err_lookup = 2
timer_code SampleTimer.err_init = 3
timer_code SampleTimer.err_rate = 4
timer_code SampleTimer.err_irq = 5
timer_code SampleTimer.err_busy = 6

-- What comes of the task before its loop: it ends in `fault_halt`, or it enters the loop.
pub data Entry : Type 0 where
  halted : List Fault.Act → Entry
  looping : Producer → Entry

-- What `sample_timer_init` reports decides; `wdt_running` is what `fault_halt` asks of the SWDT.
unfoldable pub after_init :
    Bool
    → Status
    → List SampleTimer.Call
    → SampleTimer
    → List SampleTimer.Call × SampleTimer × Entry
after_init wdt_running SampleTimer.ok calls t =
    (calls ++ SampleTimer.start t, t, looping (initial (period_us_of t)))
after_init wdt_running failed calls t =
    (calls, t, halted (Fault.halt "sample timer init" (pos (timer_code failed)) wdt_running))

-- `producer_task` up to its loop: the calls that the timer makes, the timer, and how the task goes on.
-- `tick_cb` is the address of `producer_timer_tick_cb`.
unfoldable pub enter :
    Ttc → InitEnv → Callback → Bool → SampleTimer → List SampleTimer.Call × SampleTimer × Entry
enter c env tick_cb wdt_running t =
    let (status, calls, t') = SampleTimer.init c env app_sample_rate_hz (some tick_cb) t in
    after_init wdt_running status calls t'

-- The timer's interrupt, with what its status register reads, or a pass of the loop.
pub data Event : Type 0 where
  interrupt : ℕ → Event
  pass : PassEnv → Event

module _ (n : Notification) where
  open n use {Value, give, take, cleared, count}

  -- `producer_timer_tick_cb`: whether a switch of tasks is asked for, and the notification.
  pub timer_tick_cb : Value → Bool × Value
  timer_tick_cb v = let (higher_prio_task_woken, v') = give v in (higher_prio_task_woken, v')

  -- The calls of the interrupt handler: those of the callback reach the producer.
  unfoldable pub answer_calls : List SampleTimer.Call → Value → Value
  answer_calls [] v = v
  answer_calls (tick cb ∷ calls) v = answer_calls calls (timer_tick_cb v).1
  answer_calls (call ∷ calls) v = answer_calls calls v

  -- The task in its loop, with the log, the timer, and its notification.
  pub record Ticking : Type 0 where
    pub producer : Producer
    pub log : SensorLog
    pub timer : SampleTimer
    pub notified : Value

  unfoldable pub step : Ttc → Event → Ticking → Ticking
  step c (interrupt irq_status) s = record s {
    notified = answer_calls (isr c irq_status s.timer) s.notified;
  }
  step c (pass env) s =
      let (pending_ticks, notified) = take s.notified in
      let out = sample_pass (record env { pending_ticks = pending_ticks }) s.producer s.log in
      record s { producer = out.producer; log = out.log; notified = notified }

  unfoldable pub run : Ttc → List Event → Ticking → Ticking
  run c [] s = s
  run c (e ∷ es) s = run c es (step c e s)
