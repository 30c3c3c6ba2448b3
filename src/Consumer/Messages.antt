-- ===== src/Consumer/Messages.antt =====
-- The messages of the consumer, and one pass of its loop.
pub mod Handling
use Prim.Native.String.{String}
use mathlib.Core.Option
use zybo_rtos_sensor_aggrega.Prelude.{
  ℕ, zero, suc, ◌+◌, ◌/◌, ◌%◌, Bool, true, false, not, Option, none, some, List, [], ◌∷◌, ◌++◌, ltb,
  leb, ◌==◌, if◌then◌else◌, get_or, u32, ◌≡◌, refl, arith,
}
use zybo_rtos_sensor_aggrega.Config.{
  app_sample_rate_hz, app_slow_stream_divider, app_consumer_queue_len,
}
use zybo_rtos_sensor_aggrega.Sample.{SensorRecord, XadcSample, zero_record, sensor_count}
use zybo_rtos_sensor_aggrega.Message.{
  Msg, MsgId, data_ready, report, stream_toggle, rate_toggle, pause_toggle, print_newest, stats,
  help, unknown_key, wdt_test,
}
use zybo_rtos_sensor_aggrega.Ring.{RingBuffer}
use zybo_rtos_sensor_aggrega.Xadc
use zybo_rtos_sensor_aggrega.SensorLog
use zybo_rtos_sensor_aggrega.SensorLog.{SensorLog, LockEnv, LogStats}
use zybo_rtos_sensor_aggrega.Producer
use zybo_rtos_sensor_aggrega.Watchdog
use zybo_rtos_sensor_aggrega.Watchdog.{Wdog, WdogStats}
use zybo_rtos_sensor_aggrega.Consumer
use zybo_rtos_sensor_aggrega.Consumer.{
  State, World, Out, write, printf, led, wait_tx_idle, num, str, time_prefix, fmt_sensor,
  print_sample_line, drain_log, check_stall,
}
use zybo_rtos_sensor_aggrega.Consumer.Report.{
  Diagnostics, print_help, run_wdt_test, print_report, print_newest_sample, print_stats,
}

-- What answers one message.
pub record MsgEnv : Type 0 where
  pub lock : LockEnv
  pub read_wait : ℕ
  pub diagnostics : Diagnostics
  pub wdt_running : Bool

-- `consumer_handle_msg`; `none` is the test that stops the task.
pub handle_msg : MsgEnv → Msg → World → List Out × Option World
handle_msg env msg w = elim (msg.id) [
  | data_ready ↦ ([], some w)
  | report ↦
      let (outs, w') = print_report env.lock env.read_wait env.diagnostics.prod_stats w in
      (outs, some w')
  | stream_toggle ↦
      let on = not w.state.stream_enabled in
      (
        printf "telemetry stream %s\n" (str (if on then "ON" else "OFF") ∷ []) ∷ [],
        some (record w { state = record (w.state) { stream_enabled = on } }),
      )
  | rate_toggle ↦
      let slow = not w.state.stream_slow in
      (
        printf "stream rate: %s\n" (str (if slow then "slow" else "every sample") ∷ []) ∷ [],
        some (record w { state = record (w.state) { stream_slow = slow } }),
      )
  | pause_toggle ↦
      let paused = not w.state.drain_paused in
      (
        printf "log reading %s\n"
              (str (if paused then "PAUSED - samples accumulate in the log" else "RESUMED") ∷ [])
            ∷ [],
        some (record w { state = record (w.state) { drain_paused = paused } }),
      )
  | print_newest ↦ let (outs, w') = print_newest_sample env.lock env.read_wait w in (outs, some w')
  | stats ↦ let (outs, w') = print_stats env.lock env.read_wait env.diagnostics w in (outs, some w')
  | help ↦ (print_help, some w)
  | unknown_key ↦ (printf "unknown command '%c', 'h' for help\n" (num msg.key ∷ []) ∷ [], some w)
  | wdt_test ↦ run_wdt_test env.wdt_running msg.key w
]

-- What answers one pass: `receive` is `xQueueReceive` with its wait, `queue_left` is
-- `uxQueueMessagesWaiting` after it.
pub record PassEnv : Type 0 where
  pub receive : ℕ → Option Msg
  pub queue_left : ℕ
  pub poll_ticks : ℕ
  pub msg_env : MsgEnv
  pub locks : ℕ → LockEnv
  pub batch : List SensorRecord
  pub stall_ticks : ℕ
  pub tick : ℕ
  pub now_us : ℕ
  pub producer_samples : ℕ

-- The most messages seen waiting at once, with the one just taken.
abbrev pub note_depth : ℕ → State → State
note_depth queue_left s =
    let depth = u32 (queue_left + 1) in
    if ltb s.queue_depth_peak depth then record s { queue_depth_peak = depth } else s

-- The wait for a message, and its handling.
unfoldable pub answer : PassEnv → Bool → World → List Out × Option World
answer env backlog_pending w = elim (env.receive (if backlog_pending then 0 else env.poll_ticks)) [
  | none ↦ ([], some w)
  | some msg ↦ handle_msg env.msg_env msg (record w { state = note_depth env.queue_left w.state })
]

-- One pass of `consumer_task`'s loop, and whether a backlog is pending; `none` is a task that stops.
unfoldable pub pass : PassEnv → Bool → World → List Out × Option (Bool × World)
pass env backlog_pending w =
    let (outs, answered) = answer env backlog_pending w in
    elim answered [
      | none ↦ (outs, none)
      | some w1 ↦
          let (again, outs2, w2) = drain_log env.locks env.msg_env.read_wait env.batch w1 in
          let (outs3, state) =
            check_stall env.stall_ticks env.tick env.now_us env.producer_samples w2.state in
          (
            outs ++ (outs2 ++ outs3),
            Option.map (λ (g : Wdog). (again, record w2 { state = state; wdog = g }))
                (Watchdog.checkin Watchdog.client_consumer env.tick w2.wdog),
          )
    ]

-- `consumer_task` up to its loop.
pub opening : Producer.Stats → ℕ → State → List Out × State
opening prod_stats now_tick s = (
  printf "scheduler running, sample period %lu us\n" (num prod_stats.timer_period_us ∷ [])
      ∷ print_help,
  record s { last_progress_tick = now_tick },
)

-- The state is then that of a task just created, its progress reckoned from now.
opening-initial :
    (prod_stats : Producer.Stats) (now_tick created_tick : ℕ)
    → (opening prod_stats now_tick (Consumer.initial created_tick)).1 ≡ Consumer.initial now_tick
unfolding opening
opening-initial prod_stats now_tick created_tick = refl
