-- ===== src/Consumer/Messages/Handling.antt =====
-- What a message changes, and what it leaves alone.
use mathlib.Core.Option
use zybo_rtos_sensor_aggrega.Prelude.{ℕ, ◌≡◌, refl, ap, Bool, not, arith}
use zybo_rtos_sensor_aggrega.Message.{
  Msg, MsgId, data_ready, report, stream_toggle, rate_toggle, pause_toggle, print_newest, stats,
  help, unknown_key, wdt_test,
}
use zybo_rtos_sensor_aggrega.Sample.{zero_record}
use zybo_rtos_sensor_aggrega.SensorLog.{SensorLog}
use zybo_rtos_sensor_aggrega.SensorLog.Counters.{
  peek_newest-ring, get_stats-ring, peek_newest-mutex, get_stats-mutex,
}
use zybo_rtos_sensor_aggrega.Producer
use zybo_rtos_sensor_aggrega.Consumer.{State, World}
use zybo_rtos_sensor_aggrega.Consumer.Messages.{MsgEnv, handle_msg}
use zybo_rtos_sensor_aggrega.Consumer.Report.{
  run_wdt_test, get_newest, print_report, print_newest_sample, print_stats, no_log_stats,
}

-- The three switches after a message.
abbrev pub switched : MsgId → State → State
switched stream_toggle s = record s { stream_enabled = not s.stream_enabled }
switched rate_toggle s = record s { stream_slow = not s.stream_slow }
switched pause_toggle s = record s { drain_paused = not s.drain_paused }
switched id s = s

-- The world after a message that the task survives.
abbrev pub handled : MsgEnv → Msg → World → World
handled env msg w = Option.get_or (handle_msg env msg w).1 w

newest_keeps :
    (env : MsgEnv) (w : World)
    → ((get_newest env.lock env.read_wait zero_record w).3.state ≡ w.state)
      × ((get_newest env.lock env.read_wait zero_record w).3.log.ring ≡ w.log.ring)
      × ((get_newest env.lock env.read_wait zero_record w).3.log.mutex ≡ w.log.mutex)
unfolding get_newest
newest_keeps env w = (
  refl,
  peek_newest-ring env.lock w.log zero_record env.read_wait,
  peek_newest-mutex env.lock w.log zero_record env.read_wait,
)

report_keeps :
    (env : MsgEnv) (p : Producer.Stats) (w : World)
    → (print_report env.lock env.read_wait p w).1
      ≡ (get_newest env.lock env.read_wait zero_record w).3
unfolding print_report
report_keeps env p w = ground arith

test_keeps :
    (running : Bool) (key : ℕ) (w : World)
    → ((Option.get_or (run_wdt_test running key w).1 w).state ≡ w.state)
      × ((Option.get_or (run_wdt_test running key w).1 w).log ≡ w.log)
unfolding run_wdt_test
test_keeps running key w = (ground arith, ground arith)

handled_by_id :
    (env : MsgEnv) (id : MsgId) (key : ℕ) (w : World)
    → ((handled env (record { id = id; key = key }) w).state ≡ switched id w.state)
      × ((handled env (record { id = id; key = key }) w).log.ring ≡ w.log.ring)
      × ((handled env (record { id = id; key = key }) w).log.mutex ≡ w.log.mutex)
unfolding handle_msg
handled_by_id env data_ready key w = (refl, refl, refl)
handled_by_id env report key w =
    rw (report_keeps env env.diagnostics.prod_stats w) (newest_keeps env w)
handled_by_id env stream_toggle key w = (refl, refl, refl)
handled_by_id env rate_toggle key w = (refl, refl, refl)
handled_by_id env pause_toggle key w = (refl, refl, refl)
handled_by_id env print_newest key w = unfold print_newest_sample in newest_keeps env w
handled_by_id env stats key w =
    unfold print_stats in
    (
      refl,
      get_stats-ring env.lock w.log no_log_stats env.read_wait,
      get_stats-mutex env.lock w.log no_log_stats env.read_wait,
    )
handled_by_id env help key w = (refl, refl, refl)
handled_by_id env unknown_key key w = (refl, refl, refl)
handled_by_id env wdt_test key w =
    let (state, log) = test_keeps env.wdt_running key w in
    (state, ap (λ (g : SensorLog). g.ring) log, ap (λ (g : SensorLog). g.mutex) log)

-- Whatever the message, of the consumer's state only the switch changes that it names, if it names one, and
-- no message takes a record out of the log or removes its mutex.
pub handle_msg_lem :
    (env : MsgEnv) (msg : Msg) (w : World)
    → ((handled env msg w).state ≡ switched msg.id w.state)
      × ((handled env msg w).log.ring ≡ w.log.ring)
      × ((handled env msg w).log.mutex ≡ w.log.mutex)
handle_msg_lem env msg w = handled_by_id env msg.id msg.key w
