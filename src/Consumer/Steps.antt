-- ===== src/Consumer/Steps.antt =====
-- `consumer_task` of sw/stage4_watchdog/src/tasks/task_consumer.c, cut into steps at the places where it
-- lets the log go or may block.
pub mod Pass
pub mod Effects
pub mod Stepped
use mathlib.Core.Option
use zybo_rtos_sensor_aggrega.Prelude.{
  ℕ, zero, suc, ◌+◌, ◌-◌, Bool, true, false, not, Option, none, some, List, [], ◌∷◌, ◌++◌, ltb,
  if◌then◌else◌, add32,
}
use zybo_rtos_sensor_aggrega.Config.{app_log_read_batch, app_log_drain_batches_max}
use zybo_rtos_sensor_aggrega.Sample.{SensorRecord}
use zybo_rtos_sensor_aggrega.SensorLog
use zybo_rtos_sensor_aggrega.Watchdog
use zybo_rtos_sensor_aggrega.Watchdog.{Wdog}
use zybo_rtos_sensor_aggrega.Consumer.{World, Out, process_batch, check_stall}
use zybo_rtos_sensor_aggrega.Consumer.Messages
use zybo_rtos_sensor_aggrega.Consumer.Messages.{answer}

-- Where the consumer is: at its queue, with `backlog_pending`; in the loop over the batches, with its array
-- and the batches left; behind the drain, with its result; stopped for good.
pub data Phase : Type 0 where
  receiving : Bool → Phase
  reading : List SensorRecord → ℕ → Phase
  closing : Bool → Phase
  stopped : Phase

-- One step of `consumer_task`.
unfoldable pub step_at : Messages.PassEnv → Phase → World → List Out × Phase × World
step_at env (receiving backlog_pending) w =
    let (outs, answered) = answer env backlog_pending w in
    elim answered [
      | none ↦ (outs, stopped, w)
      | some w1 ↦ (
        outs,
        (if w1.state.drain_paused
            then closing false
            else reading env.batch app_log_drain_batches_max),
        w1,
      )
    ]
step_at env (reading batch zero) w = ([], closing true, w)
step_at env (reading batch (suc left)) w =
    let (got, filled, count, log) =
      SensorLog.read (env.locks (app_log_drain_batches_max - suc left)) w.log (some batch)
        app_log_read_batch env.msg_env.read_wait (some 0) in
    let (outs, w1) =
      process_batch (Option.get_or filled batch) 0 (Option.get_or count 0)
        (record w { log = log }) in
    if not got
    then (
      [],
      closing true,
      record w {
        log = log;
        state = record (w.state) { log_lock_timeouts = add32 w.state.log_lock_timeouts 1 };
      },
    )
    else if ltb (Option.get_or count 0) app_log_read_batch
    then (outs, closing false, w1)
    else (outs, reading (Option.get_or filled batch) left, w1)
step_at env (closing again) w =
    let (outs, state) =
      check_stall env.stall_ticks env.tick env.now_us env.producer_samples w.state in
    elim (Watchdog.checkin Watchdog.client_consumer env.tick w.wdog) [
      | none ↦ (outs, stopped, record w { state = state })
      | some g ↦ (outs, receiving again, record w { state = state; wdog = g })
    ]
step_at env stopped w = ([], stopped, w)

-- Whether a step at the queue takes a message out.
abbrev pub takes : Messages.PassEnv → Phase → Bool
takes env (receiving backlog_pending) =
    not (Watchdog.is_none (env.receive (if backlog_pending then 0 else env.poll_ticks)))
takes env phase = false
