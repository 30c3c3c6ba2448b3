-- ===== src/Consumer.antt =====
-- sw/stage4_watchdog/src/tasks/task_consumer.c: the task that drains the log, answers messages and warns
-- of a stall. What it prints is a list of calls of the console; the mutex, the clock and the LED's
-- driver answer through arguments.
pub mod Drain
pub mod Counts
pub mod Backlog
pub mod Stall
pub mod Messages
pub mod Report
pub mod Steps
mod Tests
use Prim.Native.String.{String}
use mathlib.Core.Option
use zybo_rtos_sensor_aggrega.Rtos
use zybo_rtos_sensor_aggrega.Rtos.{Kernel, TaskSpec, create_task, queue_create}
use zybo_rtos_sensor_aggrega.Prelude.{
  ℕ, zero, suc, ◌+◌, ◌/◌, ◌%◌, ◌^◌, Bool, true, false, ◌||◌, ◌&&◌, not, Option, none, some, List,
  [], ◌∷◌, ◌++◌, ltb, leb, ◌==◌, if◌then◌else◌, get_or, u32, add32, sub32, bit_and,
}
use zybo_rtos_sensor_aggrega.Prelude.Int.{ℤ}
use zybo_rtos_sensor_aggrega.Config.{
  app_stack_consumer, app_prio_consumer, app_consumer_queue_len, app_sample_rate_hz,
  app_slow_stream_divider, app_heartbeat_samples, app_log_read_batch, app_log_drain_batches_max,
  app_stall_warn_ms,
}
use zybo_rtos_sensor_aggrega.Sample.{SensorRecord, zero_record, sensor_count}
use zybo_rtos_sensor_aggrega.Message
use zybo_rtos_sensor_aggrega.Message.{Msg}
use zybo_rtos_sensor_aggrega.Xadc
use zybo_rtos_sensor_aggrega.Gpio
use zybo_rtos_sensor_aggrega.SensorLog
use zybo_rtos_sensor_aggrega.SensorLog.{SensorLog, LockEnv}
use zybo_rtos_sensor_aggrega.Producer
use zybo_rtos_sensor_aggrega.Watchdog
use zybo_rtos_sensor_aggrega.Watchdog.{Wdog}

-- `consumer_state_t`.
pub record State : Type 0 where
  pub stream_enabled : Bool
  pub stream_slow : Bool
  pub drain_paused : Bool
  pub stall_reported : Bool
  pub received : ℕ
  pub last_seq : ℕ
  pub lost : ℕ
  pub log_lock_timeouts : ℕ
  pub queue_depth_peak : ℕ
  pub last_producer_samples : ℕ
  pub last_progress_tick : ℕ

-- `s_state` as `task_consumer_create` leaves it, and `now_tick` as the task enters its loop.
abbrev pub initial : ℕ → State
initial now_tick = record {
  stream_enabled = true;
  stream_slow = false;
  drain_paused = false;
  stall_reported = false;
  received = 0;
  last_seq = 0;
  lost = 0;
  log_lock_timeouts = 0;
  queue_depth_peak = 0;
  last_producer_samples = 0;
  last_progress_tick = now_tick;
}

-- An argument of `console_printf`; `fixed` is the text of `console_fmt_milli`.
pub data Arg : Type 0 where
  num : ℕ → Arg
  str : String → Arg
  fixed : ℤ → ℕ → Arg

-- What the task does outside its state.
pub data Out : Type 0 where
  write : String → Out
  printf : String → List Arg → Out
  led : List Gpio.Call → Out
  wait_tx_idle : Out

-- The consumer with what it shares.
pub record World : Type 0 where
  pub state : State
  pub log : SensorLog
  pub gpio : Gpio.Gpio
  pub wdog : Wdog

pub time_prefix : ℕ → Out
time_prefix time_us =
    let time_ms = time_us / 1000 in
    printf "[%6lu.%03lu] " (num (u32 (time_ms / 1000)) ∷ num (time_ms % 1000) ∷ [])

pub fmt_sensor : ℕ → ℕ → Arg
fmt_sensor sensor raw_code =
    fixed (Xadc.code_to_milli sensor raw_code) (if Xadc.is_temperature sensor then 2 else 3)

pub btn_level : SensorRecord → ℕ → ℕ
btn_level r btn = if bit_and r.buttons (2 ^ btn) == 0 then 0 else 1

pub print_sample_line : SensorRecord → List Out
print_sample_line r =
    time_prefix r.capture_us
    ∷ printf "#%-6lu T %s C | VCCINT %s V | VCCPINT %s V | BTN4 %u BTN5 %u\n" (
        num r.seq
        ∷ fmt_sensor 0 (get_or r.sensors.raw_code 0 0)
        ∷ fmt_sensor 1 (get_or r.sensors.raw_code 1 0)
        ∷ fmt_sensor 4 (get_or r.sensors.raw_code 4 0)
        ∷ num (btn_level r Gpio.btn4)
        ∷ num (btn_level r Gpio.btn5)
        ∷ [])
    ∷ []

-- The counters of one more record.
pub count_record : SensorRecord → State → State
count_record r s =
    let received = add32 s.received 1 in
    record s { received = received; last_seq = r.seq; lost = sub32 r.seq received }

-- Whether a record is printed.
pub prints : SensorRecord → State → Bool
prints r s = s.stream_enabled && (not s.stream_slow || r.seq % app_slow_stream_divider == 0)

-- `consumer_process_record`.
pub process_record : SensorRecord → World → List Out × World
process_record r w =
    let s = count_record r w.state in
    let (calls, gpio) = Gpio.led_toggle w.gpio in
    let blinks = s.received % app_heartbeat_samples == 0 in
    (
      (if blinks then led calls ∷ [] else []) ++ (if prints r s then print_sample_line r else []),
      record w { state = s; gpio = if blinks then gpio else w.gpio },
    )

-- The loop over a batch, from `idx` on, with the number of records left.
pub process_batch : List SensorRecord → ℕ → ℕ → World → List Out × World
process_batch batch idx zero w = ([], w)
process_batch batch idx (suc left) w =
    let (outs, w1) = process_record (get_or batch idx zero_record) w in
    let (outs', w2) = process_batch batch (idx + 1) left w1 in (outs ++ outs', w2)

-- The loop over the batches, with the number of them left; `locks` answers for each read, `batch` is the
-- array on the stack.
pub drain_from : (ℕ → LockEnv) → ℕ → List SensorRecord → ℕ → ℕ → World → Bool × List Out × World
drain_from locks lock_wait batch batch_num zero w = (true, [], w)
drain_from locks lock_wait batch batch_num (suc left) w =
    let (got, filled, count, log) =
      SensorLog.read (locks batch_num) w.log (some batch) app_log_read_batch lock_wait (some 0) in
    let (outs, w1) =
      process_batch (Option.get_or filled batch) 0 (Option.get_or count 0)
        (record w { log = log }) in
    let (again, outs', w2) =
      drain_from locks lock_wait (Option.get_or filled batch) (batch_num + 1) left w1 in
    if not got
    then (
      true,
      [],
      record w {
        log = log;
        state = record (w.state) { log_lock_timeouts = add32 w.state.log_lock_timeouts 1 };
      },
    )
    else if ltb (Option.get_or count 0) app_log_read_batch
    then (false, outs, w1)
    else (again, outs ++ outs', w2)

-- `consumer_drain_log`; the result asks for another pass.
pub drain_log : (ℕ → LockEnv) → ℕ → List SensorRecord → World → Bool × List Out × World
drain_log locks lock_wait batch w =
    if w.state.drain_paused
    then (false, [], w)
    else drain_from locks lock_wait batch 0 app_log_drain_batches_max w

-- `consumer_check_stall`, with `stall_ticks`, the tick and the time it reads, and the producer's count.
pub check_stall : ℕ → ℕ → ℕ → ℕ → State → List Out × State
check_stall stall_ticks now_tick now_us producer_samples s =
    if not (producer_samples == s.last_producer_samples)
    then (
      [],
      record s {
        last_producer_samples = producer_samples;
        last_progress_tick = now_tick;
        stall_reported = false;
      },
    )
    else if not s.stall_reported && leb stall_ticks (sub32 now_tick s.last_progress_tick)
    then (
      time_prefix now_us
          ∷ printf "WARN: producer has taken no sample for %u ms (last #%lu)\n"
              (num app_stall_warn_ms ∷ num producer_samples ∷ [])
          ∷ [],
      record s { stall_reported = true },
    )
    else ([], s)

-- `task_consumer_create`: the calls and the result; without the queue no task is created. The state that it
-- leaves is `initial`.
abbrev pub task : Kernel → TaskSpec
task k = record {
  name = "consumer";
  stack_words = app_stack_consumer;
  priority = app_prio_consumer k.idle_priority;
}

pub create : Kernel → List Rtos.Call × Bool
create k =
    let (calls, created) = create_task k (task k) in
    if not (k.queue_created app_consumer_queue_len)
    then (queue_create app_consumer_queue_len ∷ [], false)
    else (queue_create app_consumer_queue_len ∷ calls, created)
