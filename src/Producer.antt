-- ===== src/Producer.antt =====
-- sw/stage4_watchdog/src/tasks/task_producer.c: the task that takes a sample on each tick of the timer
-- and writes it to the log. What the timer, the clock, the XADC, the mutex and the queue answer in
-- one pass is an argument.
pub mod Counts
pub mod Doorbell
pub mod Effects
pub mod Extremes
pub mod Timer
mod Tests
use mathlib.Core.Option
use zybo_rtos_sensor_aggrega.Rtos
use zybo_rtos_sensor_aggrega.Rtos.{Kernel, TaskSpec, create_task}
use zybo_rtos_sensor_aggrega.Prelude.{
  ℕ, zero, suc, ◌+◌, ◌-◌, ◌^◌, Bool, true, false, ◌||◌, ◌&&◌, not, Option, none, some, List, ltb,
  ◌==◌, if◌then◌else◌, get_or, set, u8, u32, add32, sub64, bit_or,
}
use zybo_rtos_sensor_aggrega.Config.{app_stack_producer, app_prio_producer, app_log_write_wait_ms}
use zybo_rtos_sensor_aggrega.Sample.{
  XadcSample, SensorRecord, sensor_count, zero_sample, zero_record,
}
use zybo_rtos_sensor_aggrega.Message.{Msg, data_ready, send}
use zybo_rtos_sensor_aggrega.Xadc
use zybo_rtos_sensor_aggrega.Gpio
use zybo_rtos_sensor_aggrega.SensorLog
use zybo_rtos_sensor_aggrega.SensorLog.{SensorLog, LockEnv}
use zybo_rtos_sensor_aggrega.Watchdog
use zybo_rtos_sensor_aggrega.Watchdog.{Wdog}

-- `producer_cycle_t`.
pub record Cycle : Type 0 where
  pub read_time_us : ℕ
  pub write_time_us : ℕ
  pub missed_ticks : ℕ
  pub write_dropped : Bool
  pub doorbell_failed : Bool

-- `producer_stats_t`.
pub record Stats : Type 0 where
  pub timer_period_us : ℕ
  pub samples : ℕ
  pub overruns : ℕ
  pub timeouts : ℕ
  pub period_min_us : ℕ
  pub period_max_us : ℕ
  pub read_time_max_us : ℕ
  pub log_write_max_us : ℕ
  pub log_write_drops : ℕ
  pub doorbell_retries : ℕ
  pub sensor_min : XadcSample
  pub sensor_max : XadcSample

-- `s_stats`, and the locals of `producer_task` that live across passes.
pub record Producer : Type 0 where
  pub stats : Stats
  pub sample : SensorRecord
  pub prev_capture_us : ℕ  -- uint64_t
  pub log_was_empty : Bool
  pub doorbell_pending : Bool

-- The answers of the outside in one pass.
pub record PassEnv : Type 0 where
  pub pending_ticks : ℕ
  pub capture_us : ℕ
  pub xadc_ready : Bool
  pub xadc : Xadc.XadcPs
  pub gpio : Gpio.Gpio
  pub write_start_us : ℕ
  pub lock : LockEnv
  pub write_wait : ℕ
  pub write_end_us : ℕ
  pub queue_created : Bool
  pub queue_takes : Msg → Bool
  pub tick : ℕ

-- `s_stats` as `task_producer_create` leaves it, and the task as it enters its loop.
abbrev pub initial : ℕ → Producer
initial timer_period_us = record {
  stats = record {
    timer_period_us = timer_period_us;
    samples = 0;
    overruns = 0;
    timeouts = 0;
    period_min_us = 2 ^ 32 - 1;
    period_max_us = 0;
    read_time_max_us = 0;
    log_write_max_us = 0;
    log_write_drops = 0;
    doorbell_retries = 0;
    sensor_min = zero_sample;
    sensor_max = zero_sample;
  };
  sample = zero_record;
  prev_capture_us = 0;
  log_was_empty = false;
  doorbell_pending = false;
}

-- The loop of `producer_read_buttons`, with the number of buttons left.
pub buttons_from : Gpio.Gpio → ℕ → ℕ → ℕ → ℕ
buttons_from g btn zero bits = bits
buttons_from g btn (suc left) bits =
    buttons_from g (btn + 1) left
      (if Gpio.btn_is_down btn g then u8 (bit_or bits (u8 (2 ^ btn))) else bits)

pub read_buttons : Gpio.Gpio → ℕ
read_buttons g = buttons_from g 0 Gpio.btn_count 0

-- The counters and the longest times.
pub note_cycle : Cycle → Stats → Stats
note_cycle cycle s = record s {
  samples = add32 s.samples 1;
  overruns = add32 s.overruns cycle.missed_ticks;
  read_time_max_us =
      if ltb s.read_time_max_us cycle.read_time_us then cycle.read_time_us else s.read_time_max_us;
  log_write_max_us =
      if ltb s.log_write_max_us cycle.write_time_us
      then cycle.write_time_us
      else s.log_write_max_us;
  log_write_drops = if cycle.write_dropped then add32 s.log_write_drops 1 else s.log_write_drops;
  doorbell_retries =
      if cycle.doorbell_failed then add32 s.doorbell_retries 1 else s.doorbell_retries;
}

-- The interval between two captures.
pub note_interval : ℕ → ℕ → Stats → Stats
note_interval capture_us prev_capture_us s =
    let interval_us = u32 (sub64 capture_us prev_capture_us) in
    if prev_capture_us == 0 then s else record s {
      period_min_us = if ltb interval_us s.period_min_us then interval_us else s.period_min_us;
      period_max_us = if ltb s.period_max_us interval_us then interval_us else s.period_max_us;
    }

-- The loop over the sensors, with the number of them left: the least codes and the greatest.
pub extremes_from : List ℕ → ℕ → ℕ → List ℕ × List ℕ → List ℕ × List ℕ
extremes_from codes sensor zero (lo, hi) = (lo, hi)
extremes_from codes sensor (suc left) (lo, hi) =
    let code = get_or codes sensor 0 in
    extremes_from codes (sensor + 1) left (
      (if ltb code (get_or lo sensor 0) then set lo sensor code else lo),
      (if ltb (get_or hi sensor 0) code then set hi sensor code else hi),
    )

pub note_extremes : XadcSample → Stats → Stats
note_extremes sensors s =
    let (lo, hi) =
      extremes_from sensors.raw_code 0 sensor_count
        (s.sensor_min.raw_code, s.sensor_max.raw_code) in
    if s.samples == 1
    then record s { sensor_min = sensors; sensor_max = sensors }
    else record s { sensor_min = record { raw_code = lo }; sensor_max = record { raw_code = hi } }

-- `producer_update_stats`.
pub update_stats : SensorRecord → ℕ → Cycle → Stats → Stats
update_stats r prev_capture_us cycle s =
    note_extremes r.sensors (note_interval r.capture_us prev_capture_us (note_cycle cycle s))

-- The sample that a pass takes: its `seq` goes up whatever becomes of it.
pub take_sample : PassEnv → SensorRecord → SensorRecord
take_sample env r = record {
  capture_us = env.capture_us;
  seq = add32 r.seq 1;
  sensors = Option.get_or (Xadc.read_all env.xadc_ready env.xadc (some r.sensors)) r.sensors;
  buttons = read_buttons env.gpio;
}

-- What a pass leaves: the task, the log, and whether the doorbell was rung.
pub record Outcome : Type 0 where
  pub producer : Producer
  pub log : SensorLog
  pub rang : Bool

-- A wait in which no tick arrived.
unfoldable pub timed_out : Producer → SensorLog → Outcome
timed_out p log = record {
  producer = record p { stats = record (p.stats) { timeouts = add32 p.stats.timeouts 1 } };
  log = log;
  rang = false;
}

-- What follows the write of sample `r`: `written` is its result, `log` what it left.
pub after_write : PassEnv → Producer → SensorRecord → Bool → Bool → SensorLog → Outcome
after_write env p r written log_was_empty log =
    let rang = written && (log_was_empty || p.doorbell_pending) in
    let failed = not (send env.queue_created env.queue_takes data_ready 0) in
    let cycle : Cycle = record {
      read_time_us = u32 (sub64 env.write_start_us env.capture_us);
      write_time_us = u32 (sub64 env.write_end_us env.write_start_us);
      missed_ticks = env.pending_ticks - 1;
      write_dropped = not written;
      doorbell_failed = rang && failed;
    } in
    record {
      producer = record {
        stats = update_stats r p.prev_capture_us cycle p.stats;
        sample = r;
        prev_capture_us = r.capture_us;
        log_was_empty = log_was_empty;
        doorbell_pending = if rang then failed else p.doorbell_pending;
      };
      log = log;
      rang = rang;
    }

-- One pass up to the check-in.
pub sample_pass : PassEnv → Producer → SensorLog → Outcome
sample_pass env p log =
    let r = take_sample env p.sample in
    let (written, was_empty, log') =
      SensorLog.write env.lock log (some r) env.write_wait (some p.log_was_empty) in
    if env.pending_ticks == 0
    then timed_out p log
    else after_write env p r written (Option.get_or was_empty p.log_was_empty) log'

-- One pass of `producer_task`'s loop; `none` is a task that hangs in its check-in.
pub pass : PassEnv → Producer → SensorLog → Wdog → Outcome × Option Wdog
pass env p log w =
    let out = sample_pass env p log in
    if env.pending_ticks == 0
    then (out, some w)
    else (out, Watchdog.checkin Watchdog.client_producer env.tick w)

pub get_stats : Producer → Option Stats → Option Stats
get_stats p none = none
get_stats p (some out) = some p.stats

pub sample_count : Producer → ℕ
sample_count p = p.stats.samples

-- `task_producer_create`: the calls and the result.
abbrev pub task : Kernel → TaskSpec
task k = record {
  name = "producer";
  stack_words = app_stack_producer;
  priority = app_prio_producer k.idle_priority;
}

pub create : Kernel → List Rtos.Call × Bool
create k = create_task k (task k)
