-- ===== src/SensorLog.antt =====
-- sw/stage4_watchdog/src/datalog/sensor_log.c: the ring behind its mutex. What FreeRTOS and the clock
-- answer during one call is an argument: `take` is `xSemaphoreTake`, the two times are what
-- `uptime_us` returns on entry to and exit from the lock. `APP_TEST_LOG_HOLD_US` is 0, as configured.
pub mod Counters
pub mod Prepared
pub mod Laws
mod Tests
use mathlib.Core.Option
use zybo_rtos_sensor_aggrega.Prelude.{
  ℕ, ◌+◌, ◌-◌, ◌*◌, Bool, true, false, ◌||◌, ◌&&◌, not, Option, none, some, List, ltb, ◌==◌,
  if◌then◌else◌, replicate, u32, sub32, sub64,
}
use zybo_rtos_sensor_aggrega.Config.{app_log_capacity, board_ddr_base_addr, board_ddr_high_addr}
use zybo_rtos_sensor_aggrega.Sample.{SensorRecord, zero_record}
use zybo_rtos_sensor_aggrega.Ring
use zybo_rtos_sensor_aggrega.Ring.{RingBuffer, is_null}

pub data Status : Type 0 where
  ok err_not_ddr err_capacity err_no_mutex : Status

pub record LogStats : Type 0 where
  pub capacity : ℕ
  pub fill : ℕ
  pub fill_high_water : ℕ
  pub written : ℕ
  pub read : ℕ
  pub overwritten : ℕ
  pub lock_hold_max_us : ℕ

-- The file's static variables; `mutex` says whether `s_log_mutex` is not NULL.
pub record SensorLog : Type 0 where
  pub ring : RingBuffer
  pub lock_hold_max_us : ℕ
  pub mutex : Bool

-- The answers of the outside during one call.
pub record LockEnv : Type 0 where
  pub take : ℕ → Bool
  pub locked_at_us : ℕ
  pub unlocked_at_us : ℕ

-- `s_log_storage`, zeroed with the rest of `.bss`.
unfoldable pub static_storage : List SensorRecord
static_storage = replicate app_log_capacity zero_record

-- `sizeof(s_log_storage)`: 32 bytes to a record.
abbrev pub storage_bytes : ℕ
storage_bytes = app_log_capacity * 32

-- The time of the lock, or `none` where the mutex was not obtained.
pub lock : LockEnv → SensorLog → ℕ → Option ℕ
lock env log max_wait =
    if not log.mutex || not (env.take max_wait) then none else some env.locked_at_us

-- What of `sensor_log_unlock` outlives it: the longest hold.
pub unlock : LockEnv → SensorLog → ℕ → SensorLog
unlock env log locked_at_us =
    let held_us = u32 (sub64 env.unlocked_at_us locked_at_us) in
    if ltb log.lock_hold_max_us held_us then record log { lock_hold_max_us = held_us } else log

-- `storage_first` is where the linker put the array; `created` is whether the mutex was created.
pub init : SensorLog → ℕ → Bool → Status × SensorLog
init log storage_first created =
    let storage_last = u32 (storage_first + storage_bytes - 1) in
    let (accepted, ring) = Ring.init (some log.ring) (some static_storage) app_log_capacity in
    let log' = record log { ring = Option.get_or ring log.ring } in
    if ltb storage_first board_ddr_base_addr || ltb board_ddr_high_addr storage_last
    then (err_not_ddr, log)
    else if not accepted
    then (err_capacity, log')
    else if not created
    then (err_no_mutex, record log' { mutex = false })
    else (ok, record log' { mutex = true })

-- The three outputs, each only where its pointer is not NULL.
pub storage_info : ℕ → Option ℕ → Option ℕ → Option ℕ → Option ℕ × Option ℕ × Option ℕ
storage_info storage_first base_addr_out size_bytes_out capacity_out = (
  Option.map (λ _. storage_first) base_addr_out,
  Option.map (λ _. u32 storage_bytes) size_bytes_out,
  Option.map (λ _. app_log_capacity) capacity_out,
)

-- The result, `*was_empty_out`, and the log.
pub write :
    LockEnv → SensorLog → Option SensorRecord → ℕ → Option Bool → Bool × Option Bool × SensorLog
write env log none max_wait was_empty_out = (false, was_empty_out, log)
write env log (some r) max_wait was_empty_out = elim (lock env log max_wait) [
  | none ↦ (false, was_empty_out, log)
  | some locked_at_us ↦
      let was_empty = Ring.count (some log.ring) == 0 in
      let (dropped, ring) = Ring.push (some log.ring) (some r) in
      let log' = record log { ring = Option.get_or ring log.ring } in
      (true, Option.map (λ _. was_empty) was_empty_out, unlock env log' locked_at_us)
]

-- The result, `records_out`, `*count_out`, and the log.
pub read :
    LockEnv
    → SensorLog
    → Option (List SensorRecord)
    → ℕ
    → ℕ
    → Option ℕ
    → Bool × Option (List SensorRecord) × Option ℕ × SensorLog
read env log none max_records max_wait count_out = (false, none, count_out, log)
read env log (some out) max_records max_wait none = (false, some out, none, log)
read env log (some out) max_records max_wait (some n) = elim (lock env log max_wait) [
  | none ↦ (false, some out, some 0, log)
  | some locked_at_us ↦
      let (popped, out', ring) = Ring.pop (some log.ring) (some out) max_records in
      let log' = record log { ring = Option.get_or ring log.ring } in
      (true, out', some popped, unlock env log' locked_at_us)
]

pub peek_newest :
    LockEnv → SensorLog → Option SensorRecord → ℕ → Bool × Option SensorRecord × SensorLog
peek_newest env log none max_wait = (false, none, log)
peek_newest env log (some out) max_wait = elim (lock env log max_wait) [
  | none ↦ (false, some out, log)
  | some locked_at_us ↦
      let (found, out') = Ring.peek_newest (some log.ring) (some out) in
      (found, out', unlock env log locked_at_us)
]

pub stats_of : SensorLog → LogStats
stats_of log = record {
  capacity = log.ring.capacity;
  fill = Ring.count (some log.ring);
  fill_high_water = log.ring.fill_high_water;
  written = log.ring.head;
  read = sub32 log.ring.tail log.ring.overwritten;
  overwritten = log.ring.overwritten;
  lock_hold_max_us = log.lock_hold_max_us;
}

pub get_stats : LockEnv → SensorLog → Option LogStats → ℕ → Bool × Option LogStats × SensorLog
unfolding stats_of
get_stats env log none max_wait = (false, none, log)
get_stats env log (some out) max_wait = elim (lock env log max_wait) [
  | none ↦ (false, some out, log)
  | some locked_at_us ↦ (true, some (stats_of log), unlock env log locked_at_us)
]
