-- ===== src/Config/Asserts.antt =====
-- The build-time checks of sw/stage4_watchdog/src on the configuration: those of main.c, of
-- datalog/sensor_log.c and of datalog/sensor_record.h. What the BSP settles is a parameter.
use zybo_rtos_sensor_aggrega.Prelude.{
  ℕ, ◌+◌, ◌-◌, ◌*◌, ◌/◌, ◌^◌, ◌≤◌, ◌≡◌, refl, Bool, not, ◌&&◌, leb, ltb, ◌==◌, bit_and, u32, arith,
  Option, none, some, true, false, List, [], ◌∷◌, max,
}
use zybo_rtos_sensor_aggrega.Sample.{sensor_count}
use zybo_rtos_sensor_aggrega.Config.{
  app_sample_rate_hz, app_sample_timeout_ms, app_log_capacity, app_log_write_wait_ms,
  app_log_read_batch, app_consumer_poll_ms, app_ui_scan_period_ms, app_wdt_timeout_ms,
  app_wdt_check_period_ms, app_wdt_limit_producer_ms, app_wdt_limit_ui_ms,
  app_wdt_limit_consumer_ms, app_prio_watchdog, app_prio_producer, app_prio_ui, app_prio_consumer,
}

-- `configMAX_PRIORITIES`, `tskIDLE_PRIORITY`, `pdMS_TO_TICKS`, and `configUSE_MUTEXES`, if it is defined.
pub record Kernel : Type 0 where
  pub max_priorities : ℕ
  pub idle_priority : ℕ
  pub ms_to_ticks : ℕ → ℕ
  pub use_mutexes : Option ℕ

pub priorities_fit : Kernel → Bool
priorities_fit k = ltb (app_prio_watchdog k.idle_priority) k.max_priorities

pub priorities_ordered : Kernel → Bool
priorities_ordered k =
    ltb (app_prio_producer k.idle_priority) (app_prio_watchdog k.idle_priority)
    && (ltb (app_prio_ui k.idle_priority) (app_prio_producer k.idle_priority)
        && ltb (app_prio_consumer k.idle_priority) (app_prio_ui k.idle_priority))

pub scan_ticks : Kernel → Bool
scan_ticks k = ltb 0 (k.ms_to_ticks app_ui_scan_period_ms)

pub timeout_ticks : Kernel → Bool
timeout_ticks k =
    ltb (k.ms_to_ticks (1000 / app_sample_rate_hz)) (k.ms_to_ticks app_sample_timeout_ms)

pub capacity_is_power : Bool
capacity_is_power =
    not (app_log_capacity == 0) && (bit_and app_log_capacity (app_log_capacity - 1) == 0)

pub batch_in_range : Bool
batch_in_range = ltb 0 app_log_read_batch && leb app_log_read_batch app_log_capacity

pub write_wait_short : Bool
write_wait_short = ltb (2 * app_log_write_wait_ms) (1000 / app_sample_rate_hz)

pub two_chances : Bool
two_chances = ltb (2 * app_wdt_check_period_ms) app_wdt_timeout_ms

pub limits_long : Bool
limits_long =
    leb (2 * app_wdt_check_period_ms) app_wdt_limit_producer_ms
    && leb (2 * app_wdt_check_period_ms) app_wdt_limit_ui_ms

pub consumer_limit_long : Bool
consumer_limit_long = ltb (4 * app_consumer_poll_ms) app_wdt_limit_consumer_ms

-- The checks of main.c.
pub main_checks : Kernel → Bool
unfolding priorities_fit priorities_ordered scan_ticks timeout_ticks capacity_is_power
    batch_in_range write_wait_short two_chances limits_long consumer_limit_long
main_checks k =
    priorities_fit k
    && (priorities_ordered k
        && (scan_ticks k
            && (timeout_ticks k
                && (capacity_is_power
                    && (batch_in_range
                        && (write_wait_short
                            && (two_chances && (limits_long && consumer_limit_long))))))))

-- The `#error` of sensor_log.c.
abbrev pub defined_as : ℕ → Option ℕ → Bool
defined_as n none = false
defined_as n (some value) = value == n

pub mutexes_used : Kernel → Bool
mutexes_used k = defined_as 1 k.use_mutexes

-- The size of a struct, each field, given by its size and alignment, at the next multiple of its alignment, and
-- the whole a multiple of the greatest.
abbrev pub round_up : ℕ → ℕ → ℕ
round_up n align = (n + (align - 1)) / align * align

pub struct_size : List (ℕ × ℕ) → ℕ → ℕ → ℕ
struct_size [] end align = round_up end align
struct_size ((size, field_align) ∷ fields) end align =
    struct_size fields (round_up end field_align + size) (max align field_align)

-- The check of sensor_record.h on `sensor_record_t`: a uint64_t, a uint32_t, an array of uint16_t and a uint8_t,
-- each aligned to its size.
pub record_size_kept : Bool
unfolding struct_size
record_size_kept = struct_size ((8, 8) ∷ (4, 4) ∷ (2 * sensor_count, 2) ∷ (1, 1) ∷ []) 0 1 == 32

-- All these checks hold.
pub builds : Kernel → Bool
builds k = main_checks k && (mutexes_used k && record_size_kept)

record_size : record_size_kept ≡ true
unfolding record_size_kept
record_size = refl

main_checks_lem :
    (k : Kernel) (tick_rate_hz : ℕ)
    → ((ms : ℕ) → k.ms_to_ticks ms ≡ u32 (ms * tick_rate_hz) / 1000)
    → tick_rate_hz ≤ 2 ^ 20
    → main_checks k ≡ (leb 100 tick_rate_hz && ltb (k.idle_priority + 5) k.max_priorities)
unfolding main_checks
main_checks_lem k tick_rate_hz documented slow =
    let scan : k.ms_to_ticks 10 ≡ 10 * tick_rate_hz / 1000 = omega (arith, documented 10) in
    let period : k.ms_to_ticks 100 ≡ 100 * tick_rate_hz / 1000 = omega (arith, documented 100) in
    let timeout : k.ms_to_ticks 300 ≡ 300 * tick_rate_hz / 1000 = omega (arith, documented 300) in
    ground (arith, scan, period, timeout)

-- Where `pdMS_TO_TICKS` is FreeRTOS's own, a 32-bit product divided by 1000, and the tick rate is at most
-- 2^20 Hz, the configuration passes the checks of main.c, sensor_log.c and sensor_record.h exactly if
-- the tick rate is at least 100 Hz, so that the UI's scan period is a tick, `configMAX_PRIORITIES` is
-- greater than the idle task's priority plus five, and `configUSE_MUTEXES` is defined as 1.
pub builds_lem :
    (k : Kernel) (tick_rate_hz : ℕ)
    → ((ms : ℕ) → k.ms_to_ticks ms ≡ u32 (ms * tick_rate_hz) / 1000)
    → tick_rate_hz ≤ 2 ^ 20
    → builds k ≡ (
        leb 100 tick_rate_hz
        && (ltb (k.idle_priority + 5) k.max_priorities && defined_as 1 k.use_mutexes))
unfolding builds mutexes_used
builds_lem k tick_rate_hz documented slow =
    let main = main_checks_lem k tick_rate_hz documented slow in ground (arith, main, record_size)
