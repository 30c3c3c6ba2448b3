-- ===== src/Uptime.antt =====
-- sw/stage4_watchdog/src/system/uptime.c: time since boot from the global timer. The count that
-- `XTime_GetTime` gives and `COUNTS_PER_SECOND` are arguments.
pub mod Exact
mod Tests
use zybo_rtos_sensor_aggrega.Prelude.{ℕ, ◌+◌, ◌*◌, ◌/◌, ◌%◌, Bool, not, ◌==◌, u32, u64}

-- Whether the timer counts after the short sleep that starts it.
pub init : ℕ → Bool
init counts = not (counts == 0)

pub uptime_us : ℕ → ℕ → ℕ
uptime_us counts_per_sec counts =
    let whole_sec = counts / counts_per_sec in
    let rem_counts = counts % counts_per_sec in
    u64 (u64 (whole_sec * 1000000) + u64 (rem_counts * 1000000) / counts_per_sec)

pub uptime_ms : ℕ → ℕ → ℕ
uptime_ms counts_per_sec counts = u32 (uptime_us counts_per_sec counts / 1000)
