-- ===== src/Uptime/Tests.antt =====
-- The clock at the 333 MHz rate of the board, 20 hours after boot.
use zybo_rtos_sensor_aggrega.Prelude.{◌*◌, ◌/◌, ◌≡◌, refl, arith}
use zybo_rtos_sensor_aggrega.Uptime.{uptime_us, uptime_ms}
use zybo_rtos_sensor_aggrega.Uptime.Exact.{uptime_exact}

twenty_hours : uptime_ms 333333343 (333333343 * 72000) ≡ 72000000
unfolding uptime_ms uptime_us
twenty_hours = refl

uptime_exact_example : uptime_us 333333343 24000000696123 ≡ 24000000696123 * 1000000 / 333333343
uptime_exact_example =
    uptime_exact 333333343 24000000696123 (omega arith) (omega arith) (omega arith)
