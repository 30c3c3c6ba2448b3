-- ===== src/SampleTimer/Tests.antt =====
-- The timer as the board has it: 10 Hz from 111.1 MHz.
use zybo_rtos_sensor_aggrega.Prelude.{◌+◌, ◌*◌, ◌/◌, ◌≡◌, refl, arith}
use zybo_rtos_sensor_aggrega.SampleTimer.{Ttc, period_of, clock_divisor}
use zybo_rtos_sensor_aggrega.SampleTimer.Period.{divides_by, period_exact}

abbrev ttc : Ttc
ttc = record { interval_mask = 0x01; ps_disable = 0x10 }

-- The period of 100 ms that sample_timer.h speaks of.
board_period : period_of ttc 111_111_115 43402 7 ≡ 100_000
unfolding period_of clock_divisor
board_period = refl

period_exact_example :
    period_of ttc 111_111_115 43402 7 ≡ (43402 + 1) * divides_by ttc 7 * 1000000 / 111_111_115
period_exact_example =
    period_exact ttc 111_111_115 43402 7 (omega arith) (omega arith) (omega arith)
