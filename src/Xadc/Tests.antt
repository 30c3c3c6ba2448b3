-- ===== src/Xadc/Tests.antt =====
-- Conversions of the XADC at concrete codes.
use zybo_rtos_sensor_aggrega.Prelude.{◌+◌, ◌*◌, ◌≤◌, ◌<◌, ◌≡◌, refl, arith}
use zybo_rtos_sensor_aggrega.Prelude.Int.{pos, negsuc, pos_part, neg_part}
use zybo_rtos_sensor_aggrega.Xadc.{code_to_milli}
use zybo_rtos_sensor_aggrega.Xadc.Milli.{gain, offset, code_to_milli-rounds}

-- 0x999 of the temperature sensor is 29.161 C, and 0 is below the freezing point.
warm : code_to_milli 0 0x999 ≡ pos 29161
unfolding code_to_milli
warm = refl

cold : code_to_milli 0 0 ≡ negsuc 273149
unfolding code_to_milli
cold = refl

code_to_milli-rounds_example :
    (4096 * (pos_part (code_to_milli 0 2457) + offset 0)
      ≤ 2457 * gain 0 + 2048 + 4096 * neg_part (code_to_milli 0 2457))
    × (2457 * gain 0 + 4096 * neg_part (code_to_milli 0 2457)
        < 4096 * (pos_part (code_to_milli 0 2457) + offset 0) + 2048)
code_to_milli-rounds_example = code_to_milli-rounds 0 2457 (omega arith) (omega arith)
