-- ===== src/System/Start.antt =====
-- The log at the start.
use zybo_rtos_sensor_aggrega.Prelude.{◌≤◌, ◌≡◌, refl, ap, sym, ◌∙◌, length, length-replicate, arith}
use zybo_rtos_sensor_aggrega.Config.{app_log_capacity}
use zybo_rtos_sensor_aggrega.Sample.{zero_record}
use zybo_rtos_sensor_aggrega.Ring.{fill}
use zybo_rtos_sensor_aggrega.Ring.Fifo.{Fifo}
use zybo_rtos_sensor_aggrega.Ring.Refine.{length-contents}
use zybo_rtos_sensor_aggrega.Ring.Trace
use zybo_rtos_sensor_aggrega.Ring.Trace.{Agrees, fresh-Agrees}
use zybo_rtos_sensor_aggrega.SensorLog.{static_storage}
use zybo_rtos_sensor_aggrega.System.{fresh_log}

static_storage-enough : app_log_capacity ≤ length static_storage
unfolding static_storage
static_storage-enough = omega (arith, length-replicate app_log_capacity zero_record)

pub fresh_log-Agrees : Agrees fresh_log.ring Trace.start
fresh_log-Agrees =
    fresh-Agrees static_storage app_log_capacity 12 static_storage-enough refl (omega arith)

pub fresh_log-fill : fill fresh_log.ring ≡ 0
fresh_log-fill =
    sym (length-contents fresh_log.ring) ∙ ap (λ (q : Fifo). length q.items) fresh_log-Agrees.same
