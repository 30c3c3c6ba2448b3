-- ===== src/SensorLog/Prepared.antt =====
-- The log that a successful `sensor_log_init` leaves.
use mathlib.Core.Option
use zybo_rtos_sensor_aggrega.Prelude.{ℕ, ◌≡◌, refl, ap, Bool, true, false, Option, some, arith}
use zybo_rtos_sensor_aggrega.Config.{app_log_capacity}
use zybo_rtos_sensor_aggrega.Ring
use zybo_rtos_sensor_aggrega.Ring.{RingBuffer, fresh, bad_capacity}
use zybo_rtos_sensor_aggrega.Ring.Refine.{init_eq}
use zybo_rtos_sensor_aggrega.SensorLog.{Status, ok, SensorLog, static_storage, init}

pub record Prepared (log : SensorLog) : Type 0 where
  pub ring : log.ring ≡ fresh static_storage app_log_capacity
  pub mutex : log.mutex ≡ true

abbrev is_ok : Status → Bool
is_ok ok = true
is_ok status = false

ring_accepts :
    (rb : RingBuffer)
    → Ring.init (some rb) (some static_storage) app_log_capacity
      ≡ (true, some (fresh static_storage app_log_capacity))
ring_accepts rb = init_eq rb static_storage app_log_capacity 12 refl (omega arith)

pub init-Prepared :
    (log : SensorLog) (storage_first : ℕ) (created : Bool)
    → (init log storage_first created).0 ≡ ok
    → Prepared (init log storage_first created).1
unfolding init
init-Prepared log storage_first created good =
    let e = ring_accepts log.ring in
    let taken = ap (λ (r : Bool × Option RingBuffer). r.0) e in
    let set_up = ap (λ (r : Bool × Option RingBuffer). Option.get_or r.1 log.ring) e in
    let fine = ap is_ok good in
    record { ring = ground (arith, fine, taken, set_up); mutex = ground (arith, fine, taken) }
