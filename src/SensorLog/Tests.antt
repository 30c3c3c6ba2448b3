-- ===== src/SensorLog/Tests.antt =====
-- A write to a log of two records while another task holds the mutex.
use zybo_rtos_sensor_aggrega.Prelude.{◌≡◌, refl, true, false, some, [], ◌∷◌}
use zybo_rtos_sensor_aggrega.Sample.{zero_record}
use zybo_rtos_sensor_aggrega.Ring
use zybo_rtos_sensor_aggrega.Ring.{RingBuffer}
use zybo_rtos_sensor_aggrega.SensorLog.{SensorLog, LockEnv, write, lock}

abbrev two_slots : RingBuffer
two_slots = Ring.fresh (zero_record ∷ zero_record ∷ []) 2

abbrev small_log : SensorLog
small_log = record { ring = two_slots; lock_hold_max_us = 0; mutex = true }

-- The mutex is free; each hold takes 3 us.
abbrev env : LockEnv
env = record { take = λ wait. true; locked_at_us = 10; unlocked_at_us = 13 }

abbrev busy : LockEnv
busy = record env { take = λ wait. false }

busy-write : write busy small_log (some zero_record) 2 (some true) ≡ (false, some true, small_log)
unfolding write lock
busy-write = refl
