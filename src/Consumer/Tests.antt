-- ===== src/Consumer/Tests.antt =====
-- A consumer before a log of two waiting records.
use zybo_rtos_sensor_aggrega.Prelude.{
  ℕ, ◌≡◌, refl, Bool, [], ◌∷◌, none, some, true, false, List, if◌then◌else◌, leb, length, take,
  drop, replicate, arith,
}
use zybo_rtos_sensor_aggrega.Sample.{SensorRecord, zero_record}
use zybo_rtos_sensor_aggrega.Message.{Msg, pause_toggle}
use zybo_rtos_sensor_aggrega.Ring.Inv.{IsValid}
use zybo_rtos_sensor_aggrega.Fixtures.{
  msg_env, waiting_ring, waiting_ring-IsValid, waiting_log, free, quiet_gpio,
}
use zybo_rtos_sensor_aggrega.Watchdog
use zybo_rtos_sensor_aggrega.Consumer.{State, World, drain_log}
use zybo_rtos_sensor_aggrega.Consumer.Drain.{count_all, waiting, drain_log_lem}
use zybo_rtos_sensor_aggrega.Consumer.Stall.{warnings, some_late, warnings_lem}
use zybo_rtos_sensor_aggrega.Consumer.Backlog.{passes, backlog_read}
use zybo_rtos_sensor_aggrega.Consumer.Messages.{PassEnv}
use zybo_rtos_sensor_aggrega.Consumer.Messages.Handling.{handled, switched, handle_msg_lem}

abbrev state : State
state = record {
  stream_enabled = true;
  stream_slow = false;
  drain_paused = false;
  stall_reported = false;
  received = 2;
  last_seq = 2;
  lost = 0;
  log_lock_timeouts = 0;
  queue_depth_peak = 0;
  last_producer_samples = 4;
  last_progress_tick = 0;
}

abbrev world : World
world = record { state = state; log = waiting_log; gpio = quiet_gpio; wdog = Watchdog.initial }

abbrev array : List SensorRecord
array = replicate 16 zero_record

drain_log_lem_example :
    ((drain_log (λ k. free) 10 array world).0 ≡ leb 64 (length (waiting world)))
    × ((drain_log (λ k. free) 10 array world).2.state ≡ count_all (take 64 (waiting world)) state)
    × (waiting ((drain_log (λ k. free) 10 array world).2) ≡ drop 64 (waiting world))
    × IsValid (drain_log (λ k. free) 10 array world).2.log.ring
    × ((drain_log (λ k. free) 10 array world).2.log.mutex ≡ true)
drain_log_lem_example =
    drain_log_lem (λ k. free) 10 array world waiting_ring-IsValid refl (λ k. refl) (omega arith)
      refl

abbrev pause : Msg
pause = record { id = pause_toggle; key = 112 }

handle_msg_lem_example :
    ((handled msg_env pause world).state ≡ switched pause_toggle state)
    × ((handled msg_env pause world).log.ring ≡ waiting_ring)
    × ((handled msg_env pause world).log.mutex ≡ true)
handle_msg_lem_example = handle_msg_lem msg_env pause world

-- A pass in which a message pauses the reading.
abbrev pausing : PassEnv
pausing = record {
  receive = λ wait. some pause;
  queue_left = 0;
  poll_ticks = 100;
  msg_env = msg_env;
  locks = λ batch_num. free;
  batch = array;
  stall_ticks = 1000;
  tick = 5;
  now_us = 5000;
  producer_samples = 4;
}

-- A pass to which no message comes.
abbrev polling : PassEnv
polling = record pausing { receive = λ wait. none }

backlog_read_example :
    (again : Bool) × (w' : World) × (passes (polling ∷ []) (false, world) ≡ some (again, w'))
    × (length (waiting w') ≡ 0)
backlog_read_example =
    backlog_read (polling ∷ []) false world
      (record { silent = λ wait. refl; free = λ k. refl; room = omega arith }, _)
      waiting_ring-IsValid refl refl refl (omega arith)

-- Passes 400 ticks apart with no sample between them.
abbrev no_samples : List (ℕ × ℕ)
no_samples = (400, 4_000_000) ∷ (800, 8_000_000) ∷ (1200, 12_000_000) ∷ (1600, 16_000_000) ∷ []

warnings_lem_example :
    warnings 1000 4 no_samples state
    ≡ (if false then 0 else if some_late 1000 0 no_samples then 1 else 0)
warnings_lem_example = warnings_lem 1000 4 no_samples state refl
