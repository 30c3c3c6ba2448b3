-- ===== src/System.antt =====
-- How the producer and the consumer of sw/stage4_watchdog/src/tasks meet: through the sensor log and the
-- consumer's queue. Passes of the producer, which has the higher priority, come between any two steps of
-- the consumer.
pub mod Start
pub mod Doorbell
pub mod Accounted
pub mod Accounts
mod Tests
use zybo_rtos_sensor_aggrega.Prelude.{
  ℕ, ◌||◌, ◌&&◌, Bool, true, false, not, leb, length, List, [], ◌∷◌, if◌then◌else◌,
}
use zybo_rtos_sensor_aggrega.Config.{app_log_capacity, app_log_read_batch}
use zybo_rtos_sensor_aggrega.Ring.{fresh}
use zybo_rtos_sensor_aggrega.SensorLog.{SensorLog, static_storage}
use zybo_rtos_sensor_aggrega.Gpio.{Gpio}
use zybo_rtos_sensor_aggrega.Watchdog.{Wdog}
use zybo_rtos_sensor_aggrega.Producer
use zybo_rtos_sensor_aggrega.Producer.{Producer}
use zybo_rtos_sensor_aggrega.Consumer
use zybo_rtos_sensor_aggrega.Consumer.{World}
use zybo_rtos_sensor_aggrega.Consumer.Messages
use zybo_rtos_sensor_aggrega.Consumer.Steps.{Phase, takes, receiving, step_at}

-- The two tasks; `rung` says that a ring of the doorbell has been put into the queue since the consumer
-- last took a message out of it.
pub record System : Type 0 where
  pub producer : Producer
  pub phase : Phase
  pub world : World
  pub rung : Bool

-- A pass of the producer or a step of the consumer.
pub data Event : Type 0 where
  sample : Producer.PassEnv → Event
  consume : Messages.PassEnv → Event

-- A pass of the producer writes to the log that the consumer reads; a ring that the queue accepts waits
-- in it.
unfoldable pub step : Event → System → System
step (sample env) s =
    let out = Producer.sample_pass env s.producer s.world.log in
    record s {
      producer = out.producer;
      world = record (s.world) { log = out.log };
      rung = s.rung || (out.rang && not out.producer.doorbell_pending);
    }
step (consume env) s =
    let (outs, phase, world) = step_at env s.phase s.world in
    record s { phase = phase; world = world; rung = s.rung && not (takes env s.phase) }

unfoldable pub run : List Event → System → System
run [] s = s
run (e ∷ es) s = run es (step e s)

-- The consumer's array has room for a batch.
abbrev pub fits : Event → Bool
fits (sample env) = true
fits (consume env) = leb app_log_read_batch (length env.batch)

abbrev pub all_fit : List Event → Bool
all_fit [] = true
all_fit (e ∷ es) = fits e && all_fit es

-- The log as `sensor_log_init` leaves it when it succeeds.
abbrev pub fresh_log : SensorLog
fresh_log = record {
  ring = fresh static_storage app_log_capacity;
  lock_hold_max_us = 0;
  mutex = true;
}

-- Both tasks at the start of their loops.
abbrev pub start : ℕ → ℕ → Gpio → Wdog → System
start timer_period_us now_tick gpio wdog = record {
  producer = Producer.initial timer_period_us;
  phase = receiving false;
  world = record { state = Consumer.initial now_tick; log = fresh_log; gpio = gpio; wdog = wdog };
  rung = false;
}
