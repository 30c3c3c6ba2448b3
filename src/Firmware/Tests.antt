-- ===== src/Firmware/Tests.antt =====
-- The firmware on a list as its queue and a number as its notification.
use zybo_rtos_sensor_aggrega.Prelude.{◌+◌, ◌≡◌, refl, true, List, [], ◌∷◌, length, u32}
use zybo_rtos_sensor_aggrega.Config.{app_consumer_queue_len}
use zybo_rtos_sensor_aggrega.Rtos.{Queue}
use zybo_rtos_sensor_aggrega.Rtos.Plain.{counting, listed}
use zybo_rtos_sensor_aggrega.Message.{Msg, help}
use zybo_rtos_sensor_aggrega.Ring.Refine.{view}
use zybo_rtos_sensor_aggrega.SampleTimer.{
  success, Callback, SampleTimer, Ttc, InitEnv, init, set_up, start_counter, period_of,
  clock_divisor, period_us_of,
}
use zybo_rtos_sensor_aggrega.SampleTimer
use zybo_rtos_sensor_aggrega.Fixtures.{
  polling, quiet_gpio, sampling, ttc, timer_board, on_tick, timer_off, timer_on,
}
use zybo_rtos_sensor_aggrega.Watchdog
use zybo_rtos_sensor_aggrega.Producer.{initial}
use zybo_rtos_sensor_aggrega.Producer.Timer.{enter, after_init, looping}
use zybo_rtos_sensor_aggrega.Firmware.{
  Event, interrupt, sample, consume, command, Firmware, run, start,
}
use zybo_rtos_sensor_aggrega.Firmware.Samples.{ticks_to_records}

abbrev queues : Queue Msg app_consumer_queue_len
queues = listed app_consumer_queue_len

-- An interval ends twice before the producer comes to its pass; the consumer answers the bell and reads; a
-- command; and one more interval.
abbrev script : List Event
script =
    interrupt 1
    ∷ interrupt 0
    ∷ interrupt 1
    ∷ sample sampling
    ∷ consume polling
    ∷ consume polling
    ∷ command help 104
    ∷ interrupt 1
    ∷ []

abbrev last : Firmware queues counting
last = run queues counting ttc script (start queues counting timer_on 0 quiet_gpio Watchdog.initial)

entering :
    enter ttc timer_board on_tick true timer_off
    ≡ ((enter ttc timer_board on_tick true timer_off).0, timer_on, looping (initial 100_000))
unfolding enter after_init init set_up SampleTimer.start period_of clock_divisor period_us_of
entering = refl

ticks_to_records_example :
    3
    ≡ u32 (
        last.tasks.pair.world.state.received
        + last.tasks.pair.world.log.ring.overwritten
        + length (view last.tasks.pair.world.log.ring).items
        + last.tasks.pair.producer.stats.log_write_drops
        + last.tasks.pair.producer.stats.overruns
        + last.notified)
ticks_to_records_example =
    ticks_to_records queues counting ttc timer_board on_tick true timer_off script 0 quiet_gpio
      Watchdog.initial entering refl
