-- ===== src/Producer/Timer/Tests.antt =====
-- The producer on its timer: an interrupt at the end of an interval, one for another reason, a pass, the ends
-- of two more intervals, a pass, and a last tick.
use zybo_rtos_sensor_aggrega.Prelude.{◌+◌, ◌≡◌, refl, true, false, List, [], ◌∷◌, u32}
use zybo_rtos_sensor_aggrega.Prelude.Int.{pos}
use zybo_rtos_sensor_aggrega.Rtos.Plain.{counting}
use zybo_rtos_sensor_aggrega.SampleTimer.{
  device_is_started, InitEnv, init, set_up, start, isr, clock_divisor, period_of, period_us_of,
}
use zybo_rtos_sensor_aggrega.SampleTimer.Setup.{starts}
use zybo_rtos_sensor_aggrega.Fault
use zybo_rtos_sensor_aggrega.Fixtures.{
  ttc, timer_board, on_tick, timer_off, timer_on, sampling, waiting_log, waiting_ring-IsValid,
}
use zybo_rtos_sensor_aggrega.Producer.{initial}
use zybo_rtos_sensor_aggrega.Producer.Timer.{
  Ticking, Event, interrupt, pass, halted, looping, after_init, enter, timer_tick_cb, answer_calls,
  step, run,
}
use zybo_rtos_sensor_aggrega.Producer.Timer.Start.{enter_lem}
use zybo_rtos_sensor_aggrega.Producer.Timer.Ticks.{ended, ticks_accounted}

-- A counter that runs already.
abbrev claimed : InitEnv
claimed = record timer_board { initialized = device_is_started }

abbrev script : List Event
script =
    interrupt 1
    ∷ interrupt 0
    ∷ pass sampling
    ∷ interrupt 1
    ∷ interrupt 1
    ∷ pass sampling
    ∷ interrupt 1
    ∷ []

abbrev entered : Ticking counting
entered = record { producer = initial 100_000; log = waiting_log; timer = timer_on; notified = 0 }

-- One tick is left pending of four.
script_pending : ((run counting ttc script entered).notified ≡ 1) × (ended ttc script ≡ 4)
unfolding run step isr answer_calls timer_tick_cb
script_pending = (refl, refl)

enter_lem_example :
    ((enter ttc claimed on_tick true timer_off).2
      ≡ halted (Fault.halt "sample timer init" (pos 6) true))
    × (starts (enter ttc claimed on_tick true timer_off).0 ≡ false)
    × ((enter ttc claimed on_tick true timer_off).1.ready ≡ false)
unfolding enter
enter_lem_example = enter_lem ttc claimed on_tick true timer_off

-- The board's producer reaches its loop.
entering :
    enter ttc timer_board on_tick true timer_off
    ≡ ((enter ttc timer_board on_tick true timer_off).0, entered.timer, looping entered.producer)
unfolding enter after_init init set_up start period_of clock_divisor period_us_of
entering = refl

ticks_accounted_example :
    let s = run counting ttc script entered in
    u32 (s.producer.stats.samples + s.producer.stats.overruns + s.notified) ≡ u32 (ended ttc script)
ticks_accounted_example =
    ticks_accounted counting ttc timer_board on_tick true timer_off waiting_log script entering
      waiting_ring-IsValid
