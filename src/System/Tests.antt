-- ===== src/System/Tests.antt =====
-- A sample written and read, and one dropped behind it.
use zybo_rtos_sensor_aggrega.Prelude.{◌+◌, ◌≡◌, refl, ap, ◌∙◌, List, [], ◌∷◌, length, u32}
use zybo_rtos_sensor_aggrega.Ring.{RingBuffer}
use zybo_rtos_sensor_aggrega.Ring.Fifo.{Fifo}
use zybo_rtos_sensor_aggrega.Ring.Refine.{view}
use zybo_rtos_sensor_aggrega.Fixtures.{polling, busy, quiet_gpio, sampling}
use zybo_rtos_sensor_aggrega.Producer
use zybo_rtos_sensor_aggrega.Producer.{sample_pass, take_sample}
use zybo_rtos_sensor_aggrega.Producer.Effects.{Sampled, sample_pass-Sampled}
use zybo_rtos_sensor_aggrega.Watchdog
use zybo_rtos_sensor_aggrega.System.{System, Event, sample, consume, step, run, start, fresh_log}
use zybo_rtos_sensor_aggrega.System.Start.{fresh_log-Agrees}
use zybo_rtos_sensor_aggrega.System.Accounted.{dropped_since}
use zybo_rtos_sensor_aggrega.System.Accounts.{samples_accounted, lost_when_drained}

abbrev locked_out : Producer.PassEnv
locked_out = record sampling { lock = busy }

abbrev one_read : List Event
one_read = sample sampling ∷ consume polling ∷ consume polling ∷ sample locked_out ∷ []

abbrev begin : System
begin = start 100000 0 quiet_gpio Watchdog.initial

abbrev one_dropped : List Event
one_dropped = sample locked_out ∷ []

dropped :
    Sampled locked_out begin.producer fresh_log (sample_pass locked_out begin.producer fresh_log)
dropped = sample_pass-Sampled locked_out begin.producer fresh_log fresh_log-Agrees.valid refl

samples_accounted_example :
    (run one_read begin).producer.stats.samples
    ≡ u32 (
        (run one_read begin).world.state.received
        + (run one_read begin).world.log.ring.overwritten
        + length (view (run one_read begin).world.log.ring).items
        + (run one_read begin).producer.stats.log_write_drops)
samples_accounted_example = samples_accounted one_read 100000 0 quiet_gpio Watchdog.initial refl

lost_when_drained_example :
    u32 ((run one_dropped begin).world.state.lost + dropped_since one_dropped 0)
    ≡ u32 (
        (run one_dropped begin).world.log.ring.overwritten
        + (run one_dropped begin).producer.stats.log_write_drops)
unfolding run step
lost_when_drained_example =
    lost_when_drained one_dropped 100000 0 quiet_gpio Watchdog.initial refl refl (
      ap (λ (rb : RingBuffer). (view rb).items) dropped.ring
      ∙ ap (λ (q : Fifo). q.items) fresh_log-Agrees.same)
