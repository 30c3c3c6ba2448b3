-- ===== src/Tasks/Tests.antt =====
-- The three tasks on a list of 16: a sample, whose bell is accepted, two commands, and steps of the consumer.
use zybo_rtos_sensor_aggrega.Prelude.{
  ◌+◌, ◌≤◌, ◌≡◌, refl, ap, ◌∙◌, true, ◌||◌, List, [], ◌∷◌, ◌++◌, length, replicate, drop, u32,
  arith,
}
use zybo_rtos_sensor_aggrega.Config.{app_consumer_queue_len}
use zybo_rtos_sensor_aggrega.Rtos.{Queue}
use zybo_rtos_sensor_aggrega.Rtos.Plain.{listed}
use zybo_rtos_sensor_aggrega.Message.{Msg, pause_toggle, help}
use zybo_rtos_sensor_aggrega.Fixtures.{polling, quiet_gpio, sampling}
use zybo_rtos_sensor_aggrega.Watchdog
use zybo_rtos_sensor_aggrega.System
use zybo_rtos_sensor_aggrega.System.Start.{fresh_log-Agrees, fresh_log-fill}
use zybo_rtos_sensor_aggrega.Ring.{fill, fresh}
use zybo_rtos_sensor_aggrega.Ring.Inv.{fill-push_body}
use zybo_rtos_sensor_aggrega.Producer
use zybo_rtos_sensor_aggrega.Producer.{take_sample}
use zybo_rtos_sensor_aggrega.Producer.Effects.{sample_pass-Sampled}
use zybo_rtos_sensor_aggrega.Consumer.Steps.Effects.{asleep}
use zybo_rtos_sensor_aggrega.Consumer.{initial}
use zybo_rtos_sensor_aggrega.Consumer.Messages.{note_depth}
use zybo_rtos_sensor_aggrega.Tasks.{
  bell, Tasks, TaskEvent, sample, consume, command, run, start, step, on_queue,
}
use zybo_rtos_sensor_aggrega.Tasks.Traffic.{messages_accounted}
use zybo_rtos_sensor_aggrega.Tasks.Bell.{has_bell, bell_waits}
use zybo_rtos_sensor_aggrega.Tasks.Depth.{offer_all, depth_noted}
use zybo_rtos_sensor_aggrega.Tasks.Pair.{pair-run}

abbrev queues : Queue Msg app_consumer_queue_len
queues = listed app_consumer_queue_len

abbrev begin : Tasks queues
begin = start queues 100000 0 quiet_gpio Watchdog.initial

abbrev script : List TaskEvent
script = command help 104 ∷ sample sampling ∷ consume polling ∷ command pause_toggle 112 ∷ []

messages_accounted_example :
    let s = run queues script begin in
    (s.accepted ≡ s.handled ++ s.queue)
    × (length s.queue ≤ 16)
    × (u32 (length s.ui.sent + s.rings)
        ≡ u32 (
            length s.handled
            + length s.queue
            + s.ui.dropped_msgs
            + s.pair.producer.stats.doorbell_retries))
messages_accounted_example = messages_accounted queues script 100000 0 quiet_gpio Watchdog.initial

-- One sample, and its bell waits behind a command.
abbrev rung : List TaskEvent
rung = command help 104 ∷ sample sampling ∷ []

-- The producer's answers in it, and what the pass leaves.
abbrev answered : Producer.PassEnv
answered = on_queue queues (step queues (command help 104) begin).queue sampling

rung-pair : (run queues rung begin).pair ≡ System.step (System.sample answered) begin.pair
unfolding System.run
rung-pair = pair-run queues rung begin

rung-fill : fill (run queues rung begin).pair.world.log.ring ≡ 1
unfolding System.step
rung-fill =
    let written =
      sample_pass-Sampled answered begin.pair.producer System.fresh_log fresh_log-Agrees.valid
        refl in
    ap (λ (p : System.System). fill p.world.log.ring) rung-pair
    ∙ ap fill written.ring
    ∙ fill-push_body (take_sample answered begin.pair.producer.sample) fresh_log-Agrees.valid
    ∙ rw fresh_log-fill (unfold fresh in refl)

bell_waits_example :
    let s = run queues rung begin in (has_bell s.queue || s.pair.producer.doorbell_pending) ≡ true
unfolding System.step
bell_waits_example =
    bell_waits queues rung 100000 0 quiet_gpio Watchdog.initial refl refl
      (ap (λ (p : System.System). asleep p.phase) rung-pair)
      (ap (λ (p : System.System). p.world.state.drain_paused) rung-pair) (ground (arith, rung-fill))

-- Sixteen messages wait; one more comes while the consumer looks.
abbrev full : List Msg
full = replicate 16 (record { id = help; key = 104 })

depth_noted_example :
    (note_depth (length (offer_all queues (bell ∷ []) (drop 1 full))) (initial 0)).queue_depth_peak
    ≡ 17
depth_noted_example = depth_noted queues full (bell ∷ []) (initial 0) (omega arith) (omega arith)
