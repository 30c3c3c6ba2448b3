-- ===== src/Tasks/Pair.antt =====
-- The producer and the consumer as the UI task and the queue leave them alone.
use zybo_rtos_sensor_aggrega.Prelude.{◌≡◌, refl, ap, ◌∙◌, List, [], ◌∷◌, inl, inr, Bool-cases}
use zybo_rtos_sensor_aggrega.Config.{app_consumer_queue_len}
use zybo_rtos_sensor_aggrega.Rtos.{Queue}
use zybo_rtos_sensor_aggrega.Message.{Msg}
use zybo_rtos_sensor_aggrega.Producer.{sample_pass}
use zybo_rtos_sensor_aggrega.Consumer.Steps.{takes}
use zybo_rtos_sensor_aggrega.System
use zybo_rtos_sensor_aggrega.System.{Event, System, all_fit}
use zybo_rtos_sensor_aggrega.Tasks.{
  Tasks, TaskEvent, sample, consume, command, post, on_queue, from_queue, sample_step, consume_step,
  step, run,
}
use zybo_rtos_sensor_aggrega.Tasks.Bell.{all_roomy}

module _ (queues : Queue Msg app_consumer_queue_len) where
  open queues use {receive}

  -- What the producer and the consumer do in a run, with the answers of the queue.
  abbrev pub deeds : List TaskEvent → Tasks queues → List Event
  deeds [] s = []
  deeds (sample env ∷ es) s =
      System.sample (on_queue queues s.queue env) ∷ deeds es (step queues (sample env) s)
  deeds (consume env ∷ es) s =
      System.consume (from_queue queues s.queue env) ∷ deeds es (step queues (consume env) s)
  deeds (command id key ∷ es) s = deeds es (step queues (command id key) s)

  pub all_fit-deeds : (es : List TaskEvent) (s : Tasks queues) → all_fit (deeds es s) ≡ all_roomy es
  all_fit-deeds [] s = refl
  all_fit-deeds (sample env ∷ es) s = all_fit-deeds es (step queues (sample env) s)
  all_fit-deeds (consume env ∷ es) s = rw (all_fit-deeds es (step queues (consume env) s)) refl
  all_fit-deeds (command id key ∷ es) s = all_fit-deeds es (step queues (command id key) s)

  pub pair-sample_step :
      (env : _) (s : Tasks queues)
      → (sample_step queues env s).pair
        ≡ System.step (System.sample (on_queue queues s.queue env)) s.pair
  unfolding sample_step
  pair-sample_step env s =
      let log = s.pair.world.log in
      elim (Bool-cases ((sample_pass (on_queue queues s.queue env) s.pair.producer log).rang)) [
        | inl rang ↦ rw rang refl
        | inr silent ↦ rw silent refl
      ]

  pub pair-consume_step :
      (env : _) (s : Tasks queues)
      → (consume_step queues env s).pair
        ≡ System.step (System.consume (from_queue queues s.queue env)) s.pair
  unfolding consume_step
  pair-consume_step env s = elim (Bool-cases (takes (from_queue queues s.queue env) s.pair.phase)) [
    | inl got ↦ rw got refl
    | inr nothing ↦ rw nothing refl
  ]

  -- The three tasks on the queue do to the producer and the consumer what the two alone do, with the queue's
  -- answers.
  pub pair-run :
      (es : List TaskEvent) (s : Tasks queues)
      → (run queues es s).pair ≡ System.run (deeds es s) s.pair
  unfolding run step System.run
  pair-run [] s = refl
  pair-run (sample env ∷ es) s =
      pair-run es (sample_step queues env s)
      ∙ ap (System.run (deeds es (sample_step queues env s))) (pair-sample_step env s)
  pair-run (consume env ∷ es) s =
      pair-run es (consume_step queues env s)
      ∙ ap (System.run (deeds es (consume_step queues env s))) (pair-consume_step env s)
  pair-run (command id key ∷ es) s =
      pair-run es (step queues (command id key) s) ∙ (unfold post in refl)
