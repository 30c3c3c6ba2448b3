-- ===== src/Tasks/Traffic.antt =====
-- The messages of the consumer's queue, over any interleaving of the tasks.
use zybo_rtos_sensor_aggrega.Prelude.{
  ℕ, ◌+◌, ◌≤◌, ◌≡◌, refl, sym, ap, true, List, [], ◌∷◌, ◌++◌, if◌then◌else◌, length, length-append,
  inl, inr, Bool-cases, u32, arith,
}
use zybo_rtos_sensor_aggrega.Config.{app_consumer_queue_len}
use zybo_rtos_sensor_aggrega.Rtos.{Queue}
use zybo_rtos_sensor_aggrega.Message.{Msg, send}
use zybo_rtos_sensor_aggrega.Gpio.{Gpio}
use zybo_rtos_sensor_aggrega.Watchdog.{Wdog}
use zybo_rtos_sensor_aggrega.Producer
use zybo_rtos_sensor_aggrega.Producer.{sample_pass}
use zybo_rtos_sensor_aggrega.Producer.Doorbell.{bell_lem}
use zybo_rtos_sensor_aggrega.Consumer.Messages
use zybo_rtos_sensor_aggrega.Consumer.Steps.{takes}
use zybo_rtos_sensor_aggrega.Ui.Keys.{ui_send-counts}
use zybo_rtos_sensor_aggrega.System
use zybo_rtos_sensor_aggrega.Tasks.{
  Tasks, TaskEvent, sample, consume, command, bell, answers, post, on_queue, from_queue,
  sample_step, consume_step, step, run, start,
}
use zybo_rtos_sensor_aggrega.Tasks.Post.{InOrder, post-InOrder, received-order}

module _ (queues : Queue Msg app_consumer_queue_len) where
  open queues use {State, waiting, offer, receive, waiting-created}

  -- Every message is accepted, or counted by its sender as refused.
  pub record Traffic (s : Tasks queues) : Type 0 where
    pub inorder : InOrder queues s
    pub counts :
        u32 (length s.ui.sent + s.rings)
        ≡ u32 (length s.accepted + s.ui.dropped_msgs + s.pair.producer.stats.doorbell_retries)

  length-post :
      (msg : Msg) (s : Tasks queues)
      → length (post queues msg s).accepted
        ≡ length s.accepted + (if answers queues s.queue msg then 1 else 0)
  unfolding post
  length-post msg s = ground (arith, length-append s.accepted (msg ∷ []))

  sample-Traffic :
      (env : Producer.PassEnv) (s : Tasks queues) → Traffic s → Traffic (sample_step queues env s)
  unfolding sample_step System.step send post
  sample-Traffic env s h =
      let env' = on_queue queues s.queue env in
      let (_, retries) = bell_lem env' s.pair.producer s.pair.world.log in
      let grown = length-post bell s in
      let ordered = post-InOrder queues bell s h.inorder in
      elim (Bool-cases ((sample_pass env' s.pair.producer s.pair.world.log).rang)) [
        | inl rang ↦ rw rang (record {
          inorder = record { order = ordered.order; room = ordered.room };
          counts = ground (arith, rang, retries, grown, h.counts);
        })
        | inr silent ↦ rw silent (record {
          inorder = record { order = h.inorder.order; room = h.inorder.room };
          counts = ground (arith, silent, retries, h.counts);
        })
      ]

  producer_kept :
      (env : Messages.PassEnv) (p : System.System)
      → (System.step (System.consume env) p).producer ≡ p.producer
  unfolding System.step
  producer_kept env p = refl

  consume-Traffic :
      (env : Messages.PassEnv) (s : Tasks queues) → Traffic s → Traffic (consume_step queues env s)
  unfolding consume_step
  consume-Traffic env s h =
      let env' = from_queue queues s.queue env in
      let (order, room) = received-order queues s h.inorder in
      let same =
        ap (λ (p : Producer.Producer). p.stats.doorbell_retries) (producer_kept env' s.pair) in
      elim (Bool-cases (takes env' s.pair.phase)) [
        | inl got ↦ rw got (record {
          inorder = record { order = order; room = room };
          counts = omega (arith, h.counts, same);
        })
        | inr nothing ↦ rw nothing (record {
          inorder = record { order = h.inorder.order; room = h.inorder.room };
          counts = omega (arith, h.counts, same);
        })
      ]

  step-Traffic : (e : TaskEvent) (s : Tasks queues) → Traffic s → Traffic (step queues e s)
  unfolding step
  step-Traffic (sample env) s h = sample-Traffic env s h
  step-Traffic (consume env) s h = consume-Traffic env s h
  step-Traffic (command id key) s h =
      let msg : Msg = record { id = id; key = key } in
      let ordered = post-InOrder queues msg s h.inorder in
      let (sent, dropped) = ui_send-counts true (λ n. answers queues s.queue) id key s.ui in
      let grown = length-post msg s in
      unfold post in
      record {
        inorder = record { order = ordered.order; room = ordered.room };
        counts = unfold send in ground (arith, sent, dropped, grown, h.counts);
      }

  run-Traffic : (es : List TaskEvent) {s : Tasks queues} → Traffic s → Traffic (run queues es s)
  unfolding run
  run-Traffic [] h = h
  run-Traffic (e ∷ es) {s} h = run-Traffic es (step-Traffic e s h)

  start-Traffic :
      (timer_period_us now_tick : ℕ) (gpio : Gpio) (wdog : Wdog)
      → Traffic (start queues timer_period_us now_tick gpio wdog)
  start-Traffic timer_period_us now_tick gpio wdog = record {
    inorder = record {
      order = sym waiting-created;
      room = omega (arith, ap length waiting-created);
    };
    counts = refl;
  }

  -- The queue of the consumer loses, doubles and reorders nothing: whatever the producer, the UI task and the
  -- consumer do from their start, the messages that it has accepted are those that the consumer has
  -- taken out followed by those that wait, at most 16, in this order; and modulo 2^32 the sends of the UI
  -- task and the rings of the producer are the messages taken out, those that wait, those that
  -- `s_dropped_msgs` counts and those that `doorbell_retries` counts together.
  pub messages_accounted :
      (es : List TaskEvent) (timer_period_us now_tick : ℕ) (gpio : Gpio) (wdog : Wdog)
      → let s = run queues es (start queues timer_period_us now_tick gpio wdog) in
        (s.accepted ≡ s.handled ++ waiting s.queue)
        × (length (waiting s.queue) ≤ app_consumer_queue_len)
        × (u32 (length s.ui.sent + s.rings)
            ≡ u32 (
                length s.handled
                + length (waiting s.queue)
                + s.ui.dropped_msgs
                + s.pair.producer.stats.doorbell_retries))
  messages_accounted es timer_period_us now_tick gpio wdog =
      let s = run queues es (start queues timer_period_us now_tick gpio wdog) in
      let h : Traffic s = run-Traffic es (start-Traffic timer_period_us now_tick gpio wdog) in
      (
        h.inorder.order,
        h.inorder.room,
        omega
            (arith, h.counts, ap length h.inorder.order, length-append s.handled (waiting s.queue)),
      )
