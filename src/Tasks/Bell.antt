-- ===== src/Tasks/Bell.antt =====
-- The doorbell in the real queue, over any interleaving of the tasks.
use mathlib.Core.Path.{subst}
use zybo_rtos_sensor_aggrega.Prelude.{
  ℕ, ◌≡◌, ◌≢◌, refl, ap, Bool, true, false, ◌&&◌, ◌||◌, List, [], ◌∷◌, ◌++◌, leb, length, inl, inr,
  Bool-cases, arith,
}
use zybo_rtos_sensor_aggrega.Config.{app_consumer_queue_len, app_log_read_batch}
use zybo_rtos_sensor_aggrega.Rtos.{Queue}
use zybo_rtos_sensor_aggrega.Message.{Msg, MsgId, data_ready, send}
use zybo_rtos_sensor_aggrega.Gpio.{Gpio}
use zybo_rtos_sensor_aggrega.Watchdog.{Wdog}
use zybo_rtos_sensor_aggrega.Ring.{fill}
use zybo_rtos_sensor_aggrega.Producer
use zybo_rtos_sensor_aggrega.Producer.{sample_pass}
use zybo_rtos_sensor_aggrega.Producer.Doorbell.{bell_lem}
use zybo_rtos_sensor_aggrega.Consumer.Messages
use zybo_rtos_sensor_aggrega.Consumer.Steps.{takes}
use zybo_rtos_sensor_aggrega.Consumer.Steps.Effects.{asleep}
use zybo_rtos_sensor_aggrega.System
use zybo_rtos_sensor_aggrega.System.Doorbell.{Heard, sample-Heard, consume-Heard, start-Heard}
use zybo_rtos_sensor_aggrega.Tasks.{
  Tasks, TaskEvent, sample, consume, command, bell, answers, post, on_queue, from_queue,
  sample_step, consume_step, step, run, start,
}

-- Whether a message is the bell, and whether a bell is among the messages.
abbrev pub is_bell : MsgId → Bool
is_bell data_ready = true
is_bell id = false

abbrev pub has_bell : List Msg → Bool
has_bell [] = false
has_bell (msg ∷ msgs) = is_bell msg.id || has_bell msgs

has_bell-append : (xs ys : List Msg) → has_bell (xs ++ ys) ≡ (has_bell xs || has_bell ys)
has_bell-append [] ys = refl
has_bell-append (x ∷ xs) ys = ground (arith, has_bell-append xs ys)

-- The consumer's array has room for a batch.
abbrev pub roomy_event : TaskEvent → Bool
roomy_event (consume env) = leb app_log_read_batch (length env.batch)
roomy_event e = true

abbrev pub all_roomy : List TaskEvent → Bool
all_roomy [] = true
all_roomy (e ∷ es) = roomy_event e && all_roomy es

module _ (queues : Queue Msg app_consumer_queue_len) where
  open queues use {State, waiting, offer, receive, offer_lem, waiting-offer}

  -- The bell that the consumer has not answered yet waits in the queue.
  record Rings (s : Tasks queues) : Type 0 where
    heard : Heard s.pair
    waits : s.pair.rung ≡ true → has_bell (waiting s.queue) ≡ true

  -- A message offered drowns no bell, and an accepted bell is among those that wait.
  post-has_bell :
      (msg : Msg) (q : State)
      → has_bell (waiting (offer q msg).1)
        ≡ (has_bell (waiting q) || (answers queues q msg && is_bell msg.id))
  post-has_bell msg q = ground (
    arith,
    offer_lem q msg,
    ap has_bell (waiting-offer q msg),
    has_bell-append (waiting q) (msg ∷ []),
  )

  sample-Rings :
      (env : Producer.PassEnv) (s : Tasks queues) → Rings s → Rings (sample_step queues env s)
  unfolding sample_step System.step send post
  sample-Rings env s h =
      let env' = on_queue queues s.queue env in
      let (rung, _) = bell_lem env' s.pair.producer s.pair.world.log in
      let after = post-has_bell bell s.queue in
      let heard = sample-Heard env' s.pair h.heard in
      elim (Bool-cases ((sample_pass env' s.pair.producer s.pair.world.log).rang)) [
        | inl rang ↦ rw rang (record {
          heard = rw (rang, System.step) at heard;
          waits = λ e. ground (arith, rang, rung, after, e, h.waits);
        })
        | inr silent ↦ rw silent (record {
          heard = rw (silent, System.step) at heard;
          waits = λ e. ground (arith, silent, e, h.waits);
        })
      ]

  consume-Rings :
      (env : Messages.PassEnv) (s : Tasks queues)
      → leb app_log_read_batch (length env.batch) ≡ true
      → Rings s
      → Rings (consume_step queues env s)
  unfolding consume_step System.step
  consume-Rings env s enough h =
      let env' = from_queue queues s.queue env in
      let heard = consume-Heard env' s.pair enough h.heard in
      elim (Bool-cases (takes env' s.pair.phase)) [
        | inl got ↦
            rw got
              (record { heard = rw (got, System.step) at heard; waits = λ e. ground (arith, e) })
        | inr nothing ↦ rw nothing (record {
          heard = rw (nothing, System.step) at heard;
          waits = λ e. ground (arith, e, h.waits);
        })
      ]

  step-Rings :
      (e : TaskEvent) (s : Tasks queues) → roomy_event e ≡ true → Rings s → Rings (step queues e s)
  unfolding step
  step-Rings (sample env) s roomy h = sample-Rings env s h
  step-Rings (consume env) s roomy h = consume-Rings env s roomy h
  step-Rings (command id key) s roomy h =
      let msg : Msg = record { id = id; key = key } in
      unfold post in
      record { heard = h.heard; waits = λ e. ground (arith, post-has_bell msg s.queue, h.waits e) }

  run-Rings :
      (es : List TaskEvent) {s : Tasks queues}
      → all_roomy es ≡ true
      → Rings s
      → Rings (run queues es s)
  unfolding run
  run-Rings [] roomy h = h
  run-Rings (e ∷ es) {s} roomy h =
      run-Rings es (ground (arith, roomy)) (step-Rings e s (ground (arith, roomy)) h)

  -- The doorbell is heard: whatever the producer, the UI task and the consumer do from their start, the
  -- consumer's array with room for a batch, when records wait in the log while the consumer, with
  -- reading on, waits for a message or is on its way there, the bell is among the messages in its
  -- queue, or the producer still owes one.
  pub bell_waits :
      (es : List TaskEvent) (timer_period_us now_tick : ℕ) (gpio : Gpio) (wdog : Wdog)
      {s : Tasks queues}
      → all_roomy es ≡ true
      → run queues es (start queues timer_period_us now_tick gpio wdog) ≡ s
      → asleep s.pair.phase ≡ true
      → s.pair.world.state.drain_paused ≡ false
      → fill s.pair.world.log.ring ≢ 0
      → (has_bell (waiting s.queue) || s.pair.producer.doorbell_pending) ≡ true
  bell_waits es timer_period_us now_tick gpio wdog {s} roomy reached sleeps reading some_wait =
      let begin : Rings (start queues timer_period_us now_tick gpio wdog) = record {
        heard = start-Heard timer_period_us now_tick gpio wdog;
        waits = λ e. ground (arith, e);
      } in
      let h : Rings s = subst Rings reached (run-Rings es roomy begin) in
      ground (arith, h.waits, h.heard.heard sleeps reading some_wait)
