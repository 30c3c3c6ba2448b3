-- ===== src/System/Doorbell.antt =====
-- The doorbell, over any interleaving of the two tasks.
use zybo_rtos_sensor_aggrega.Prelude.{
  ℕ, ◌≡◌, ◌≢◌, refl, sym, ap, ◌∙◌, ◌⊎◌, inl, inr, Bool, true, false, ◌||◌, List, [], ◌∷◌, ◌==◌,
  if◌then◌else◌, arith, Bool-cases,
}
use zybo_rtos_sensor_aggrega.Config.{app_log_read_batch}
use zybo_rtos_sensor_aggrega.Ring.{fill, push_body}
use zybo_rtos_sensor_aggrega.Ring.Inv.{IsValid, pop_body-IsValid}
use zybo_rtos_sensor_aggrega.SensorLog.Counters.{gets}
use zybo_rtos_sensor_aggrega.Producer
use zybo_rtos_sensor_aggrega.Producer.{sample_pass, timed_out, take_sample}
use zybo_rtos_sensor_aggrega.Producer.Doorbell.{must_ring, doorbell_lem}
use zybo_rtos_sensor_aggrega.Producer.Effects.{idle_pass, sample_pass-Sampled}
use zybo_rtos_sensor_aggrega.Consumer.{World}
use zybo_rtos_sensor_aggrega.Consumer.Messages
use zybo_rtos_sensor_aggrega.Consumer.Steps.Effects.{asleep, roomy, Quiet, Reads}
use zybo_rtos_sensor_aggrega.Consumer.Steps.Stepped.{step_at-Stepped}
use zybo_rtos_sensor_aggrega.System.{
  System, Event, sample, consume, step, run, start, fits, all_fit,
}
use zybo_rtos_sensor_aggrega.System.Start.{fresh_log-Agrees, fresh_log-fill}
use zybo_rtos_sensor_aggrega.Gpio.{Gpio}
use zybo_rtos_sensor_aggrega.Watchdog.{Wdog}
use mathlib.Core.Path.{subst}

-- The invariant: a waiting record has somebody who knows of it.
pub record Heard (s : System) : Type 0 where
  pub valid : IsValid s.world.log.ring
  pub room : roomy s.phase ≡ true
  pub heard :
      asleep s.phase ≡ true
      → s.world.state.drain_paused ≡ false
      → fill s.world.log.ring ≢ 0
      → (s.rung || s.producer.doorbell_pending) ≡ true

pub sample-Heard : (env : Producer.PassEnv) (s : System) → Heard s → Heard (step (sample env) s)
unfolding step
sample-Heard env s h = elim (Bool-cases (env.pending_ticks == 0)) [
  | inl idle ↦ rw (idle_pass env s.producer s.world.log idle) (
      unfold timed_out in
      record { valid = h.valid; room = h.room; heard = λ a b c. ground (arith, h.heard a b c) })
  | inr busy ↦
      let t = sample_pass-Sampled env s.producer s.world.log h.valid busy in
      let (rang, pending) =
        doorbell_lem env s.producer s.world.log h.valid (ground (arith, busy)) in
      record {
        valid = t.valid;
        room = h.room;
        heard = λ a b c. elim (Bool-cases (must_ring env s.producer s.world.log)) [
          | inl must ↦ ground (arith, rang, pending, must)
          | inr silent ↦
              let same : fill s.world.log.ring ≢ 0 =
                elim (Bool-cases (gets env.lock s.world.log env.write_wait)) [
                  | inl got ↦ ground (arith, silent, got)
                  | inr not_got ↦
                      let ring : (sample_pass env s.producer s.world.log).log.ring
                          ≡ s.world.log.ring =
                        t.ring
                        ∙ ap
                            (λ (g : Bool).
                              if g
                              then (push_body s.world.log.ring
                                  (take_sample env s.producer.sample)).1
                              else s.world.log.ring)
                            not_got in
                      λ z. c (ap fill ring ∙ z)
                ] in
              ground (arith, rang, pending, silent, h.heard a b same)
        ];
      }
]

effect-IsValid : {w w' : World} → IsValid w.log.ring → Quiet w w' ⊎ Reads w w' → IsValid w'.log.ring
effect-IsValid v (inl q) = rw q.ring v
effect-IsValid v (inr r) = rw r.ring (pop_body-IsValid r.out app_log_read_batch v)

pub consume-Heard :
    (env : Messages.PassEnv) (s : System)
    → fits (consume env) ≡ true
    → Heard s
    → Heard (step (consume env) s)
unfolding step
consume-Heard env s enough h =
    let t = step_at-Stepped env s.phase s.world h.valid (ground (arith, enough)) h.room in
    record {
      valid = effect-IsValid h.valid t.effect;
      room = t.room;
      heard = λ a b c. elim (t.sleeps a) [
        | inl empty ↦ ground (arith, empty, c)
        | inr (inl paused) ↦ ground (arith, paused, b)
        | inr (inr stays) ↦ ground (
          arith,
          stays.takes_none,
          h.heard stays.was_asleep (sym stays.paused ∙ b) (λ z. c (ap fill stays.ring ∙ z)),
        )
      ];
    }

run-Heard : (es : List Event) {s : System} → all_fit es ≡ true → Heard s → Heard (run es s)
unfolding run
run-Heard [] f h = h
run-Heard (sample env ∷ es) {s} f h = run-Heard es (ground (arith, f)) (sample-Heard env s h)
run-Heard (consume env ∷ es) {s} f h =
    run-Heard es (ground (arith, f)) (consume-Heard env s (ground (arith, f)) h)

pub start-Heard :
    (timer_period_us now_tick : ℕ) (gpio : Gpio) (wdog : Wdog)
    → Heard (start timer_period_us now_tick gpio wdog)
start-Heard timer_period_us now_tick gpio wdog = record {
  valid = fresh_log-Agrees.valid;
  room = refl;
  heard = λ a b c. ground (arith, c, fresh_log-fill);
}

-- No ring is lost: whatever the two tasks do from their start, the consumer's array with room for a batch,
-- a record that waits in the log while the
-- consumer, with reading on, waits for a message or is on its way there is known to somebody. A ring
-- has gone into the consumer's queue since it last took a message, or the producer still owes one.
no_ring_lost :
    (es : List Event) (timer_period_us now_tick : ℕ) (gpio : Gpio) (wdog : Wdog) {s : System}
    → all_fit es ≡ true
    → run es (start timer_period_us now_tick gpio wdog) ≡ s
    → asleep s.phase ≡ true
    → s.world.state.drain_paused ≡ false
    → fill s.world.log.ring ≢ 0
    → (s.rung || s.producer.doorbell_pending) ≡ true
no_ring_lost es timer_period_us now_tick gpio wdog {s} f reached =
    (subst Heard reached (
      run-Heard es {s = start timer_period_us now_tick gpio wdog} f
        (start-Heard timer_period_us now_tick gpio wdog))).heard
