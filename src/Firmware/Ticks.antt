-- ===== src/Firmware/Ticks.antt =====
-- What becomes of the timer's ticks in the running firmware.
use zybo_rtos_sensor_aggrega.Prelude.{
  ℕ, ◌+◌, ◌≡◌, refl, ap, List, [], ◌∷◌, ◌==◌, if◌then◌else◌, bit_and, u32, arith,
}
use zybo_rtos_sensor_aggrega.Config.{app_consumer_queue_len}
use zybo_rtos_sensor_aggrega.Rtos.{Notification, Queue}
use zybo_rtos_sensor_aggrega.Message.{Msg}
use zybo_rtos_sensor_aggrega.SampleTimer.{Callback, Ttc}
use zybo_rtos_sensor_aggrega.Producer
use zybo_rtos_sensor_aggrega.Producer.{Stats}
use zybo_rtos_sensor_aggrega.Producer.Effects.{sample_pass-ticks}
use zybo_rtos_sensor_aggrega.Producer.Timer.{answer_calls}
use zybo_rtos_sensor_aggrega.Producer.Timer.Ticks.{Hooked, interrupt-counts}
use zybo_rtos_sensor_aggrega.Consumer.Messages
use zybo_rtos_sensor_aggrega.System
use zybo_rtos_sensor_aggrega.Tasks
use zybo_rtos_sensor_aggrega.Tasks.{Tasks, on_queue, from_queue}
use zybo_rtos_sensor_aggrega.Tasks.Pair.{pair-sample_step, pair-consume_step}
use zybo_rtos_sensor_aggrega.Firmware.{
  Event, interrupt, sample, consume, command, Firmware, step, run,
}

-- How often the counter has come to the end of its interval.
abbrev pub ended : Ttc → List Event → ℕ
ended c [] = 0
ended c (interrupt irq_status ∷ es) =
    (if bit_and irq_status c.interval_mask == 0 then 0 else 1) + ended c es
ended c (e ∷ es) = ended c es

module _ (queues : Queue Msg app_consumer_queue_len) (n : Notification) where
  open n use {Value, count, take, take-count, count-take}

  abbrev stats_of : Tasks queues → Stats
  stats_of s = s.pair.producer.stats

  -- Every tick so far is one that the producer has answered or one still pending.
  pub record Ticked (c : Ttc) (cb : Callback) (f : Firmware queues n) (ticks : ℕ) : Type 0 where
    pub hooked : Hooked c f.timer cb
    pub counts :
        u32 ((stats_of f.tasks).samples + (stats_of f.tasks).overruns + count f.notified)
        ≡ u32 ticks

  stats-sample :
      (env : Producer.PassEnv) (s : Tasks queues)
      → let stats = stats_of (Tasks.step queues (Tasks.sample env) s) in
        u32 (stats.samples + stats.overruns)
        ≡ u32 ((stats_of s).samples + (stats_of s).overruns + env.pending_ticks)
  unfolding Tasks.step System.step
  stats-sample env s =
      rw (pair-sample_step queues env s)
        (sample_pass-ticks (on_queue queues s.queue env) s.pair.producer s.pair.world.log)

  stats-consume :
      (env : Messages.PassEnv) (s : Tasks queues)
      → stats_of (Tasks.step queues (Tasks.consume env) s) ≡ stats_of s
  unfolding Tasks.step System.step
  stats-consume env s = rw (pair-consume_step queues env s) refl

  step-Ticked :
      {c : Ttc} {cb : Callback} {f : Firmware queues n} {k : ℕ} (e : Event)
      → Ticked c cb f k
      → Ticked c cb (step queues n c e f) (k + ended c (e ∷ []))
  unfolding step
  step-Ticked {c} {cb} {f} {k} (interrupt irq_status) h = record {
    hooked = h.hooked;
    counts =
        let now = ap (λ calls. count (answer_calls n calls f.notified)) (h.hooked irq_status) in
        ground (arith, now, interrupt-counts n c cb irq_status f.notified, h.counts);
  }
  step-Ticked {c} {cb} {f} {k} (sample env) h = record {
    hooked = h.hooked;
    counts = omega (
      arith,
      stats-sample (record env { pending_ticks = (take f.notified).0 }) f.tasks,
      take-count f.notified,
      count-take f.notified,
      h.counts,
    );
  }
  step-Ticked {c} {cb} {f} {k} (consume env) h = record {
    hooked = h.hooked;
    counts = omega (
      arith,
      ap (λ (s : Stats). s.samples) (stats-consume env f.tasks),
      ap (λ (s : Stats). s.overruns) (stats-consume env f.tasks),
      h.counts,
    );
  }
  step-Ticked {c} {cb} {f} {k} (command id key) h = record {
    hooked = h.hooked;
    counts = unfold Tasks.step Tasks.post in omega (arith, h.counts);
  }

  ended-cons :
      (c : Ttc) (e : Event) (es : List Event) → ended c (e ∷ es) ≡ ended c (e ∷ []) + ended c es
  ended-cons c (interrupt irq_status) es = omega arith
  ended-cons c (sample env) es = omega arith
  ended-cons c (consume env) es = omega arith
  ended-cons c (command id key) es = omega arith

  pub run-Ticked :
      {c : Ttc} {cb : Callback} (es : List Event) {f : Firmware queues n} {k : ℕ}
      → Ticked c cb f k
      → Ticked c cb (run queues n c es f) (k + ended c es)
  unfolding run
  run-Ticked [] {f} {k} h = let none_more : k + 0 ≡ k = omega arith in rw none_more h
  run-Ticked {c} {cb} (e ∷ es) {f} {k} h =
      let sum : k + ended c (e ∷ es) ≡ k + ended c (e ∷ []) + ended c es =
        omega (arith, ended-cons c e es) in
      rw sum (run-Ticked es (step-Ticked e h))
