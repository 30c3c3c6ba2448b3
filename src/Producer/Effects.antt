-- ===== src/Producer/Effects.antt =====
-- What one pass of the producer does to its counters and to the log.
use zybo_rtos_sensor_aggrega.Prelude.{
  ◌+◌, ◌≡◌, refl, ap, ◌∙◌, inl, inr, some, Bool, true, false, ◌==◌, if◌then◌else◌, u32, add32,
  arith, Bool-cases,
}
use zybo_rtos_sensor_aggrega.Sample.{SensorRecord}
use zybo_rtos_sensor_aggrega.Ring.{push_body}
use zybo_rtos_sensor_aggrega.Ring.Inv.{IsValid}
use mathlib.Core.Option
use zybo_rtos_sensor_aggrega.SensorLog
use zybo_rtos_sensor_aggrega.SensorLog.{SensorLog}
use zybo_rtos_sensor_aggrega.SensorLog.Counters.{gets, write-Wrote}
use zybo_rtos_sensor_aggrega.Producer.{
  Producer, PassEnv, Outcome, sample_pass, after_write, timed_out, take_sample,
}
use zybo_rtos_sensor_aggrega.Producer.Counts.{after_write-counts}

-- A pass without a tick only counts the wait.
pub idle_pass :
    (env : PassEnv) (p : Producer) (log : SensorLog)
    → env.pending_ticks == 0 ≡ true
    → sample_pass env p log ≡ timed_out p log
idle_pass env p log idle = unfold sample_pass in rw idle refl

pub take_sample-seq : (env : PassEnv) (r : SensorRecord) → (take_sample env r).seq ≡ add32 r.seq 1
unfolding take_sample
take_sample-seq env r = refl

-- A pass with a tick takes a sample, which reaches the log or is dropped.
pub record Sampled (env : PassEnv) (p : Producer) (log : SensorLog) (out : Outcome) : Type 0 where
  pub samples : out.producer.stats.samples ≡ add32 p.stats.samples 1
  pub drops : out.producer.stats.log_write_drops ≡ (
      if gets env.lock log env.write_wait
      then p.stats.log_write_drops
      else add32 p.stats.log_write_drops 1)
  pub sample : out.producer.sample ≡ take_sample env p.sample
  pub ring : out.log.ring ≡ (
      if gets env.lock log env.write_wait
      then (push_body log.ring (take_sample env p.sample)).1
      else log.ring)
  pub mutex : out.log.mutex ≡ log.mutex
  pub valid : IsValid out.log.ring

pub sample_pass-Sampled :
    (env : PassEnv) (p : Producer) (log : SensorLog)
    → IsValid log.ring
    → env.pending_ticks == 0 ≡ false
    → Sampled env p log (sample_pass env p log)
sample_pass-Sampled env p log v busy =
    let r = take_sample env p.sample in
    let (written, b, log', e, w) = write-Wrote env.lock log env.write_wait v r p.log_was_empty in
    let (cs, co, ct, cd, cq, cl) = after_write-counts env p r written b log' in
    let e' : sample_pass env p log ≡ after_write env p r written b log' =
      unfold sample_pass in rw (busy, e) refl in
    rw e' (record {
      samples = cs;
      drops = ground (arith, cd, w.result);
      sample = unfold after_write in refl;
      ring =
          ap (λ (l : SensorLog). l.ring) cl
          ∙ w.ring
          ∙ ap (λ (g : Bool). if g then (push_body log.ring r).1 else log.ring) w.result;
      mutex = ap (λ (l : SensorLog). l.mutex) cl ∙ w.mutex;
      valid = rw cl w.valid;
    })

-- The ticks that a pass answers are its sample and the overruns.
pub sample_pass-ticks :
    (env : PassEnv) (p : Producer) (log : SensorLog)
    → let stats = (sample_pass env p log).producer.stats in
      u32 (stats.samples + stats.overruns)
      ≡ u32 (p.stats.samples + p.stats.overruns + env.pending_ticks)
sample_pass-ticks env p log = elim (Bool-cases (env.pending_ticks == 0)) [
  | inl idle ↦ rw (idle_pass env p log idle) (unfold timed_out in ground (arith, idle))
  | inr busy ↦
      let r = take_sample env p.sample in
      let (written, was_empty, log') =
        SensorLog.write env.lock log (some r) env.write_wait (some p.log_was_empty) in
      let (cs, co, ct, cd, cq, cl) =
        after_write-counts env p r written (Option.get_or was_empty p.log_was_empty) log' in
      unfold sample_pass in rw busy (ground (arith, busy, cs, co))
]
