-- ===== src/Producer/Counts.antt =====
-- What the counters of the producer count, over any run of passes.
use zybo_rtos_sensor_aggrega.Prelude.{
  ℕ, ◌+◌, ◌-◌, ◌<◌, ◌≡◌, refl, ap, ◌∙◌, Bool, false, ◌&&◌, not, inl, inr, List, [], ◌∷◌, ◌==◌,
  if◌then◌else◌, u32, add32, arith, Bool-cases,
}
use zybo_rtos_sensor_aggrega.Sample.{SensorRecord}
use zybo_rtos_sensor_aggrega.Ring.Inv.{IsValid}
use zybo_rtos_sensor_aggrega.SensorLog.{SensorLog}
use zybo_rtos_sensor_aggrega.SensorLog.Counters.{gets, write-Wrote}
use zybo_rtos_sensor_aggrega.Producer.{
  Producer, Cycle, Stats, PassEnv, initial, sample_pass, after_write, timed_out, take_sample,
  update_stats, note_cycle, note_interval, note_extremes,
}

-- Whether a pass has a tick to answer, and whether its sample then reaches the log.
abbrev pub ticked : PassEnv → Bool
ticked env = not (env.pending_ticks == 0)

abbrev pub obtains : PassEnv → SensorLog → Bool
obtains env log = gets env.lock log env.write_wait

unfoldable pub run : List PassEnv → Producer → SensorLog → Producer × SensorLog
run [] p log = (p, log)
run (env ∷ envs) p log = let out = sample_pass env p log in run envs out.producer out.log

-- What the passes add up to, as the answers of the outside tell.
pub record Totals : Type 0 where
  pub ticks : ℕ
  pub samples : ℕ
  pub timeouts : ℕ
  pub dropped : ℕ

abbrev pub none_yet : Totals
none_yet = record { ticks = 0; samples = 0; timeouts = 0; dropped = 0 }

abbrev pub count_pass : Bool → PassEnv → Totals → Totals
count_pass mutex env t =
    if env.pending_ticks == 0 then record t { timeouts = t.timeouts + 1 } else record t {
      ticks = t.ticks + env.pending_ticks;
      samples = t.samples + 1;
      dropped = if mutex && env.lock.take env.write_wait then t.dropped else t.dropped + 1;
    }

abbrev pub count_all : Bool → List PassEnv → Totals → Totals
count_all mutex [] t = t
count_all mutex (env ∷ envs) t = count_all mutex envs (count_pass mutex env t)

-- The counters are the totals modulo 2 ^ 32; `base` is where `head` of the log stood at the start.
pub record Tallies (base : ℕ) (p : Producer) (log : SensorLog) (t : Totals) : Type 0 where
  pub samples : p.stats.samples ≡ u32 t.samples
  pub seq : p.sample.seq ≡ u32 t.samples
  pub overruns : u32 (p.stats.samples + p.stats.overruns) ≡ u32 t.ticks
  pub timeouts : p.stats.timeouts ≡ u32 t.timeouts
  pub drops : p.stats.log_write_drops ≡ u32 t.dropped
  pub head : u32 (log.ring.head + t.dropped) ≡ u32 (base + t.samples)
  pub valid : IsValid log.ring

update_stats-counts :
    (r : SensorRecord) (prev : ℕ) (c : Cycle) (s : Stats)
    → ((update_stats r prev c s).samples ≡ add32 s.samples 1)
      × ((update_stats r prev c s).overruns ≡ add32 s.overruns c.missed_ticks)
      × ((update_stats r prev c s).timeouts ≡ s.timeouts)
      × ((update_stats r prev c s).log_write_drops
          ≡ (if c.write_dropped then add32 s.log_write_drops 1 else s.log_write_drops))
unfolding update_stats note_cycle note_interval note_extremes
update_stats-counts r prev c s = (ground arith, ground arith, ground arith, ground arith)

busy_lem : (env : PassEnv) → env.pending_ticks == 0 ≡ false → 0 < env.pending_ticks
busy_lem env h = ground arith

-- What a pass with a tick leaves, by the result of the write.
pub after_write-counts :
    (env : PassEnv) (p : Producer) (r : SensorRecord) (written b : Bool) (log : SensorLog)
    → ((after_write env p r written b log).producer.stats.samples ≡ add32 p.stats.samples 1)
      × ((after_write env p r written b log).producer.stats.overruns
          ≡ add32 p.stats.overruns (env.pending_ticks - 1))
      × ((after_write env p r written b log).producer.stats.timeouts ≡ p.stats.timeouts)
      × ((after_write env p r written b log).producer.stats.log_write_drops
          ≡ (if not written then add32 p.stats.log_write_drops 1 else p.stats.log_write_drops))
      × ((after_write env p r written b log).producer.sample.seq ≡ r.seq)
      × ((after_write env p r written b log).log ≡ log)
unfolding after_write
after_write-counts env p r written b log =
    let (s, o, t, d) = update_stats-counts r p.prev_capture_us _ p.stats in (s, o, t, d, refl, refl)

pub pass-Tallies :
    {base : ℕ} {p : Producer} {log : SensorLog} {t : Totals} (env : PassEnv)
    → Tallies base p log t
    → Tallies base
        (sample_pass env p log).producer
        (sample_pass env p log).log
        (count_pass log.mutex env t)
      × ((sample_pass env p log).log.mutex ≡ log.mutex)
pass-Tallies {base} {p} {log} {t} env h = elim (Bool-cases (env.pending_ticks == 0)) [
  | inl idle ↦
      unfold sample_pass timed_out in
      rw idle (
        record {
          samples = h.samples;
          seq = h.seq;
          overruns = h.overruns;
          timeouts = omega (arith, h.timeouts);
          drops = h.drops;
          head = h.head;
          valid = h.valid;
        },
        refl,
      )
  | inr busy ↦
      let r = take_sample env p.sample in
      let (written, b, log', e, w) =
        write-Wrote env.lock log env.write_wait h.valid r p.log_was_empty in
      let (cs, co, ct, cd, cq, cl) = after_write-counts env p r written b log' in
      unfold sample_pass in
      rw (busy, e)
        (
          record {
            samples = omega (arith, cs, h.samples);
            seq = cq ∙ unfold take_sample in omega (arith, h.seq);
            overruns = omega (arith, busy_lem env busy, cs, co, h.overruns);
            timeouts = ct ∙ h.timeouts;
            drops = ground (arith, cd, w.result, h.drops);
            head = ground (arith, ap (λ (l : SensorLog). l.ring.head) cl, w.head, w.result, h.head);
            valid = rw cl w.valid;
          },
          ap (λ (l : SensorLog). l.mutex) cl ∙ w.mutex,
        )
]

run-Tallies :
    {base : ℕ} (envs : List PassEnv) {p : Producer} {log : SensorLog} {t : Totals}
    → Tallies base p log t
    → Tallies base (run envs p log).0 (run envs p log).1 (count_all log.mutex envs t)
unfolding run
run-Tallies [] h = h
run-Tallies {base} (env ∷ envs) {p} {log} {t} h =
    let (h', same) = pass-Tallies env h in
    let out = sample_pass env p log in
    rw same at
      (run-Tallies envs {p = out.producer} {log = out.log} {t = count_pass log.mutex env t} h')

-- After any run of passes of the producer from its start, modulo 2^32: `samples` and the `seq` of the last
-- sample count the passes that had a tick; `samples` and `overruns` together count the ticks; `timeouts`
-- counts the waits without a tick and `log_write_drops` the samples that did not get the mutex;
-- `head` of the log has moved by the samples taken less those drops.
pub run_counts :
    (envs : List PassEnv) (timer_period_us : ℕ) (log : SensorLog)
    → IsValid log.ring
    → let (p, log') = run envs (initial timer_period_us) log in
      let t = count_all log.mutex envs none_yet in
      (p.stats.samples ≡ u32 t.samples)
      × (p.sample.seq ≡ u32 t.samples)
      × (u32 (p.stats.samples + p.stats.overruns) ≡ u32 t.ticks)
      × (p.stats.timeouts ≡ u32 t.timeouts)
      × (p.stats.log_write_drops ≡ u32 t.dropped)
      × (u32 (log'.ring.head + t.dropped) ≡ u32 (log.ring.head + t.samples))
run_counts envs timer_period_us log v =
    let h =
      run-Tallies {base = log.ring.head} envs {p = initial timer_period_us} {log = log}
        {t = none_yet}
        (record {
          samples = refl;
          seq = refl;
          overruns = refl;
          timeouts = refl;
          drops = refl;
          head = refl;
          valid = v;
        }) in
    (h.samples, h.seq, h.overruns, h.timeouts, h.drops, h.head)
