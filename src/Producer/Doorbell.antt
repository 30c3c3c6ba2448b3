-- ===== src/Producer/Doorbell.antt =====
-- When the producer rings the consumer's doorbell, and what the log gets from a pass.
use zybo_rtos_sensor_aggrega.Prelude.{
  ◌≡◌, ◌≢◌, refl, Bool, false, ◌||◌, ◌&&◌, not, ◌==◌, if◌then◌else◌, add32, arith,
}
use zybo_rtos_sensor_aggrega.Sample.{SensorRecord}
use zybo_rtos_sensor_aggrega.Message.{data_ready, send}
use zybo_rtos_sensor_aggrega.Ring.{fill}
use zybo_rtos_sensor_aggrega.Ring.Fifo
use zybo_rtos_sensor_aggrega.Ring.Inv.{IsValid}
use zybo_rtos_sensor_aggrega.Ring.Refine.{view}
use zybo_rtos_sensor_aggrega.SensorLog.{SensorLog}
use zybo_rtos_sensor_aggrega.SensorLog.Laws.{Locks, write_locked}
use zybo_rtos_sensor_aggrega.SensorLog.Counters.{gets, write-Wrote}
use zybo_rtos_sensor_aggrega.Producer.{
  Producer, PassEnv, sample_pass, after_write, take_sample, timed_out, update_stats, note_cycle,
  note_interval, note_extremes,
}

-- Whether a pass has to ring: its sample reached the log, and the log was empty or an earlier ring failed.
abbrev pub must_ring : PassEnv → Producer → SensorLog → Bool
must_ring env p log = gets env.lock log env.write_wait && (fill log.ring == 0 || p.doorbell_pending)

-- A pass with a tick rings exactly if its sample reached the log and the log was empty or a ring is
-- still owed; after a ring one is owed exactly if the queue refused it, and without a ring nothing
-- changes.
pub doorbell_lem :
    (env : PassEnv) (p : Producer) (log : SensorLog)
    → IsValid log.ring
    → env.pending_ticks ≢ 0
    → ((sample_pass env p log).rang ≡ must_ring env p log)
      × ((sample_pass env p log).producer.doorbell_pending ≡ (
          if must_ring env p log
          then not (send env.queue_created env.queue_takes data_ready 0)
          else p.doorbell_pending))
doorbell_lem env p log v h =
    let (written, b, log', e, w) =
      write-Wrote env.lock log env.write_wait v (take_sample env p.sample) p.log_was_empty in
    let busy : env.pending_ticks == 0 ≡ false = ground arith in
    let rang : written && (b || p.doorbell_pending) ≡ must_ring env p log =
      ground (arith, w.result, w.was_empty_out) in
    unfold sample_pass in rw (busy, e) (unfold after_write in rw rang (refl, refl))

-- A pass with a tick that obtains the mutex appends its sample to the log's queue, which drops its oldest
-- record if it is full; the sample carries the time of the capture and the next sequence number.
pass_appends :
    (env : PassEnv) (p : Producer) (log : SensorLog)
    → IsValid log.ring
    → env.pending_ticks ≢ 0
    → Locks env.lock log env.write_wait
    → (r : SensorRecord) × (r.seq ≡ add32 p.sample.seq 1)
      × (r.capture_us ≡ env.capture_us)
      × ((sample_pass env p log).producer.sample ≡ r)
      × (view (sample_pass env p log).log.ring ≡ Fifo.push log.ring.capacity (view log.ring) r)
      × IsValid (sample_pass env p log).log.ring
pass_appends env p log v h l =
    let (log', e, seen, v', _) =
      write_locked env.lock log (take_sample env p.sample) env.write_wait p.log_was_empty v l in
    let busy : env.pending_ticks == 0 ≡ false = ground arith in
    (
      take_sample env p.sample,
      unfold take_sample in refl,
      unfold take_sample in refl,
      unfold sample_pass in rw (busy, e) (unfold after_write in refl),
      unfold sample_pass in rw (busy, e) (unfold after_write in seen),
      unfold sample_pass in rw (busy, e) (unfold after_write in v'),
    )

-- The bell of a pass: whether it was taken, and the count of those that were not.
pub bell_lem :
    (env : PassEnv) (p : Producer) (log : SensorLog)
    → let out = sample_pass env p log in
      let taken = send env.queue_created env.queue_takes data_ready 0 in
      ((out.rang && not out.producer.doorbell_pending) ≡ (out.rang && taken))
      × (out.producer.stats.doorbell_retries ≡ (
          if out.rang && not taken
          then add32 p.stats.doorbell_retries 1
          else p.stats.doorbell_retries))
unfolding sample_pass timed_out after_write update_stats note_cycle note_interval note_extremes
bell_lem env p log = (ground arith, ground arith)
