-- ===== src/System/Accounted.antt =====
-- The invariant that accounts for the samples, and what one event does to it.
use zybo_rtos_sensor_aggrega.Prelude.{
  ℕ, ◌+◌, ◌≡◌, ap, ap₂, ◌∙◌, min, Bool, true, false, List, [], ◌∷◌, ◌==◌, if◌then◌else◌, length,
  length-take, take, drop, u32, sub32, arith,
}
use zybo_rtos_sensor_aggrega.Config.{app_log_read_batch}
use zybo_rtos_sensor_aggrega.Sample.{SensorRecord}
use zybo_rtos_sensor_aggrega.Ring.{push_body, pop_count}
use zybo_rtos_sensor_aggrega.Ring.Fifo
use zybo_rtos_sensor_aggrega.Ring.Fifo.{Fifo}
use zybo_rtos_sensor_aggrega.Ring.Refine.{contents, taken_lem}
use zybo_rtos_sensor_aggrega.Ring.Trace.{
  Agrees, Ledger, spec_step, put, take_out, push_body-Agrees, popped-Agrees,
}
use zybo_rtos_sensor_aggrega.SensorLog.Counters.{gets}
use zybo_rtos_sensor_aggrega.Producer
use zybo_rtos_sensor_aggrega.Producer.{Producer, sample_pass, timed_out, take_sample}
use zybo_rtos_sensor_aggrega.Producer.Effects.{idle_pass, sample_pass-Sampled, take_sample-seq}
use zybo_rtos_sensor_aggrega.Consumer.{State, World}
use zybo_rtos_sensor_aggrega.Consumer.Counts.{
  last_from, last_from-append, last_from-split, count_all-counts,
}
use zybo_rtos_sensor_aggrega.Consumer.Drain.{count_all}
use zybo_rtos_sensor_aggrega.Consumer.Steps.{Phase}
use zybo_rtos_sensor_aggrega.Consumer.Steps.Effects.{roomy, Quiet, Reads}
use zybo_rtos_sensor_aggrega.System.{System, Event, sample, consume, step}

-- How many samples in a row have been dropped since one last reached the log, `n` of them before.
unfoldable pub dropped_since : List Event → ℕ → ℕ
dropped_since [] n = n
dropped_since (sample env ∷ es) n =
    dropped_since es
      (if env.pending_ticks == 0 then n else if env.lock.take env.write_wait then 0 else n + 1)
dropped_since (consume env ∷ es) n = dropped_since es n

-- The invariant: `ledger` counts what the log took, `dropped` what did not reach it, the last `behind` of
-- these after the newest record in the log or received.
pub record Accounted (behind : ℕ) (s : System) : Type 0 where
  pub ledger : Ledger
  pub dropped : ℕ
  pub agrees : Agrees s.world.log.ring ledger
  pub mutex : s.world.log.mutex ≡ true
  pub room : roomy s.phase ≡ true
  pub samples : s.producer.stats.samples ≡ u32 (ledger.pushed + dropped)
  pub seq : s.producer.sample.seq ≡ u32 (ledger.pushed + dropped)
  pub drops : s.producer.stats.log_write_drops ≡ u32 dropped
  pub received : s.world.state.received ≡ u32 ledger.popped
  pub lost : s.world.state.lost ≡ sub32 s.world.state.last_seq s.world.state.received
  pub newest :
      u32 (last_from ledger.queue.items s.world.state.last_seq + behind)
      ≡ u32 (ledger.pushed + dropped)

pub idle-Accounted :
    (env : Producer.PassEnv) (s : System) {behind : ℕ}
    → env.pending_ticks == 0 ≡ true
    → Accounted behind s
    → Accounted behind (step (sample env) s)
unfolding step timed_out
idle-Accounted env s idle a = rw (idle_pass env s.producer s.world.log idle) (record {
  ledger = a.ledger;
  dropped = a.dropped;
  agrees = a.agrees;
  mutex = a.mutex;
  room = a.room;
  samples = a.samples;
  seq = a.seq;
  drops = a.drops;
  received = a.received;
  lost = a.lost;
  newest = a.newest;
})

-- A sample that reaches the log, and one that does not.
pub written-Accounted :
    (env : Producer.PassEnv) (s : System) {behind : ℕ}
    → env.pending_ticks == 0 ≡ false
    → gets env.lock s.world.log env.write_wait ≡ true
    → Accounted behind s
    → Accounted 0 (step (sample env) s)
unfolding step spec_step Fifo.push
written-Accounted env s busy got a =
    let t = sample_pass-Sampled env s.producer s.world.log a.agrees.valid busy in
    let r = take_sample env s.producer.sample in
    let ring : (sample_pass env s.producer s.world.log).log.ring
        ≡ (push_body s.world.log.ring r).1 =
      ground (arith, t.ring, got) in
    let seq : r.seq ≡ u32 (a.ledger.pushed + 1 + a.dropped) =
      omega (arith, take_sample-seq env s.producer.sample, a.seq) in
    record {
      ledger = (spec_step s.world.log.ring.capacity a.ledger (put r)).1;
      dropped = a.dropped;
      agrees = rw ring (push_body-Agrees r a.agrees);
      mutex = t.mutex ∙ a.mutex;
      room = a.room;
      samples = omega (arith, t.samples, a.samples);
      seq = ap (λ (q : SensorRecord). q.seq) t.sample ∙ seq;
      drops = ground (arith, t.drops, got, a.drops);
      received = a.received;
      lost = a.lost;
      newest = omega (
        arith,
        seq,
        last_from-append
            (if Fifo.is_full s.world.log.ring.capacity a.ledger.queue
              then drop 1 a.ledger.queue.items
              else a.ledger.queue.items)
            (r ∷ []) s.world.state.last_seq,
      );
    }

pub missed-Accounted :
    (env : Producer.PassEnv) (s : System) {behind : ℕ}
    → env.pending_ticks == 0 ≡ false
    → gets env.lock s.world.log env.write_wait ≡ false
    → Accounted behind s
    → Accounted (behind + 1) (step (sample env) s)
unfolding step
missed-Accounted env s busy missed a =
    let t = sample_pass-Sampled env s.producer s.world.log a.agrees.valid busy in
    let ring : (sample_pass env s.producer s.world.log).log.ring ≡ s.world.log.ring =
      ground (arith, t.ring, missed) in
    record {
      ledger = a.ledger;
      dropped = a.dropped + 1;
      agrees = rw ring a.agrees;
      mutex = t.mutex ∙ a.mutex;
      room = a.room;
      samples = omega (arith, t.samples, a.samples);
      seq =
          ap (λ (q : SensorRecord). q.seq) t.sample
          ∙ omega (arith, take_sample-seq env s.producer.sample, a.seq);
      drops = ground (arith, t.drops, missed, a.drops);
      received = a.received;
      lost = a.lost;
      newest = omega (arith, a.newest);
    }

-- A batch taken out of the log.
pub Reads-Accounted :
    (s : System) {behind : ℕ} {phase : Phase} {w : World} {rung : Bool}
    → roomy phase ≡ true
    → Reads s.world w
    → Accounted behind s
    → Accounted behind (record s { phase = phase; world = w; rung = rung })
unfolding spec_step Fifo.pop
Reads-Accounted s {behind} {phase} {w} room reads a =
    let k = min app_log_read_batch (length a.ledger.queue.items) in
    let items : contents s.world.log.ring ≡ a.ledger.queue.items =
      ap (λ (q : Fifo). q.items) a.agrees.same in
    let taken : pop_count s.world.log.ring app_log_read_batch ≡ k =
      taken_lem reads.out app_log_read_batch a.agrees.valid
      ∙ ap (λ (xs : List SensorRecord). min app_log_read_batch (length xs)) items in
    let rs = take k a.ledger.queue.items in
    let state : w.state ≡ count_all rs s.world.state =
      reads.state
      ∙ ap (λ (xs : List SensorRecord). count_all xs s.world.state)
          (ap₂ (λ (n : ℕ) (xs : List SensorRecord). take n xs) taken items) in
    let (received, last_seq, lost) =
      count_all-counts rs s.world.state a.ledger.popped a.received a.lost in
    record {
      ledger = (spec_step s.world.log.ring.capacity a.ledger (take_out app_log_read_batch)).1;
      dropped = a.dropped;
      agrees = rw reads.ring (popped-Agrees reads.out app_log_read_batch a.agrees);
      mutex = reads.mutex ∙ a.mutex;
      room = room;
      samples = a.samples;
      seq = a.seq;
      drops = a.drops;
      received =
          ap (λ (v : State). v.received) state
          ∙ received
          ∙ ap (λ (n : ℕ). u32 (a.ledger.popped + n))
              (omega (arith, length-take k a.ledger.queue.items));
      lost = rw state lost;
      newest =
          ap (λ (v : State). u32 (last_from (drop k a.ledger.queue.items) v.last_seq + behind))
            state
          ∙ ap (λ (n : ℕ). u32 (last_from (drop k a.ledger.queue.items) n + behind)) last_seq
          ∙ ap (λ (n : ℕ). u32 (n + behind))
              (last_from-split k a.ledger.queue.items s.world.state.last_seq)
          ∙ a.newest;
    }

pub Quiet-Accounted :
    (s : System) {behind : ℕ} {phase : Phase} {w : World} {rung : Bool}
    → roomy phase ≡ true
    → Quiet s.world w
    → Accounted behind s
    → Accounted behind (record s { phase = phase; world = w; rung = rung })
Quiet-Accounted s {behind} {phase} {w} room quiet a = record {
  ledger = a.ledger;
  dropped = a.dropped;
  agrees = rw quiet.ring a.agrees;
  mutex = quiet.mutex ∙ a.mutex;
  room = room;
  samples = a.samples;
  seq = a.seq;
  drops = a.drops;
  received = quiet.received ∙ a.received;
  lost = rw (quiet.lost, quiet.last_seq, quiet.received) a.lost;
  newest = rw quiet.last_seq a.newest;
}
