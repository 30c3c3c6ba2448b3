-- ===== src/Consumer/Steps/Effects.antt =====
-- What the answer to a message and a read of the log do to the log and to the counters of what the consumer
-- received.
use mathlib.Core.Option
use zybo_rtos_sensor_aggrega.Prelude.{
  ℕ, suc, ◌-◌, ◌≤◌, ◌≡◌, refl, sym, ap, ◌∙◌, ◌⊎◌, Bool, true, false, not, inl, inr, Option, some,
  List, ltb, ltb→lt, leb, if◌then◌else◌, length, take, drop, arith, Bool-cases, Option-cases,
  length-append, length-take, length-drop, take-take_append,
}
use zybo_rtos_sensor_aggrega.Config.{app_log_read_batch, app_log_drain_batches_max}
use zybo_rtos_sensor_aggrega.Sample.{SensorRecord}
use zybo_rtos_sensor_aggrega.Message.{Msg, MsgId, data_ready}
use zybo_rtos_sensor_aggrega.Ring.{fill, pop_count}
use zybo_rtos_sensor_aggrega.Ring.Inv.{IsValid, popped, pop_count-le}
use zybo_rtos_sensor_aggrega.Ring.Refine.{contents, length-contents, taken_lem}
use zybo_rtos_sensor_aggrega.SensorLog.{SensorLog}
use zybo_rtos_sensor_aggrega.SensorLog.Counters.{gets, read-Took, read-busy}
use zybo_rtos_sensor_aggrega.Consumer.{World, State, process_batch}
use zybo_rtos_sensor_aggrega.Consumer.Drain.{count_all, process_batch-counts}
use zybo_rtos_sensor_aggrega.Consumer.Messages
use zybo_rtos_sensor_aggrega.Consumer.Messages.{MsgEnv, answer, handle_msg, note_depth}
use zybo_rtos_sensor_aggrega.Consumer.Messages.Handling.{handled, handle_msg_lem, switched}
use zybo_rtos_sensor_aggrega.Consumer.Steps.{Phase, receiving, reading, closing, step_at}

-- The log holds what it held, and nothing more has been received.
pub record Quiet (w w' : World) : Type 0 where
  pub ring : w'.log.ring ≡ w.log.ring
  pub mutex : w'.log.mutex ≡ w.log.mutex
  pub received : w'.state.received ≡ w.state.received
  pub last_seq : w'.state.last_seq ≡ w.state.last_seq
  pub lost : w'.state.lost ≡ w.state.lost

-- A batch has been taken out of the log and counted.
pub record Reads (w w' : World) : Type 0 where
  pub out : List SensorRecord
  pub ring : w'.log.ring ≡ popped w.log.ring out app_log_read_batch
  pub mutex : w'.log.mutex ≡ w.log.mutex
  pub state :
      w'.state
      ≡ count_all (take (pop_count w.log.ring app_log_read_batch) (contents w.log.ring)) w.state

-- The array of a phase has room for a batch.
abbrev pub roomy : Phase → Bool
roomy (reading batch left) = leb app_log_read_batch (length batch)
roomy phase = true

switched_counts :
    (id : MsgId) (s : State)
    → ((switched id s).received ≡ s.received)
      × ((switched id s).last_seq ≡ s.last_seq)
      × ((switched id s).lost ≡ s.lost)
switched_counts id s =
    elim id
      as (λ (k : MsgId).
        ((switched k s).received ≡ s.received)
        × ((switched k s).last_seq ≡ s.last_seq)
        × ((switched k s).lost ≡ s.lost)) [
          | data_ready ↦ (refl, refl, refl)
          | _ ↦ (refl, refl, refl)
        ]

handled-Quiet :
    (env : MsgEnv) (msg : Msg) (w w1 : World) → (handle_msg env msg w).1 ≡ some w1 → Quiet w w1
handled-Quiet env msg w w1 e =
    let same : handled env msg w ≡ w1 = ap (λ (o : Option World). Option.get_or o w) e in
    let (state, ring, mutex) = handle_msg_lem env msg w in
    let (received, last_seq, lost) = switched_counts msg.id w.state in
    let state' : w1.state ≡ switched msg.id w.state =
      ap (λ (v : World). v.state) (sym same) ∙ state in
    record {
      ring = ap (λ (v : World). v.log.ring) (sym same) ∙ ring;
      mutex = ap (λ (v : World). v.log.mutex) (sym same) ∙ mutex;
      received = ap (λ (s : State). s.received) state' ∙ received;
      last_seq = ap (λ (s : State). s.last_seq) state' ∙ last_seq;
      lost = ap (λ (s : State). s.lost) state' ∙ lost;
    }

-- What the answer to a message, or to none, leaves.
pub answer-Quiet :
    (env : Messages.PassEnv) (backlog_pending : Bool) (w w1 : World)
    → (answer env backlog_pending w).1 ≡ some w1
    → Quiet w w1
unfolding answer
answer-Quiet env backlog_pending w w1 e =
    let wait : ℕ = if backlog_pending then 0 else env.poll_ticks in
    elim (Option-cases (env.receive wait)) [
      | inl nothing ↦
          let answered : some w ≡ some w1 = rw (nothing, answer) at e in
          let same : w1 ≡ w = sym (ap (λ (o : Option World). Option.get_or o w) answered) in
          record {
            ring = ap (λ (v : World). v.log.ring) same;
            mutex = ap (λ (v : World). v.log.mutex) same;
            received = ap (λ (v : World). v.state.received) same;
            last_seq = ap (λ (v : World). v.state.last_seq) same;
            lost = ap (λ (v : World). v.state.lost) same;
          }
      | inr (msg, got) ↦
          let w0 : World = record w { state = note_depth env.queue_left w.state } in
          let q = handled-Quiet env.msg_env msg w0 w1 (rw (got, answer) at e) in
          record {
            ring = q.ring;
            mutex = q.mutex;
            received = ground (arith, q.received);
            last_seq = ground (arith, q.last_seq);
            lost = ground (arith, q.lost);
          }
    ]

-- The consumer waits at its queue, or is on its way there to wait.
abbrev pub asleep : Phase → Bool
asleep (receiving backlog_pending) = not backlog_pending
asleep (closing again) = not again
asleep phase = false

-- What a step from the drain loop leaves: the consumer goes to sleep only with the log emptied.
pub record AfterRead (w : World) (phase : Phase) (w' : World) : Type 0 where
  pub effect : Quiet w w' ⊎ Reads w w'
  pub room : roomy phase ≡ true
  pub emptied : asleep phase ≡ true → fill w'.log.ring ≡ 0

pub read-AfterRead :
    (env : Messages.PassEnv) (batch : List SensorRecord) (left : ℕ) (w : World)
    → IsValid w.log.ring
    → app_log_read_batch ≤ length batch
    → let (outs, phase, w') = step_at env (reading batch (suc left)) w in AfterRead w phase w'
unfolding step_at
read-AfterRead env batch left w v enough =
    let lock = env.locks (app_log_drain_batches_max - suc left) in
    let wait = env.msg_env.read_wait in
    let n = pop_count w.log.ring app_log_read_batch in
    elim (Bool-cases (gets lock w.log wait)) [
      | inr busy ↦ rw (read-busy lock w.log batch app_log_read_batch wait 0 busy) (record {
        effect =
            inl
              (record { ring = refl; mutex = refl; received = refl; last_seq = refl; lost = refl });
        room = refl;
        emptied = λ h. ground (arith, h);
      })
      | inl got ↦
          let (out', log', e, t) =
            read-Took lock w.log wait v batch app_log_read_batch 0 enough got in
          let at_most : n ≤ app_log_read_batch = (pop_count-le w.log.ring app_log_read_batch).1 in
          let len : length out' ≡ length batch = omega (
            arith,
            ap length t.records,
            length-append (take n (contents w.log.ring)) (drop n batch),
            length-take n (contents w.log.ring),
            length-drop n batch,
            length-contents w.log.ring,
            t.held,
            at_most,
          ) in
          let w1 = (process_batch out' 0 n (record w { log = log' })).1 in
          let (counts, log) =
            process_batch-counts out' 0 n (record w { log = log' }) (omega (arith, len, at_most)) in
          let reads : Reads w w1 = record {
            out = batch;
            ring = ap (λ (g : SensorLog). g.ring) log ∙ t.ring;
            mutex = ap (λ (g : SensorLog). g.mutex) log ∙ t.mutex;
            state =
                counts
                ∙ ap (λ (rs : List SensorRecord). count_all rs w.state)
                    (ap (take n) t.records
                      ∙ take-take_append n (contents w.log.ring) (drop n batch)
                          (omega (arith, t.held, length-contents w.log.ring)));
          } in
          rw e (elim (Bool-cases (ltb n app_log_read_batch)) [
            | inl short ↦ rw short (record {
              effect = inr reads;
              room = refl;
              emptied = λ h.
                  ap (λ (g : SensorLog). fill g.ring) log
                  ∙ omega (
                    arith,
                    t.left,
                    ltb→lt n app_log_read_batch short,
                    taken_lem batch app_log_read_batch v,
                    length-contents w.log.ring,
                  );
            })
            | inr full ↦ rw full (record {
              effect = inr reads;
              room = ground (arith, len);
              emptied = λ h. ground (arith, h);
            })
          ])
    ]
