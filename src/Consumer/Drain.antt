-- ===== src/Consumer/Drain.antt =====
-- What a drain of the log takes out and counts.
use zybo_rtos_sensor_aggrega.Prelude.{
  ℕ, zero, suc, ◌+◌, ◌-◌, ◌≤◌, ◌<◌, ◌≡◌, refl, sym, ap, ◌∙◌, min, Bool, true, false, inl, inr,
  Option, some, List, [], ◌∷◌, ◌++◌, ltb, leb, if◌then◌else◌, get_or, length, take, drop, u32,
  add32, sub32, arith, Bool-cases, take-all, drop-all, take_add, drop_add, take-take_append,
  take-drop_next, length-append, length-take, length-drop,
}
use zybo_rtos_sensor_aggrega.Config.{app_log_read_batch, app_log_drain_batches_max}
use zybo_rtos_sensor_aggrega.Sample.{SensorRecord, zero_record}
use zybo_rtos_sensor_aggrega.Ring.Fifo
use zybo_rtos_sensor_aggrega.Ring.Fifo.{Fifo}
use zybo_rtos_sensor_aggrega.Ring.Inv.{IsValid}
use zybo_rtos_sensor_aggrega.Ring.Refine.{view}
use zybo_rtos_sensor_aggrega.SensorLog
use zybo_rtos_sensor_aggrega.SensorLog.{SensorLog, LockEnv}
use zybo_rtos_sensor_aggrega.SensorLog.Laws.{read_locked}
use zybo_rtos_sensor_aggrega.SensorLog.Counters.{read-mutex, read-busy}
use zybo_rtos_sensor_aggrega.Consumer.{
  State, Out, World, count_record, process_record, process_batch, drain_from, drain_log,
}

-- The counters after a list of records.
unfoldable pub count_all : List SensorRecord → State → State
count_all [] s = s
count_all (r ∷ rs) s = count_all rs (count_record r s)

count_all-append :
    (xs ys : List SensorRecord) (s : State) → count_all (xs ++ ys) s ≡ count_all ys (count_all xs s)
unfolding count_all
count_all-append [] ys s = refl
count_all-append (x ∷ xs) ys s = count_all-append xs ys (count_record x s)

-- The records that wait in the log.
abbrev pub waiting : World → List SensorRecord
waiting w = (view w.log.ring).items

pub process_batch-counts :
    (batch : List SensorRecord) (idx left : ℕ) (w : World)
    → idx + left ≤ length batch
    → ((process_batch batch idx left w).1.state ≡ count_all (take left (drop idx batch)) w.state)
      × ((process_batch batch idx left w).1.log ≡ w.log)
unfolding process_batch count_all process_record
process_batch-counts batch idx zero w h = (refl, refl)
process_batch-counts batch idx (suc left) w h =
    let ih =
      process_batch-counts batch (idx + 1) left (process_record (get_or batch idx zero_record) w).1
        (omega arith) in
    (
      ih.0
          ∙ ap (λ (rs : List SensorRecord). count_all rs w.state)
              (sym (take-drop_next left idx batch zero_record (omega arith))),
      ih.1,
    )

-- The most that a number of batches holds.
abbrev pub batches : ℕ → ℕ
batches zero = 0
batches (suc left) = app_log_read_batch + batches left

record Drained (n : ℕ) (w : World) (result : Bool) (w' : World) : Type 0 where
  again : result ≡ leb n (length (waiting w))
  state : w'.state ≡ count_all (take n (waiting w)) w.state
  left : waiting w' ≡ drop n (waiting w)
  valid : IsValid w'.log.ring
  mutex : w'.log.mutex ≡ w.log.mutex

-- A batch of `n` records, and then the rest if the batch was full.
step-Drained :
    (m n : ℕ) (w w1 w2 : World) (again : Bool) (outs1 outs2 : List Out)
    → n ≡ min app_log_read_batch (length (waiting w))
    → w1.state ≡ count_all (take n (waiting w)) w.state
    → waiting w1 ≡ drop n (waiting w)
    → IsValid w1.log.ring
    → w1.log.mutex ≡ w.log.mutex
    → Drained m w1 again w2
    → let out : Bool × List Out × World =
        if ltb n app_log_read_batch then (false, outs1, w1) else (again, outs2, w2) in
      Drained (app_log_read_batch + m) w out.0 out.2
step-Drained m n w w1 w2 again outs1 outs2 hn hs hl v hm d =
    elim (Bool-cases (ltb n app_log_read_batch)) [
      | inl short ↦
          let all : n ≡ length (waiting w) = ground arith in
          let few : n < app_log_read_batch = ground arith in
          rw short (record {
            again = ground arith;
            state =
                hs
                ∙ ap (λ (rs : List SensorRecord). count_all rs w.state)
                    (take-all n (waiting w) (omega arith)
                      ∙ sym (take-all (app_log_read_batch + m) (waiting w) (omega arith)));
            left =
                hl
                ∙ drop-all n (waiting w) (omega arith)
                ∙ sym (drop-all (app_log_read_batch + m) (waiting w) (omega arith));
            valid = v;
            mutex = hm;
          })
      | inr full ↦
          let e : n ≡ app_log_read_batch = ground arith in
          let len : length (waiting w1) ≡ length (waiting w) - n =
            ap length hl ∙ length-drop n (waiting w) in
          rw full (record {
            again = ground (arith, d.again, len);
            state =
                d.state
                ∙ rw (hl, hs)
                    (sym (
                        count_all-append (take n (waiting w)) (take m (drop n (waiting w))) w.state)
                      ∙ ap (λ (rs : List SensorRecord). count_all rs w.state)
                          (rw e (take_add app_log_read_batch m (waiting w))));
            left = d.left ∙ rw hl (rw e (drop_add app_log_read_batch m (waiting w)));
            valid = d.valid;
            mutex = d.mutex ∙ hm;
          })
    ]

drain_from-Drained :
    (locks : ℕ → LockEnv) (lock_wait : ℕ) (batch : List SensorRecord) (batch_num left : ℕ)
    (w : World)
    → IsValid w.log.ring
    → w.log.mutex ≡ true
    → ((k : ℕ) → (locks k).take lock_wait ≡ true)
    → app_log_read_batch ≤ length batch
    → Drained
        (batches left)
        w
        (drain_from locks lock_wait batch batch_num left w).0
        (drain_from locks lock_wait batch batch_num left w).2
unfolding drain_from Fifo.pop
drain_from-Drained locks lock_wait batch batch_num zero w v m l enough = record {
  again = ground arith;
  state = unfold count_all in refl;
  left = refl;
  valid = v;
  mutex = refl;
}
drain_from-Drained locks lock_wait batch batch_num (suc left) w v m l enough =
    let n = min app_log_read_batch (length (waiting w)) in
    let (log', e, seen, v', _) =
      read_locked (locks batch_num) w.log batch app_log_read_batch lock_wait 0 v enough
        (m, l batch_num) in
    let out' = take n (waiting w) ++ drop n batch in
    let fits : n ≤ length (waiting w) = omega arith in
    let len : length out' ≡ length batch = omega (
      arith,
      length-append (take n (waiting w)) (drop n batch),
      length-take n (waiting w),
      length-drop n batch,
    ) in
    let counts = process_batch-counts out' 0 n (record w { log = log' }) (omega (arith, len)) in
    let w1 = (process_batch out' 0 n (record w { log = log' })).1 in
    let log_same : w1.log ≡ log' = counts.1 in
    let valid : IsValid w1.log.ring = rw log_same v' in
    let mutex : w1.log.mutex ≡ w.log.mutex =
      ap (λ (g : SensorLog). g.mutex) log_same
      ∙ ap (λ (p : Bool × Option (List SensorRecord) × Option ℕ × SensorLog). p.3.mutex) (sym e)
      ∙ read-mutex (locks batch_num) w.log batch app_log_read_batch lock_wait 0 in
    let ih =
      drain_from-Drained locks lock_wait out' (batch_num + 1) left w1 valid (mutex ∙ m) l
        (omega (arith, len)) in
    rw e (
      step-Drained (batches left) n w w1 _ _ _ _ refl
        (counts.0
          ∙ ap (λ (rs : List SensorRecord). count_all rs w.state)
              (take-take_append n (waiting w) (drop n batch) fits))
        (ap (λ (g : SensorLog). (view g.ring).items) log_same ∙ ap (λ (q : Fifo). q.items) seen)
        valid mutex ih)

-- `consumer_drain_log` that is not paused and gets the mutex for each read: it takes the oldest records out
-- of the log, 64 at most, counts each of them in order, leaves the others waiting behind the mutex, and asks for another
-- pass exactly if 64 or more were waiting; so without such a request it has emptied the log.
pub drain_log_lem :
    (locks : ℕ → LockEnv) (lock_wait : ℕ) (batch : List SensorRecord) (w : World)
    → IsValid w.log.ring
    → w.log.mutex ≡ true
    → ((k : ℕ) → (locks k).take lock_wait ≡ true)
    → app_log_read_batch ≤ length batch
    → w.state.drain_paused ≡ false
    → let out = drain_log locks lock_wait batch w in
      (out.0 ≡ leb 64 (length (waiting w)))
      × (out.2.state ≡ count_all (take 64 (waiting w)) w.state)
      × (waiting (out.2) ≡ drop 64 (waiting w))
      × IsValid out.2.log.ring
      × (out.2.log.mutex ≡ w.log.mutex)
drain_log_lem locks lock_wait batch w v m l enough running =
    let e : drain_log locks lock_wait batch w
        ≡ drain_from locks lock_wait batch 0 app_log_drain_batches_max w =
      unfold drain_log in ground (arith, running) in
    let d = drain_from-Drained locks lock_wait batch 0 app_log_drain_batches_max w v m l enough in
    rw e (d.again, d.state, d.left, d.valid, d.mutex)

-- A drain whose first read does not get the mutex leaves the log as it was, counts the failure and
-- asks for another pass; a paused consumer changes nothing and asks for none.
drain_log_stops :
    (locks : ℕ → LockEnv) (lock_wait : ℕ) (batch : List SensorRecord) (w : World)
    → (locks 0).take lock_wait ≡ false
    → drain_log locks lock_wait batch w ≡ (
        if w.state.drain_paused then (false, [], w) else (
          true,
          [],
          record w {
            state = record (w.state) { log_lock_timeouts = add32 w.state.log_lock_timeouts 1 };
          },
        ))
drain_log_stops locks lock_wait batch w busy =
    let e : SensorLog.read (locks 0) w.log (some batch) app_log_read_batch lock_wait (some 0)
        ≡ (false, some batch, some 0, w.log) =
      read-busy (locks 0) w.log batch app_log_read_batch lock_wait 0 (ground (arith, busy)) in
    let stopped : drain_from locks lock_wait batch 0 app_log_drain_batches_max w ≡ (
      true,
      [],
      record w {
        state = record (w.state) { log_lock_timeouts = add32 w.state.log_lock_timeouts 1 };
      },
    ) =
      unfold drain_from in rw e refl in
    unfold drain_log in rw stopped refl

-- The counters after the records of a list: `received` has grown by their number, and `lost` is what the
-- sequence number of the last of them exceeds it by, modulo 2^32.
count_all_lem :
    (rs : List SensorRecord) (r : SensorRecord) (s : State)
    → let s' = count_all (rs ++ (r ∷ [])) s in
      (s'.received ≡ u32 (s.received + length rs + 1))
      × (s'.last_seq ≡ r.seq)
      × (s'.lost ≡ sub32 r.seq s'.received)
unfolding count_all count_record
count_all_lem [] r s = (omega arith, refl, refl)
count_all_lem (x ∷ rs) r s =
    let (a, b, c) = count_all_lem rs r (count_record x s) in (omega (arith, a), b, c)
