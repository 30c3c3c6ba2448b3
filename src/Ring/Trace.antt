-- ===== src/Ring/Trace.antt =====
-- Whole sequences of calls on one ring, against the queue with unbounded counts beside it.
use mathlib.Core.Option
use mathlib.Core.Path.{subst}
use zybo_rtos_sensor_aggrega.Prelude.{
  ℕ, ◌+◌, ◌^◌, ◌≤◌, ◌<◌, ◌≡◌, refl, sym, ◌∙◌, ap, ap₂, inl, inr, min, Bool, true, false, Option,
  none, some, List, [], ◌∷◌, ◌++◌, arith, if◌then◌else◌, Bool-cases, length, length-append,
  length-drop, length-replicate, take, drop, replicate, u32,
}
use zybo_rtos_sensor_aggrega.Sample.{SensorRecord, zero_record}
use zybo_rtos_sensor_aggrega.Ring.{
  RingBuffer, fresh, count, push, push_body, pop, pop_body, pop_count, peek_newest,
}
use zybo_rtos_sensor_aggrega.Ring.Fifo
use zybo_rtos_sensor_aggrega.Ring.Fifo.{Fifo, empty, is_full}
use zybo_rtos_sensor_aggrega.Ring.Inv.{
  IsValid, fresh-IsValid, bad_capacity-pow, capacity_bounds, Pushed, push_body-Pushed,
  push_body-IsValid, popped, pop_body-IsValid,
}
use zybo_rtos_sensor_aggrega.Ring.Refine.{
  view, contents, length-contents, view-push_body, view-pop_body, taken_lem, push_eq, pop_eq,
  peek_refines,
}

-- A call; `take_out n` hands over a zeroed array of `n` records.
pub data Call : Type 0 where
  put : SensorRecord → Call
  take_out : ℕ → Call
  look : Call
  size : Call

-- What a call gives back.
pub data Reply : Type 0 where
  dropped : Bool → Reply
  batch : ℕ → Option (List SensorRecord) → Reply
  seen : Bool → Option SensorRecord → Reply
  holds : ℕ → Reply

unfoldable pub step : RingBuffer → Call → Reply × RingBuffer
unfolding push pop peek_newest count
step rb (put r) = let (d, rb') = push (some rb) (some r) in (dropped d, Option.get_or rb' rb)
step rb (take_out n) =
    let (k, out, rb') = pop (some rb) (some (replicate n zero_record)) n in
    (batch k out, Option.get_or rb' rb)
step rb look = let (found, out) = peek_newest (some rb) (some zero_record) in (seen found out, rb)
step rb size = (holds (count (some rb)), rb)

unfoldable pub run : RingBuffer → List Call → List Reply × RingBuffer
unfolding step
run rb [] = ([], rb)
run rb (c ∷ cs) =
    let (reply, rb') = step rb c in let (replies, last) = run rb' cs in (reply ∷ replies, last)

-- The queue, with how many records were ever pushed, popped and dropped.
pub record Ledger : Type 0 where
  pub queue : Fifo
  pub pushed : ℕ
  pub popped : ℕ
  pub lost : ℕ

module _ (cap : ℕ) where
  unfoldable pub spec_step : Ledger → Call → Reply × Ledger
  spec_step l (put r) = (
    dropped (is_full cap l.queue),
    record l {
      queue = Fifo.push cap l.queue r;
      pushed = l.pushed + 1;
      lost = if is_full cap l.queue then l.lost + 1 else l.lost;
    },
  )
  spec_step l (take_out n) =
      let k = min n (length l.queue.items) in
      (
        batch k (some (take k l.queue.items ++ drop k (replicate n zero_record))),
        record l { queue = Fifo.pop l.queue k; popped = l.popped + k },
      )
  spec_step l look = (
    elim l.queue.newest [ none ↦ seen false (some zero_record) | some r ↦ seen true (some r) ],
    l,
  )
  spec_step l size = (holds (length l.queue.items), l)

  unfoldable pub spec_run : Ledger → List Call → List Reply × Ledger
  spec_run l [] = ([], l)
  spec_run l (c ∷ cs) =
      let (reply, l') = spec_step l c in
      let (replies, last) = spec_run l' cs in (reply ∷ replies, last)

-- A ring that agrees with a ledger: its counters are the ledger's counts modulo 2^32.
pub record Agrees (rb : RingBuffer) (l : Ledger) : Type 0 where
  pub valid : IsValid rb
  pub same : view rb ≡ l.queue
  pub head : rb.head ≡ u32 l.pushed
  pub tail : rb.tail ≡ u32 (l.popped + l.lost)
  pub overwritten : rb.overwritten ≡ u32 l.lost
  pub balance : l.pushed ≡ l.popped + l.lost + length l.queue.items

abbrev of_ring : RingBuffer → Ledger → Ledger
of_ring rb l = record l { queue = view rb }

module _ {rb : RingBuffer} (l : Ledger) where
  put_refines :
      (r : SensorRecord)
      → Agrees rb (of_ring rb l)
      → Agrees (push_body rb r).1 (spec_step rb.capacity (of_ring rb l) (put r)).1
  unfolding spec_step Fifo.push
  put_refines r a = record {
    valid = push_body-IsValid r a.valid;
    same = unfold Fifo.push in view-push_body r a.valid;
    head = omega (arith, pushed.head, a.head);
    tail = ground (arith, pushed.tail, a.tail, length-contents rb);
    overwritten = ground (arith, pushed.overwritten, a.overwritten, length-contents rb);
    balance = elim (Bool-cases (is_full rb.capacity (view rb))) [
      | inl full ↦ rw full (
          omega (
            arith,
            a.balance,
            length-append (drop 1 (contents rb)) (r ∷ []),
            length-drop 1 (contents rb),
            positive full,
          ))
      | inr room ↦ rw room (omega (arith, a.balance, length-append (contents rb) (r ∷ [])))
    ];
  }
    where
      pushed : Pushed rb (push_body rb r).1 r
      pushed = push_body-Pushed rb r

      positive : is_full rb.capacity (view rb) ≡ true → 0 < length (contents rb)
      positive full = ground (arith, capacity_bounds a.valid)

  take_refines :
      (n : ℕ)
      → Agrees rb (of_ring rb l)
      → Agrees
          (popped rb (replicate n zero_record) n)
          (spec_step rb.capacity (of_ring rb l) (take_out n)).1
  unfolding spec_step Fifo.pop
  take_refines n a = record {
    valid = pop_body-IsValid (replicate n zero_record) n a.valid;
    same = view-pop_body (replicate n zero_record) n a.valid ∙ ap (Fifo.pop (view rb)) taken_eq;
    head = unfold pop_body in a.head;
    tail = unfold pop_body in omega (arith, a.tail, taken_eq);
    overwritten = unfold pop_body in a.overwritten;
    balance = omega (arith, a.balance, length-drop (min n (length (contents rb))) (contents rb));
  }
    where
      taken_eq : pop_count rb n ≡ min n (length (contents rb))
      taken_eq = taken_lem (replicate n zero_record) n a.valid

  of_ring-step :
      (c : Call)
      → Agrees rb (of_ring rb l)
      → ((step rb c).0 ≡ (spec_step rb.capacity (of_ring rb l) c).0)
        × Agrees (step rb c).1 (spec_step rb.capacity (of_ring rb l) c).1
        × ((step rb c).1.capacity ≡ rb.capacity)
  unfolding step
  of_ring-step (put r) a =
      rw (push_eq r a.valid)
        (unfold spec_step in refl, put_refines r a, (push_body-Pushed rb r).capacity)
  of_ring-step (take_out n) a =
      rw
        (pop_eq (replicate n zero_record) n a.valid (omega (arith, length-replicate n zero_record)))
        (
          unfold spec_step in
              ap (λ k. batch k (some (take k (contents rb) ++ drop k (replicate n zero_record))))
                (taken_lem (replicate n zero_record) n a.valid),
          take_refines n a,
          unfold pop_body in refl,
        )
  of_ring-step look a = (
    unfold spec_step in ground (arith, peek_refines zero_record a.valid),
    unfold spec_step in a,
    refl,
  )
  of_ring-step size a =
      (unfold spec_step count in ap holds (sym (length-contents rb)), unfold spec_step in a, refl)

-- A push and a pop into any array keep the agreement.
pub push_body-Agrees :
    {rb : RingBuffer} {l : Ledger} (r : SensorRecord)
    → Agrees rb l
    → Agrees (push_body rb r).1 (spec_step rb.capacity l (put r)).1
push_body-Agrees {rb} {l} r a =
    subst (λ k. Agrees rb k → Agrees (push_body rb r).1 (spec_step rb.capacity k (put r)).1)
      (λ i. record l { queue = a.same i }) (put_refines l r) a

pub popped-Agrees :
    {rb : RingBuffer} {l : Ledger} (out : List SensorRecord) (n : ℕ)
    → Agrees rb l
    → Agrees (popped rb out n) (spec_step rb.capacity l (take_out n)).1
unfolding pop_body
popped-Agrees {rb} {l} out n a =
    subst (λ k. Agrees rb k → Agrees (popped rb out n) (spec_step rb.capacity k (take_out n)).1)
      (λ i. record l { queue = a.same i }) (take_refines l n) a

-- One call keeps the agreement, with the reply of the queue.
step_refines :
    {rb : RingBuffer} {l : Ledger} (c : Call)
    → Agrees rb l
    → ((step rb c).0 ≡ (spec_step rb.capacity l c).0)
      × Agrees (step rb c).1 (spec_step rb.capacity l c).1
      × ((step rb c).1.capacity ≡ rb.capacity)
step_refines {rb} {l} c a =
    subst
      (λ k.
        Agrees rb k
        → ((step rb c).0 ≡ (spec_step rb.capacity k c).0)
          × Agrees (step rb c).1 (spec_step rb.capacity k c).1
          × ((step rb c).1.capacity ≡ rb.capacity))
      (λ i. record l { queue = a.same i }) (of_ring-step l c) a

-- No sequence of calls tells a ring from the dropping queue that it agrees with, and they still agree
-- after it: every reply is the queue's, the ring holds the queue, and `head`, `overwritten` and
-- `tail - overwritten` count the pushed, dropped and popped records modulo 2^32, with as many pushed
-- as popped, dropped and waiting together.
pub run_refines :
    (calls : List Call) {rb : RingBuffer} {l : Ledger}
    → Agrees rb l
    → ((run rb calls).0 ≡ (spec_run rb.capacity l calls).0)
      × Agrees (run rb calls).1 (spec_run rb.capacity l calls).1
unfolding run spec_run
run_refines [] a = (refl, a)
run_refines (c ∷ cs) {rb} {l} a =
    let s = step_refines c a in
    let ih = run_refines cs s.1 in
    let same_cap : (step rb c).1.capacity ≡ rb.capacity = s.2 in
    let replies : (run (step rb c).1 cs).0
        ≡ (spec_run rb.capacity (spec_step rb.capacity l c).1 cs).0 =
      rw same_cap at ih.0 in
    let agrees : Agrees (run (step rb c).1 cs).1
        (spec_run rb.capacity (spec_step rb.capacity l c).1 cs).1 =
      rw same_cap at ih.1 in
    (ap₂ ◌∷◌ s.0 replies, agrees)

abbrev pub start : Ledger
start = record { queue = empty; pushed = 0; popped = 0; lost = 0 }

-- A ring just initialised agrees with the empty ledger.
pub fresh-Agrees :
    (storage : List SensorRecord) (capacity k : ℕ)
    → capacity ≤ length storage
    → capacity ≡ 2 ^ k
    → k ≤ 31
    → Agrees (fresh storage capacity) start
unfolding fresh
fresh-Agrees storage capacity k enough power small = record {
  valid =
      unfold fresh in
      fresh-IsValid storage capacity enough (bad_capacity-pow storage capacity k power small);
  same = refl;
  head = refl;
  tail = refl;
  overwritten = refl;
  balance = refl;
}
