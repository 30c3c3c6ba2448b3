-- ===== src/HostTest/Passes.antt =====
-- The random test never fails.
use zybo_rtos_sensor_aggrega.Prelude.{
  ℕ, zero, suc, ◌+◌, ◌%◌, ◌≤◌, ◌<◌, ◌≡◌, refl, sym, ap, ◌∙◌, Bool, true, false, not, some, List, [],
  ◌∷◌, ◌++◌, ◌==◌, length, length-append, length-take, length-drop, take, drop, min, get_or, inl,
  inr, Bool-cases, u32, arith,
}
use zybo_rtos_sensor_aggrega.Sample.{SensorRecord, zero_record}
use zybo_rtos_sensor_aggrega.Ring.{RingBuffer, count, fill, pop_count, fresh}
use zybo_rtos_sensor_aggrega.Ring.Fifo
use zybo_rtos_sensor_aggrega.Ring.Fifo.{is_full}
use zybo_rtos_sensor_aggrega.Gpio.{bool_eq}
use zybo_rtos_sensor_aggrega.Ring.Inv.{push_body-Pushed, popped-capacity}
use zybo_rtos_sensor_aggrega.Ring.Refine.{
  contents, view, length-contents, init_eq, push_eq, pop_eq, taken_lem,
}
use zybo_rtos_sensor_aggrega.Ring.Trace.{
  Agrees, Ledger, start, put, take_out, spec_step, fresh-Agrees, push_body-Agrees, popped-Agrees,
}
use zybo_rtos_sensor_aggrega.HostTest.{
  Random, Checks, check, test_capacity, make_record, push_round, check_seqs, at_most, pop_round,
  round, rounds, next_rand, random_test,
}

-- The sequence numbers of records.
abbrev seqs : List SensorRecord → List ℕ
seqs [] = []
seqs (r ∷ rs) = r.seq ∷ seqs rs

length-seqs : (rs : List SensorRecord) → length (seqs rs) ≡ length rs
length-seqs [] = refl
length-seqs (r ∷ rs) = omega (arith, length-seqs rs)

seqs-append : (xs ys : List SensorRecord) → seqs (xs ++ ys) ≡ seqs xs ++ seqs ys
seqs-append [] ys = refl
seqs-append (x ∷ xs) ys = ap (◌∷◌ x.seq) (seqs-append xs ys)

seqs-drop : (n : ℕ) (rs : List SensorRecord) → seqs (drop n rs) ≡ drop n (seqs rs)
seqs-drop zero rs = refl
seqs-drop (suc n) [] = refl
seqs-drop (suc n) (r ∷ rs) = seqs-drop n rs

-- The first records of an array that a pop has filled.
get_or-taken :
    (n idx : ℕ) (rs rest : List SensorRecord)
    → idx < n
    → n ≤ length rs
    → (get_or (take n rs ++ rest) idx zero_record).seq ≡ get_or (seqs rs) idx 0
get_or-taken zero idx rs rest lt enough = absurd (omega arith)
get_or-taken (suc n) idx [] rest lt enough = absurd (omega arith)
get_or-taken (suc n) zero (r ∷ rs) rest lt enough = refl
get_or-taken (suc n) (suc idx) (r ∷ rs) rest lt enough =
    get_or-taken n idx rs rest (omega arith) (omega arith)

-- The reference model and the ring hold the same numbers, both have dropped as many, and no check has failed.
record Same (failures : ℕ) (t : Random) : Type 0 where
  ledger : Ledger
  agrees : Agrees t.rb ledger
  capacity : t.rb.capacity ≡ test_capacity
  model : seqs ledger.queue.items ≡ t.model
  dropped : t.model_dropped ≡ u32 ledger.lost
  array : length t.out ≡ test_capacity
  passed : t.checks.failed ≡ failures

check-passed : (c : Checks) (cond : Bool) → cond ≡ true → (check cond c).failed ≡ c.failed
unfolding check
check-passed c cond holds = rw holds refl

-- A bool is itself.
bool_eq_self : (b : Bool) → bool_eq b b ≡ true
bool_eq_self true = refl
bool_eq_self false = refl

push_round-Same : {failures : ℕ} (t : Random) → Same failures t → Same failures (push_round t)
unfolding push_round make_record
push_round-Same {failures} t h =
    let l = h.ledger in
    let r = make_record t.next_seq in
    let held : length l.queue.items ≡ length t.model =
      omega (arith, length-seqs l.queue.items, ap length h.model) in
    let full : is_full t.rb.capacity (view t.rb) ≡ (length t.model == test_capacity) =
      ap (λ (q : Fifo.Fifo). is_full t.rb.capacity q) h.agrees.same ∙ rw (held, h.capacity) refl in
    let spec_full : is_full t.rb.capacity l.queue ≡ (length t.model == test_capacity) =
      rw (held, h.capacity) refl in
    rw (push_eq r h.agrees.valid) (record {
      ledger = (spec_step t.rb.capacity l (put r)).1;
      agrees = push_body-Agrees r h.agrees;
      capacity = (push_body-Pushed t.rb r).capacity ∙ h.capacity;
      model =
          unfold spec_step Fifo.push in
          rw spec_full (elim (Bool-cases (length t.model == test_capacity)) [
            | inl drops ↦ rw drops (
                seqs-append (drop 1 l.queue.items) (r ∷ [])
                ∙ ap (◌++ (t.next_seq ∷ [])) (seqs-drop 1 l.queue.items ∙ ap (drop 1) h.model))
            | inr keeps ↦
                rw keeps (seqs-append l.queue.items (r ∷ []) ∙ ap (◌++ (t.next_seq ∷ [])) h.model)
          ]);
      dropped = unfold spec_step in rw spec_full (ground (arith, h.dropped));
      array = h.array;
      passed =
          check-passed t.checks
            (bool_eq (is_full t.rb.capacity (view t.rb)) (length t.model == test_capacity))
            (rw full (bool_eq_self (length t.model == test_capacity)))
          ∙ h.passed;
    })

-- The records popped carry the numbers of the model.
check_seqs-passed :
    (out : List SensorRecord) (model : List ℕ) (n idx left : ℕ) (c : Checks)
    → ((i : ℕ) → i < n → (get_or out i zero_record).seq ≡ get_or model i 0)
    → idx + left ≤ n
    → (check_seqs out model idx left c).failed ≡ c.failed
unfolding check_seqs
check_seqs-passed out model n idx zero c agree within = refl
check_seqs-passed out model n idx (suc left) c agree within =
    let one : (get_or out idx zero_record).seq == get_or model idx 0 ≡ true =
      ground (arith, agree idx (omega (arith, within))) in
    check_seqs-passed out model n (idx + 1) left _ agree (omega (arith, within))
    ∙ check-passed c ((get_or out idx zero_record).seq == get_or model idx 0) one

pop_round-Same :
    {failures : ℕ} (request : ℕ) (t : Random)
    → Same failures t
    → Same failures (pop_round request t)
unfolding pop_round
pop_round-Same {failures} request t h =
    let l = h.ledger in
    let wanted = at_most request test_capacity in
    let n = pop_count t.rb wanted in
    let items = contents t.rb in
    let enough : wanted ≤ length t.out = ground (arith, h.array) in
    let same : items ≡ l.queue.items = ap (λ (q : Fifo.Fifo). q.items) h.agrees.same in
    let model : seqs items ≡ t.model = ap seqs same ∙ h.model in
    let held : length items ≡ length t.model = omega (arith, length-seqs items, ap length model) in
    let count : n ≡ min wanted (length items) = taken_lem t.out wanted h.agrees.valid in
    let expected : n ≡ at_most (at_most request (length t.model)) test_capacity =
      ground (arith, count, held) in
    let k = min wanted (length l.queue.items) in
    let taken : n ≡ k = omega (arith, count, ap length same) in
    let out' = take n items ++ drop n t.out in
    rw (pop_eq t.out wanted h.agrees.valid enough) (record {
      ledger = (spec_step t.rb.capacity l (take_out wanted)).1;
      agrees = popped-Agrees t.out wanted h.agrees;
      capacity = popped-capacity t.rb t.out wanted ∙ h.capacity;
      model =
          unfold spec_step Fifo.pop in
          seqs-drop k l.queue.items ∙ ap (drop k) h.model ∙ ap (λ j. drop j t.model) (sym taken);
      dropped = unfold spec_step in h.dropped;
      array = omega (
        arith,
        length-append (take n items) (drop n t.out),
        length-take n items,
        length-drop n t.out,
        h.array,
        count,
        enough,
      );
      passed =
          check_seqs-passed out' t.model n 0 n _
            (λ i lt.
              get_or-taken n i items (drop n t.out) lt (omega (arith, count))
              ∙ ap (λ m. get_or m i 0) model)
            (omega arith)
          ∙ check-passed t.checks (n == at_most (at_most request (length t.model)) test_capacity)
              (ground (arith, expected))
          ∙ h.passed;
    })

-- Another state of the generator.
reseeded :
    {failures : ℕ} (t : Random) (state : ℕ)
    → Same failures t
    → Same failures (record t { rand_state = state })
reseeded t state h = record {
  ledger = h.ledger;
  agrees = h.agrees;
  capacity = h.capacity;
  model = h.model;
  dropped = h.dropped;
  array = h.array;
  passed = h.passed;
}

-- The two checks at the end of a round.
compared :
    {failures : ℕ} (t : Random)
    → Same failures t
    → Same failures (record t {
      checks =
          check
            (t.rb.overwritten == t.model_dropped)
            (check (count (some t.rb) == length t.model) t.checks);
    })
unfolding count
compared {failures} t h =
    let held : fill t.rb ≡ length t.model = omega (
      arith,
      length-contents t.rb,
      ap (λ (q : Fifo.Fifo). length q.items) h.agrees.same,
      length-seqs h.ledger.queue.items,
      ap length h.model,
    ) in
    record {
      ledger = h.ledger;
      agrees = h.agrees;
      capacity = h.capacity;
      model = h.model;
      dropped = h.dropped;
      array = h.array;
      passed =
          check-passed _ (t.rb.overwritten == t.model_dropped)
            (ground (arith, h.agrees.overwritten, h.dropped))
          ∙ check-passed t.checks (fill t.rb == length t.model) (ground (arith, held))
          ∙ h.passed;
    }

round-Same : {failures : ℕ} (t : Random) → Same failures t → Same failures (round t)
unfolding round
round-Same t h =
    let (choice, state1) = next_rand t.rand_state in
    let (size, state2) = next_rand state1 in
    elim (Bool-cases (not (choice % 3 == 0))) [
      | inl pushes ↦ rw pushes (
          compared (push_round (record t { rand_state = state1 }))
            (push_round-Same (record t { rand_state = state1 }) (reseeded t state1 h)))
      | inr pops ↦ rw pops (
          compared (pop_round (size % (test_capacity + 2)) (record t { rand_state = state2 })) (
            pop_round-Same (size % (test_capacity + 2)) (record t { rand_state = state2 })
              (reseeded t state2 h)))
    ]

rounds-Same :
    {failures : ℕ} (left : ℕ) (t : Random)
    → Same failures t
    → Same failures (rounds failures left t)
unfolding rounds
rounds-Same zero t h = h
rounds-Same {failures} (suc left) t h =
    let on : t.checks.failed == failures ≡ true = ground (arith, h.passed) in
    rw on (rounds-Same left (round t) (round-Same t h))

-- The random test passes: whatever the seed of the generator, the number of iterations and what the arrays
-- of eight records and the ring held before, no check of it fails.
pub random_test-passes :
    (rb : RingBuffer) (storage out : List SensorRecord) (rand_state iterations : ℕ) (c : Checks)
    → length storage ≡ test_capacity
    → length out ≡ test_capacity
    → (random_test rb storage out rand_state iterations c).checks.failed ≡ c.failed
unfolding random_test
random_test-passes rb storage out rand_state iterations c stored array =
    let begin : Random = record {
      rand_state = rand_state;
      rb = fresh storage test_capacity;
      out = out;
      model = [];
      model_dropped = 0;
      next_seq = 1;
      checks = check true c;
    } in
    let same : Same c.failed begin = record {
      ledger = start;
      agrees = fresh-Agrees storage test_capacity 3 (omega (arith, stored)) refl (omega arith);
      capacity = unfold fresh in refl;
      model = refl;
      dropped = refl;
      array = array;
      passed = check-passed c true refl;
    } in
    rw (init_eq rb storage test_capacity 3 refl (omega arith))
      (rounds-Same iterations begin same).passed
