-- ===== src/HostTest.antt =====
-- sw/stage4_watchdog/tests/host/test_ring_buffer.c: the random test of the ring buffer, which compares it with a
-- shift array that drops its oldest entry. What is printed is left out.
pub mod Passes
mod Tests
use mathlib.Core.Option
use zybo_rtos_sensor_aggrega.Prelude.{
  ℕ, zero, suc, ◌+◌, ◌*◌, ◌/◌, ◌%◌, ◌^◌, Bool, true, false, not, some, List, [], ◌∷◌, ◌++◌, ltb,
  ◌==◌, if◌then◌else◌, length, drop, get_or, bit_and, u32, u64, add32,
}
use zybo_rtos_sensor_aggrega.Sample.{SensorRecord, zero_record}
use zybo_rtos_sensor_aggrega.Ring.{RingBuffer, init, count, push, pop}
use zybo_rtos_sensor_aggrega.Gpio.{bool_eq}

abbrev pub test_capacity : ℕ
test_capacity = 8

-- `make_record`.
pub make_record : ℕ → SensorRecord
make_record seq = record {
  capture_us = u64 (seq * 100000);
  seq = seq;
  sensors = record { raw_code = bit_and seq 0x0fff ∷ 0 ∷ 0 ∷ 0 ∷ 0 ∷ 0 ∷ 0 ∷ [] };
  buttons = 0;
}

-- `s_checks_run` and `s_checks_failed`.
pub record Checks : Type 0 where
  pub run : ℕ
  pub failed : ℕ

-- `CHECK`.
pub check : Bool → Checks → Checks
check cond c = record {
  run = add32 c.run 1;
  failed = if not cond then add32 c.failed 1 else c.failed;
}

-- `next_rand`: the number, and the next `s_rand_state`.
pub next_rand : ℕ → ℕ × ℕ
next_rand state = let next = add32 (u32 (state * 1103515245)) 12345 in (next / 2 ^ 8, next)

-- The locals of `test_random_against_model`; `model` is the array up to `model_count`.
pub record Random : Type 0 where
  pub rand_state : ℕ
  pub rb : RingBuffer
  pub out : List SensorRecord
  pub model : List ℕ
  pub model_dropped : ℕ
  pub next_seq : ℕ
  pub checks : Checks

-- The push of one round.
pub push_round : Random → Random
push_round t =
    let model_drops = length t.model == test_capacity in
    let (dropped, rb) = push (some t.rb) (some (make_record t.next_seq)) in
    record t {
      rb = Option.get_or rb t.rb;
      model = (if model_drops then drop 1 t.model else t.model) ++ (t.next_seq ∷ []);
      model_dropped = if model_drops then add32 t.model_dropped 1 else t.model_dropped;
      next_seq = add32 t.next_seq 1;
      checks = check (bool_eq dropped model_drops) t.checks;
    }

-- The loop over the records popped, with `left` rounds to go at index `idx`.
pub check_seqs : List SensorRecord → List ℕ → ℕ → ℕ → Checks → Checks
check_seqs out model idx zero c = c
check_seqs out model idx (suc left) c =
    check_seqs out model (idx + 1) left
      (check ((get_or out idx zero_record).seq == get_or model idx 0) c)

abbrev pub at_most : ℕ → ℕ → ℕ
at_most a b = if ltb a b then a else b

-- The pop of one round, of `request` records.
pub pop_round : ℕ → Random → Random
pop_round request t =
    let expected = at_most request (length t.model) in
    let (got, out, rb) = pop (some t.rb) (some t.out) (at_most request test_capacity) in
    let out' = Option.get_or out t.out in
    record t {
      rb = Option.get_or rb t.rb;
      out = out';
      model = drop got t.model;
      checks =
          check_seqs out' t.model 0 got (check (got == at_most expected test_capacity) t.checks);
    }

-- One round of the loop.
pub round : Random → Random
round t =
    let (choice, state1) = next_rand t.rand_state in
    let (size, state2) = next_rand state1 in
    let t' =
      if not (choice % 3 == 0)
      then push_round (record t { rand_state = state1 })
      else pop_round (size % (test_capacity + 2)) (record t { rand_state = state2 }) in
    record t' {
      checks =
          check (t'.rb.overwritten == t'.model_dropped)
            (check (count (some t'.rb) == length t'.model) t'.checks);
    }

-- The loop, with `left` rounds to go; it ends at the first round with a check that failed.
pub rounds : ℕ → ℕ → Random → Random
rounds failures_before zero t = t
rounds failures_before (suc left) t =
    let rest = rounds failures_before left (round t) in
    if t.checks.failed == failures_before then rest else t

-- `test_random_against_model` of so many iterations, with the arrays and the ring as the stack holds them.
pub random_test : RingBuffer → List SensorRecord → List SensorRecord → ℕ → ℕ → Checks → Random
random_test rb storage out rand_state iterations c =
    let (accepted, rb') = init (some rb) (some storage) test_capacity in
    rounds c.failed iterations (record {
      rand_state = rand_state;
      rb = Option.get_or rb' rb;
      out = out;
      model = [];
      model_dropped = 0;
      next_seq = 1;
      checks = check accepted c;
    })
