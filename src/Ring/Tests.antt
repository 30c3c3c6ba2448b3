-- ===== src/Ring/Tests.antt =====
-- Runs of the ring on small storage, and the theorems of the ring at concrete rings.
use native.Mathlib.Nat.{pow-suc}
use zybo_rtos_sensor_aggrega.Prelude.{
  ℕ, zero, suc, ◌*◌, ◌-◌, ◌≤◌, ◌^◌, ◌≡◌, ◌≢◌, refl, true, false, some, List, [], ◌∷◌, arith,
}
use zybo_rtos_sensor_aggrega.Sample.{SensorRecord, zero_sample, zero_record}
use zybo_rtos_sensor_aggrega.Ring.{RingBuffer, init, fresh}
use zybo_rtos_sensor_aggrega.Ring.Fifo.{empty}
use zybo_rtos_sensor_aggrega.Ring.Inv.{IsValid}
use zybo_rtos_sensor_aggrega.Ring.Refine.{view, init_accepts, init_rejects}
use zybo_rtos_sensor_aggrega.Ring.Trace.{
  Call, put, take_out, look, size, dropped, batch, seen, holds, run, spec_run, Agrees, start,
  run_refines, fresh-Agrees,
}

abbrev numbered : ℕ → SensorRecord
numbered n = record { capture_us = n * 100; seq = n; sensors = zero_sample; buttons = 0 }

-- Two slots, the counters just before their wrap: records 3 and 4 wait.
abbrev wrapping : RingBuffer
wrapping = record {
  storage = some (numbered 3 ∷ numbered 4 ∷ []);
  capacity = 2;
  index_mask = 1;
  head = 0;
  tail = 2 ^ 32 - 2;
  overwritten = 0;
  fill_high_water = 2;
  has_newest = true;
}

wrapping-IsValid : IsValid wrapping
wrapping-IsValid = record {
  exponent = 1;
  small = omega arith;
  stored = refl;
  power = refl;
  mask = refl;
  room = omega arith;
  head_fits = omega arith;
  tail_fits = omega arith;
  within = omega arith;
  peak = omega arith;
  peak_within = omega arith;
}

abbrev script : List Call
script =
    put (numbered 5)
    ∷ take_out 1
    ∷ look
    ∷ put (numbered 6)
    ∷ put (numbered 7)
    ∷ take_out 5
    ∷ look
    ∷ size
    ∷ []

script_replies :
    (run wrapping script).0
    ≡ dropped true
      ∷ batch 1 (some (numbered 4 ∷ []))
      ∷ seen true (some (numbered 5))
      ∷ dropped false
      ∷ dropped true
      ∷ batch 2 (some (numbered 6 ∷ numbered 7 ∷ zero_record ∷ zero_record ∷ zero_record ∷ []))
      ∷ seen true (some (numbered 7))
      ∷ holds 0
      ∷ []
unfolding run
script_replies = refl

init_accepts_example :
    (rb' : RingBuffer) × (init (some wrapping) (some (zero_record ∷ zero_record ∷ [])) 2
      ≡ (true, some rb'))
    × (rb'.capacity ≡ 2)
    × (view rb' ≡ empty)
    × IsValid rb'
init_accepts_example =
    init_accepts wrapping (zero_record ∷ zero_record ∷ []) 2 1 (omega arith) refl (omega arith)

three_odd : (k : ℕ) → k ≤ 31 → 3 ≢ 2 ^ k
three_odd zero h = omega arith
three_odd (suc k) h = omega (arith, pow-suc 2 k)

init_rejects_example : init (some wrapping) (some (zero_record ∷ [])) 3 ≡ (false, some wrapping)
init_rejects_example = init_rejects wrapping (zero_record ∷ []) 3 three_odd

abbrev two_slots : RingBuffer
two_slots = fresh (zero_record ∷ zero_record ∷ []) 2

two_slots-Agrees : Agrees two_slots start
two_slots-Agrees =
    fresh-Agrees (zero_record ∷ zero_record ∷ []) 2 1 (omega arith) refl (omega arith)

run_refines_example :
    ((run two_slots script).0 ≡ (spec_run two_slots.capacity start script).0)
    × Agrees (run two_slots script).1 (spec_run two_slots.capacity start script).1
run_refines_example = run_refines script two_slots-Agrees
