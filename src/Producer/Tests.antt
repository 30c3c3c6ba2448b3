-- ===== src/Producer/Tests.antt =====
-- Passes of the producer on a full log of two slots.
use zybo_rtos_sensor_aggrega.Prelude.{
  ℕ, ◌+◌, ◌≡◌, refl, true, false, not, List, [], ◌∷◌, if◌then◌else◌, get_or, u32, arith,
}
use zybo_rtos_sensor_aggrega.Message.{data_ready, send}
use zybo_rtos_sensor_aggrega.Fixtures.{numbered, waiting_ring-IsValid, waiting_log, busy, sampling}
use zybo_rtos_sensor_aggrega.Producer.{PassEnv, Producer, initial, sample_pass}
use zybo_rtos_sensor_aggrega.Producer.Counts.{run, run_counts}
use zybo_rtos_sensor_aggrega.Producer.Doorbell.{must_ring, doorbell_lem}
use zybo_rtos_sensor_aggrega.Producer.Extremes.{Taken, update_all, extremes_hold}

-- A sample, a wait without a tick, and a sample that does not get the mutex.
abbrev passes : List PassEnv
passes = sampling ∷ record sampling { pending_ticks = 0 } ∷ record sampling { lock = busy } ∷ []

run_counts_example :
    ((run passes (initial 100) waiting_log).0.stats.samples ≡ 2)
    × ((run passes (initial 100) waiting_log).0.sample.seq ≡ 2)
    × (u32 (
          (run passes (initial 100) waiting_log).0.stats.samples
          + (run passes (initial 100) waiting_log).0.stats.overruns)
        ≡ 4)
    × ((run passes (initial 100) waiting_log).0.stats.timeouts ≡ 1)
    × ((run passes (initial 100) waiting_log).0.stats.log_write_drops ≡ 1)
    × (u32 ((run passes (initial 100) waiting_log).1.ring.head + 1) ≡ 2)
run_counts_example = run_counts passes 100 waiting_log waiting_ring-IsValid

-- A ring is owed.
abbrev owing : Producer
owing = record (initial 100) { doorbell_pending = true }

doorbell_lem_example :
    ((sample_pass sampling owing waiting_log).rang ≡ must_ring sampling owing waiting_log)
    × ((sample_pass sampling owing waiting_log).producer.doorbell_pending ≡ (
        if must_ring sampling owing waiting_log
        then not (send true (λ msg. false) data_ready 0)
        else true))
doorbell_lem_example =
    doorbell_lem sampling owing waiting_log waiting_ring-IsValid (λ e. omega (arith, e))

abbrev taken : ℕ → Taken
taken n = record {
  sample = numbered n;
  prev_capture_us = 0;
  cycle = record {
    read_time_us = 40;
    write_time_us = 20;
    missed_ticks = 0;
    write_dropped = false;
    doorbell_failed = false;
  };
}

extremes_hold_example :
    ((update_all (taken 5 ∷ taken 9 ∷ taken 2 ∷ []) (initial 100).stats).samples ≡ 3)
    × (get_or
          (update_all (taken 5 ∷ taken 9 ∷ taken 2 ∷ []) (initial 100).stats).sensor_min.raw_code
          6
          0
        ≡ 2)
    × (get_or
          (update_all (taken 5 ∷ taken 9 ∷ taken 2 ∷ []) (initial 100).stats).sensor_max.raw_code
          6
          0
        ≡ 9)
extremes_hold_example =
    extremes_hold 6 (taken 5) (taken 9 ∷ taken 2 ∷ []) (initial 100).stats (omega arith) refl refl
      (omega arith)
