-- ===== src/Consumer/Stall.antt =====
-- The warning that the producer has stalled.
use zybo_rtos_sensor_aggrega.Prelude.{
  ℕ, ◌+◌, ◌≡◌, Bool, false, ◌||◌, List, [], ◌∷◌, leb, if◌then◌else◌, sub32, arith,
}
use zybo_rtos_sensor_aggrega.Consumer.{State, Out, check_stall}

abbrev warns : List Out → ℕ
warns [] = 0
warns (out ∷ outs) = 1

-- How many passes warn, of passes at these ticks and times, each with the same count of the producer.
unfoldable pub warnings : ℕ → ℕ → List (ℕ × ℕ) → State → ℕ
warnings stall_ticks samples [] s = 0
warnings stall_ticks samples (at ∷ passes) s =
    let (outs, s') = check_stall stall_ticks (at.0) (at.1) samples s in
    warns outs + warnings stall_ticks samples passes s'

-- Some pass comes so long after a tick.
abbrev pub some_late : ℕ → ℕ → List (ℕ × ℕ) → Bool
some_late stall_ticks since [] = false
some_late stall_ticks since (at ∷ passes) =
    leb stall_ticks (sub32 (at.0) since) || some_late stall_ticks since passes

-- While the producer's count stays what the consumer saw last, its passes warn once if one of them comes the
-- stall time or more after the tick of the last progress and no warning was given for this stall before;
-- otherwise they do not warn.
pub warnings_lem :
    (stall_ticks samples : ℕ) (passes : List (ℕ × ℕ)) (s : State)
    → s.last_producer_samples ≡ samples
    → warnings stall_ticks samples passes s ≡ (
        if s.stall_reported
        then 0
        else if some_late stall_ticks s.last_progress_tick passes
        then 1
        else 0)
unfolding warnings check_stall
warnings_lem stall_ticks samples [] s same = ground arith
warnings_lem stall_ticks samples (at ∷ passes) s same =
    let ih =
      warnings_lem stall_ticks samples passes (check_stall stall_ticks (at.0) (at.1) samples s).1
        (ground (arith, same)) in
    ground (arith, same, ih)
