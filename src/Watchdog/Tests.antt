-- ===== src/Watchdog/Tests.antt =====
-- The supervisor on concrete schedules, and its theorems there. The tick rate is 100 Hz.
use zybo_rtos_sensor_aggrega.Prelude.{
  ℕ, ◌+◌, inl, inr, ◌≤◌, ◌≡◌, ◌↔◌, refl, Bool, true, false, List, [], ◌∷◌, arith,
}
use zybo_rtos_sensor_aggrega.Watchdog.{
  Wdog, initial, initial_clients, kick, report, check_pass, ticks_to_ms, silence, scan, decide,
  note_late, note_worst, report_late, text, dec, checkin, inject_hang,
}
use zybo_rtos_sensor_aggrega.Watchdog.Pass.{InTime, kick_iff}
use zybo_rtos_sensor_aggrega.Watchdog.Reset.{One, Within, reset_in_time}
use zybo_rtos_sensor_aggrega.Watchdog.Schedule.{
  Event, wake, check, inject, kicks, stopped_forever, Hung, All, elapsed_ms, hang_is_caught,
}

-- At 49 ticks all are in time; at 51 the producer and the ui are late, and the producer is reported.
early_pass : (check_pass 100 49 true initial).0 ≡ kick
unfolding check_pass scan decide note_late note_worst silence ticks_to_ms
early_pass = refl

late_pass : (check_pass 100 51 true initial).0 ≡ report 0 510
unfolding check_pass scan decide note_late note_worst silence ticks_to_ms
late_pass = refl

late_text :
    report_late initial 0 510 true 2000
    ≡ text "\n\nWATCHDOG: "
      ∷ text "producer"
      ∷ text " has not checked in for "
      ∷ dec 510
      ∷ text " ms, no more kicks - SWDT reset in "
      ∷ dec 2000
      ∷ text " ms or less\n"
      ∷ []
unfolding report_late
late_text = refl

kick_iff_example :
    ((check_pass 100 49 true initial).0 ≡ kick)
    ↔ ((initial.kicking ≡ true) × (◌≡◌ {A = Bool} true true) × InTime 100 49 initial_clients)
kick_iff_example = kick_iff 100 49 true initial

-- The ui hangs from the start; the producer and the consumer go on.
abbrev hang_schedule : List Event
hang_schedule =
    wake 25 true
    ∷ check 0 30
    ∷ inject 1
    ∷ wake 50 true
    ∷ check 0 60
    ∷ check 2 70
    ∷ wake 75 true
    ∷ check 0 80
    ∷ wake 100 true
    ∷ []

hang_kicks : kicks 100 initial hang_schedule ≡ 25 ∷ 50 ∷ []
unfolding kicks check_pass scan decide note_late note_worst silence ticks_to_ms checkin inject_hang
hang_kicks = refl

abbrev stopped : Wdog
stopped = record initial { kicking = false }

stopped_forever_example : kicks 100 stopped hang_schedule ≡ []
stopped_forever_example = stopped_forever 100 hang_schedule stopped refl

ui-Hung : Hung 1 0 500 initial
ui-Hung = record { known = omega arith; last = refl; limited = refl }

hang_is_caught_example : All (λ t. elapsed_ms 100 0 t ≤ 500) (kicks 100 initial hang_schedule)
hang_is_caught_example =
    hang_is_caught 100 25 500 (omega arith) (omega arith) (omega arith) (omega arith) 1 0 0
      hang_schedule initial ui-Hung (omega arith) (omega arith) (omega arith)

-- The SWDT fires two seconds after the kick at tick 50: at tick 250 it has not, and it is 2500 ms since the
-- ui was heard of last.
abbrev NotReset : ℕ → Type 0
NotReset t = t ≤ 250

two_seconds :
    (t : ℕ)
    → NotReset t
    → One (λ kicked. Within 100 2000 kicked t) (0 ∷ kicks 100 initial hang_schedule)
unfolding kicks check_pass scan decide note_late note_worst silence ticks_to_ms checkin inject_hang
two_seconds t early = inr (inr (inl (omega (arith, early))))

reset_in_time_example : elapsed_ms 100 0 250 ≤ 500 + 2000
reset_in_time_example =
    reset_in_time 100 25 500 (omega arith) (omega arith) (omega arith) (omega arith) 1 0 0 2000
      hang_schedule initial NotReset ui-Hung (omega arith) (omega arith) (omega arith) two_seconds
      250 (omega arith)
