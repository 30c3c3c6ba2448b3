-- ===== src/Wdt/Started.antt =====
-- What the initialisation and the start of the SWDT leave.
use zybo_rtos_sensor_aggrega.Prelude.{ℕ, ◌≡◌, Bool, true, arith}
use zybo_rtos_sensor_aggrega.Wdt.{ok, Wdt, init, start}

module _ (found configured : Bool) (clock_hz timeout_ms : ℕ) (w : Wdt) where
  -- An initialisation does not start the timer, and one that succeeds makes it ready.
  pub init-running : ((init found configured clock_hz timeout_ms w).2.running ≡ w.running)
  unfolding init
  init-running = ground arith

  pub init-ready :
      (init found configured clock_hz timeout_ms w).0 ≡ ok
      → (init found configured clock_hz timeout_ms w).2.ready ≡ true
  unfolding init
  init-ready h = ground (arith, h)

pub start-running : (w : Wdt) → w.ready ≡ true → (start w).1.running ≡ true
unfolding start
start-running w ready = ground (arith, ready)
