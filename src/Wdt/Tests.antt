-- ===== src/Wdt/Tests.antt =====
-- The driver at the configured timeout, with the 111.1 MHz clock of the board, and its theorems there.
use zybo_rtos_sensor_aggrega.Prelude.{
  ℕ, ◌+◌, ◌*◌, ◌≤◌, ◌<◌, ◌≡◌, refl, true, false, List, [], ◌∷◌, arith,
}
use zybo_rtos_sensor_aggrega.Wdt.{
  ok, Call, stop, set_prescaler, set_reload, enable_reset, disable_irq, Wdt, init, choose, crv_of,
  actual_ms,
}
use zybo_rtos_sensor_aggrega.Wdt.Timeout.{Chosen, init_timeout}

abbrev off : Wdt
off = record { ready = false; running = false; timeout_ms = 0 }

abbrev setup : List Call
setup = stop ∷ set_prescaler 64 ∷ set_reload 847 ∷ enable_reset ∷ disable_irq ∷ []

abbrev armed : Wdt
armed = record { ready = true; running = false; timeout_ms = 2000 }

init_board : init true true 111111111 2000 off ≡ (ok, setup, armed)
unfolding init choose crv_of actual_ms
init_board = refl

init_timeout_example :
    (divider : ℕ) × (crv : ℕ) × Chosen 2000 111111111 divider crv
    × (0 < 2000)
    × (setup ≡ stop ∷ set_prescaler divider ∷ set_reload crv ∷ enable_reset ∷ disable_irq ∷ [])
    × (armed.ready ≡ true)
    × (2000 ≤ armed.timeout_ms)
    × (armed.timeout_ms * 111111111 ≤ 2000 * 111111111 + 4096000 * divider)
init_timeout_example =
    init_timeout true true 111111111 2000 off armed setup (omega arith) (omega arith) (omega arith)
      init_board
