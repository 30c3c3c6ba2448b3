-- ===== src/Fault/Tests.antt =====
-- The last words of a driver that fails with -1 while the SWDT runs.
use zybo_rtos_sensor_aggrega.Prelude.{◌≡◌, refl, true, [], ◌∷◌}
use zybo_rtos_sensor_aggrega.Prelude.Int.{negsuc}
use zybo_rtos_sensor_aggrega.Fault.{
  exception_disable, write, write_dec, wait_tx_idle, uptime_init, halt, report, park,
}

last_words :
    halt "UART init" (negsuc 0) true
    ≡ exception_disable
      ∷ write "\n\nFATAL: "
      ∷ write "UART init"
      ∷ write " failed, code "
      ∷ write "-"
      ∷ write_dec 1
      ∷ write "\nwaiting for the watchdog to reset the board\n"
      ∷ wait_tx_idle
      ∷ uptime_init
      ∷ []
unfolding halt report park
last_words = refl
