-- ===== src/Uart/Wait.antt =====
-- The loops that wait for the transmitter.
use zybo_rtos_sensor_aggrega.Prelude.{
  ℕ, ◌+◌, ◌≤◌, ◌<◌, ◌≡◌, ◌≢◌, refl, true, false, not, ◌&&◌, inl, inr, some, List, [], if◌then◌else◌,
  bit_and, arith, Bool-cases,
}
use zybo_rtos_sensor_aggrega.Spin.{spin_from_start}
use zybo_rtos_sensor_aggrega.Uart.{
  Uart, Masks, Call, Status, ok, err_lookup, err_init, err_format, InitEnv, still_draining,
  still_sending, init, wait_tx_idle,
}

-- The wait of a ready driver ends, with every fuel above `k`, if the reading `k` of the status register
-- finds the FIFO and the shift register empty; it takes the readings up to the first one that does.
pub wait_tx_idle-ends :
    (m : Masks) (reads : ℕ → ℕ) (k fuel : ℕ) (u : Uart)
    → u.ready ≡ true
    → bit_and (reads k) m.sr_tx_empty ≢ 0
    → bit_and (reads k) m.sr_tactive ≡ 0
    → k < fuel
    → (n : ℕ) × (wait_tx_idle m reads fuel u ≡ some (n + 1))
      × (n ≤ k)
      × (bit_and (reads n) m.sr_tx_empty ≢ 0)
      × (bit_and (reads n) m.sr_tactive ≡ 0)
      × ((j : ℕ) → j < n → still_sending m (reads j) ≡ true)
unfolding wait_tx_idle
wait_tx_idle-ends m reads k fuel u on empty quiet few =
    let idle : still_sending m (reads k) ≡ false = ground (arith, empty, quiet) in
    let (n, e, few', ends, before) = spin_from_start (still_sending m) reads k fuel idle few in
    (n, rw on e, few', ground (arith, ends), ground (arith, ends), before)

-- `uart_drv_init` comes to an end, with every fuel above `k`, if the reading `k` finds the FIFO empty: it
-- reports the first step that fails, or success, and the driver is ready exactly after a success, its
-- error counters then 0.
pub init_ends :
    (m : Masks) (env : InitEnv) (k fuel baud_rate : ℕ) (u : Uart)
    → bit_and (env.status_reads k) m.sr_tx_empty ≢ 0
    → k < fuel
    → (status : Status) × (calls : List Call) × (u' : Uart) × (init m env fuel baud_rate u
        ≡ some (status, calls, u'))
      × (status ≡ (
          if not env.found
          then err_lookup
          else if not env.configured
          then err_init
          else if not env.format_set
          then err_format
          else ok))
      × (u'.ready ≡ (env.found && (env.configured && env.format_set)))
      × (u'.errors ≡ (
          if env.found && (env.configured && env.format_set)
          then record { rx_overrun = 0; rx_framing = 0; rx_parity = 0 }
          else u.errors))
unfolding init
init_ends m env k fuel baud_rate u empty few =
    let idle : still_draining m (env.status_reads k) ≡ false = ground (arith, empty) in
    let (n, e, few', ends, before) =
      spin_from_start (still_draining m) env.status_reads k fuel idle few in
    elim (Bool-cases env.found) [
      | inr lost ↦ rw lost (err_lookup, [], record u { ready = false }, refl, refl, refl, refl)
      | inl found ↦ elim (Bool-cases env.configured) [
        | inr refused ↦ rw (found, e) (rw refused (_, _, _, refl, refl, refl, refl))
        | inl configured ↦ elim (Bool-cases env.format_set) [
          | inr off ↦ rw (found, e) (rw (configured, off) (_, _, _, refl, refl, refl, refl))
          | inl on ↦ rw (found, e) (rw (configured, on) (_, _, _, refl, refl, refl, refl))
        ]
      ]
    ]
