-- ===== src/Uart/Tests.antt =====
-- A UART with the bits where the technical reference manual of the processor has them.
use zybo_rtos_sensor_aggrega.Prelude.{
  ℕ, ◌+◌, ◌≤◌, ◌<◌, ◌≡◌, ◌≢◌, refl, true, Option, none, some, List, [], ◌∷◌, ◌==◌, if◌then◌else◌,
  u32, bit_and, arith,
}
use zybo_rtos_sensor_aggrega.Uart.{
  Uart, Masks, Call, Status, ok, InitEnv, still_sending, init, wait_tx_idle,
}
use zybo_rtos_sensor_aggrega.Uart.Lines.{poll_all, found, poll_all-counts}
use zybo_rtos_sensor_aggrega.Uart.Wait.{wait_tx_idle-ends, init_ends}

abbrev masks : Masks
masks = record {
  ixr_over = 0x20;
  ixr_framing = 0x40;
  ixr_parity = 0x80;
  sr_tx_empty = 0x08;
  sr_tactive = 0x800;
}

abbrev up : Uart
up = record { ready = true; errors = record { rx_overrun = 3; rx_framing = 0; rx_parity = 1 } }

-- Busy for two readings, and then idle.
abbrev readings : ℕ → ℕ
readings i = if i == 0 then 0x800 else if i == 1 then 0x808 else 0x008

abbrev answers : InitEnv
answers = record {
  found = true;
  status_reads = readings;
  configured = true;
  format_set = true;
  isr = 0x60;
}

abbrev polls : List (ℕ × Option ℕ)
polls = (0x20, none) ∷ (0x00, some 65) ∷ (0xa0, some 66) ∷ []

poll_all-counts_example :
    ((poll_all masks polls up).errors.rx_overrun ≡ u32 (3 + found 0x20 polls))
    × ((poll_all masks polls up).errors.rx_framing ≡ u32 (0 + found 0x40 polls))
    × ((poll_all masks polls up).errors.rx_parity ≡ u32 (1 + found 0x80 polls))
poll_all-counts_example = poll_all-counts masks polls up 3 0 1 refl refl refl refl

wait_tx_idle-ends_example :
    (n : ℕ) × (wait_tx_idle masks readings 10 up ≡ some (n + 1))
    × (n ≤ 2)
    × (bit_and (readings n) 0x08 ≢ 0)
    × (bit_and (readings n) 0x800 ≡ 0)
    × ((j : ℕ) → j < n → still_sending masks (readings j) ≡ true)
wait_tx_idle-ends_example =
    wait_tx_idle-ends masks readings 2 10 up refl (omega arith) refl (omega arith)

init_ends_example :
    (status : Status) × (calls : List Call) × (u' : Uart) × (init masks answers 10 115200 up
      ≡ some (status, calls, u'))
    × (status ≡ ok)
    × (u'.ready ≡ true)
    × (u'.errors ≡ record { rx_overrun = 0; rx_framing = 0; rx_parity = 0 })
init_ends_example = init_ends masks answers 1 10 115200 up (omega arith) (omega arith)
