-- ===== src/Startup/Tests.antt =====
-- A board on which every step but the watchdog's initialisation is answered well.
use zybo_rtos_sensor_aggrega.Prelude.{◌≡◌, refl, true, false, ◌&&◌}
use zybo_rtos_sensor_aggrega.Uart.{Uart}
use zybo_rtos_sensor_aggrega.Wdt.{Wdt}
use zybo_rtos_sensor_aggrega.Fixtures.{waiting_log, quiet_gpio}
use zybo_rtos_sensor_aggrega.Startup.{Board, main}
use zybo_rtos_sensor_aggrega.Startup.Order.{is_scheduled, all_good, main_lem}

abbrev board : Board
board = record {
  reboot_status = 0x0040_0000;
  lock_status = 1;
  gpio_found = true;
  gpio_configured = true;
  pin_level = λ pin. 0;
  uart_masks = record {
    ixr_over = 0x20;
    ixr_framing = 0x40;
    ixr_parity = 0x80;
    sr_tx_empty = 0x08;
    sr_tactive = 0x800;
  };
  uart = record {
    found = true;
    status_reads = λ i. 0x08;
    configured = true;
    format_set = true;
    isr = 0;
  };
  uart_polls = 10;
  timer_counts = 333;
  build_date = "Jan  1 2025";
  build_time = "12:00:00";
  xadc = record { found = true; configured = true; selftest = true; seq_avg = true; seq_ch = true };
  storage_first = 0x0020_0000;
  mutex_created = true;
  wdt_found = true;
  wdt_configured = true;
  wdt_clock_hz = 0;
  kernel = record {
    idle_priority = 0;
    task_created = λ task. true;
    queue_created = λ length. true;
    scheduler_runs = true;
  };
}

abbrev cold_uart : Uart
cold_uart = record {
  ready = false;
  errors = record { rx_overrun = 0; rx_framing = 0; rx_parity = 0 };
}

abbrev off : Wdt
off = record { ready = false; running = false; timeout_ms = 0 }

main_lem_example :
    (is_scheduled (main board quiet_gpio cold_uart waiting_log off).fate
      ≡ (all_good board quiet_gpio cold_uart waiting_log off && true))
    × ((main board quiet_gpio cold_uart waiting_log off).wdt.running
        ≡ all_good board quiet_gpio cold_uart waiting_log off)
main_lem_example = main_lem board quiet_gpio cold_uart waiting_log off refl
