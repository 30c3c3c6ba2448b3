-- ===== src/Config.antt =====
-- The constants of sw/stage4_watchdog/src/config/app_config.h and board_zybo.h; those that name another
-- library's constant are left out.
pub mod Asserts
mod Tests
use Prim.Native.String.{String}
use zybo_rtos_sensor_aggrega.Prelude.{ℕ, ◌+◌, ◌/◌, ◌*◌, Bool, true, false}

abbrev pub app_fw_version : String
app_fw_version = "0.4.0"

abbrev pub app_sample_rate_hz : ℕ
app_sample_rate_hz = 10

abbrev pub app_sample_timeout_ms : ℕ
app_sample_timeout_ms = (3 * 1000) / app_sample_rate_hz

abbrev pub app_log_capacity : ℕ
app_log_capacity = 4096

abbrev pub app_log_write_wait_ms : ℕ
app_log_write_wait_ms = 20

abbrev pub app_log_read_wait_ms : ℕ
app_log_read_wait_ms = 100

abbrev pub app_log_read_batch : ℕ
app_log_read_batch = 16

abbrev pub app_log_drain_batches_max : ℕ
app_log_drain_batches_max = 4

abbrev pub app_consumer_queue_len : ℕ
app_consumer_queue_len = 16

abbrev pub app_consumer_poll_ms : ℕ
app_consumer_poll_ms = 250

abbrev pub app_heartbeat_samples : ℕ
app_heartbeat_samples = 5

abbrev pub app_slow_stream_divider : ℕ
app_slow_stream_divider = 10

abbrev pub app_stall_warn_ms : ℕ
app_stall_warn_ms = 1000

abbrev pub app_wdt_timeout_ms : ℕ
app_wdt_timeout_ms = 2000

abbrev pub app_wdt_check_period_ms : ℕ
app_wdt_check_period_ms = 250

abbrev pub app_wdt_limit_producer_ms : ℕ
app_wdt_limit_producer_ms = 500

abbrev pub app_wdt_limit_ui_ms : ℕ
app_wdt_limit_ui_ms = 500

abbrev pub app_wdt_limit_consumer_ms : ℕ
app_wdt_limit_consumer_ms = 2000

abbrev pub board_ddr_base_addr : ℕ
board_ddr_base_addr = 0x0010_0000

abbrev pub board_ddr_high_addr : ℕ
board_ddr_high_addr = 0x3fff_ffff

abbrev pub app_test_log_hold_us : ℕ
app_test_log_hold_us = 0

abbrev pub app_ui_scan_period_ms : ℕ
app_ui_scan_period_ms = 10

abbrev pub app_wdt_enable : Bool
app_wdt_enable = true

abbrev pub app_wdt_test_commands : Bool
app_wdt_test_commands = true

abbrev pub app_stack_watchdog : ℕ
app_stack_watchdog = 512

abbrev pub app_stack_producer : ℕ
app_stack_producer = 512

abbrev pub app_stack_ui : ℕ
app_stack_ui = 512

abbrev pub app_stack_consumer : ℕ
app_stack_consumer = 1024

-- The priorities, above that of the idle task.
abbrev pub app_prio_watchdog : ℕ → ℕ
app_prio_watchdog idle_priority = idle_priority + 5

abbrev pub app_prio_producer : ℕ → ℕ
app_prio_producer idle_priority = idle_priority + 4

abbrev pub app_prio_ui : ℕ → ℕ
app_prio_ui idle_priority = idle_priority + 2

abbrev pub app_prio_consumer : ℕ → ℕ
app_prio_consumer idle_priority = idle_priority + 1

abbrev pub board_console_baud : ℕ
board_console_baud = 115_200

abbrev pub board_mio_led4 : ℕ
board_mio_led4 = 7

abbrev pub board_mio_btn4 : ℕ
board_mio_btn4 = 50

abbrev pub board_mio_btn5 : ℕ
board_mio_btn5 = 51

abbrev pub board_mio_btn_active_high : Bool
board_mio_btn_active_high = true

abbrev pub board_mio_btn_pullup : Bool
board_mio_btn_pullup = false
