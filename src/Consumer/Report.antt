-- ===== src/Consumer/Report.antt =====
-- The printing of the consumer: help, report, diagnostics, and the watchdog tests.
use Prim.Native.String.{String}
use mathlib.Core.Option
use zybo_rtos_sensor_aggrega.Prelude.{
  ℕ, zero, suc, ◌+◌, ◌/◌, ◌%◌, Bool, not, Option, none, some, List, [], ◌∷◌, ◌++◌, leb, ◌==◌,
  if◌then◌else◌, get_or,
}
use zybo_rtos_sensor_aggrega.Config.{
  app_sample_rate_hz, app_slow_stream_divider, app_consumer_queue_len,
}
use zybo_rtos_sensor_aggrega.Sample.{SensorRecord, zero_record, sensor_count}
use zybo_rtos_sensor_aggrega.Xadc
use zybo_rtos_sensor_aggrega.SensorLog
use zybo_rtos_sensor_aggrega.SensorLog.{SensorLog, LockEnv, LogStats}
use zybo_rtos_sensor_aggrega.Producer
use zybo_rtos_sensor_aggrega.Watchdog
use zybo_rtos_sensor_aggrega.Watchdog.{Wdog, WdogStats}
use zybo_rtos_sensor_aggrega.Consumer.{
  State, World, Out, write, printf, wait_tx_idle, num, str, time_prefix, fmt_sensor,
  print_sample_line,
}

pub print_help : List Out
print_help =
    write
      "\nCommands:\n  r / BTN4   full sensor report (newest sample + min/max)\n  s / BTN5   start/stop telemetry stream\n"
    ∷ printf "  f          stream rate: every sample (%u Hz) / every %uth (%u Hz)\n" (
        num app_sample_rate_hz
        ∷ num app_slow_stream_divider
        ∷ num (app_sample_rate_hz / app_slow_stream_divider)
        ∷ [])
    ∷ write
        "  p          pause/resume reading the log (samples keep accumulating)\n  t          print the newest sample once\n  d          diagnostics (timing, log, mutex, queue, watchdog, heap)\n  1 2 3      watchdog test: hang the producer / ui / consumer task\n  4          watchdog test: kernel interrupts masked, whole system stops\n  h / ?      this help\n\n"
    ∷ []

-- What a test announces; `none` is a key that is no test.
abbrev pub test_text : ℕ → Option String
test_text key =
    if key == 49
    then some "TEST: producer stuck in a busy loop\n"
    else if key == 50
    then some "TEST: ui task blocked forever\n"
    else if key == 51
    then some "TEST: consumer stuck in a busy loop\n"
    else if key == 52
    then some "TEST: kernel interrupts masked, nothing runs any more\n"
    else none

-- What a test does; `none` is the loop with interrupts masked.
abbrev pub test_effect : ℕ → World → Option World
test_effect key w =
    if key == 49
    then some (record w { wdog = Watchdog.inject_hang Watchdog.client_producer w.wdog })
    else if key == 50
    then some (record w { wdog = Watchdog.inject_hang Watchdog.client_ui w.wdog })
    else if key == 51
    then some (record w { wdog = Watchdog.inject_hang Watchdog.client_consumer w.wdog })
    else none

-- `consumer_run_wdt_test`; `running` is `wdt_drv_is_running`.
unfoldable pub run_wdt_test : Bool → ℕ → World → List Out × Option World
run_wdt_test running key w = elim (test_text key) [
  | none ↦ ([], some w)
  | some text ↦ (
    write text
        ∷ write (
            if running
            then "expect the watchdog to reset the board within a few seconds\n"
            else "SWDT is not running - this stays hung until the board is reset by hand\n")
        ∷ wait_tx_idle
        ∷ [],
    test_effect key w,
  )
]

-- `consumer_get_newest`, into `record_out`.
unfoldable pub get_newest :
    LockEnv → ℕ → SensorRecord → World → Bool × List Out × SensorRecord × World
get_newest lock max_wait record_out w =
    let (found, out, log) = SensorLog.peek_newest lock w.log (some record_out) max_wait in
    (
      found,
      (if found then [] else write "no samples yet (or log busy)\n" ∷ []),
      Option.get_or out record_out,
      record w { log = log },
    )

-- One row of the report.
abbrev pub report_row : ℕ → SensorRecord → Producer.Stats → Out
report_row sensor r s = printf "  %-9s %8s %s %8s %s %8s %s   0x%03X\n" (
    str (Xadc.sensor_name sensor)
    ∷ fmt_sensor sensor (get_or r.sensors.raw_code sensor 0)
    ∷ str (Xadc.sensor_unit sensor)
    ∷ fmt_sensor sensor (get_or s.sensor_min.raw_code sensor 0)
    ∷ str (Xadc.sensor_unit sensor)
    ∷ fmt_sensor sensor (get_or s.sensor_max.raw_code sensor 0)
    ∷ str (Xadc.sensor_unit sensor)
    ∷ num (get_or r.sensors.raw_code sensor 0)
    ∷ [])

-- The rows from a sensor on, with the number of them left.
abbrev pub report_rows : ℕ → ℕ → SensorRecord → Producer.Stats → List Out
report_rows sensor zero r s = []
report_rows sensor (suc left) r s = report_row sensor r s ∷ report_rows (sensor + 1) left r s

-- `consumer_print_report`; `prod_stats` is what `task_producer_get_stats` copies.
unfoldable pub print_report : LockEnv → ℕ → Producer.Stats → World → List Out × World
print_report lock max_wait prod_stats w =
    let (found, outs, r, w') = get_newest lock max_wait zero_record w in
    if not found then (outs, w') else (
      write "\n"
          ∷ time_prefix r.capture_us
          ∷ printf "XADC report, sample #%lu (min/max over %lu samples)\n"
              (num r.seq ∷ num prod_stats.samples ∷ [])
          ∷ printf "  %-9s %10s %10s %10s   %s\n"
              (str "sensor" ∷ str "now" ∷ str "min" ∷ str "max" ∷ str "raw" ∷ [])
          ∷ (report_rows 0 sensor_count r prod_stats ++ (write "\n" ∷ [])),
      w',
    )

-- `consumer_print_newest`.
unfoldable pub print_newest_sample : LockEnv → ℕ → World → List Out × World
print_newest_sample lock max_wait w =
    let (found, outs, r, w') = get_newest lock max_wait zero_record w in
    (if found then print_sample_line r else outs, w')

-- What the diagnostics read from elsewhere.
pub record Diagnostics : Type 0 where
  pub now_ms : ℕ
  pub prod_stats : Producer.Stats
  pub log_first : ℕ
  pub ui_dropped : ℕ
  pub rx_overrun : ℕ
  pub rx_framing : ℕ
  pub rx_parity : ℕ
  pub stack_watchdog : ℕ
  pub stack_producer : ℕ
  pub stack_ui : ℕ
  pub stack_consumer : ℕ
  pub heap_free : ℕ
  pub reset_cause : String
  pub wdt_timeout_ms : ℕ

-- What `log_stats` holds before the call.
abbrev pub no_log_stats : LogStats
no_log_stats = record {
  capacity = 0;
  fill = 0;
  fill_high_water = 0;
  written = 0;
  read = 0;
  overwritten = 0;
  lock_hold_max_us = 0;
}

abbrev pub no_wdog_stats : WdogStats
no_wdog_stats = record { timeout_ms = 0; kicks = 0; worst_silence_ms = [] }

-- The lines on the producer.
abbrev pub producer_lines : ℕ → Producer.Stats → List Out
producer_lines now_ms p =
    write "\nDiagnostics\n"
    ∷ printf "  uptime          : %lu.%03lu s\n" (num (now_ms / 1000) ∷ num (now_ms % 1000) ∷ [])
    ∷ printf "  sample period   : %lu us (timer)\n" (num p.timer_period_us ∷ [])
    ∷ printf "  producer        : %lu samples, %lu overruns, %lu timeouts\n"
        (num p.samples ∷ num p.overruns ∷ num p.timeouts ∷ [])
    ∷ (if leb 2 p.samples
        then printf "  sample interval : min %lu us, max %lu us\n"
            (num p.period_min_us ∷ num p.period_max_us ∷ [])
        else write "  sample interval : n/a\n")
    ∷ printf "  XADC read time  : max %lu us\n" (num p.read_time_max_us ∷ [])
    ∷ printf "  log write       : max %lu us incl. mutex wait, %lu dropped on lock timeout\n"
        (num p.log_write_max_us ∷ num p.log_write_drops ∷ [])
    ∷ []

-- The lines on the log.
abbrev pub log_lines : Bool → LogStats → State → List Out
log_lines found g s =
    if found
    then printf "  sensor log      : %lu / %lu records waiting, peak %lu, %lu overwritten\n"
        (num g.fill ∷ num g.capacity ∷ num g.fill_high_water ∷ num g.overwritten ∷ [])
      ∷ printf "  log mutex       : held max %lu us, %lu consumer lock timeouts\n"
          (num g.lock_hold_max_us ∷ num s.log_lock_timeouts ∷ [])
      ∷ []
    else write "  sensor log      : mutex busy, try again\n" ∷ []

-- The lines on the consumer, the queue, the port and the system.
abbrev pub system_lines : Diagnostics → State → List Out
system_lines d s =
    printf "  log storage     : %lu bytes at 0x%08lX (DDR)\n" (
      num (Option.get_or (SensorLog.storage_info d.log_first (some 0) (some 0) none).1 0)
      ∷ num d.log_first
      ∷ [])
    ∷ printf "  consumer        : %lu received, %lu lost, stream %s, %s, draining %s\n" (
        num s.received
        ∷ num s.lost
        ∷ str (if s.stream_enabled then "on" else "off")
        ∷ str (if s.stream_slow then "slow" else "every sample")
        ∷ str (if s.drain_paused then "PAUSED" else "on")
        ∷ [])
    ∷ printf "  message queue   : peak %lu / %u, %lu UI messages dropped, %lu doorbell retries\n" (
        num s.queue_depth_peak
        ∷ num app_consumer_queue_len
        ∷ num d.ui_dropped
        ∷ num d.prod_stats.doorbell_retries
        ∷ [])
    ∷ printf "  UART rx errors  : overrun %lu, framing %lu, parity %lu\n"
        (num d.rx_overrun ∷ num d.rx_framing ∷ num d.rx_parity ∷ [])
    ∷ printf "  stack headroom  : watchdog %lu, producer %lu, ui %lu, consumer %lu words\n"
        (num d.stack_watchdog ∷ num d.stack_producer ∷ num d.stack_ui ∷ num d.stack_consumer ∷ [])
    ∷ printf "  heap free       : %lu bytes\n" (num d.heap_free ∷ [])
    ∷ printf "  last reset      : %s\n" (str d.reset_cause ∷ [])
    ∷ []

-- The worst silences from a client on, with the number of clients left.
abbrev pub silence_pieces : Wdog → List ℕ → ℕ → ℕ → List Out
silence_pieces w worst client zero = []
silence_pieces w worst client (suc left) =
    printf "%s %s %lu ms" (
      str (if client == 0 then "" else ",")
      ∷ str (Watchdog.client_name client w)
      ∷ num (get_or worst client 0)
      ∷ [])
    ∷ silence_pieces w worst (client + 1) left

-- The lines on the watchdog.
abbrev pub watchdog_lines : WdogStats → Wdog → List Out
watchdog_lines s w =
    (if not (s.timeout_ms == 0)
      then printf "  watchdog        : SWDT %lu ms, %lu kicks\n"
          (num s.timeout_ms ∷ num s.kicks ∷ [])
      else write "  watchdog        : SWDT not running (APP_WDT_ENABLE)\n")
    ∷ write "  worst silence   :"
    ∷ (silence_pieces w s.worst_silence_ms 0 Watchdog.client_count ++ (write "\n\n" ∷ []))

-- `consumer_print_stats`.
unfoldable pub print_stats : LockEnv → ℕ → Diagnostics → World → List Out × World
print_stats lock max_wait d w =
    let (found, g, log) = SensorLog.get_stats lock w.log (some no_log_stats) max_wait in
    let wdog_stats = Watchdog.get_stats d.wdt_timeout_ms w.wdog (some no_wdog_stats) in
    (
      producer_lines d.now_ms d.prod_stats
          ++ (log_lines found (Option.get_or g no_log_stats) w.state
              ++ (system_lines d w.state
                  ++ watchdog_lines (Option.get_or wdog_stats no_wdog_stats) w.wdog)),
      record w { log = log },
    )
