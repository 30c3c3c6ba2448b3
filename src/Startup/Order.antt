-- ===== src/Startup/Order.antt =====
-- When the start-up reaches the scheduler, and what runs then.
use mathlib.Core.Path.{subst}
use zybo_rtos_sensor_aggrega.Prelude.{
  ◌≡◌, refl, sym, ◌∙◌, Bool, true, false, ◌&&◌, inl, inr, Option, none, some, List, ◌++◌, map, ◌==◌,
  arith, Bool-cases,
}
use zybo_rtos_sensor_aggrega.Config.{board_console_baud, app_wdt_timeout_ms}
use zybo_rtos_sensor_aggrega.Watchdog
use zybo_rtos_sensor_aggrega.Consumer
use zybo_rtos_sensor_aggrega.Ui
use zybo_rtos_sensor_aggrega.Producer
use zybo_rtos_sensor_aggrega.ResetCause.{Cause}
use zybo_rtos_sensor_aggrega.Gpio
use zybo_rtos_sensor_aggrega.Gpio.{Gpio}
use zybo_rtos_sensor_aggrega.Uart
use zybo_rtos_sensor_aggrega.Uart.{Uart}
use zybo_rtos_sensor_aggrega.Uptime
use zybo_rtos_sensor_aggrega.Xadc
use zybo_rtos_sensor_aggrega.SensorLog
use zybo_rtos_sensor_aggrega.SensorLog.{SensorLog}
use zybo_rtos_sensor_aggrega.SensorLog.Prepared.{Prepared, init-Prepared}
use zybo_rtos_sensor_aggrega.Wdt
use zybo_rtos_sensor_aggrega.Wdt.{Wdt}
use zybo_rtos_sensor_aggrega.Wdt.Started.{init-running, init-ready, start-running}
use zybo_rtos_sensor_aggrega.Startup.{
  Board, Boot, Fate, Act, uart_call, fault, spins, waits, schedules, gpio_code, uart_code,
  xadc_code, log_code, wdt_code, start_scheduler, start_tasks, start_wdt, start_log, start_xadc,
  start_uptime, start_uart, main,
}

abbrev pub is_scheduled : Fate → Bool
is_scheduled schedules = true
is_scheduled fate = false

-- The SWDT runs exactly if `good`, and the scheduler too, if it can run at all; the log is then prepared.
record Ends (b : Board) (good : Bool) (r : Boot) : Type 0 where
  scheduled : is_scheduled r.fate ≡ (good && b.kernel.scheduler_runs)
  running : r.wdt.running ≡ good
  log : good ≡ true → Prepared r.log

-- An end before that.
fails :
    (b : Board) (r : Boot) → is_scheduled r.fate ≡ false → r.wdt.running ≡ false → Ends b false r
fails b r halted idle = record { scheduled = halted; running = idle; log = λ e. ground (arith, e) }

abbrev tasks_created : Board → Bool
tasks_created b =
    (Watchdog.create b.kernel).1
    && ((Consumer.create b.kernel).1 && ((Ui.create b.kernel).1 && (Producer.create b.kernel).1))

tasks-Ends :
    (b : Board) (acts : List Act) (log : SensorLog) (wdt : Wdt)
    → Prepared log
    → wdt.ready ≡ true
    → wdt.running ≡ false
    → Ends b (tasks_created b) (start_tasks b acts log wdt)
unfolding start_tasks start_scheduler
tasks-Ends b acts log wdt prepared ready idle =
    let run : (Wdt.start wdt).1.running ≡ true = start-running wdt ready in
    let kept : (start_tasks b acts log wdt).log ≡ log = ground arith in
    record {
      scheduled = ground arith;
      running = ground (arith, run, idle);
      log = λ e. subst Prepared (sym kept) prepared;
    }

-- What follows a status.
after_wdt :
    (b : Board) (acts : List Act) (log : SensorLog) (wdt : Wdt) (status : Wdt.Status)
    → Prepared log
    → (status ≡ Wdt.ok → wdt.ready ≡ true)
    → wdt.running ≡ false
    → Ends b ((wdt_code status == 0) && tasks_created b) (elim status [
      | Wdt.ok ↦ start_tasks b acts log wdt
      | failed ↦ fault "watchdog init" (wdt_code failed) acts log wdt
    ])
after_wdt b acts log wdt Wdt.ok prepared ready idle =
    tasks-Ends b acts log wdt prepared (ready refl) idle
after_wdt b acts log wdt Wdt.err_lookup prepared ready idle = fails b _ refl idle
after_wdt b acts log wdt Wdt.err_init prepared ready idle = fails b _ refl idle
after_wdt b acts log wdt Wdt.err_range prepared ready idle = fails b _ refl idle

wdt-Ends :
    (b : Board) (acts : List Act) (log : SensorLog) (wdt : Wdt)
    → Prepared log
    → wdt.running ≡ false
    → Ends b
        ((wdt_code (Wdt.init b.wdt_found b.wdt_configured b.wdt_clock_hz app_wdt_timeout_ms wdt).0
            == 0)
          && tasks_created b)
        (start_wdt b acts log wdt)
unfolding start_wdt
wdt-Ends b acts log wdt prepared idle =
    let set_up : Wdt.Status × List Wdt.Call × Wdt =
      Wdt.init b.wdt_found b.wdt_configured b.wdt_clock_hz app_wdt_timeout_ms wdt in
    after_wdt b _ log (set_up.2) (set_up.0) prepared
      (init-ready b.wdt_found b.wdt_configured b.wdt_clock_hz app_wdt_timeout_ms wdt)
      (init-running b.wdt_found b.wdt_configured b.wdt_clock_hz app_wdt_timeout_ms wdt ∙ idle)

-- The checks from here on.
abbrev wdt_good : Board → Wdt → Bool
wdt_good b wdt =
    (wdt_code (Wdt.init b.wdt_found b.wdt_configured b.wdt_clock_hz app_wdt_timeout_ms wdt).0 == 0)
    && tasks_created b

abbrev log_good : Board → SensorLog → Wdt → Bool
log_good b log wdt =
    (log_code (SensorLog.init log b.storage_first b.mutex_created).0 == 0) && wdt_good b wdt

after_log :
    (b : Board) (acts acts' : List Act) (log : SensorLog) (wdt : Wdt) (status : SensorLog.Status)
    → (status ≡ SensorLog.ok → Prepared log)
    → wdt.running ≡ false
    → Ends b ((log_code status == 0) && wdt_good b wdt) (elim status [
      | SensorLog.ok ↦ start_wdt b acts' log wdt
      | failed ↦ fault "sensor log init" (log_code failed) acts log wdt
    ])
after_log b acts acts' log wdt SensorLog.ok prepared idle =
    wdt-Ends b acts' log wdt (prepared refl) idle
after_log b acts acts' log wdt SensorLog.err_not_ddr prepared idle = fails b _ refl idle
after_log b acts acts' log wdt SensorLog.err_capacity prepared idle = fails b _ refl idle
after_log b acts acts' log wdt SensorLog.err_no_mutex prepared idle = fails b _ refl idle

log-Ends :
    (b : Board) (acts : List Act) (log : SensorLog) (wdt : Wdt)
    → wdt.running ≡ false
    → Ends b (log_good b log wdt) (start_log b acts log wdt)
unfolding start_log
log-Ends b acts log wdt idle =
    let set_up : SensorLog.Status × SensorLog =
      SensorLog.init log b.storage_first b.mutex_created in
    after_log b acts _ (set_up.1) wdt (set_up.0) (init-Prepared log b.storage_first b.mutex_created)
      idle

abbrev xadc_good : Board → SensorLog → Wdt → Bool
xadc_good b log wdt = (xadc_code (Xadc.init b.xadc).0 == 0) && log_good b log wdt

after_xadc :
    (b : Board) (acts acts' : List Act) (log : SensorLog) (wdt : Wdt) (status : Xadc.Status)
    → wdt.running ≡ false
    → Ends b ((xadc_code status == 0) && log_good b log wdt) (elim status [
      | Xadc.ok ↦ start_log b acts' log wdt
      | failed ↦ fault "XADC init" (xadc_code failed) acts log wdt
    ])
after_xadc b acts acts' log wdt Xadc.ok idle = log-Ends b acts' log wdt idle
after_xadc b acts acts' log wdt Xadc.err_lookup idle = fails b _ refl idle
after_xadc b acts acts' log wdt Xadc.err_init idle = fails b _ refl idle
after_xadc b acts acts' log wdt Xadc.err_selftest idle = fails b _ refl idle
after_xadc b acts acts' log wdt Xadc.err_seq_config idle = fails b _ refl idle

uptime-Ends :
    (b : Board) (last_reset : Cause) (acts : List Act) (log : SensorLog) (wdt : Wdt)
    → wdt.running ≡ false
    → Ends b
        (Uptime.init b.timer_counts && xadc_good b log wdt)
        (start_uptime b last_reset acts log wdt)
unfolding start_uptime start_xadc
uptime-Ends b last_reset acts log wdt idle = elim (Bool-cases (Uptime.init b.timer_counts)) [
  | inl counts ↦ rw counts (after_xadc b _ _ log wdt (Xadc.init b.xadc).0 idle)
  | inr stuck ↦ rw stuck (fails b _ refl idle)
]

-- The outcome of `uart_drv_init`, if it comes to one.
abbrev pub uart_good : Option (Uart.Status × List Uart.Call × Uart) → Bool
uart_good none = false
uart_good (some result) = uart_code (result.0) == 0

after_uart :
    (b : Board) (last_reset : Cause) (acts : List Act) (log : SensorLog) (wdt : Wdt)
    (result : Option (Uart.Status × List Uart.Call × Uart))
    → wdt.running ≡ false
    → Ends b
        (uart_good result && (Uptime.init b.timer_counts && xadc_good b log wdt))
        (elim result [
          | none ↦ record { fate = waits; acts = acts; log = log; wdt = wdt }
          | some (status, calls, u') ↦ elim status [
            | Uart.ok ↦ start_uptime b last_reset (acts ++ map uart_call calls) log wdt
            | failed ↦ fault "UART init" (uart_code failed) (acts ++ map uart_call calls) log wdt
          ]
        ])
after_uart b last_reset acts log wdt none idle = fails b _ refl idle
after_uart b last_reset acts log wdt (some (Uart.ok, calls, u')) idle =
    uptime-Ends b last_reset (acts ++ map uart_call calls) log wdt idle
after_uart b last_reset acts log wdt (some (Uart.err_lookup, calls, u')) idle = fails b _ refl idle
after_uart b last_reset acts log wdt (some (Uart.err_init, calls, u')) idle = fails b _ refl idle
after_uart b last_reset acts log wdt (some (Uart.err_format, calls, u')) idle = fails b _ refl idle

-- Every step of the start-up reports success.
abbrev pub all_good : Board → Gpio → Uart → SensorLog → Wdt → Bool
all_good b g u log wdt =
    (gpio_code (Gpio.init b.gpio_found b.gpio_configured b.pin_level g).0 == 0)
    && (uart_good (Uart.init b.uart_masks b.uart b.uart_polls board_console_baud u)
        && (Uptime.init b.timer_counts && xadc_good b log wdt))

after_gpio :
    (b : Board) (last_reset : Cause) (acts : List Act) (u : Uart) (log : SensorLog) (wdt : Wdt)
    (status : Gpio.Status)
    → wdt.running ≡ false
    → Ends b
        ((gpio_code status == 0)
          && (uart_good (Uart.init b.uart_masks b.uart b.uart_polls board_console_baud u)
              && (Uptime.init b.timer_counts && xadc_good b log wdt)))
        (elim status [
          | Gpio.ok ↦ start_uart b last_reset acts u log wdt
          | failed ↦ record { fate = spins; acts = acts; log = log; wdt = wdt }
        ])
unfolding start_uart
after_gpio b last_reset acts u log wdt Gpio.ok idle =
    after_uart b last_reset acts log wdt
      (Uart.init b.uart_masks b.uart b.uart_polls board_console_baud u) idle
after_gpio b last_reset acts u log wdt Gpio.err_lookup idle = fails b _ refl idle
after_gpio b last_reset acts u log wdt Gpio.err_init idle = fails b _ refl idle

main-Ends :
    (b : Board) (g : Gpio) (u : Uart) (log : SensorLog) (wdt : Wdt)
    → wdt.running ≡ false
    → Ends b (all_good b g u log wdt) (main b g u log wdt)
unfolding main
main-Ends b g u log wdt idle =
    after_gpio b _ _ u log wdt (Gpio.init b.gpio_found b.gpio_configured b.pin_level g).0 idle

-- The start-up reaches the scheduler exactly if every driver's initialisation reports success, the clock
-- counts, each task and the consumer's queue are created, and the scheduler can run; and the SWDT, not
-- running before, runs at its end exactly if all this but the last holds.
pub main_lem :
    (b : Board) (g : Gpio) (u : Uart) (log : SensorLog) (wdt : Wdt)
    → wdt.running ≡ false
    → (is_scheduled (main b g u log wdt).fate ≡ (all_good b g u log wdt && b.kernel.scheduler_runs))
      × ((main b g u log wdt).wdt.running ≡ all_good b g u log wdt)
main_lem b g u log wdt idle =
    let ends = main-Ends b g u log wdt idle in (ends.scheduled, ends.running)

-- When the scheduler starts, with the SWDT not running before `main`, the log is prepared: a fresh ring
-- over its whole array, and a mutex.
scheduled-Prepared :
    (b : Board) (g : Gpio) (u : Uart) (log : SensorLog) (wdt : Wdt)
    → wdt.running ≡ false
    → is_scheduled (main b g u log wdt).fate ≡ true
    → Prepared (main b g u log wdt).log
scheduled-Prepared b g u log wdt idle scheduled =
    let ends = main-Ends b g u log wdt idle in ends.log (ground (arith, ends.scheduled, scheduled))
