-- ===== src/Startup.antt =====
-- sw/stage4_watchdog/src/main.c: the start of the firmware. Each step is the driver's or the task's own
-- function; what the hardware and FreeRTOS answer to it is an argument.
pub mod Order
mod Tests
use Prim.Native.String.{String}
use zybo_rtos_sensor_aggrega.Prelude.{
  ℕ, Bool, true, false, not, Option, none, some, List, [], ◌∷◌, ◌++◌, map, if◌then◌else◌,
}
use zybo_rtos_sensor_aggrega.Config.{
  app_fw_version, board_console_baud, app_log_capacity, app_wdt_timeout_ms, app_wdt_check_period_ms,
}
use zybo_rtos_sensor_aggrega.Rtos
use zybo_rtos_sensor_aggrega.Rtos.{Kernel}
use zybo_rtos_sensor_aggrega.Watchdog
use zybo_rtos_sensor_aggrega.Producer
use zybo_rtos_sensor_aggrega.Ui
use zybo_rtos_sensor_aggrega.ResetCause
use zybo_rtos_sensor_aggrega.ResetCause.{Cause}
use zybo_rtos_sensor_aggrega.Gpio
use zybo_rtos_sensor_aggrega.Gpio.{Gpio}
use zybo_rtos_sensor_aggrega.Uart
use zybo_rtos_sensor_aggrega.Uart.{Uart}
use zybo_rtos_sensor_aggrega.Uptime
use zybo_rtos_sensor_aggrega.Xadc
use zybo_rtos_sensor_aggrega.SensorLog
use zybo_rtos_sensor_aggrega.SensorLog.{SensorLog, storage_bytes}
use zybo_rtos_sensor_aggrega.Wdt
use zybo_rtos_sensor_aggrega.Wdt.{Wdt}
use zybo_rtos_sensor_aggrega.Consumer
use zybo_rtos_sensor_aggrega.Consumer.{Out, write, printf, num, str}

-- What answers the calls of `main`.
pub record Board : Type 0 where
  pub reboot_status : ℕ
  pub lock_status : ℕ
  pub gpio_found : Bool
  pub gpio_configured : Bool
  pub pin_level : ℕ → ℕ
  pub uart_masks : Uart.Masks
  pub uart : Uart.InitEnv
  pub uart_polls : ℕ  -- readings allowed to the wait of `uart_drv_init`
  pub timer_counts : ℕ
  pub build_date : String
  pub build_time : String
  pub xadc : Xadc.InitEnv
  pub storage_first : ℕ
  pub mutex_created : Bool
  pub wdt_found : Bool
  pub wdt_configured : Bool
  pub wdt_clock_hz : ℕ
  pub kernel : Kernel

-- What is done on the way, in order: what is printed, and the writes and calls of the drivers.
pub data Act : Type 0 where
  prints : Out → Act
  bus_write : ℕ × ℕ → Act
  gpio_call : Gpio.Call → Act
  uart_call : Uart.Call → Act
  xadc_call : Xadc.Call → Act
  wdt_call : Wdt.Call → Act
  kernel_call : Rtos.Call → Act

-- How far `main` comes: it spins without a word, waits for the UART beyond the readings allowed, calls
-- `fault_halt`, or starts the scheduler.
pub data Fate : Type 0 where
  spins : Fate
  waits : Fate
  halts : String → ℕ → Fate
  schedules : Fate

-- The log and the SWDT at that point, and what has been done.
pub record Boot : Type 0 where
  pub fate : Fate
  pub acts : List Act
  pub log : SensorLog
  pub wdt : Wdt

-- The enumerators' values.
abbrev pub gpio_code : Gpio.Status → ℕ
gpio_code Gpio.ok = 0
gpio_code Gpio.err_lookup = 1
gpio_code Gpio.err_init = 2

abbrev pub uart_code : Uart.Status → ℕ
uart_code Uart.ok = 0
uart_code Uart.err_lookup = 1
uart_code Uart.err_init = 2
uart_code Uart.err_format = 3

abbrev pub xadc_code : Xadc.Status → ℕ
xadc_code Xadc.ok = 0
xadc_code Xadc.err_lookup = 1
xadc_code Xadc.err_init = 2
xadc_code Xadc.err_selftest = 3
xadc_code Xadc.err_seq_config = 4

abbrev pub log_code : SensorLog.Status → ℕ
log_code SensorLog.ok = 0
log_code SensorLog.err_not_ddr = 1
log_code SensorLog.err_capacity = 2
log_code SensorLog.err_no_mutex = 3

abbrev pub wdt_code : Wdt.Status → ℕ
wdt_code Wdt.ok = 0
wdt_code Wdt.err_lookup = 1
wdt_code Wdt.err_init = 2
wdt_code Wdt.err_range = 3

-- The end of `main` by a fault, after `acts`.
abbrev pub fault : String → ℕ → List Act → SensorLog → Wdt → Boot
fault what code acts log wdt = record { fate = halts what code; acts = acts; log = log; wdt = wdt }

-- The start of the SWDT, and the scheduler, which returns only where it cannot run.
pub start_scheduler : Board → List Act → SensorLog → Wdt → Boot
start_scheduler b acts log wdt =
    let (calls, running) = Wdt.start wdt in
    let acts' =
      acts
      ++ (map wdt_call calls
          ++ (prints (
                printf "watchdog: SWDT %lu ms, supervisor every %u ms\n"
                  (num (Wdt.timeout_ms_of running) ∷ num app_wdt_check_period_ms ∷ []))
              ∷ prints (write "tasks created, starting scheduler\n")
              ∷ kernel_call Rtos.start_scheduler
              ∷ [])) in
    if not b.kernel.scheduler_runs
    then fault "scheduler start" 0 acts' log running
    else record { fate = schedules; acts = acts'; log = log; wdt = running }

-- The tasks.
pub start_tasks : Board → List Act → SensorLog → Wdt → Boot
start_tasks b acts log wdt =
    let (calls1, watchdog_created) = Watchdog.create b.kernel in
    let (calls2, consumer_created) = Consumer.create b.kernel in
    let (calls3, ui_created) = Ui.create b.kernel in
    let (calls4, producer_created) = Producer.create b.kernel in
    let acts1 = acts ++ map kernel_call calls1 in
    let acts2 = acts1 ++ map kernel_call calls2 in
    let acts3 = acts2 ++ map kernel_call calls3 in
    let acts4 = acts3 ++ map kernel_call calls4 in
    if not watchdog_created
    then fault "watchdog task create" 0 acts1 log wdt
    else if not consumer_created
    then fault "consumer task/queue create" 0 acts2 log wdt
    else if not ui_created
    then fault "ui task create" 0 acts3 log wdt
    else if not producer_created
    then fault "producer task create" 0 acts4 log wdt
    else start_scheduler b acts4 log wdt

pub start_wdt : Board → List Act → SensorLog → Wdt → Boot
start_wdt b acts log wdt =
    let (status, calls, wdt') =
      Wdt.init b.wdt_found b.wdt_configured b.wdt_clock_hz app_wdt_timeout_ms wdt in
    elim status [
      | Wdt.ok ↦ start_tasks b (acts ++ map wdt_call calls) log wdt'
      | failed ↦ fault "watchdog init" (wdt_code failed) (acts ++ map wdt_call calls) log wdt'
    ]

pub start_log : Board → List Act → SensorLog → Wdt → Boot
start_log b acts log wdt =
    let (status, log') = SensorLog.init log b.storage_first b.mutex_created in
    let line =
      printf "sensor log: %lu records, %lu bytes at 0x%08lX (DDR)\n"
        (num app_log_capacity ∷ num storage_bytes ∷ num b.storage_first ∷ []) in
    elim status [
      | SensorLog.ok ↦ start_wdt b (acts ++ (prints line ∷ [])) log' wdt
      | failed ↦ fault "sensor log init" (log_code failed) acts log' wdt
    ]

pub start_xadc : Board → List Act → SensorLog → Wdt → Boot
start_xadc b acts log wdt =
    let (status, calls, ready) = Xadc.init b.xadc in
    elim status [
      | Xadc.ok ↦
          start_log b
            (acts
              ++ (map xadc_call calls
                  ++ (prints
                        (write "XADC up: continuous sequencer, 16x averaging, calibration on\n")
                      ∷ [])))
            log wdt
      | failed ↦ fault "XADC init" (xadc_code failed) (acts ++ map xadc_call calls) log wdt
    ]

-- The lines printed once the UART is up.
pub banner : Board → Cause → List Out
banner b last_reset =
    write
      "\n\n========================================================\n Zybo sensor aggregator - stage 4, watchdog\n"
    ∷ printf " fw %s, built %s %s\n" (str app_fw_version ∷ str b.build_date ∷ str b.build_time ∷ [])
    ∷ write "========================================================\n"
    ∷ printf "last reset: %s\n" (str (ResetCause.name last_reset) ∷ [])
    ∷ []

pub start_uptime : Board → Cause → List Act → SensorLog → Wdt → Boot
start_uptime b last_reset acts log wdt =
    if not (Uptime.init b.timer_counts)
    then fault "uptime (global timer) init" 0 acts log wdt
    else start_xadc b (acts ++ map prints (banner b last_reset)) log wdt

pub start_uart : Board → Cause → List Act → Uart → SensorLog → Wdt → Boot
start_uart b last_reset acts u log wdt =
    elim (Uart.init b.uart_masks b.uart b.uart_polls board_console_baud u) [
      | none ↦ record { fate = waits; acts = acts; log = log; wdt = wdt }
      | some (status, calls, u') ↦ elim status [
        | Uart.ok ↦ start_uptime b last_reset (acts ++ map uart_call calls) log wdt
        | failed ↦ fault "UART init" (uart_code failed) (acts ++ map uart_call calls) log wdt
      ]
    ]

-- `main`, from the static variables that it finds.
pub main : Board → Gpio → Uart → SensorLog → Wdt → Boot
main b g u log wdt =
    let (last_reset, writes) = ResetCause.capture b.reboot_status b.lock_status in
    let (status, calls, g') = Gpio.init b.gpio_found b.gpio_configured b.pin_level g in
    let acts = map bus_write writes ++ map gpio_call calls in
    elim status [
      | Gpio.ok ↦ start_uart b last_reset acts u log wdt
      | failed ↦ record { fate = spins; acts = acts; log = log; wdt = wdt }
    ]
