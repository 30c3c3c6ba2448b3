-- ===== src/Lib.antt =====
-- The firmware of sw/stage4_watchdog: a sensor aggregator on a Zybo board under FreeRTOS. A timer wakes
-- the producer task, which reads the XADC and the buttons and writes a record to the sensor log, a ring
-- buffer behind a mutex. The consumer task drains the log, prints, and answers messages; the UI task turns
-- buttons and keys into such messages; the producer rings the consumer with one when the log was empty.
-- The watchdog task kicks the hardware watchdog (SWDT) only while these three tasks check in on time.
--
-- Each file models one source file under sw/stage4_watchdog/src, with a function for each of its functions:
--   Ring (datalog/ring_buffer.c): `init`, `push`, `pop`, `peek_newest`, `count`. Ring/Fifo is what it
--     promises, a bounded queue that drops its oldest record; Ring/Inv, Window, Refine and Trace relate them.
--   SensorLog (datalog/sensor_log.c): `sensor_log_write` is `write`, and so on, around `lock` and `unlock`.
--   Producer (tasks/task_producer.c): `sample_pass` and `pass` are a pass of `producer_task`.
--   Consumer, Consumer/Report, Consumer/Messages (tasks/task_consumer.c): `drain_log`, `check_stall`; the
--     printing; `handle_msg`, and `pass`, a pass of `consumer_task`. Message holds the messages of
--     tasks/task_consumer.h, and `task_consumer_send`.
--   Consumer/Steps: the same pass in steps, between which other tasks run; Consumer/Steps/Pass relates both.
--   System: the producer and the consumer together, a list of events being an interleaving of theirs.
--   Ui (tasks/task_ui.c): `ui_handle_key` is `handle_key`, `pass` a pass of `ui_task`.
--   Watchdog (tasks/task_watchdog.c): `check_pass` is a pass of `wdog_task`, `checkin` a task's check-in.
--   Wdt, Gpio, Xadc (drivers/wdt_drv.c, gpio_drv.c, xadc_drv.c), Slcr (drivers/slcr.c).
--   Uart, SampleTimer (drivers/uart_drv.c, sample_timer.c), with the loops that wait in Spin.
--   Uptime, ResetCause, Console (system/uptime.c, reset_cause.c, console.c).
--   Fault (system/fault.c, rtos_hooks.c): `report` and `park` make up `halt`, `fault_halt`.
--   Startup (main.c): `main`, from its first step to the last.
--   Tasks: the UI task and the message queue with these two; Tasks/Depth the messages that the consumer sees.
--   Firmware: all of them with the timer's interrupt, which notifies the producer.
--   Ui/Passes: what the UI task sends over any number of passes, against the presses and a table of keys.
--   Rtos: what is relied on of FreeRTOS, a notification and a queue as operations with laws, which Rtos/Plain
--     shows can be met; Producer/Timer: the timer's callback and the start of `producer_task` on it.
--   HostTest (tests/host/test_ring_buffer.c, beside src): `test_random_against_model`.
--   Config/Asserts: the build-time checks of main.c, datalog/sensor_log.c and datalog/sensor_record.h.
--   Config (config/app_config.h, board_zybo.h), Sample (datalog/sensor_record.h): constants and data.
-- Prelude holds the words, lists and bits they share; Fixtures the data of the tests.
--
-- The static variables of a file are a record that its functions take and return; a NULL pointer is
-- `none`; `uint32_t` and the other words are natural numbers with each wrap written out; an `int32_t` is
-- an integer. What FreeRTOS, the Xilinx drivers, the clock and the hardware answer is an argument, often a
-- record of one pass's answers, and what is written to them comes out as a list of calls. Critical
-- sections make the statistics consistent, so each pass is one step; interleavings are sequences of steps.
--
-- Loops run over lists or over the number of rounds left, but for two kinds on fuel. That of
-- `console_write_dec` is the ten places of its array, as many as a 32-bit value can have digits. That of
-- a loop that waits for a register or the clock (Spin) is the number of readings allowed, and any number
-- that takes in a reading that ends the loop is enough.
--
-- Not modelled: what XUartPs, XTtcPs, XWdtPs, XAdcPs, XGpioPs and FreeRTOS do inside;
-- the endless loops of main.c, system/fault.c and the hang test of
-- tasks/task_watchdog.c but for being reached; the text that vsnprintf makes, which belongs to the C
-- library (a print is the call with its arguments); `APP_TEST_LOG_HOLD_US`, which is 0; the tests of
-- tests/host at fixed inputs; hw and docs, which are no part of the firmware.
pub mod Prelude
pub mod Config
pub mod Sample
mod Fixtures
pub mod Ring
pub mod Rtos
pub mod SensorLog
pub mod Watchdog
pub mod Wdt
pub mod Gpio
pub mod Uptime
pub mod Slcr
pub mod ResetCause
pub mod Xadc
pub mod Message
pub mod Producer
pub mod Console
pub mod Consumer
pub mod Ui
pub mod Spin
pub mod Uart
pub mod SampleTimer
pub mod Fault
pub mod Startup
pub mod System
pub mod Tasks
pub mod Firmware
pub mod HostTest
