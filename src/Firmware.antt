-- ===== src/Firmware.antt =====
-- The running firmware of sw/stage4_watchdog/src: the tasks of task_producer.c, task_ui.c and task_consumer.c on
-- the log and the message queue, and the interrupt of sample_timer.c that notifies the producer. The queue
-- and the notification of FreeRTOS are parameters; interrupts come between any two passes or steps.
pub mod Ticks
pub mod Samples
mod Tests
use zybo_rtos_sensor_aggrega.Prelude.{ℕ, List, [], ◌∷◌}
use zybo_rtos_sensor_aggrega.Config.{app_consumer_queue_len}
use zybo_rtos_sensor_aggrega.Rtos.{Notification, Queue}
use zybo_rtos_sensor_aggrega.Message.{Msg, MsgId}
use zybo_rtos_sensor_aggrega.Gpio.{Gpio}
use zybo_rtos_sensor_aggrega.Watchdog.{Wdog}
use zybo_rtos_sensor_aggrega.SampleTimer.{SampleTimer, Ttc, isr, period_us_of}
use zybo_rtos_sensor_aggrega.Producer
use zybo_rtos_sensor_aggrega.Producer.Timer.{answer_calls}
use zybo_rtos_sensor_aggrega.Consumer.Messages
use zybo_rtos_sensor_aggrega.Tasks
use zybo_rtos_sensor_aggrega.Tasks.{Tasks}

-- An interrupt of the timer, with what its status register reads; a pass of the producer, whose ticks are those
-- it finds notified; a step of the consumer; a command of the user's.
pub data Event : Type 0 where
  interrupt : ℕ → Event
  sample : Producer.PassEnv → Event
  consume : Messages.PassEnv → Event
  command : MsgId → ℕ → Event

module _ (queues : Queue Msg app_consumer_queue_len) (n : Notification) where
  open n use {Value, cleared, take}

  pub record Firmware : Type 0 where
    pub tasks : Tasks queues
    pub timer : SampleTimer
    pub notified : Value

  unfoldable pub step : Ttc → Event → Firmware → Firmware
  step c (interrupt irq_status) f = record f {
    notified = answer_calls n (isr c irq_status f.timer) f.notified;
  }
  step c (sample env) f =
      let (pending_ticks, notified) = take f.notified in
      record f {
        tasks =
            Tasks.step queues (Tasks.sample (record env { pending_ticks = pending_ticks })) f.tasks;
        notified = notified;
      }
  step c (consume env) f = record f { tasks = Tasks.step queues (Tasks.consume env) f.tasks }
  step c (command id key) f = record f { tasks = Tasks.step queues (Tasks.command id key) f.tasks }

  unfoldable pub run : Ttc → List Event → Firmware → Firmware
  run c [] f = f
  run c (e ∷ es) f = run c es (step c e f)

  -- The tasks at the start of their loops, with the timer as the producer has set it up and nothing notified.
  abbrev pub start : SampleTimer → ℕ → Gpio → Wdog → Firmware
  start timer now_tick gpio wdog = record {
    tasks = Tasks.start queues (period_us_of timer) now_tick gpio wdog;
    timer = timer;
    notified = cleared;
  }
