-- ===== src/Tasks.antt =====
-- The three tasks that share the consumer's queue, of sw/stage4_watchdog/src/tasks: the producer rings through
-- it (task_producer.c), the UI task sends the user's commands through it (task_ui.c), and the consumer
-- takes the messages out (task_consumer.c). The queue of FreeRTOS is a parameter; its length is that of
-- `task_consumer_create`. A pass of the producer, one send of the UI task and a step of the consumer
-- may follow each other in any order.
pub mod Post
pub mod Traffic
pub mod Bell
pub mod Pair
pub mod Depth
mod Tests
use zybo_rtos_sensor_aggrega.Prelude.{
  ℕ, ◌+◌, Bool, true, Option, none, some, List, [], ◌∷◌, ◌++◌, if◌then◌else◌,
}
use zybo_rtos_sensor_aggrega.Config.{app_consumer_queue_len}
use zybo_rtos_sensor_aggrega.Rtos.{Queue}
use zybo_rtos_sensor_aggrega.Message.{Msg, MsgId, data_ready}
use zybo_rtos_sensor_aggrega.Gpio.{Gpio}
use zybo_rtos_sensor_aggrega.Watchdog.{Wdog}
use zybo_rtos_sensor_aggrega.Producer
use zybo_rtos_sensor_aggrega.Producer.{sample_pass}
use zybo_rtos_sensor_aggrega.Consumer.Messages
use zybo_rtos_sensor_aggrega.Consumer.Steps.{takes}
use zybo_rtos_sensor_aggrega.Ui
use zybo_rtos_sensor_aggrega.Ui.{Ui, ui_send}
use zybo_rtos_sensor_aggrega.System
use zybo_rtos_sensor_aggrega.System.{System}

-- A pass of the producer, a step of the consumer, or a command of the user's: a message and its key.
pub data TaskEvent : Type 0 where
  sample : Producer.PassEnv → TaskEvent
  consume : Messages.PassEnv → TaskEvent
  command : MsgId → ℕ → TaskEvent

-- The message of the doorbell.
abbrev pub bell : Msg
bell = record { id = data_ready; key = 0 }

abbrev pub as_list {ℓ} : {A : Type ℓ} → Option A → List A
as_list none = []
as_list (some a) = a ∷ []

module _ (queues : Queue Msg app_consumer_queue_len) where
  open queues use {State, created, offer, receive}

  -- The producer with the consumer, the UI task, and the queue. Beside them stand, for the theorems, the
  -- messages that the queue has accepted, those that the consumer has taken out, and how often the
  -- producer has rung.
  pub record Tasks : Type 0 where
    pub pair : System
    pub ui : Ui
    pub queue : State
    pub accepted : List Msg
    pub handled : List Msg
    pub rings : ℕ

  -- What the queue says to a message.
  abbrev pub answers : State → Msg → Bool
  answers q msg = (offer q msg).0

  -- The queue after a message has been offered to it.
  unfoldable pub post : Msg → Tasks → Tasks
  post msg s = record s {
    queue = (offer s.queue msg).1;
    accepted = if (offer s.queue msg).0 then s.accepted ++ (msg ∷ []) else s.accepted;
  }

  -- The producer on the real queue, and the consumer.
  abbrev pub on_queue : State → Producer.PassEnv → Producer.PassEnv
  on_queue q env = record env { queue_created = true; queue_takes = answers q }

  abbrev pub from_queue : State → Messages.PassEnv → Messages.PassEnv
  from_queue q env = record env { receive = λ wait. (receive q).0 }

  -- A pass of the producer, with its ring.
  unfoldable pub sample_step : Producer.PassEnv → Tasks → Tasks
  sample_step env s =
      let env' = on_queue s.queue env in
      let pair = System.step (System.sample env') s.pair in
      if (sample_pass env' s.pair.producer s.pair.world.log).rang
      then record (post bell s) { pair = pair; rings = s.rings + 1 }
      else record s { pair = pair }

  -- A step of the consumer; where it is at its queue, it takes the first message out.
  unfoldable pub consume_step : Messages.PassEnv → Tasks → Tasks
  consume_step env s =
      let env' = from_queue s.queue env in
      let pair = System.step (System.consume env') s.pair in
      if takes env' s.pair.phase
      then record s {
        pair = pair;
        queue = (receive s.queue).1;
        handled = s.handled ++ as_list (receive s.queue).0;
      }
      else record s { pair = pair }

  unfoldable pub step : TaskEvent → Tasks → Tasks
  step (sample env) s = sample_step env s
  step (consume env) s = consume_step env s
  step (command id key) s = record (post (record { id = id; key = key }) s) {
    ui = ui_send true (λ n. answers s.queue) id key s.ui;
  }

  unfoldable pub run : List TaskEvent → Tasks → Tasks
  run [] s = s
  run (e ∷ es) s = run es (step e s)

  -- All tasks at the start of their loops, the queue just created.
  abbrev pub start : ℕ → ℕ → Gpio → Wdog → Tasks
  start timer_period_us now_tick gpio wdog = record {
    pair = System.start timer_period_us now_tick gpio wdog;
    ui = record { dropped_msgs = 0; sent = [] };
    queue = created;
    accepted = [];
    handled = [];
    rings = 0;
  }
