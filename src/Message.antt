-- ===== src/Message.antt =====
-- The messages of sw/stage4_watchdog/src/tasks/task_consumer.h, and `task_consumer_send`. FreeRTOS keeps
-- the queue; whether it takes a message is an argument.
use zybo_rtos_sensor_aggrega.Prelude.{ℕ, Bool, false, if◌then◌else◌}

pub data MsgId : Type 0 where
  data_ready report stream_toggle rate_toggle pause_toggle print_newest stats help unknown_key
        wdt_test :
      MsgId

-- `key` is the code of a `char`.
pub record Msg : Type 0 where
  pub id : MsgId
  pub key : ℕ

-- `task_consumer_send`; `created` says whether the queue exists, `queue_takes` is `xQueueSend`.
unfoldable pub send : Bool → (Msg → Bool) → MsgId → ℕ → Bool
send created queue_takes id key =
    if created then queue_takes (record { id = id; key = key }) else false
