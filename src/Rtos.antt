-- ===== src/Rtos.antt =====
-- What the firmware relies on of FreeRTOS: a task notification used as a counting semaphore, and a queue. The
-- operations are parameters of the models; the laws are what the documentation of FreeRTOS states of
-- them.
pub mod Plain
use Prim.Native.String.{String}
use zybo_rtos_sensor_aggrega.Prelude.{
  ℕ, ◌+◌, ◌≡◌, Bool, Option, none, some, List, [], ◌∷◌, ◌++◌, ltb, if◌then◌else◌, length, drop, u32,
}

-- `vTaskNotifyGiveFromISR`, with what it says of a woken task, and `ulTaskNotifyTake` with `pdTRUE` as it
-- returns; `count` is the notification value.
pub record Notification : Type 1 where
  pub Value : Type 0
  pub cleared : Value
  pub count : Value → ℕ
  pub give : Value → Bool × Value
  pub take : Value → ℕ × Value
  pub count-cleared : count cleared ≡ 0
  pub count-give : (v : Value) → count (give v).1 ≡ u32 (count v + 1)
  pub take-count : (v : Value) → (take v).0 ≡ count v
  pub count-take : (v : Value) → count (take v).1 ≡ 0

abbrev pub first {ℓ} : {A : Type ℓ} → List A → Option A
first [] = none
first (a ∷ rest) = some a

-- A queue of length `limit`: `xQueueSend` without a wait, `xQueueReceive` as it returns, and
-- `uxQueueMessagesWaiting`; `waiting` lists the messages in it, oldest first.
pub record Queue (A : Type 0) (limit : ℕ) : Type 1 where
  pub State : Type 0
  pub created : State
  pub waiting : State → List A
  pub offer : State → A → Bool × State
  pub receive : State → Option A × State
  pub messages_waiting : State → ℕ
  pub waiting-created : waiting created ≡ []
  pub offer_lem : (q : State) (a : A) → (offer q a).0 ≡ ltb (length (waiting q)) limit
  pub waiting-offer :
      (q : State) (a : A)
      → waiting (offer q a).1
        ≡ (if ltb (length (waiting q)) limit then waiting q ++ (a ∷ []) else waiting q)
  pub receive_lem : (q : State) → (receive q).0 ≡ first (waiting q)
  pub waiting-receive : (q : State) → waiting (receive q).1 ≡ drop 1 (waiting q)
  pub messages_waiting_lem : (q : State) → messages_waiting q ≡ length (waiting q)

-- What `xTaskCreate` is asked for; the stack is in words.
pub record TaskSpec : Type 0 where
  pub name : String
  pub stack_words : ℕ
  pub priority : ℕ

-- Requests to the kernel at the start.
pub data Call : Type 0 where
  task_create : TaskSpec → Call
  queue_create : ℕ → Call
  start_scheduler : Call

-- What the kernel answers to them; `tskIDLE_PRIORITY` is its lowest priority.
pub record Kernel : Type 0 where
  pub idle_priority : ℕ
  pub task_created : TaskSpec → Bool
  pub queue_created : ℕ → Bool
  pub scheduler_runs : Bool

abbrev pub create_task : Kernel → TaskSpec → List Call × Bool
create_task k task = (task_create task ∷ [], k.task_created task)
