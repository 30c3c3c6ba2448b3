-- ===== src/Ui.antt =====
-- sw/stage4_watchdog/src/tasks/task_ui.c: the task that scans the buttons and reads the keys. Keys are
-- the codes of characters; the queue of the consumer answers through an argument.
pub mod Keys
pub mod Sends
pub mod Passes
mod Tests
use zybo_rtos_sensor_aggrega.Config.{app_stack_ui, app_prio_ui}
use zybo_rtos_sensor_aggrega.Rtos
use zybo_rtos_sensor_aggrega.Rtos.{Kernel, TaskSpec, create_task}
use zybo_rtos_sensor_aggrega.Prelude.{
  ℕ, ◌+◌, Bool, true, false, ◌||◌, ◌&&◌, not, Option, none, some, List, [], ◌∷◌, ◌++◌, leb, ◌==◌,
  if◌then◌else◌, length, add32,
}
use zybo_rtos_sensor_aggrega.Message.{
  Msg, MsgId, report, stream_toggle, rate_toggle, pause_toggle, print_newest, stats, help,
  unknown_key, wdt_test, send,
}
use zybo_rtos_sensor_aggrega.Gpio
use zybo_rtos_sensor_aggrega.Watchdog
use zybo_rtos_sensor_aggrega.Watchdog.{Wdog}

-- `s_dropped_msgs`, and the messages sent so far.
pub record Ui : Type 0 where
  pub dropped_msgs : ℕ
  pub sent : List Msg

-- The queue's answer may change from one message to the next: it is that to message `n`.
abbrev pub Queue : Type 0
Queue = ℕ → Msg → Bool

-- `ui_send`.
pub ui_send : Bool → Queue → MsgId → ℕ → Ui → Ui
ui_send created takes id key u =
    let sent = u.sent ++ (record { id = id; key = key } ∷ []) in
    if not (send created (takes (length u.sent)) id key)
    then record { dropped_msgs = add32 u.dropped_msgs 1; sent = sent }
    else record { dropped_msgs = u.dropped_msgs; sent = sent }

-- A key in its two cases.
abbrev pub is : ℕ → ℕ → ℕ → Bool
is key lower upper = key == lower || key == upper

-- The message that a key asks for, if any.
pub key_msg : ℕ → Option MsgId
key_msg key =
    if is key 114 82
    then some report
    else if is key 115 83
    then some stream_toggle
    else if is key 102 70
    then some rate_toggle
    else if is key 112 80
    then some pause_toggle
    else if is key 116 84
    then some print_newest
    else if is key 100 68
    then some stats
    else if is key 104 72 || key == 63
    then some help
    else if key == 49 || (key == 50 || (key == 51 || key == 52))
    then some wdt_test
    else if key == 13 || (key == 10 || key == 32)
    then none
    else if leb 32 key && leb key 126
    then some unknown_key
    else none

-- `ui_handle_key`.
pub handle_key : Bool → Queue → ℕ → Ui → Ui
handle_key created takes key u = elim (key_msg key) [
  | none ↦ u
  | some id ↦ ui_send created takes id key u
]

pub handle_keys : Bool → Queue → List ℕ → Ui → Ui
handle_keys created takes [] u = u
handle_keys created takes (key ∷ keys) u =
    handle_keys created takes keys (handle_key created takes key u)

abbrev pub send_if : Bool → Bool → Queue → MsgId → Ui → Ui
send_if pressed created takes id u = if pressed then ui_send created takes id 0 u else u

-- One pass of `ui_task`'s loop; `keys` are the characters that the port holds. `none` is a task that hangs
-- in its check-in.
pub pass :
    (ℕ → ℕ) → Bool → Queue → List ℕ → ℕ → Gpio.Gpio → Wdog → Ui → Gpio.Gpio × Option Wdog × Ui
pass level created takes keys tick g w u =
    let (report_pressed, g1) = Gpio.btn_take_press Gpio.btn4 (Gpio.btn_scan level g) in
    let u1 = send_if report_pressed created takes report u in
    let (stream_pressed, g2) = Gpio.btn_take_press Gpio.btn5 g1 in
    let u2 = send_if stream_pressed created takes stream_toggle u1 in
    (g2, Watchdog.checkin Watchdog.client_ui tick w, handle_keys created takes keys u2)

-- `task_ui_create`: the calls and the result.
abbrev pub task : Kernel → TaskSpec
task k = record { name = "ui"; stack_words = app_stack_ui; priority = app_prio_ui k.idle_priority }

pub create : Kernel → List Rtos.Call × Bool
create k = create_task k (task k)
