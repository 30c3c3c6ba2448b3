-- ===== src/Ui/Tests.antt =====
-- Keys at concrete codes, and a pass whose queue refuses everything.
use zybo_rtos_sensor_aggrega.Prelude.{
  List, false, ℕ, ◌==◌, if◌then◌else◌, ◌≡◌, refl, false, [], ◌∷◌, arith, some,
}
use zybo_rtos_sensor_aggrega.Message.{report}
use zybo_rtos_sensor_aggrega.Gpio
use zybo_rtos_sensor_aggrega.Watchdog
use zybo_rtos_sensor_aggrega.Ui.{Ui, Queue, key_msg}
use zybo_rtos_sensor_aggrega.Ui.Passes.{Inputs}
use zybo_rtos_sensor_aggrega.Ui.Keys.{key_msg-case}

-- 'r'.
key_r : key_msg 114 ≡ some report
unfolding key_msg
key_r = refl

key_msg-case_example : key_msg 112 ≡ key_msg 80
key_msg-case_example = key_msg-case 80 (omega arith) (omega arith)

abbrev full : Queue
full n msg = false

abbrev fresh : Ui
fresh = record { dropped_msgs = 0; sent = [] }

-- BTN4 is pressed in the fourth pass, after two bounces, and kept down; 'r', an Enter and 'F' are typed.
abbrev pin4 : ℕ → ℕ → ℕ
pin4 up pin = if pin == 50 then up else 0

abbrev scan : ℕ → List ℕ → Inputs
scan up keys = record { level = pin4 up; keys = keys; tick = 1; wdog = Watchdog.initial }

abbrev script : List Inputs
script =
    scan 1 [] ∷ scan 0 (114 ∷ 13 ∷ []) ∷ scan 1 [] ∷ scan 1 [] ∷ scan 1 (70 ∷ []) ∷ scan 1 [] ∷ []
