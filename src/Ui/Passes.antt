-- ===== src/Ui/Passes.antt =====
-- The UI task over any number of passes: what the user does against what is sent.
use zybo_rtos_sensor_aggrega.Prelude.{ℕ, Bool, true, List, [], ◌∷◌, ◌++◌}
use zybo_rtos_sensor_aggrega.Message.{Msg, report, stream_toggle}
use zybo_rtos_sensor_aggrega.Gpio
use zybo_rtos_sensor_aggrega.Gpio.{Gpio, BtnState, BtnHw, read_raw}
use zybo_rtos_sensor_aggrega.Watchdog.{Wdog}
use zybo_rtos_sensor_aggrega.Ui.{Ui, Queue, pass}
use zybo_rtos_sensor_aggrega.Ui.Sends.{of_keys, of_press}

-- What a pass meets: the levels of the pins, the keys typed since the last one, and, for its check-in, the tick and
-- the clients.
pub record Inputs : Type 0 where
  pub level : ℕ → ℕ
  pub keys : List ℕ
  pub tick : ℕ
  pub wdog : Wdog

-- Passes of a task that no test hangs.
unfoldable pub passes : Bool → Queue → List Inputs → Gpio → Ui → Gpio × Ui
passes created takes [] g u = (g, u)
passes created takes (i ∷ is) g u =
    let (g', _, u') = pass i.level created takes i.keys i.tick g i.wdog u in
    passes created takes is g' u'

-- What the pin of a button says in each pass: both pins are high when pressed.
abbrev pub pin : ℕ → BtnHw
pin mio_pin = record { mio_pin = mio_pin; active_high = true }

abbrev pub samples : ℕ → List Inputs → List Bool
samples mio_pin [] = []
samples mio_pin (i ∷ is) = read_raw i.level (pin mio_pin) ∷ samples mio_pin is

-- A message for each press and for each key with a meaning, pass by pass.
abbrev pub requests : List Bool → List Bool → List Inputs → List Msg
requests (b4 ∷ b4s) (b5 ∷ b5s) (i ∷ is) =
    of_press b4 report ++ (of_press b5 stream_toggle ++ of_keys i.keys) ++ requests b4s b5s is
requests b4s b5s is = []

abbrev pub board : Bool → BtnState → BtnState → Gpio
board led_on s4 s5 = record { ready = true; led_on = led_on; btn_state = s4 ∷ s5 ∷ [] }
