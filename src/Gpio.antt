-- ===== src/Gpio.antt =====
-- sw/stage4_watchdog/src/drivers/gpio_drv.c: the LED and the debounced buttons. What the Xilinx driver
-- reads from a pin is an argument; its writes appear as a list of calls.
pub mod Debounce
mod Tests
use mathlib.Core.Option
use zybo_rtos_sensor_aggrega.Prelude.{
  ℕ, ◌+◌, Bool, true, false, not, ◌&&◌, List, [], ◌∷◌, ◌++◌, map, ltb, leb, ◌==◌, if◌then◌else◌,
  get_or, set, u8,
}
use zybo_rtos_sensor_aggrega.Config.{
  board_mio_led4, board_mio_btn4, board_mio_btn5, board_mio_btn_active_high, board_mio_btn_pullup,
}

-- `GPIO_DRV_DEBOUNCE_SCANS`.
abbrev pub debounce_scans : ℕ
debounce_scans = 3

-- `gpio_btn_id_t`: the indices, and the count.
abbrev pub btn4 : ℕ
btn4 = 0

abbrev pub btn5 : ℕ
btn5 = 1

abbrev pub btn_count : ℕ
btn_count = 2

pub data Status : Type 0 where
  ok err_lookup err_init : Status

pub record BtnHw : Type 0 where
  pub mio_pin : ℕ
  pub active_high : Bool

pub record BtnState : Type 0 where
  pub is_down : Bool
  pub mismatch_scans : ℕ  -- uint8_t
  pub press_latched : Bool

-- `s_btn_hw`, with the pins and the polarity of board_zybo.h.
abbrev pub btn_hw : List BtnHw
btn_hw =
    record { mio_pin = board_mio_btn4; active_high = board_mio_btn_active_high }
    ∷ record { mio_pin = board_mio_btn5; active_high = board_mio_btn_active_high }
    ∷ []

-- Calls of XGpioPs, and of `slcr_modify` for a pull-up.
pub data Call : Type 0 where
  write_pin : ℕ → ℕ → Call
  set_direction : ℕ → ℕ → Call
  set_output_enable : ℕ → ℕ → Call
  set_pullup : ℕ → Bool → Call

-- The file's static variables.
pub record Gpio : Type 0 where
  pub ready : Bool
  pub led_on : Bool
  pub btn_state : List BtnState

abbrev pub released : BtnState
released = record { is_down = false; mismatch_scans = 0; press_latched = false }

-- `gpio_btn_read_raw`; `level` is `XGpioPs_ReadPin`.
unfoldable pub read_raw : (ℕ → ℕ) → BtnHw → Bool
read_raw level hw = if hw.active_high then not (level hw.mio_pin == 0) else level hw.mio_pin == 0

abbrev pub bool_eq : Bool → Bool → Bool
bool_eq true b = b
bool_eq false b = not b

-- One button in one scan.
unfoldable pub debounce : Bool → BtnState → BtnState
debounce raw_down s =
    let mismatch = u8 (s.mismatch_scans + 1) in
    if bool_eq raw_down s.is_down
    then record s { mismatch_scans = 0 }
    else if leb debounce_scans mismatch
    then record {
      is_down = raw_down;
      mismatch_scans = 0;
      press_latched = if raw_down then true else s.press_latched;
    }
    else record s { mismatch_scans = mismatch }

unfoldable pub scan_all : (ℕ → ℕ) → List BtnHw → List BtnState → List BtnState
scan_all level [] states = states
scan_all level (hw ∷ hws) [] = []
scan_all level (hw ∷ hws) (s ∷ states) = debounce (read_raw level hw) s ∷ scan_all level hws states

unfoldable pub btn_scan : (ℕ → ℕ) → Gpio → Gpio
btn_scan level g =
    if not g.ready then g else record g { btn_state = scan_all level btn_hw g.btn_state }

-- The debouncer of one button as `init` seeds it.
pub seed : (ℕ → ℕ) → BtnHw → BtnState
seed level hw = record { is_down = read_raw level hw; mismatch_scans = 0; press_latched = false }

-- The calls of `init` for one button.
abbrev pub init_btn : BtnHw → List Call
init_btn hw = set_pullup hw.mio_pin board_mio_btn_pullup ∷ set_direction hw.mio_pin 0 ∷ []

pub init : Bool → Bool → (ℕ → ℕ) → Gpio → Status × List Call × Gpio
init found configured level g =
    let idle = record g { ready = false } in
    if not found then (err_lookup, [], idle) else if not configured then (err_init, [], idle) else (
      ok,
      (write_pin board_mio_led4 0
            ∷ set_direction board_mio_led4 1
            ∷ set_output_enable board_mio_led4 1
            ∷ [])
          ++ (init_btn
                (record { mio_pin = board_mio_btn4; active_high = board_mio_btn_active_high })
              ++ init_btn
                  (record { mio_pin = board_mio_btn5; active_high = board_mio_btn_active_high })),
      record { ready = true; led_on = false; btn_state = map (seed level) btn_hw },
    )

unfoldable pub led_set : Bool → Gpio → List Call × Gpio
led_set on g =
    if not g.ready
    then ([], g)
    else (write_pin board_mio_led4 (if on then 1 else 0) ∷ [], record g { led_on = on })

unfoldable pub led_toggle : Gpio → List Call × Gpio
led_toggle g = led_set (not g.led_on) g

pub btn_is_down : ℕ → Gpio → Bool
btn_is_down btn g = if leb btn_count btn then false else (get_or g.btn_state btn released).is_down

-- Plain read-then-clear.
unfoldable pub take : BtnState → Bool × BtnState
take s = (s.press_latched, record s { press_latched = false })

unfoldable pub btn_take_press : ℕ → Gpio → Bool × Gpio
btn_take_press btn g =
    let (pressed, s) = take (get_or g.btn_state btn released) in
    if leb btn_count btn
    then (false, g)
    else (pressed, record g { btn_state = set g.btn_state btn s })
