-- ===== src/Uart.antt =====
-- sw/stage4_watchdog/src/drivers/uart_drv.c: the polled console UART. The masks of XUartPs and what its
-- registers read are arguments; what is sent or written comes out as a list of calls, in order.
pub mod Lines
pub mod Wait
mod Tests
use mathlib.Core.Option
use zybo_rtos_sensor_aggrega.Spin.{spin}
use zybo_rtos_sensor_aggrega.Prelude.{
  ℕ, zero, suc, ◌+◌, Bool, true, false, ◌||◌, not, Option, none, some, List, [], ◌∷◌, ◌++◌, ◌==◌,
  if◌then◌else◌, add32, u8, bit_and, bit_or,
}

pub data Status : Type 0 where
  ok err_lookup err_init err_format : Status

-- `uart_drv_err_counters_t`.
pub record ErrCounters : Type 0 where
  pub rx_overrun : ℕ
  pub rx_framing : ℕ
  pub rx_parity : ℕ

-- The file's static variables, the instance of XUartPs apart.
pub record Uart : Type 0 where
  pub ready : Bool
  pub errors : ErrCounters

-- The masks of xuartps_hw.h.
pub record Masks : Type 0 where
  pub ixr_over : ℕ
  pub ixr_framing : ℕ
  pub ixr_parity : ℕ
  pub sr_tx_empty : ℕ
  pub sr_tactive : ℕ

-- Calls of XUartPs that change the device.
pub data Call : Type 0 where
  cfg_initialize : Call
  set_format : ℕ → Call
  normal_mode : Call
  mask_interrupts : Call
  write_isr : ℕ → Call
  send_byte : ℕ → Call

-- `UART_RX_LINE_ERR_MASK`.
abbrev pub rx_line_err_mask : Masks → ℕ
rx_line_err_mask m = bit_or (bit_or m.ixr_over m.ixr_framing) m.ixr_parity

-- `uart_collect_line_errors`; `isr` is what the interrupt status register reads.
pub collect_line_errors : Masks → ℕ → ErrCounters → List Call × ErrCounters
collect_line_errors m isr e =
    let pending = bit_and isr (rx_line_err_mask m) in
    let e' : ErrCounters = record {
      rx_overrun =
          if not (bit_and pending m.ixr_over == 0) then add32 e.rx_overrun 1 else e.rx_overrun;
      rx_framing =
          if not (bit_and pending m.ixr_framing == 0) then add32 e.rx_framing 1 else e.rx_framing;
      rx_parity =
          if not (bit_and pending m.ixr_parity == 0) then add32 e.rx_parity 1 else e.rx_parity;
    } in
    if pending == 0 then ([], e) else (write_isr pending ∷ [], e')

-- The condition of the loop in `uart_drv_init`, and of that in `uart_drv_wait_tx_idle`.
abbrev pub still_draining : Masks → ℕ → Bool
still_draining m status = bit_and status m.sr_tx_empty == 0

abbrev pub still_sending : Masks → ℕ → Bool
still_sending m status = bit_and status m.sr_tx_empty == 0 || not (bit_and status m.sr_tactive == 0)

-- What the Xilinx driver answers to `uart_drv_init`.
pub record InitEnv : Type 0 where
  pub found : Bool
  pub status_reads : ℕ → ℕ
  pub configured : Bool
  pub format_set : Bool
  pub isr : ℕ

-- `uart_drv_init` with so many readings of the status register allowed; `none` is a wait that goes on
-- longer.
pub init : Masks → InitEnv → ℕ → ℕ → Uart → Option (Status × List Call × Uart)
init m env fuel baud_rate u =
    let idle = record u { ready = false } in
    let drained = spin (still_draining m) env.status_reads 0 fuel in
    if not env.found then some (err_lookup, [], idle) else elim drained [
      | none ↦ none
      | some polls ↦
          if not env.configured
          then some (err_init, cfg_initialize ∷ [], idle)
          else if not env.format_set
          then some (err_format, cfg_initialize ∷ set_format baud_rate ∷ [], idle)
          else some (
            ok,
            cfg_initialize
                ∷ set_format baud_rate
                ∷ normal_mode
                ∷ mask_interrupts
                ∷ write_isr env.isr
                ∷ [],
            record {
              ready = true;
              errors = record { rx_overrun = 0; rx_framing = 0; rx_parity = 0 };
            },
          )
    ]

-- `XUartPs_SendByte` waits for room in its FIFO itself.
pub put_char : Uart → ℕ → List Call
put_char u ch = if not u.ready then [] else send_byte (u8 ch) ∷ []

-- The loop of `uart_drv_write`, over the characters left.
pub write_all : Uart → List ℕ → List Call
write_all u [] = []
write_all u (ch ∷ chs) = put_char u ch ++ write_all u chs

pub write : Uart → Option (List ℕ) → List Call
write u none = []
write u (some bytes) = write_all u bytes

-- The result, `*ch_out`, the calls and the driver; `fifo` is the byte waiting, if one is.
pub try_get_char : Masks → ℕ → Option ℕ → Uart → Option ℕ → Bool × Option ℕ × List Call × Uart
try_get_char m isr fifo u none = (false, none, [], u)
try_get_char m isr fifo u (some ch) =
    let (calls, errors) = collect_line_errors m isr u.errors in
    let u' = record u { errors = errors } in
    if not u.ready then (false, some ch, [], u) else elim fifo [
      | none ↦ (false, some ch, calls, u')
      | some byte ↦ (true, some (u8 byte), calls, u')
    ]

-- The number of readings taken; `none` is a wait that goes on longer than the fuel.
pub wait_tx_idle : Masks → (ℕ → ℕ) → ℕ → Uart → Option ℕ
wait_tx_idle m reads fuel u =
    let polls = spin (still_sending m) reads 0 fuel in if not u.ready then some 0 else polls

pub get_err_counters : Uart → Option ErrCounters → Option ErrCounters
get_err_counters u none = none
get_err_counters u (some out) = some u.errors
