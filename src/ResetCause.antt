-- ===== src/ResetCause.antt =====
-- sw/stage4_watchdog/src/system/reset_cause.c: why the board came out of reset, from the sticky bits of
-- `REBOOT_STATUS`, which are cleared once read.
pub mod Bits
pub mod Capture
mod Tests
use Prim.Native.String.{String}
use zybo_rtos_sensor_aggrega.Prelude.{ℕ, ◌+◌, ◌^◌, Bool, not, List, ◌==◌, if◌then◌else◌, bit_and}
use zybo_rtos_sensor_aggrega.Slcr

pub data Cause : Type 0 where
  unknown power_on swdt cpu_wdt ps_srst debug software : Cause

-- The reset reason bits.
abbrev pub reboot_swdt_rst : ℕ
reboot_swdt_rst = 2 ^ 16

abbrev pub reboot_awdt_rst : ℕ
reboot_awdt_rst = 2 ^ 17 + 2 ^ 18

abbrev pub reboot_slc_rst : ℕ
reboot_slc_rst = 2 ^ 19

abbrev pub reboot_dbg_rst : ℕ
reboot_dbg_rst = 2 ^ 20

abbrev pub reboot_srst_b : ℕ
reboot_srst_b = 2 ^ 21

abbrev pub reboot_por : ℕ
reboot_por = 2 ^ 22

abbrev pub reboot_reason_mask : ℕ
reboot_reason_mask = 0x007f_0000

-- `SLCR_REBOOT_STATUS_OFFSET`.
abbrev pub reboot_status_offset : ℕ
reboot_status_offset = 0x258

pub has : ℕ → ℕ → Bool
has status mask = not (bit_and status mask == 0)

pub cause_of : ℕ → Cause
cause_of status =
    if has status reboot_swdt_rst
    then swdt
    else if has status reboot_awdt_rst
    then cpu_wdt
    else if has status reboot_por
    then power_on
    else if has status reboot_srst_b
    then ps_srst
    else if has status reboot_dbg_rst
    then debug
    else if has status reboot_slc_rst
    then software
    else unknown

-- The cause, which `reset_cause_get` returns from then on, and the writes to the bus.
pub capture : ℕ → ℕ → Cause × List (ℕ × ℕ)
capture status lock_status =
    (cause_of status, Slcr.modify lock_status status reboot_status_offset reboot_reason_mask 0)

pub name : Cause → String
name power_on = "power-on"
name swdt = "WATCHDOG (SWDT)"
name cpu_wdt = "CPU private watchdog"
name ps_srst = "PS reset button"
name debug = "debugger"
name software = "software (SLCR)"
name unknown = "unknown"
