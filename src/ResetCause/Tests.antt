-- ===== src/ResetCause/Tests.antt =====
-- A watchdog reset beside an older button reset, and the theorems of the capture there.
use zybo_rtos_sensor_aggrega.Prelude.{◌≡◌, refl, ◌++◌, [], ◌∷◌, arith, if◌then◌else◌}
use zybo_rtos_sensor_aggrega.Slcr
use zybo_rtos_sensor_aggrega.Slcr.{lock_offset, unlock_offset, lock_key, unlock_key}
use zybo_rtos_sensor_aggrega.ResetCause.{
  unknown, swdt, has, cause_of, capture, reboot_status_offset,
}
use zybo_rtos_sensor_aggrega.ResetCause.Bits.{bit}
use zybo_rtos_sensor_aggrega.ResetCause.Capture.{masked, capture_lem}

capture_both : capture 0x6021_0400 1 ≡ (
  swdt,
  (unlock_offset, unlock_key) ∷ (reboot_status_offset, 0x6000_0400) ∷ (lock_offset, lock_key) ∷ [],
)
unfolding capture cause_of has Slcr.modify
capture_both = refl

capture_lem_example :
    ((capture 0x6021_0400 1).1
      ≡ (if bit 0 1 then (unlock_offset, unlock_key) ∷ [] else [])
        ++ (((reboot_status_offset, masked 0x6021_0400) ∷ [])
            ++ (if bit 0 1 then (lock_offset, lock_key) ∷ [] else [])))
    × ((capture (masked 0x6021_0400) 1).0 ≡ unknown)
capture_lem_example = capture_lem 0x6021_0400 1 (omega arith)
