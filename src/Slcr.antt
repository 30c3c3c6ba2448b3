-- ===== src/Slcr.antt =====
-- sw/stage4_watchdog/src/drivers/slcr.c: read-modify-write of a system register behind its lock. The
-- writes to the bus appear as a list of offsets and values; the values read are arguments.
use zybo_rtos_sensor_aggrega.Prelude.{
  ℕ, ◌-◌, ◌^◌, not, List, [], ◌∷◌, ◌++◌, ◌==◌, if◌then◌else◌, bit_and, bit_or,
}

abbrev pub lock_offset : ℕ
lock_offset = 0x004

abbrev pub unlock_offset : ℕ
unlock_offset = 0x008

abbrev pub lock_key : ℕ
lock_key = 0x767b

abbrev pub unlock_key : ℕ
unlock_key = 0xdf0d

-- `~` on 32 bits.
abbrev pub not32 : ℕ → ℕ
not32 m = 2 ^ 32 - 1 - m

-- `lock_status` is what `SLCR_LOCKSTA` reads, `value` what the register reads.
unfoldable pub modify : ℕ → ℕ → ℕ → ℕ → ℕ → List (ℕ × ℕ)
modify lock_status value offset clear_mask set_mask =
    let was_locked = not (bit_and lock_status 1 == 0) in
    (if was_locked then (unlock_offset, unlock_key) ∷ [] else [])
    ++ (((offset, bit_or (bit_and value (not32 clear_mask)) set_mask) ∷ [])
        ++ (if was_locked then (lock_offset, lock_key) ∷ [] else []))
