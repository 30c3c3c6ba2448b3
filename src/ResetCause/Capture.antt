-- ===== src/ResetCause/Capture.antt =====
-- Which cause is reported, and what the capture leaves in the register.
use zybo_rtos_sensor_aggrega.Prelude.{
  ℕ, ◌+◌, ◌*◌, ◌/◌, ◌%◌, ◌^◌, ◌<◌, ◌≡◌, refl, ◌∙◌, Bool, false, not, ◌||◌, List, [], ◌∷◌, ◌++◌,
  arith, if◌then◌else◌, ◌==◌, bit_and, bit_or, bit_or-zero,
}
use zybo_rtos_sensor_aggrega.Slcr
use zybo_rtos_sensor_aggrega.Slcr.{not32, lock_offset, unlock_offset, lock_key, unlock_key}
use zybo_rtos_sensor_aggrega.ResetCause.{
  Cause, unknown, power_on, swdt, cpu_wdt, ps_srst, debug, software, has, cause_of, capture,
  reboot_status_offset, reboot_reason_mask,
}
use zybo_rtos_sensor_aggrega.ResetCause.Bits.{bit, has-bit, has_watchdogs, cleared_lem}

-- The causes in the order of their priority, each with the bit that stands for it.
abbrev pub priorities : List (ℕ × Cause)
priorities =
    (16, swdt)
    ∷ (17, cpu_wdt)
    ∷ (18, cpu_wdt)
    ∷ (22, power_on)
    ∷ (21, ps_srst)
    ∷ (20, debug)
    ∷ (19, software)
    ∷ []

-- The first cause of a list whose bit is set.
abbrev pub first_set : ℕ → List (ℕ × Cause) → Cause
first_set status [] = unknown
first_set status ((k, c) ∷ rest) = if bit k status then c else first_set status rest

if-or :
    {A : Type 0} (a b : Bool) (x y : A)
    → (if a || b then x else y) ≡ (if a then x else if b then x else y)
if-or a b x y = ground arith

-- The reported cause is the first in the table of priorities whose bit is set, and unknown if none is.
cause_of_lem : (status : ℕ) → cause_of status ≡ first_set status priorities
unfolding cause_of
cause_of_lem status =
    rw
      (
        has-bit 16 status,
        has_watchdogs status,
        has-bit 22 status,
        has-bit 21 status,
        has-bit 20 status,
        has-bit 19 status,
      )
      (rw if-or refl)

-- A status word without its reason bits.
abbrev pub masked : ℕ → ℕ
masked status = status / 2 ^ 23 * 2 ^ 23 + status % 2 ^ 16

masked_bits :
    (status : ℕ)
    → (bit 16 (masked status) ≡ false)
      × (bit 17 (masked status) ≡ false)
      × (bit 18 (masked status) ≡ false)
      × (bit 19 (masked status) ≡ false)
      × (bit 20 (masked status) ≡ false)
      × (bit 21 (masked status) ≡ false)
      × (bit 22 (masked status) ≡ false)
masked_bits status = (
  ground arith,
  ground arith,
  ground arith,
  ground arith,
  ground arith,
  ground arith,
  ground arith,
)

-- `reset_cause_capture` writes back the status word with the seven reason bits cleared and every other
-- bit as it was, unlocking the registers round the write exactly where it found them locked; a capture
-- of the word it leaves reports no cause.
pub capture_lem :
    (status lock_status : ℕ)
    → status < 2 ^ 32
    → ((capture status lock_status).1
        ≡ (if bit 0 lock_status then (unlock_offset, unlock_key) ∷ [] else [])
          ++ (((reboot_status_offset, masked status) ∷ [])
              ++ (if bit 0 lock_status then (lock_offset, lock_key) ∷ [] else [])))
      × ((capture (masked status) lock_status).0 ≡ unknown)
unfolding capture
capture_lem status lock_status h = (written, none_left)
  where
    locked : not (bit_and lock_status 1 == 0) ≡ bit 0 lock_status
    locked = unfold has in has-bit 0 lock_status

    word : bit_or (bit_and status (not32 reboot_reason_mask)) 0 ≡ masked status
    word = bit_or-zero _ ∙ cleared_lem status h

    written :
        Slcr.modify lock_status status reboot_status_offset reboot_reason_mask 0
        ≡ (if bit 0 lock_status then (unlock_offset, unlock_key) ∷ [] else [])
          ++ (((reboot_status_offset, masked status) ∷ [])
              ++ (if bit 0 lock_status then (lock_offset, lock_key) ∷ [] else []))
    written = unfold Slcr.modify in rw (locked, word) refl

    none_left : cause_of (masked status) ≡ unknown
    none_left = cause_of_lem (masked status) ∙ ground (arith, masked_bits status)
