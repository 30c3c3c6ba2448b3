-- ===== src/ResetCause/Bits.antt =====
-- The tests and the mask of the reset reason as arithmetic on single bits.
use native.Mathlib.Nat.{one-le-pow, div-add-mod'}
use zybo_rtos_sensor_aggrega.Prelude.{
  ℕ, ◌+◌, ◌*◌, ◌/◌, ◌%◌, ◌^◌, ◌<◌, ◌≡◌, inl, inr, ap, ◌∙◌, Bool, ◌||◌, arith, Bool-cases, ◌==◌,
  bit_and, bit_and_mask, bit_and_fields, bit_and_bit,
}
use zybo_rtos_sensor_aggrega.ResetCause.{has, reboot_awdt_rst, reboot_reason_mask}
use zybo_rtos_sensor_aggrega.Slcr.{not32}

-- Bit `k` of a word.
abbrev pub bit : ℕ → ℕ → Bool
bit k a = a / 2 ^ k % 2 == 1

pub has-bit : (k a : ℕ) → has a (2 ^ k) ≡ bit k a
unfolding has
has-bit k a = rw (bit_and_bit k a) (elim (Bool-cases (a / 2 ^ k % 2 == 1)) [
  | inl one ↦ let e : a / 2 ^ k % 2 ≡ 1 = ground arith in rw e (ground (arith, one-le-pow k 2))
  | inr other ↦ let e : a / 2 ^ k % 2 ≡ 0 = ground arith in rw e (ground arith)
])

-- A word as a field above bit `k` and the rest below.
split : (k a : ℕ) → a ≡ a / 2 ^ k * 2 ^ k + a % 2 ^ k
split k a = omega (arith, div-add-mod' a (2 ^ k))

pub has_watchdogs : (a : ℕ) → has a reboot_awdt_rst ≡ (bit 17 a || bit 18 a)
unfolding has
has_watchdogs a =
    let fields = bit_and_fields 17 (a / 2 ^ 17) (a % 2 ^ 17) 3 0 (omega arith) (omega arith) in
    let e : bit_and a reboot_awdt_rst ≡ a / 2 ^ 17 % 4 * 2 ^ 17 =
      ap (λ x. bit_and x reboot_awdt_rst) (split 17 a)
      ∙ fields
      ∙ omega (arith, bit_and_mask 2 (a / 2 ^ 17), bit_and_mask 0 (a % 2 ^ 17)) in
    rw e (ground arith)

-- What is left of a status word once the reason is masked out.
pub cleared_lem :
    (a : ℕ) → a < 2 ^ 32 → bit_and a (not32 reboot_reason_mask) ≡ a / 2 ^ 23 * 2 ^ 23 + a % 2 ^ 16
cleared_lem a h =
    ap (λ x. bit_and x (not32 reboot_reason_mask)) (split 23 a)
    ∙ bit_and_fields 23 (a / 2 ^ 23) (a % 2 ^ 23) 0x1ff 0xffff (omega arith) (omega arith)
    ∙ omega (arith, bit_and_mask 9 (a / 2 ^ 23), bit_and_mask 16 (a % 2 ^ 23))
