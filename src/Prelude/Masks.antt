-- ===== src/Prelude/Masks.antt =====
-- Tests of a register through a mask that combines several bits.
use Prim.Native.Nat.{
  ℕ, zero, suc, ◌+◌, ◌*◌, ◌/◌, ◌%◌, ◌≤◌, min, max, bit_and, bit_or, bit_and-bitwise, bit_or-bitwise,
}
use mathlib.Core.Path.{◌≡◌, sym, ap, ◌∙◌}
use native.Mathlib.Omega.{arith}
use zybo_rtos_sensor_aggrega.Prelude.Bits.{bit_and_halves, bit_and-zero, digits_stable}

bit_and_zero_left : (t : ℕ) → bit_and 0 t ≡ 0
bit_and_zero_left = bit_and-bitwise 0

half_and : (x y : ℕ) → bit_and x y / 2 ≡ bit_and (x / 2) (y / 2)
half_and x y = omega (arith, bit_and_halves x y)

low_and : (x y : ℕ) → bit_and x y % 2 ≡ min (x % 2) (y % 2)
low_and x y = omega (arith, bit_and_halves x y)

bit_and_assoc_below : (n x y z : ℕ) → x ≤ n → bit_and (bit_and x y) z ≡ bit_and x (bit_and y z)
bit_and_assoc_below n zero y z h =
    rw (bit_and_zero_left y) (bit_and_zero_left z ∙ sym (bit_and_zero_left (bit_and y z)))
bit_and_assoc_below (suc n) (suc x) y z h = omega (
  arith,
  bit_and_halves (bit_and (suc x) y) z,
  bit_and_halves (suc x) (bit_and y z),
  low_and (suc x) y,
  low_and y z,
  ap (λ (t : ℕ). bit_and t (z / 2)) (half_and (suc x) y),
  ap (bit_and (suc x / 2)) (half_and y z),
  bit_and_assoc_below n (suc x / 2) (y / 2) (z / 2) (omega arith),
)
bit_and_assoc_below zero (suc x) y z h = absurd (omega arith)

pub bit_and_assoc : (x y z : ℕ) → bit_and (bit_and x y) z ≡ bit_and x (bit_and y z)
bit_and_assoc x y z = bit_and_assoc_below x x y z (omega arith)

bit_or_zero_left : (t : ℕ) → bit_or 0 t ≡ t
bit_or_zero_left = bit_or-bitwise 0

-- The lowest digit of `|` apart from the others.
bit_or_halves : (x y : ℕ) → bit_or x y ≡ 2 * bit_or (x / 2) (y / 2) + max (x % 2) (y % 2)
bit_or_halves zero y = omega (arith, bit_or_zero_left y, bit_or_zero_left (y / 2))
bit_or_halves (suc x) y =
    let half = suc x / 2 in
    let short = digits_stable (λ t. t) max half x half (y / 2) (omega arith) (omega arith) in
    omega (arith, short, bit_or-bitwise half (y / 2), bit_or-bitwise (suc x) y)

absorbs_below : (n x y : ℕ) → x ≤ n → (bit_and (bit_or x y) x ≡ x) × (bit_and (bit_or y x) x ≡ x)
absorbs_below n zero y h = (bit_and-zero (bit_or 0 y), bit_and-zero (bit_or y 0))
absorbs_below (suc n) (suc x) y h =
    let (left, right) = absorbs_below n (suc x / 2) (y / 2) (omega arith) in
    let half_left : bit_or (suc x) y / 2 ≡ bit_or (suc x / 2) (y / 2) =
      omega (arith, bit_or_halves (suc x) y) in
    let half_right : bit_or y (suc x) / 2 ≡ bit_or (y / 2) (suc x / 2) =
      omega (arith, bit_or_halves y (suc x)) in
    (
      omega (
        arith,
        bit_or_halves (suc x) y,
        bit_and_halves (bit_or (suc x) y) (suc x),
        ap (λ (t : ℕ). bit_and t (suc x / 2)) half_left,
        left,
      ),
      omega (
        arith,
        bit_or_halves y (suc x),
        bit_and_halves (bit_or y (suc x)) (suc x),
        ap (λ (t : ℕ). bit_and t (suc x / 2)) half_right,
        right,
      ),
    )
absorbs_below zero (suc x) y h = absurd (omega arith)

pub absorbs_left : (x y : ℕ) → bit_and (bit_or x y) x ≡ x
absorbs_left x y = (absorbs_below x x y (omega arith)).0

pub absorbs_right : (y x : ℕ) → bit_and (bit_or y x) x ≡ x
absorbs_right y x = (absorbs_below x x y (omega arith)).1

-- A mask that has a bit has it with more bits too.
pub absorbs_or : (mask more x : ℕ) → bit_and mask x ≡ x → bit_and (bit_or mask more) x ≡ x
absorbs_or mask more x has =
    ap (bit_and (bit_or mask more)) (sym has)
    ∙ sym (bit_and_assoc (bit_or mask more) mask x)
    ∙ ap (λ (t : ℕ). bit_and t x) (absorbs_left mask more)
    ∙ has

-- A test through a mask, and then through one of its bits, tests that bit.
pub bit_and-mask : (s mask x : ℕ) → bit_and mask x ≡ x → bit_and (bit_and s mask) x ≡ bit_and s x
bit_and-mask s mask x has = bit_and_assoc s mask x ∙ ap (bit_and s) has

-- Where no bit of a mask stands, none of its bits does.
pub bit_and-none : (s mask x : ℕ) → bit_and mask x ≡ x → bit_and s mask ≡ 0 → bit_and s x ≡ 0
bit_and-none s mask x has clear =
    sym (bit_and-mask s mask x has) ∙ ap (λ (t : ℕ). bit_and t x) clear ∙ bit_and_zero_left x
