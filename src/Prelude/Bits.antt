-- ===== src/Prelude/Bits.antt =====
-- `&` with a mask of low ones, and the usual power-of-two test, as arithmetic.
use Prim.Native.Nat.{
  ℕ, zero, suc, ◌+◌, ◌-◌, ◌*◌, ◌/◌, ◌%◌, ◌^◌, ◌≤◌, ◌<◌, ◌∣◌, min, max, bit_and, bit_or, digits,
  bit_and-bitwise, bit_or-bitwise,
}
use mathlib.Core.Path.{◌≡◌, refl, ap, ap₂, ◌∙◌}
use native.Mathlib.Nat.{
  pow-suc, one-le-pow, pow-le-pow_right, mod-mod_of_dvd, mod-lt, div-add-mod', dvd_refl,
  dvd-mul_right_of_dvd,
}
use native.Mathlib.Omega.{arith}
use zybo_rtos_sensor_aggrega.Prelude.Tests.{leb, ◌==◌, Bool-cases}
use zybo_rtos_sensor_aggrega.Prelude.Word.{u32}
use mathlib.Core.Logic.{◌⊎◌, inl, inr}

-- Rounds beyond the digits of the first number change nothing.
module _ (rest : ℕ → ℕ) (op : ℕ → ℕ → ℕ) where
  pub digits_stable :
      (value fuel spare other : ℕ)
      → value ≤ fuel
      → value ≤ spare
      → digits rest op fuel value other ≡ digits rest op spare value other
  digits_stable zero zero zero other _ _ = refl
  digits_stable zero (suc fuel) (suc spare) other _ _ = refl
  digits_stable zero (suc fuel) zero other _ _ = refl
  digits_stable zero zero (suc spare) other _ _ = refl
  digits_stable (suc v) (suc fuel) (suc spare) other enough plenty =
      let same = digits_stable (suc v / 2) fuel spare (other / 2) (omega arith) (omega arith) in
      ap (λ (high : ℕ). high * 2 + op (suc v % 2) (other % 2)) same
  digits_stable (suc v) zero spare other enough plenty = absurd (omega arith)
  digits_stable (suc v) (suc fuel) zero other enough plenty = absurd (omega arith)

-- The lowest digit of `&` apart from the others.
pub bit_and_halves : (x y : ℕ) → bit_and x y ≡ 2 * bit_and (x / 2) (y / 2) + min (x % 2) (y % 2)
bit_and_halves zero y =
    let nothing : (t : ℕ) → bit_and 0 t ≡ 0 = bit_and-bitwise 0 in
    omega (arith, nothing y, nothing (y / 2))
bit_and_halves (suc x) y =
    let half = suc x / 2 in
    let short = digits_stable (λ t. 0) min half x half (y / 2) (omega arith) (omega arith) in
    omega (arith, short, bit_and-bitwise half (y / 2), bit_and-bitwise (suc x) y)

cleared_below : (bound x : ℕ) → x ≤ bound → bit_and x 0 ≡ 0
cleared_below bound zero within = refl
cleared_below (suc bound) (suc x) within =
    let high = cleared_below bound (suc x / 2) (omega arith) in
    omega (arith, high, bit_and_halves (suc x) 0)
cleared_below zero (suc x) within = absurd (omega arith)

pub bit_and-zero : (x : ℕ) → bit_and x 0 ≡ 0
bit_and-zero x = cleared_below x x (omega arith)

bit_and_self_below : (n a : ℕ) → a ≤ n → bit_and a a ≡ a
bit_and_self_below n zero h = refl
bit_and_self_below zero (suc a) h = absurd (omega arith)
bit_and_self_below (suc n) (suc a) h =
    omega (arith, bit_and_halves (suc a) (suc a), bit_and_self_below n (suc a / 2) (omega arith))

bit_and_self : (a : ℕ) → bit_and a a ≡ a
bit_and_self a = bit_and_self_below a a (omega arith)

-- A field one bit further up.
shifted : (top width : ℕ) → top * 2 ^ suc width ≡ top * 2 ^ width * 2
shifted top width =
    let up : top * 2 ^ suc width ≡ top * (2 ^ width * 2) = rw (pow-suc 2 width) refl in
    omega (arith, up)

low_field : (k q r : ℕ) → r < 2 ^ k → bit_and (r + q * 2 ^ k) (2 ^ k - 1) ≡ r
low_field zero q r fits = ground (arith, bit_and-zero (r + q * 2 ^ 0))
low_field (suc k) q r fits = ground (
  arith,
  bit_and_halves (r + q * 2 ^ suc k) (2 ^ suc k - 1),
  shifted q k,
  pow-suc 2 k,
  low_field k q (r / 2) (omega (arith, pow-suc 2 k)),
)

-- A mask of `k` low bits is the remainder by `2 ^ k`.
pub bit_and_mask : (k a : ℕ) → bit_and a (2 ^ k - 1) ≡ a % 2 ^ k
bit_and_mask k a = ground (arith, one-le-pow k 2, low_field k (a / 2 ^ k) (a % 2 ^ k))

-- `c & (c - 1)` is 0 for the powers of two alone.
pub bit_and-pred_pow : (k : ℕ) → bit_and (2 ^ k) (2 ^ k - 1) ≡ 0
bit_and-pred_pow k = ground (arith, one-le-pow k 2, low_field k 1 0)

even_step : (m : ℕ) → 0 < m → bit_and (2 * m) (2 * m - 1) ≡ bit_and m (m - 1) * 2
even_step m h = ground (arith, bit_and_halves (2 * m) (2 * m - 1))

odd_step : (m : ℕ) → bit_and (2 * m + 1) (2 * m + 1 - 1) ≡ m * 2
odd_step m = ground (arith, bit_and_halves (2 * m + 1) (2 * m), bit_and_self m)

halving : (c : ℕ) → ((m : ℕ) × (c ≡ 2 * m)) ⊎ ((m : ℕ) × (c ≡ 2 * m + 1))
halving c = elim (Bool-cases (c % 2 == 0)) [
  | inl even ↦ inl (c / 2, ground arith)
  | inr odd ↦ inr (c / 2, ground arith)
]

log2_below : (n c : ℕ) → c ≤ n → 0 < c → bit_and c (c - 1) ≡ 0 → (k : ℕ) × (c ≡ 2 ^ k)
log2_below zero c h pos e = absurd (omega arith)
log2_below (suc n) c h pos e = elim (halving c) [
  | inl (m, even) ↦
      let e' : bit_and m (m - 1) ≡ 0 = ground (arith, even_step m) in
      let (k, p) = log2_below n m (omega arith) (omega arith) e' in
      (suc k, omega (arith, pow-suc 2 k))
  | inr (m, odd) ↦ (0, ground (arith, odd_step m))
]

-- A number that passes the test is a power of two.
pub pow_of_bit_and-pred : (c : ℕ) → 0 < c → bit_and c (c - 1) ≡ 0 → (k : ℕ) × (c ≡ 2 ^ k)
pow_of_bit_and-pred c pos e = log2_below c c (omega arith) pos e

pub pow-le_iff_exponent : (k j : ℕ) → 2 ^ k ≤ 2 ^ j → k ≤ j
pow-le_iff_exponent k j h = elim (Bool-cases (leb k j)) [
  | inl small ↦ ground arith
  | inr large ↦ absurd (
      omega (
        arith,
        pow-suc 2 j,
        one-le-pow j 2,
        pow-le-pow_right {n = 2} (omega arith) {i = suc j} {j = k} (ground arith),
      ))
]

pow-dvd : (k j : ℕ) → k ≤ j → 2 ^ k ∣ 2 ^ j
pow-dvd k zero h = let e : k ≡ 0 = omega arith in rw e (dvd_refl (2 ^ 0))
pow-dvd k (suc j) h = elim (Bool-cases (k == suc j)) [
  | inl same ↦ let e : k ≡ suc j = ground arith in rw e (dvd_refl (2 ^ suc j))
  | inr less ↦ rw pow-suc (dvd-mul_right_of_dvd (2 ^ k) (pow-dvd k j (ground arith)) 2)
]

-- A power of two divides the wrap of a 32-bit word.
pub u32-mod_pow : (k a : ℕ) → k ≤ 32 → u32 a % 2 ^ k ≡ a % 2 ^ k
u32-mod_pow k a h = mod-mod_of_dvd (2 ^ k) a (pow-dvd k 32 h)

-- `&` goes field by field.
pub bit_and_fields :
    (k q r p s : ℕ)
    → r < 2 ^ k
    → s < 2 ^ k
    → bit_and (q * 2 ^ k + r) (p * 2 ^ k + s) ≡ bit_and q p * 2 ^ k + bit_and r s
bit_and_fields zero q r p s hr hs =
    let er : r ≡ 0 = omega arith in
    let es : s ≡ 0 = omega arith in
    let eq : q * 2 ^ 0 + 0 ≡ q = omega arith in
    let ep : p * 2 ^ 0 + 0 ≡ p = omega arith in rw (er, es, eq, ep) (omega (arith, bit_and-zero 0))
bit_and_fields (suc k) q r p s hr hs = omega (
  arith,
  bit_and_halves (q * 2 ^ suc k + r) (p * 2 ^ suc k + s),
  bit_and_halves r s,
  halves,
  bit_and_fields k q (r / 2) p (s / 2) (omega (arith, pow-suc 2 k)) (omega (arith, pow-suc 2 k)),
  shifted (bit_and q p) k,
  shifted q k,
  shifted p k,
)
  where
    halves :
        bit_and ((q * 2 ^ suc k + r) / 2) ((p * 2 ^ suc k + s) / 2)
        ≡ bit_and (q * 2 ^ k + r / 2) (p * 2 ^ k + s / 2)
    halves = ap₂ bit_and (omega (arith, shifted q k)) (omega (arith, shifted p k))

-- A test of one bit.
pub bit_and_bit : (k a : ℕ) → bit_and a (2 ^ k) ≡ a / 2 ^ k % 2 * 2 ^ k
bit_and_bit k a =
    let parts : a ≡ a / 2 ^ k * 2 ^ k + a % 2 ^ k = omega (arith, div-add-mod' a (2 ^ k)) in
    let one : 2 ^ k ≡ 1 * 2 ^ k + 0 = omega arith in
    let low = bit_and_mask 1 (a / 2 ^ k) in
    ap₂ bit_and parts one
    ∙ bit_and_fields k (a / 2 ^ k) (a % 2 ^ k) 1 0 (mod-lt a (one-le-pow k 2 (omega arith)))
        (one-le-pow k 2 (omega arith))
    ∙ omega (arith, ap (λ (t : ℕ). t * 2 ^ k) low, bit_and-zero (a % 2 ^ k))

or_digits-zero : (n a : ℕ) → a ≤ n → digits (λ b. b) max n a 0 ≡ a
or_digits-zero zero zero h = refl
or_digits-zero (suc n) zero h = refl
or_digits-zero zero (suc a) h = absurd (omega arith)
or_digits-zero (suc n) (suc a) h = omega (arith, or_digits-zero n (suc a / 2) (omega arith))

pub bit_or-zero : (a : ℕ) → bit_or a 0 ≡ a
bit_or-zero a = bit_or-bitwise a 0 ∙ or_digits-zero a a (omega arith)
