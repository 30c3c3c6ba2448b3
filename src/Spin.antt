-- ===== src/Spin.antt =====
-- The loops of drivers/uart_drv.c and system/fault.c under sw/stage4_watchdog/src that read a register
-- or the clock again and again until a reading lets them go.
use zybo_rtos_sensor_aggrega.Prelude.{
  ℕ, zero, suc, ◌+◌, ◌≤◌, ◌<◌, ◌≡◌, refl, ap, ◌∙◌, Bool, true, false, inl, inr, Option, none, some,
  if◌then◌else◌, arith, Bool-cases,
}

-- `reads` gives the readings in order, the next one at `i`, and the last number is that of the readings
-- allowed. The result is how many have been taken; `none` is a loop that goes on longer.
unfoldable pub spin : (ℕ → Bool) → (ℕ → ℕ) → ℕ → ℕ → Option ℕ
spin goes_on reads i zero = none
spin goes_on reads i (suc left) =
    let rest = spin goes_on reads (i + 1) left in if goes_on (reads i) then rest else some (i + 1)

-- A loop that meets a reading which ends it has ended by then, at the first such reading: `n` readings
-- on, all but the last asked it to go on.
pub spin_ends :
    (goes_on : ℕ → Bool) (reads : ℕ → ℕ) (k i left : ℕ)
    → goes_on (reads (i + k)) ≡ false
    → k < left
    → (n : ℕ) × (spin goes_on reads i left ≡ some (i + n + 1))
      × (n ≤ k)
      × (goes_on (reads (i + n)) ≡ false)
      × ((j : ℕ) → j < n → goes_on (reads (i + j)) ≡ true)
unfolding spin
spin_ends goes_on reads k i zero ends few = absurd (omega arith)
spin_ends goes_on reads zero i (suc left) ends few =
    let here : i + 0 ≡ i = omega arith in
    let stops : goes_on (reads i) ≡ false = rw here at ends in
    (0, rw stops (rw here refl), omega arith, ends, λ j h. absurd (omega (arith, h)))
spin_ends goes_on reads (suc k) i (suc left) ends few = elim (Bool-cases (goes_on (reads i))) [
  | inr stops ↦
      let here : i + 0 ≡ i = omega arith in
      (0, rw stops (rw here refl), omega arith, rw here stops, λ j h. absurd (omega (arith, h)))
  | inl goes ↦
      let next : (j : ℕ) → i + 1 + j ≡ i + suc j = λ j. omega arith in
      let (n, e, few', ends', before) =
        spin_ends goes_on reads k (i + 1) left (rw (next k) ends) (omega arith) in
      (
        suc n,
        rw goes (e ∙ ap some (omega arith)),
        omega (arith, few'),
        rw (← next n) ends',
        all_before n goes (λ j h. rw (← next j) (before j h)),
      )
]
  where
    all_before :
        (n : ℕ)
        → goes_on (reads i) ≡ true
        → ((j : ℕ) → j < n → goes_on (reads (i + suc j)) ≡ true)
        → (j : ℕ) → j < suc n
        → goes_on (reads (i + j)) ≡ true
    all_before n goes before zero h = let here : i + 0 ≡ i = omega arith in rw here goes
    all_before n goes before (suc j) h = before j (omega (arith, h))

-- The same from the first reading on.
pub spin_from_start :
    (goes_on : ℕ → Bool) (reads : ℕ → ℕ) (k fuel : ℕ)
    → goes_on (reads k) ≡ false
    → k < fuel
    → (n : ℕ) × (spin goes_on reads 0 fuel ≡ some (n + 1))
      × (n ≤ k)
      × (goes_on (reads n) ≡ false)
      × ((j : ℕ) → j < n → goes_on (reads j) ≡ true)
spin_from_start goes_on reads k fuel ends few =
    let from_zero : (j : ℕ) → 0 + j ≡ j = λ j. omega arith in
    let (n, e, few', ends', before) =
      spin_ends goes_on reads k 0 fuel (rw (from_zero k) ends) few in
    (
      n,
      e ∙ ap some (omega arith),
      few',
      rw (from_zero n) at ends',
      λ j h. rw (from_zero j) at (before j h),
    )
