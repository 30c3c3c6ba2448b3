-- ===== src/Uart/Lines.antt =====
-- The line errors that the receiver counts.
use zybo_rtos_sensor_aggrega.Prelude.{
  ℕ, ◌+◌, ◌≡◌, refl, ap, ◌∙◌, true, inl, inr, not, Option, none, some, List, [], ◌∷◌, ◌==◌,
  if◌then◌else◌, add32, u32, bit_and, bit_or, arith, Bool-cases, absorbs_left, absorbs_right,
  absorbs_or, bit_and-mask, bit_and-none,
}
use zybo_rtos_sensor_aggrega.Uart.{
  Uart, ErrCounters, Masks, write_isr, rx_line_err_mask, collect_line_errors, try_get_char,
}

-- A counter that goes up where a bit is set in the status word.
abbrev pub bumped : ℕ → ℕ → ℕ → ℕ
bumped isr mask n = if bit_and isr mask == 0 then n else add32 n 1

counted :
    (isr mask x n : ℕ)
    → bit_and mask x ≡ x
    → (if bit_and isr mask == 0
        then n
        else if not (bit_and (bit_and isr mask) x == 0)
        then add32 n 1
        else n)
      ≡ bumped isr x n
counted isr mask x n has = elim (Bool-cases (bit_and isr mask == 0)) [
  | inl clear ↦
      let none = bit_and-none isr mask x has (ground (arith, clear)) in rw (clear, none) refl
  | inr some_stand ↦ rw (some_stand, bit_and-mask isr mask x has) (ground arith)
]

-- A look at the line counts each kind of error whose bit stands in the status word, and no other; it writes
-- back exactly the error bits that stand, which clears them, and nothing where none does.
collect_line_errors_lem :
    (m : Masks) (isr : ℕ) (e : ErrCounters)
    → let (calls, e') = collect_line_errors m isr e in
      let pending = bit_and isr (rx_line_err_mask m) in
      (e'.rx_overrun ≡ bumped isr m.ixr_over e.rx_overrun)
      × (e'.rx_framing ≡ bumped isr m.ixr_framing e.rx_framing)
      × (e'.rx_parity ≡ bumped isr m.ixr_parity e.rx_parity)
      × (calls ≡ (if pending == 0 then [] else write_isr pending ∷ []))
unfolding collect_line_errors
collect_line_errors_lem m isr e =
    let mask = rx_line_err_mask m in
    let two = bit_or m.ixr_over m.ixr_framing in
    let over =
      counted isr mask m.ixr_over e.rx_overrun
        (absorbs_or two m.ixr_parity m.ixr_over (absorbs_left m.ixr_over m.ixr_framing)) in
    let framing =
      counted isr mask m.ixr_framing e.rx_framing
        (absorbs_or two m.ixr_parity m.ixr_framing (absorbs_right m.ixr_over m.ixr_framing)) in
    let parity = counted isr mask m.ixr_parity e.rx_parity (absorbs_right two m.ixr_parity) in
    elim (Bool-cases (bit_and isr mask == 0)) [
      | inl clear ↦ rw clear (rw clear at over, rw clear at framing, rw clear at parity, refl)
      | inr stand ↦ rw stand (rw stand at over, rw stand at framing, rw stand at parity, refl)
    ]

-- The driver after a number of polls of its receiver, each with what the status register reads and the byte
-- that waits, if one does.
unfoldable pub poll_all : Masks → List (ℕ × Option ℕ) → Uart → Uart
poll_all m [] u = u
poll_all m (poll ∷ polls) u = poll_all m polls (try_get_char m (poll.0) (poll.1) u (some 0)).3

-- The polls that find a bit in the status register.
unfoldable pub found : ℕ → List (ℕ × Option ℕ) → ℕ
found mask [] = 0
found mask (poll ∷ polls) = (if bit_and (poll.0) mask == 0 then 0 else 1) + found mask polls

poll-errors :
    (m : Masks) (isr : ℕ) (fifo : Option ℕ) (u : Uart)
    → u.ready ≡ true
    → let u' = (try_get_char m isr fifo u (some 0)).3 in
      (u'.ready ≡ true) × (u'.errors ≡ (collect_line_errors m isr u.errors).1)
unfolding try_get_char
poll-errors m isr none u on = rw on (refl, refl)
poll-errors m isr (some byte) u on = rw on (refl, refl)

-- However often the receiver of a ready driver is polled, each counter of line errors has grown by the
-- polls that found its bit in the status register, modulo 2^32, whether they found a byte or not.
pub poll_all-counts :
    (m : Masks) (polls : List (ℕ × Option ℕ)) (u : Uart) (a b c : ℕ)
    → u.ready ≡ true
    → u.errors.rx_overrun ≡ u32 a
    → u.errors.rx_framing ≡ u32 b
    → u.errors.rx_parity ≡ u32 c
    → let e = (poll_all m polls u).errors in
      (e.rx_overrun ≡ u32 (a + found m.ixr_over polls))
      × (e.rx_framing ≡ u32 (b + found m.ixr_framing polls))
      × (e.rx_parity ≡ u32 (c + found m.ixr_parity polls))
unfolding poll_all found
poll_all-counts m [] u a b c on ha hb hc = (omega (arith, ha), omega (arith, hb), omega (arith, hc))
poll_all-counts m (poll ∷ polls) u a b c on ha hb hc =
    let (ready, errors) = poll-errors m (poll.0) (poll.1) u on in
    let (over, framing, parity, calls) = collect_line_errors_lem m (poll.0) u.errors in
    let (ra, rb, rc) =
      poll_all-counts m polls (try_get_char m (poll.0) (poll.1) u (some 0)).3
        (a + (if bit_and (poll.0) m.ixr_over == 0 then 0 else 1))
        (b + (if bit_and (poll.0) m.ixr_framing == 0 then 0 else 1))
        (c + (if bit_and (poll.0) m.ixr_parity == 0 then 0 else 1)) ready
        (ap (λ (e : ErrCounters). e.rx_overrun) errors ∙ over ∙ ground (arith, ha))
        (ap (λ (e : ErrCounters). e.rx_framing) errors ∙ framing ∙ ground (arith, hb))
        (ap (λ (e : ErrCounters). e.rx_parity) errors ∙ parity ∙ ground (arith, hc)) in
    (omega (arith, ra), omega (arith, rb), omega (arith, rc))
