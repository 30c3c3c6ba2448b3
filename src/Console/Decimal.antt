-- ===== src/Console/Decimal.antt =====
-- The decimal text of a number, and the rounding of milli-units.
use zybo_rtos_sensor_aggrega.Prelude.{
  ℕ, zero, suc, ◌+◌, ◌-◌, ◌*◌, ◌/◌, ◌%◌, ◌^◌, ◌≤◌, ◌<◌, ◌≡◌, ◌≢◌, refl, ap, ◌∙◌, true, false, some,
  List, [], ◌∷◌, if◌then◌else◌, ◌==◌, inl, inr, Bool-cases, length, arith, u32, get_or,
}
use zybo_rtos_sensor_aggrega.Prelude.Int.{ℤ, pos, negsuc, pos_part, neg_part}
use native.Mathlib.Nat.{pow-suc}
use zybo_rtos_sensor_aggrega.Console.{
  Fixed, digit, put_all, write, write_dec, dec_loop, dec_text, fmt_milli, magnitude_of, is_negative,
}

-- The number that a text of digits reads as, after a number read before it.
abbrev pub parse : ℕ → List ℕ → ℕ
parse n [] = n
parse n (c ∷ cs) = parse (n * 10 + (c - 48)) cs

-- How the loop goes: with room for every digit, what it leaves reads as the value before the digits it was
-- given.
dec_loop-parse :
    (fuel value : ℕ) (digits : List ℕ)
    → value < 10 ^ suc fuel
    → parse 0 (dec_loop (suc fuel) value digits) ≡ parse value digits
unfolding dec_loop
dec_loop-parse zero value digits h =
    let last : value / 10 == 0 ≡ true = ground arith in
    let e : 0 * 10 + (digit (value % 10) - 48) ≡ value = omega arith in
    rw last (ap (λ (k : ℕ). parse k digits) e)
dec_loop-parse (suc fuel) value digits h =
    let ih =
      dec_loop-parse fuel (value / 10) (digit (value % 10) ∷ digits)
        (omega (arith, pow-suc 10 (suc fuel))) in
    elim (Bool-cases (value / 10 == 0)) [
      | inl last ↦
          let e : 0 * 10 + (digit (value % 10) - 48) ≡ value = ground arith in
          rw last (ap (λ (k : ℕ). parse k digits) e)
      | inr more ↦
          let e : value / 10 * 10 + (digit (value % 10) - 48) ≡ value = omega arith in
          rw more (ih ∙ ap (λ (k : ℕ). parse k digits) e)
    ]

length-dec_loop :
    (fuel value : ℕ) (digits : List ℕ) → length (dec_loop fuel value digits) ≤ length digits + fuel
unfolding dec_loop
length-dec_loop zero value digits = omega arith
length-dec_loop (suc fuel) value digits =
    let ih = length-dec_loop fuel (value / 10) (digit (value % 10) ∷ digits) in ground arith

-- All characters are digits.
abbrev pub AllDigits : List ℕ → Type 0
AllDigits [] = Unit
AllDigits (c ∷ cs) = (48 ≤ c) × (c ≤ 57) × AllDigits cs

dec_loop-digits :
    (fuel value : ℕ) (digits : List ℕ) → AllDigits digits → AllDigits (dec_loop fuel value digits)
unfolding dec_loop
dec_loop-digits zero value digits h = h
dec_loop-digits (suc fuel) value digits h =
    let ih =
      dec_loop-digits fuel (value / 10) (digit (value % 10) ∷ digits)
        (omega arith, omega arith, h) in
    elim (Bool-cases (value / 10 == 0)) [
      | inl last ↦ rw last (omega arith, omega arith, h)
      | inr more ↦ rw more ih
    ]

put_all-digits : (text : List ℕ) → AllDigits text → put_all text ≡ text
unfolding put_all
put_all-digits [] h = refl
put_all-digits (c ∷ cs) (lo, hi, h) =
    let plain : c == 10 ≡ false = ground arith in
    rw plain (ap (λ (t : List ℕ). c ∷ t) (put_all-digits cs h))

-- `console_write_dec` of a 32-bit value puts digits on the port, and no more than the array has room for,
-- that read back as the value.
pub write_dec_lem :
    (value : ℕ)
    → value < 2 ^ 32
    → AllDigits (write_dec value)
      × (length (write_dec value) ≤ 10)
      × (parse 0 (write_dec value) ≡ value)
write_dec_lem value h =
    let same : write_dec value ≡ dec_text value =
      unfold write_dec write in
      put_all-digits (dec_text value) (unfold dec_text in dec_loop-digits 10 value [] tt) in
    rw same (
      unfold dec_text in
      (
        dec_loop-digits 10 value [] tt,
        omega (arith, length-dec_loop 10 value []),
        dec_loop-parse 9 value [] (omega arith),
      ))

-- How much of a unit the last printed place is, in milli-units.
abbrev pub place_of : ℕ → ℕ
place_of decimals = get_or (1000 ∷ 100 ∷ 10 ∷ 1 ∷ []) decimals 1

-- The magnitude in units of the last place printed.
abbrev pub rounded : ℤ → ℕ → ℕ
rounded v drop_divisor = u32 (magnitude_of v + drop_divisor / 2) / drop_divisor

pub magnitude_of-lem :
    (v : ℤ)
    → pos_part v < 2 ^ 31
    → neg_part v ≤ 2 ^ 31
    → (magnitude_of v ≡ pos_part v + neg_part v) × (magnitude_of v ≤ 2 ^ 31)
magnitude_of-lem (pos n) hp hn = (omega arith, omega arith)
magnitude_of-lem (negsuc n) hp hn = (omega arith, omega arith)

-- `console_fmt_milli` with up to three decimals: the sign and the number it prints are the milli-units
-- rounded to the last place printed, halves away from zero, no number rounded to zero has a sign, and
-- the fraction has no more digits than places.
pub fmt_milli_lem :
    (buf_len decimals : ℕ) (milli_value : ℤ)
    → buf_len ≢ 0
    → decimals ≤ 3
    → pos_part milli_value < 2 ^ 31
    → neg_part milli_value ≤ 2 ^ 31
    → let unit_places = 10 ^ decimals in
      let magnitude = pos_part milli_value + neg_part milli_value in
      (f : Fixed) × (fmt_milli false buf_len milli_value decimals ≡ some f)
      × (f.places ≡ decimals)
      × (f.frac < unit_places)
      × (2 * ((f.whole * unit_places + f.frac) * place_of decimals)
          ≤ 2 * magnitude + place_of decimals)
      × (2 * magnitude
          < 2 * ((f.whole * unit_places + f.frac) * place_of decimals) + place_of decimals)
      × (f.negative ≡ (if f.whole + f.frac == 0 then false else is_negative milli_value))
fmt_milli_lem buf_len zero v hb hd hp hn =
    let m = magnitude_of-lem v hp hn in
    (
      record {
        negative = if rounded v 1000 == 0 then false else is_negative v;
        whole = rounded v 1000;
        frac = 0;
        places = 0;
      },
      unfold fmt_milli in ground (arith, hb),
      refl,
      omega arith,
      omega (arith, m),
      omega (arith, m),
      ground arith,
    )
fmt_milli_lem buf_len (suc zero) v hb hd hp hn =
    let m = magnitude_of-lem v hp hn in
    (
      record {
        negative = if rounded v 100 == 0 then false else is_negative v;
        whole = rounded v 100 / 10;
        frac = rounded v 100 % 10;
        places = 1;
      },
      unfold fmt_milli in ground (arith, hb),
      refl,
      omega arith,
      omega (arith, m),
      omega (arith, m),
      ground arith,
    )
fmt_milli_lem buf_len (suc (suc zero)) v hb hd hp hn =
    let m = magnitude_of-lem v hp hn in
    (
      record {
        negative = if rounded v 10 == 0 then false else is_negative v;
        whole = rounded v 10 / 100;
        frac = rounded v 10 % 100;
        places = 2;
      },
      unfold fmt_milli in ground (arith, hb),
      refl,
      omega arith,
      omega (arith, m),
      omega (arith, m),
      ground arith,
    )
fmt_milli_lem buf_len (suc (suc (suc zero))) v hb hd hp hn =
    let m = magnitude_of-lem v hp hn in
    (
      record {
        negative = if rounded v 1 == 0 then false else is_negative v;
        whole = rounded v 1 / 1000;
        frac = rounded v 1 % 1000;
        places = 3;
      },
      unfold fmt_milli in ground (arith, hb),
      refl,
      omega arith,
      omega (arith, m),
      omega (arith, m),
      ground arith,
    )
fmt_milli_lem buf_len (suc (suc (suc (suc n)))) v hb hd hp hn = absurd (omega arith)
