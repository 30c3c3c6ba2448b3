-- ===== src/Console.antt =====
-- sw/stage4_watchdog/src/system/console.c: text for the serial port. A `char` stands as its code; the
-- formatting of `vsnprintf` is not modelled, its result is an argument.
pub mod Decimal
mod Tests
use zybo_rtos_sensor_aggrega.Prelude.{
  ℕ, zero, suc, ◌+◌, ◌-◌, ◌*◌, ◌/◌, ◌%◌, ◌^◌, Bool, true, false, Option, none, some, List, [], ◌∷◌,
  ◌++◌, ltb, leb, ◌==◌, if◌then◌else◌, get_or, u32,
}
use zybo_rtos_sensor_aggrega.Prelude.Int.{ℤ, pos, negsuc}

abbrev pub newline : ℕ
newline = 10

abbrev pub carriage_return : ℕ
carriage_return = 13

-- The characters that the loop of `console_write` puts on the port.
pub put_all : List ℕ → List ℕ
put_all [] = []
put_all (c ∷ cs) = if c == newline then carriage_return ∷ c ∷ put_all cs else c ∷ put_all cs

-- A NULL pointer is `none`; a string is its characters before the NUL.
pub write : Option (List ℕ) → List ℕ
write none = []
write (some text) = put_all text

-- The code of the digit `'0' + d`.
abbrev pub digit : ℕ → ℕ
digit d = 48 + d

-- The do loop of `console_write_dec`: `digits` is the text from the cursor on. The array has room for
-- `fuel` more characters.
pub dec_loop : ℕ → ℕ → List ℕ → List ℕ
dec_loop zero value digits = digits
dec_loop (suc fuel) value digits =
    let rest = dec_loop fuel (value / 10) (digit (value % 10) ∷ digits) in
    if value / 10 == 0 then digit (value % 10) ∷ digits else rest

-- The array holds ten digits and the NUL.
pub dec_text : ℕ → List ℕ
dec_text value = dec_loop 10 value []

pub write_dec : ℕ → List ℕ
write_dec value = write (some (dec_text value))

abbrev pub fmt_buf_len : ℕ
fmt_buf_len = 256

abbrev pub max_decimals : ℕ
max_decimals = 3

-- `console_printf`: `needed` is the length that `vsnprintf` reports, none of them for a negative one, and
-- `buf` the text it leaves in the buffer.
pub printf : Option ℕ → List ℕ → List ℕ
printf none buf = []
printf (some needed) buf =
    write (some buf) ++ (if leb fmt_buf_len needed then write (some (126 ∷ newline ∷ [])) else [])

abbrev pub pow10_table : List ℕ
pow10_table = 1 ∷ 10 ∷ 100 ∷ 1000 ∷ []

-- The arguments that `console_fmt_milli` formats: the sign, the whole part, and the fraction with its digits.
pub record Fixed : Type 0 where
  pub negative : Bool
  pub whole : ℕ
  pub frac : ℕ
  pub places : ℕ

-- The magnitude of an `int32_t`, without overflow at its least value.
abbrev pub magnitude_of : ℤ → ℕ
magnitude_of (pos n) = u32 n
magnitude_of (negsuc n) = u32 (u32 n + 1)

abbrev pub is_negative : ℤ → Bool
is_negative (pos n) = false
is_negative (negsuc n) = true

-- `none` is the empty text for a NULL or empty buffer.
pub fmt_milli : Bool → ℕ → ℤ → ℕ → Option Fixed
fmt_milli null buf_len milli_value decimals =
    let places = if ltb max_decimals decimals then max_decimals else decimals in
    let drop_divisor = get_or pow10_table (max_decimals - places) 1 in
    let magnitude = u32 (magnitude_of milli_value + drop_divisor / 2) / drop_divisor in
    let frac_unit = get_or pow10_table places 1 in
    let negative = if magnitude == 0 then false else is_negative milli_value in
    if null
    then none
    else if buf_len == 0
    then none
    else if places == 0
    then some (record { negative = negative; whole = magnitude; frac = 0; places = 0 })
    else some (record {
      negative = negative;
      whole = magnitude / frac_unit;
      frac = magnitude % frac_unit;
      places = places;
    })
