-- ===== src/Console/Tests.antt =====
-- Texts of concrete numbers.
use zybo_rtos_sensor_aggrega.Prelude.{
  ◌+◌, ◌*◌, ◌≤◌, ◌<◌, ◌≡◌, refl, true, false, some, [], ◌∷◌, ◌==◌, if◌then◌else◌, length, arith,
}
use zybo_rtos_sensor_aggrega.Prelude.Int.{negsuc}
use zybo_rtos_sensor_aggrega.Console.{Fixed, write_dec, put_all, write, fmt_milli}
use zybo_rtos_sensor_aggrega.Console.Decimal.{
  AllDigits, parse, place_of, write_dec_lem, fmt_milli_lem,
}

-- "a", a new line.
two_lines : write (some (97 ∷ 10 ∷ [])) ≡ 97 ∷ 13 ∷ 10 ∷ []
unfolding write put_all
two_lines = refl

write_dec_lem_example :
    AllDigits (write_dec 4294967295)
    × (length (write_dec 4294967295) ≤ 10)
    × (parse 0 (write_dec 4294967295) ≡ 4294967295)
write_dec_lem_example = write_dec_lem 4294967295 (omega arith)

-- The value -1.
fmt_milli_lem_example :
    (f : Fixed) × (fmt_milli false 16 (negsuc 0) 2 ≡ some f)
    × (f.places ≡ 2)
    × (f.frac < 100)
    × (2 * ((f.whole * 100 + f.frac) * place_of 2) ≤ 2 * 1 + place_of 2)
    × (2 * 1 < 2 * ((f.whole * 100 + f.frac) * place_of 2) + place_of 2)
    × (f.negative ≡ (if f.whole + f.frac == 0 then false else true))
fmt_milli_lem_example =
    fmt_milli_lem 16 2 (negsuc 0) (λ e. omega (arith, e)) (omega arith) (omega arith) (omega arith)
