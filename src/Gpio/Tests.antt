-- ===== src/Gpio/Tests.antt =====
-- A bouncing button, and the theorems of the debouncer at it.
use zybo_rtos_sensor_aggrega.Prelude.{◌≡◌, refl, Bool, true, false, List, [], ◌∷◌}
use zybo_rtos_sensor_aggrega.Gpio.{released, debounce, take}
use zybo_rtos_sensor_aggrega.Gpio.Debounce.{scans, debounced_level, presses}

abbrev bounce : List Bool
bounce =
    true ∷ false ∷ true ∷ true ∷ false ∷ true ∷ true ∷ true ∷ true ∷ false ∷ false ∷ true ∷ false
    ∷ []

bounce-presses :
    presses bounce released
    ≡ false ∷ false ∷ false ∷ false ∷ false ∷ false ∷ false ∷ true ∷ false ∷ false ∷ false ∷ false
      ∷ false ∷ []
unfolding debounce take
bounce-presses = refl

debounced_level_example : (scans bounce released).is_down ≡ true
debounced_level_example = debounced_level bounce released refl
