-- ===== src/Gpio/Debounce.antt =====
-- The debouncer against an independent description of the level: the last three equal samples.
use zybo_rtos_sensor_aggrega.Prelude.{
  ℕ, zero, suc, ◌≤◌, ◌≡◌, refl, sym, ap, ◌∙◌, Bool, true, false, not, ◌&&◌, List, [], ◌∷◌, ◌++◌,
  arith, if◌then◌else◌, replicate,
}
use zybo_rtos_sensor_aggrega.Gpio.{BtnState, bool_eq, debounce, take}

-- The value of the last three consecutive equal samples, or `d` if there are none.
abbrev pub settled : Bool → List Bool → Bool
settled d (x ∷ y ∷ z ∷ rest) =
    let d' = if bool_eq x y && bool_eq y z then z else d in settled d' (y ∷ z ∷ rest)
settled d rest = d

abbrev pub scans : List Bool → BtnState → BtnState
scans [] s = s
scans (x ∷ xs) s = scans xs (debounce x s)

triple : (d x y : Bool) → (if bool_eq d x && bool_eq x y then y else d) ≡ d
triple d x y = ground arith

-- A sample equal to the level changes nothing.
settled-same : (d : Bool) (xs : List Bool) → settled d (d ∷ xs) ≡ settled d xs
settled-same d [] = refl
settled-same d (x ∷ []) = refl
settled-same d (x ∷ y ∷ xs) = ap (λ k. settled k (x ∷ y ∷ xs)) (triple d x y)

-- Nor do one or two others before it.
settled-one : (d : Bool) (xs : List Bool) → settled d (not d ∷ d ∷ xs) ≡ settled d xs
settled-one true [] = refl
settled-one false [] = refl
settled-one true (x ∷ xs) = settled-same true (x ∷ xs)
settled-one false (x ∷ xs) = settled-same false (x ∷ xs)

settled_two : (d : Bool) (xs : List Bool) → settled d (not d ∷ not d ∷ d ∷ xs) ≡ settled d xs
settled_two true xs = settled-one true xs
settled_two false xs = settled-one false xs

settled_three :
    (d : Bool) (xs : List Bool) → settled d (not d ∷ not d ∷ not d ∷ xs) ≡ settled (not d) xs
settled_three true xs = settled-same false (false ∷ xs) ∙ settled-same false xs
settled_three false xs = settled-same true (true ∷ xs) ∙ settled-same true xs

abbrev counting : Bool → ℕ → Bool → BtnState
counting d m p = record { is_down = d; mismatch_scans = m; press_latched = p }

scans-settled :
    (xs : List Bool) (d : Bool) (m : ℕ) (p : Bool)
    → m ≤ 2
    → (scans xs (counting d m p)).is_down ≡ settled d (replicate m (not d) ++ xs)
unfolding debounce
scans-settled [] d zero p h = refl
scans-settled [] d (suc zero) p h = refl
scans-settled [] d (suc (suc zero)) p h = refl
scans-settled [] d (suc (suc (suc m))) p h = absurd (omega arith)
scans-settled (true ∷ xs) true zero p h =
    scans-settled xs true 0 p (omega arith) ∙ sym (settled-same true xs)
scans-settled (true ∷ xs) true (suc zero) p h =
    scans-settled xs true 0 p (omega arith) ∙ sym (settled-one true xs)
scans-settled (true ∷ xs) true (suc (suc zero)) p h =
    scans-settled xs true 0 p (omega arith) ∙ sym (settled_two true xs)
scans-settled (false ∷ xs) false zero p h =
    scans-settled xs false 0 p (omega arith) ∙ sym (settled-same false xs)
scans-settled (false ∷ xs) false (suc zero) p h =
    scans-settled xs false 0 p (omega arith) ∙ sym (settled-one false xs)
scans-settled (false ∷ xs) false (suc (suc zero)) p h =
    scans-settled xs false 0 p (omega arith) ∙ sym (settled_two false xs)
scans-settled (false ∷ xs) true zero p h = scans-settled xs true 1 p (omega arith)
scans-settled (false ∷ xs) true (suc zero) p h = scans-settled xs true 2 p (omega arith)
scans-settled (false ∷ xs) true (suc (suc zero)) p h =
    scans-settled xs false 0 p (omega arith) ∙ sym (settled_three true xs)
scans-settled (true ∷ xs) false zero p h = scans-settled xs false 1 p (omega arith)
scans-settled (true ∷ xs) false (suc zero) p h = scans-settled xs false 2 p (omega arith)
scans-settled (true ∷ xs) false (suc (suc zero)) p h =
    scans-settled xs true 0 true (omega arith) ∙ sym (settled_three false xs)
scans-settled (x ∷ xs) d (suc (suc (suc m))) p h = absurd (omega arith)

-- The debounced level after any sequence of scans, from a settled state: the value of the last three
-- consecutive equal samples, or the starting level where no three in a row were equal. A bounce of
-- one or two samples never shows.
pub debounced_level :
    (xs : List Bool) (s : BtnState)
    → s.mismatch_scans ≡ 0
    → (scans xs s).is_down ≡ settled s.is_down xs
debounced_level xs s e =
    ap (λ m. (scans xs (counting s.is_down m s.press_latched)).is_down) e
    ∙ scans-settled xs s.is_down 0 s.press_latched (omega arith)

-- What the task sees: a scan, then a take, for each sample.
abbrev pub presses : List Bool → BtnState → List Bool
presses [] s = []
presses (x ∷ xs) s = (take (debounce x s)).0 ∷ presses xs (take (debounce x s)).1

-- The changes of the level from released to pressed.
abbrev pub rising : List Bool → BtnState → List Bool
rising [] s = []
rising (x ∷ xs) s = (not s.is_down && (debounce x s).is_down) ∷ rising xs (take (debounce x s)).1
