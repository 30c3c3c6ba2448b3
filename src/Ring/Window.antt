-- ===== src/Ring/Window.antt =====
-- The records that a counter range names in the storage, and what a write does to them.
use native.Mathlib.Nat.{mod-add-mod, mod-eq_of_lt, mod-eq-sub-mod, mod-lt, add_assoc}
use zybo_rtos_sensor_aggrega.Prelude.{
  ℕ, zero, suc, ◌+◌, ◌-◌, ◌%◌, ◌≤◌, ◌<◌, ◌≡◌, ◌≢◌, refl, sym, ap, ap₂, ◌∙◌, inl, inr, List, [], ◌∷◌,
  ◌++◌, arith, bit_and, u32, ltb, Bool-cases, length, get_or, get_or-set_self, get_or-set_ne,
  length-append, set, take, drop, append_assoc,
}
use zybo_rtos_sensor_aggrega.Sample.{SensorRecord, zero_record}
use zybo_rtos_sensor_aggrega.Ring.{copy_out}

-- Fewer than `m` steps round the ring do not come back to the start.
add-mod-ne : (m t d : ℕ) → 0 < d → d < m → (t + d) % m ≢ t % m
add-mod-ne m t d pos small e = elim (Bool-cases (ltb (t % m + d) m)) [
  | inl below ↦
      omega (arith, mod-add-mod t m d, mod-eq_of_lt {n = t % m + d} {m = m} (ground arith))
  | inr beyond ↦
      let over : m ≤ t % m + d = ground arith in
      let under : t % m < m = mod-lt t (omega arith) in
      omega (
        arith,
        mod-add-mod t m d,
        mod-eq-sub-mod {n = t % m + d} {m = m} over,
        mod-eq_of_lt {n = t % m + d - m} {m = m} (omega arith),
      )
]

module _ (storage : List SensorRecord) (m : ℕ) where
  -- The `n` records from counter `t` on.
  abbrev pub window : ℕ → ℕ → List SensorRecord
  window t zero = []
  window t (suc n) = get_or storage (t % m) zero_record ∷ window (t + 1) n

  pub length-window : (t n : ℕ) → length (window t n) ≡ n
  length-window t zero = refl
  length-window t (suc n) = ap suc (length-window (t + 1) n)

  -- Only the remainder of the counter counts.
  pub window-cong : (t u n : ℕ) → t % m ≡ u % m → window t n ≡ window u n
  window-cong t u zero e = refl
  window-cong t u (suc n) e = ap₂ ◌∷◌ (ap (λ k. get_or storage k zero_record) e) (
      window-cong (t + 1) (u + 1) n
        (sym (mod-add-mod t m 1) ∙ ap (λ k. (k + 1) % m) e ∙ mod-add-mod u m 1))

  pub take-window : (t n k : ℕ) → k ≤ n → take k (window t n) ≡ window t k
  take-window t n zero h = refl
  take-window t zero (suc k) h = absurd (omega arith)
  take-window t (suc n) (suc k) h = rw (take-window (t + 1) n k (omega arith))

  pub drop-window : (t n k : ℕ) → drop k (window t (k + n)) ≡ window (t + k) n
  drop-window t n zero = ap₂ window (omega arith) (omega arith)
  drop-window t n (suc k) =
      let e : suc k + n ≡ suc (k + n) = omega arith in
      let e' : t + suc k ≡ t + 1 + k = omega arith in rw (e, e') (drop-window (t + 1) n k)

-- A write just past a window extends it by that record.
pub window-set :
    (storage : List SensorRecord) (m : ℕ) (r : SensorRecord) (t n i : ℕ)
    → m ≤ length storage
    → n < m
    → i ≡ (t + n) % m
    → window (set storage i r) m t (suc n) ≡ window storage m t n ++ (r ∷ [])
window-set storage m r t zero i room small e =
    let e' : i ≡ t % m = e ∙ ap (λ k. k % m) (omega arith) in
    let lt : t % m < m = mod-lt t (omega arith) in
    rw e' (rw (get_or-set_self storage (t % m) r zero_record (omega arith)))
window-set storage m r t (suc n) i room small e =
    ap₂ ◌∷◌
      (get_or-set_ne storage i (t % m) r zero_record
        (λ same. add-mod-ne m t (suc n) (omega arith) small (sym e ∙ same)))
      (window-set storage m r (t + 1) n i room (omega arith) (e ∙ ap (λ k. k % m) (omega arith)))

set-append :
    (pre : List SensorRecord) (y r : SensorRecord) (rest : List SensorRecord)
    → set (pre ++ y ∷ rest) (length pre) r ≡ (pre ++ r ∷ []) ++ rest
set-append [] y r rest = refl
set-append (x ∷ pre) y r rest = ap (λ l. x ∷ l) (set-append pre y r rest)

-- The loop of `pop`, over whatever `records_out` holds behind the part already written.
pub copy_out-window :
    (storage : List SensorRecord) (mask m tail : ℕ)
    → ((a : ℕ) → bit_and (u32 a) mask ≡ a % m)
    → (n i : ℕ) (pre rest : List SensorRecord) → length pre ≡ i
    → n ≤ length rest
    → copy_out storage mask tail n i (pre ++ rest)
      ≡ pre ++ (window storage m (tail + i) n ++ drop n rest)
unfolding copy_out
copy_out-window storage mask m tail masked zero i pre rest e h = refl
copy_out-window storage mask m tail masked (suc n) i pre [] e h = absurd (omega arith)
copy_out-window storage mask m tail masked (suc n) i pre (y ∷ rest) e h =
    let r = get_or storage ((tail + i) % m) zero_record in
    let written : set (pre ++ y ∷ rest) i r ≡ (pre ++ r ∷ []) ++ rest =
      rw (← e) (set-append pre y _ rest) in
    let grown : length (pre ++ r ∷ []) ≡ i + 1 = omega (arith, length-append pre (r ∷ [])) in
    let ih =
      copy_out-window storage mask m tail masked n (i + 1) (pre ++ r ∷ []) rest grown
        (omega arith) in
    rw (masked, written, ih) (rw (append_assoc, ← add_assoc))
