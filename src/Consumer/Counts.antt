-- ===== src/Consumer/Counts.antt =====
-- What the consumer's counters say of a list of records.
use zybo_rtos_sensor_aggrega.Prelude.{
  ℕ, zero, suc, ◌+◌, ◌≡◌, refl, List, [], ◌∷◌, ◌++◌, length, take, drop, u32, sub32, arith,
}
use zybo_rtos_sensor_aggrega.Sample.{SensorRecord}
use zybo_rtos_sensor_aggrega.Consumer.{State, count_record}
use zybo_rtos_sensor_aggrega.Consumer.Drain.{count_all}

-- The `seq` of the last record of a list, or `n` if there is none.
abbrev pub last_from : List SensorRecord → ℕ → ℕ
last_from [] n = n
last_from (r ∷ rs) n = last_from rs r.seq

pub last_from-append :
    (xs ys : List SensorRecord) (n : ℕ) → last_from (xs ++ ys) n ≡ last_from ys (last_from xs n)
last_from-append [] ys n = refl
last_from-append (x ∷ xs) ys n = last_from-append xs ys x.seq

pub last_from-split :
    (k : ℕ) (xs : List SensorRecord) (n : ℕ)
    → last_from (drop k xs) (last_from (take k xs) n) ≡ last_from xs n
last_from-split zero xs n = refl
last_from-split (suc k) [] n = refl
last_from-split (suc k) (x ∷ xs) n = last_from-split k xs x.seq

-- The three counters after a list of records.
pub count_all-counts :
    (rs : List SensorRecord) (s : State) (n : ℕ)
    → s.received ≡ u32 n
    → s.lost ≡ sub32 s.last_seq s.received
    → ((count_all rs s).received ≡ u32 (n + length rs))
      × ((count_all rs s).last_seq ≡ last_from rs s.last_seq)
      × ((count_all rs s).lost ≡ sub32 (count_all rs s).last_seq (count_all rs s).received)
unfolding count_all count_record
count_all-counts [] s n h l = (omega (arith, h), refl, l)
count_all-counts (r ∷ rs) s n h l =
    let (a, b, c) = count_all-counts rs (count_record r s) (n + 1) (omega (arith, h)) refl in
    (omega (arith, a), b, c)
