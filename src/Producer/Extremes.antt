-- ===== src/Producer/Extremes.antt =====
-- The extremes that the producer keeps (tasks/task_producer.c), and those of all samples taken.
use zybo_rtos_sensor_aggrega.Prelude.{
  ℕ, zero, suc, ◌+◌, ◌^◌, ◌≤◌, ◌<◌, ◌≡◌, ◌≢◌, refl, sym, ap, ap₂, ◌∙◌, min, max, inl, inr, List, [],
  ◌∷◌, ltb, ◌==◌, if◌then◌else◌, get_or, set, length, arith, Bool-cases, length-set,
  get_or-set_self, get_or-set_ne,
}
use zybo_rtos_sensor_aggrega.Sample.{XadcSample, SensorRecord, sensor_count}
use zybo_rtos_sensor_aggrega.Producer.{
  Stats, Cycle, extremes_from, note_extremes, note_interval, note_cycle, update_stats,
}

-- One sensor's turn of the loop.
abbrev lower : List ℕ → ℕ → ℕ → List ℕ
lower lo sensor code = if ltb code (get_or lo sensor 0) then set lo sensor code else lo

abbrev raise : List ℕ → ℕ → ℕ → List ℕ
raise hi sensor code = if ltb (get_or hi sensor 0) code then set hi sensor code else hi

module _ (lo : List ℕ) (sensor code : ℕ) where
  length-lower : length (lower lo sensor code) ≡ length lo
  length-lower = ground (arith, length-set lo sensor code)

  length-raise : length (raise lo sensor code) ≡ length lo
  length-raise = ground (arith, length-set lo sensor code)

  lower_self :
      sensor < length lo → get_or (lower lo sensor code) sensor 0 ≡ min (get_or lo sensor 0) code
  lower_self h = ground (arith, get_or-set_self lo sensor code 0)

  raise_self :
      sensor < length lo → get_or (raise lo sensor code) sensor 0 ≡ max (get_or lo sensor 0) code
  raise_self h = ground (arith, get_or-set_self lo sensor code 0)

  lower_ne : (i : ℕ) → sensor ≢ i → get_or (lower lo sensor code) i 0 ≡ get_or lo i 0
  lower_ne i h = ground (arith, get_or-set_ne lo sensor i code 0 h)

  raise_ne : (i : ℕ) → sensor ≢ i → get_or (raise lo sensor code) i 0 ≡ get_or lo i 0
  raise_ne i h = ground (arith, get_or-set_ne lo sensor i code 0 h)

-- The loop leaves alone what it has passed.
extremes_from-below :
    (codes : List ℕ) (sensor left i : ℕ) (lo hi : List ℕ)
    → i < sensor
    → (get_or (extremes_from codes sensor left (lo, hi)).0 i 0 ≡ get_or lo i 0)
      × (get_or (extremes_from codes sensor left (lo, hi)).1 i 0 ≡ get_or hi i 0)
unfolding extremes_from
extremes_from-below codes sensor zero i lo hi h = (refl, refl)
extremes_from-below codes sensor (suc left) i lo hi h =
    let code = get_or codes sensor 0 in
    let ih =
      extremes_from-below codes (sensor + 1) left i (lower lo sensor code) (raise hi sensor code)
        (omega arith) in
    (
      ih.0 ∙ lower_ne lo sensor code i (λ e. omega arith),
      ih.1 ∙ raise_ne hi sensor code i (λ e. omega arith),
    )

extremes_from-covers :
    (codes : List ℕ) (sensor left i : ℕ) (lo hi : List ℕ)
    → sensor ≤ i
    → i < sensor + left
    → i < length lo
    → i < length hi
    → (get_or (extremes_from codes sensor left (lo, hi)).0 i 0
        ≡ min (get_or lo i 0) (get_or codes i 0))
      × (get_or (extremes_from codes sensor left (lo, hi)).1 i 0
          ≡ max (get_or hi i 0) (get_or codes i 0))
unfolding extremes_from
extremes_from-covers codes sensor zero i lo hi low high hl hh = absurd (omega arith)
extremes_from-covers codes sensor (suc left) i lo hi low high hl hh =
    let code = get_or codes sensor 0 in
    let lo' = lower lo sensor code in
    let hi' = raise hi sensor code in
    let len : (length lo' ≡ length lo) × (length hi' ≡ length hi) =
      (length-lower lo sensor code, length-raise hi sensor code) in
    elim (Bool-cases (sensor == i)) [
      | inl same ↦
          let e : sensor ≡ i = ground arith in
          let below = extremes_from-below codes (sensor + 1) left i lo' hi' (omega arith) in
          (
            below.0 ∙ rw (sym e) (lower_self lo sensor code (omega arith)),
            below.1 ∙ rw (sym e) (raise_self hi sensor code (omega arith)),
          )
      | inr other ↦
          let ne : sensor ≢ i = ground arith in
          let ih =
            extremes_from-covers codes (sensor + 1) left i lo' hi' (omega (arith, ne)) (omega arith)
              (omega (arith, len)) (omega (arith, len)) in
          (
            ih.0 ∙ ap (λ (m : ℕ). min m (get_or codes i 0)) (lower_ne lo sensor code i ne),
            ih.1 ∙ ap (λ (m : ℕ). max m (get_or codes i 0)) (raise_ne hi sensor code i ne),
          )
    ]

length-extremes_from :
    (codes : List ℕ) (sensor left : ℕ) (lo hi : List ℕ)
    → (length (extremes_from codes sensor left (lo, hi)).0 ≡ length lo)
      × (length (extremes_from codes sensor left (lo, hi)).1 ≡ length hi)
unfolding extremes_from
length-extremes_from codes sensor zero lo hi = (refl, refl)
length-extremes_from codes sensor (suc left) lo hi =
    let code = get_or codes sensor 0 in
    let ih =
      length-extremes_from codes (sensor + 1) left (lower lo sensor code) (raise hi sensor code) in
    (ih.0 ∙ length-lower lo sensor code, ih.1 ∙ length-raise hi sensor code)

record Kept (s s' : Stats) : Type 0 where
  samples : s'.samples ≡ s.samples
  lo : s'.sensor_min ≡ s.sensor_min
  hi : s'.sensor_max ≡ s.sensor_max

note_interval-Kept : (now prev : ℕ) (s : Stats) → Kept s (note_interval now prev s)
unfolding note_interval
note_interval-Kept now prev s = record {
  samples = ground arith;
  lo = ground arith;
  hi = ground arith;
}

module _ (sensors : XadcSample) (s : Stats) where
  first_extremes :
      s.samples ≡ 1
      → ((note_extremes sensors s).samples ≡ s.samples)
        × ((note_extremes sensors s).sensor_min ≡ sensors)
        × ((note_extremes sensors s).sensor_max ≡ sensors)
  unfolding note_extremes
  first_extremes h = (ground arith, ground arith, ground arith)

  later_extremes :
      s.samples ≢ 1
      → ((note_extremes sensors s).samples ≡ s.samples)
        × ((note_extremes sensors s).sensor_min.raw_code
            ≡ (extremes_from sensors.raw_code 0 sensor_count
                (s.sensor_min.raw_code, s.sensor_max.raw_code)).0)
        × ((note_extremes sensors s).sensor_max.raw_code
            ≡ (extremes_from sensors.raw_code 0 sensor_count
                (s.sensor_min.raw_code, s.sensor_max.raw_code)).1)
  unfolding note_extremes
  later_extremes h = (ground arith, ground arith, ground arith)

-- A sample as `producer_update_stats` gets it.
pub record Taken : Type 0 where
  pub sample : SensorRecord
  pub prev_capture_us : ℕ
  pub cycle : Cycle

abbrev pub update : Taken → Stats → Stats
update t s = update_stats t.sample t.prev_capture_us t.cycle s

abbrev pub update_all : List Taken → Stats → Stats
update_all [] s = s
update_all (t ∷ ts) s = update_all ts (update t s)

abbrev pub code_of : ℕ → Taken → ℕ
code_of sensor t = get_or t.sample.sensors.raw_code sensor 0

abbrev pub least : ℕ → ℕ → List Taken → ℕ
least sensor m [] = m
least sensor m (t ∷ ts) = least sensor (min m (code_of sensor t)) ts

abbrev pub greatest : ℕ → ℕ → List Taken → ℕ
greatest sensor m [] = m
greatest sensor m (t ∷ ts) = greatest sensor (max m (code_of sensor t)) ts

-- The counts after `k` samples, with the extremes of one sensor so far.
record Holds (sensor k m n : ℕ) (s : Stats) : Type 0 where
  samples : s.samples ≡ k
  lo_full : length s.sensor_min.raw_code ≡ sensor_count
  hi_full : length s.sensor_max.raw_code ≡ sensor_count
  lo : get_or s.sensor_min.raw_code sensor 0 ≡ m
  hi : get_or s.sensor_max.raw_code sensor 0 ≡ n

first-Holds :
    (sensor : ℕ) (t : Taken) (s : Stats)
    → s.samples ≡ 0
    → length t.sample.sensors.raw_code ≡ sensor_count
    → Holds sensor 1 (code_of sensor t) (code_of sensor t) (update t s)
unfolding update_stats note_cycle
first-Holds sensor t s h full =
    let k = note_interval-Kept t.sample.capture_us t.prev_capture_us (note_cycle t.cycle s) in
    let one : (note_interval t.sample.capture_us t.prev_capture_us (note_cycle t.cycle s)).samples
        ≡ 1 =
      omega (arith, k.samples, h) in
    let (e, lo, hi) =
      first_extremes t.sample.sensors
        (note_interval t.sample.capture_us t.prev_capture_us (note_cycle t.cycle s)) one in
    record {
      samples = e ∙ one;
      lo_full = rw lo full;
      hi_full = rw hi full;
      lo = rw lo refl;
      hi = rw hi refl;
    }

later-Holds :
    (sensor k m n : ℕ) (t : Taken) (s : Stats)
    → sensor < sensor_count
    → 0 < k
    → k + 1 < 2 ^ 32
    → Holds sensor k m n s
    → Holds sensor (k + 1) (min m (code_of sensor t)) (max n (code_of sensor t)) (update t s)
unfolding update_stats note_cycle
later-Holds sensor k m n t s hs pos small h =
    let s' = note_interval t.sample.capture_us t.prev_capture_us (note_cycle t.cycle s) in
    let kept = note_interval-Kept t.sample.capture_us t.prev_capture_us (note_cycle t.cycle s) in
    let next : s'.samples ≡ k + 1 = omega (arith, kept.samples, h.samples) in
    let (e, lo, hi) = later_extremes t.sample.sensors s' (λ c. omega (arith, next, c)) in
    let codes = t.sample.sensors.raw_code in
    let lo0 = s.sensor_min.raw_code in
    let hi0 = s.sensor_max.raw_code in
    let tables =
      ap₂ (λ (a b : XadcSample). extremes_from codes 0 sensor_count (a.raw_code, b.raw_code))
        kept.lo kept.hi in
    let lo' : (update t s).sensor_min.raw_code ≡ (extremes_from codes 0 sensor_count (lo0, hi0)).0 =
      lo ∙ ap (λ (p : List ℕ × List ℕ). p.0) tables in
    let hi' : (update t s).sensor_max.raw_code ≡ (extremes_from codes 0 sensor_count (lo0, hi0)).1 =
      hi ∙ ap (λ (p : List ℕ × List ℕ). p.1) tables in
    let len = length-extremes_from codes 0 sensor_count lo0 hi0 in
    let covers =
      extremes_from-covers codes 0 sensor_count sensor lo0 hi0 (omega arith) (omega arith)
        (omega (arith, h.lo_full)) (omega (arith, h.hi_full)) in
    record {
      samples = e ∙ next;
      lo_full = ap length lo' ∙ len.0 ∙ h.lo_full;
      hi_full = ap length hi' ∙ len.1 ∙ h.hi_full;
      lo =
          ap (λ (l : List ℕ). get_or l sensor 0) lo'
          ∙ covers.0
          ∙ ap (λ (a : ℕ). min a (code_of sensor t)) h.lo;
      hi =
          ap (λ (l : List ℕ). get_or l sensor 0) hi'
          ∙ covers.1
          ∙ ap (λ (a : ℕ). max a (code_of sensor t)) h.hi;
    }

all-Holds :
    (sensor k m n : ℕ) (ts : List Taken) (s : Stats)
    → sensor < sensor_count
    → 0 < k
    → k + length ts < 2 ^ 32
    → Holds sensor k m n s
    → Holds sensor (k + length ts) (least sensor m ts) (greatest sensor n ts) (update_all ts s)
all-Holds sensor k m n [] s hs pos small h = let e : k + 0 ≡ k = omega arith in rw e h
all-Holds sensor k m n (t ∷ ts) s hs pos small h =
    let e : k + suc (length ts) ≡ k + 1 + length ts = omega arith in
    rw e (
      all-Holds sensor (k + 1) (min m (code_of sensor t)) (max n (code_of sensor t)) ts (update t s)
        hs (omega arith) (omega arith) (later-Holds sensor k m n t s hs pos (omega arith) h))

-- After `producer_update_stats` for every sample of a run of fewer than 2^32, `samples` is their number and
-- the extremes of each sensor are the least and the greatest of its codes.
pub extremes_hold :
    (sensor : ℕ) (first : Taken) (rest : List Taken) (s : Stats)
    → sensor < sensor_count
    → s.samples ≡ 0
    → length first.sample.sensors.raw_code ≡ sensor_count
    → 1 + length rest < 2 ^ 32
    → ((update_all (first ∷ rest) s).samples ≡ 1 + length rest)
      × (get_or (update_all (first ∷ rest) s).sensor_min.raw_code sensor 0
          ≡ least sensor (code_of sensor first) rest)
      × (get_or (update_all (first ∷ rest) s).sensor_max.raw_code sensor 0
          ≡ greatest sensor (code_of sensor first) rest)
extremes_hold sensor first rest s hs h0 full small =
    let h =
      all-Holds sensor 1 (code_of sensor first) (code_of sensor first) rest (update first s) hs
        (omega arith) small (first-Holds sensor first s h0 full) in
    (h.samples, h.lo, h.hi)
