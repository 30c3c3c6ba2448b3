-- ===== src/Ring/Inv.antt =====
-- The representation invariant of `ring_buffer_t`, and the operations on it.
use native.Mathlib.Nat.{one-le-pow, pow-le-pow_right}
use zybo_rtos_sensor_aggrega.Prelude.{
  ℕ, ◌+◌, ◌-◌, ◌%◌, ◌^◌, ◌≤◌, ◌<◌, ◌≡◌, refl, ap, ◌∙◌, true, false, some, List, arith, ltb, ◌==◌,
  if◌then◌else◌, length, set, length-set, add32, u32, bit_and, bit_and_mask, bit_and-pred_pow,
  pow_of_bit_and-pred, pow-le_iff_exponent, u32-mod_pow,
}
use zybo_rtos_sensor_aggrega.Sample.{SensorRecord}
use zybo_rtos_sensor_aggrega.Ring.{
  RingBuffer, capacity_max, slots, bad_capacity, fresh, fill, push_body, pop_count, pop_body,
}

pub record IsValid (rb : RingBuffer) : Type 0 where
  pub exponent : ℕ
  pub small : exponent ≤ 31
  pub stored : rb.storage ≡ some (slots rb)
  pub power : rb.capacity ≡ 2 ^ exponent
  pub mask : rb.index_mask ≡ 2 ^ exponent - 1
  pub room : rb.capacity ≤ length (slots rb)
  pub head_fits : rb.head < 2 ^ 32
  pub tail_fits : rb.tail < 2 ^ 32
  pub within : fill rb ≤ rb.capacity
  pub peak : fill rb ≤ rb.fill_high_water
  pub peak_within : rb.fill_high_water ≤ rb.capacity

module _ {rb : RingBuffer} (v : IsValid rb) where
  open v use {exponent, small, power, mask}

  pub capacity_bounds : (0 < rb.capacity) × (rb.capacity ≤ capacity_max)
  capacity_bounds = omega (
    arith,
    one-le-pow exponent 2,
    pow-le-pow_right {n = 2} (omega arith) {i = exponent} {j = 31} small,
  )

  -- `& index_mask` is the remainder by the capacity.
  pub mask_lem : (a : ℕ) → bit_and a rb.index_mask ≡ a % rb.capacity
  mask_lem a = rw (mask, power) (bit_and_mask exponent a)

  -- The wrap of the counters does not move the index.
  pub wrap_lem : (a : ℕ) → u32 a % rb.capacity ≡ a % rb.capacity
  wrap_lem a = rw power (u32-mod_pow exponent a (omega arith))

  pub index-lt : (a : ℕ) → bit_and a rb.index_mask < length (slots rb)
  index-lt a = ground (arith, mask_lem a, capacity_bounds)

module _ (storage : List SensorRecord) (capacity : ℕ) where
  -- The test of `init` rejects what is not a power of two up to the maximum.
  pub bad_capacity-pow : (k : ℕ) → capacity ≡ 2 ^ k → k ≤ 31 → bad_capacity capacity ≡ false
  unfolding bad_capacity
  bad_capacity-pow k e small = rw e (
      ground (
        arith,
        bit_and-pred_pow k,
        one-le-pow k 2,
        pow-le-pow_right {n = 2} (omega arith) {i = k} {j = 31} small,
      ))

  pub pow_of_bad_capacity : bad_capacity capacity ≡ false → (k : ℕ) × (capacity ≡ 2 ^ k) × (k ≤ 31)
  unfolding bad_capacity
  pow_of_bad_capacity ok =
      let (k, e) = pow_of_bit_and-pred capacity (ground arith) (ground arith) in
      let le : 2 ^ k ≤ 2 ^ 31 = omega (arith, bound) in (k, e, pow-le_iff_exponent k 31 le)
    where
      bound : capacity ≤ capacity_max
      bound = ground arith

  pub fresh-IsValid :
      capacity ≤ length storage → bad_capacity capacity ≡ false → IsValid (fresh storage capacity)
  unfolding fresh
  fresh-IsValid enough ok =
      let (k, e, small) = pow_of_bad_capacity ok in
      record {
        exponent = k;
        small = small;
        stored = refl;
        power = e;
        mask = ap (λ (c : ℕ). c - 1) e;
        room = enough;
        head_fits = omega arith;
        tail_fits = omega arith;
        within = omega arith;
        peak = omega arith;
        peak_within = omega arith;
      }

-- What `push_body` leaves in each field.
pub record Pushed (rb rb' : RingBuffer) (r : SensorRecord) : Type 0 where
  pub storage : rb'.storage ≡ some (set (slots rb) (bit_and rb.head rb.index_mask) r)
  pub capacity : rb'.capacity ≡ rb.capacity
  pub index_mask : rb'.index_mask ≡ rb.index_mask
  pub head : rb'.head ≡ add32 rb.head 1
  pub tail : rb'.tail ≡ (if fill rb == rb.capacity then add32 rb.tail 1 else rb.tail)
  pub overwritten :
      rb'.overwritten ≡ (if fill rb == rb.capacity then add32 rb.overwritten 1 else rb.overwritten)
  pub fill_high_water :
      rb'.fill_high_water
      ≡ (if ltb rb.fill_high_water (fill rb') then fill rb' else rb.fill_high_water)
  pub has_newest : rb'.has_newest ≡ true

pub push_body-Pushed : (rb : RingBuffer) (r : SensorRecord) → Pushed rb (push_body rb r).1 r
unfolding push_body
push_body-Pushed rb r = record {
  storage = ground arith;
  capacity = ground arith;
  index_mask = ground arith;
  head = ground arith;
  tail = ground arith;
  overwritten = ground arith;
  fill_high_water = ground arith;
  has_newest = ground arith;
}

-- A push keeps the invariant.
pub push_body-IsValid :
    {rb : RingBuffer} (r : SensorRecord) → IsValid rb → IsValid (push_body rb r).1
push_body-IsValid {rb} r v = record {
  exponent = v.exponent;
  small = v.small;
  stored = ground (arith, p.storage);
  power = p.capacity ∙ v.power;
  mask = p.index_mask ∙ v.mask;
  room =
      ground
        (arith, p.storage, p.capacity, length-set (slots rb) (bit_and rb.head rb.index_mask) r);
  head_fits = omega (arith, p.head);
  tail_fits = ground (arith, p.tail);
  within = ground (arith, p.tail, p.head, p.capacity, capacity_bounds v);
  peak = ground (arith, p.fill_high_water);
  peak_within = ground (arith, p.tail, p.head, p.capacity, p.fill_high_water, capacity_bounds v);
}
  where
    p : Pushed rb (push_body rb r).1 r
    p = push_body-Pushed rb r

-- How a push changes the number of records.
pub fill-push_body :
    {rb : RingBuffer} (r : SensorRecord)
    → IsValid rb
    → fill (push_body rb r).1 ≡ (if fill rb == rb.capacity then rb.capacity else fill rb + 1)
fill-push_body {rb} r v = ground (arith, p.tail, p.head, capacity_bounds v)
  where
    p : Pushed rb (push_body rb r).1 r
    p = push_body-Pushed rb r

abbrev pub popped : RingBuffer → List SensorRecord → ℕ → RingBuffer
popped rb out max_records = (pop_body rb out max_records).2

pub pop_count-le : (rb : RingBuffer) (n : ℕ) → (pop_count rb n ≤ fill rb) × (pop_count rb n ≤ n)
unfolding pop_count
pop_count-le rb n = ground arith

-- A pop takes `pop_count` records off the number.
pub fill-pop_body :
    {rb : RingBuffer} (out : List SensorRecord) (n : ℕ)
    → IsValid rb
    → fill (popped rb out n) + pop_count rb n ≡ fill rb
unfolding pop_body
fill-pop_body {rb} out n v = omega (arith, pop_count-le rb n, v.head_fits, v.tail_fits)

-- A pop keeps the invariant.
pub pop_body-IsValid :
    {rb : RingBuffer} (out : List SensorRecord) (n : ℕ) → IsValid rb → IsValid (popped rb out n)
unfolding pop_body
pop_body-IsValid {rb} out n v = record {
  exponent = v.exponent;
  small = v.small;
  stored = v.stored;
  power = v.power;
  mask = v.mask;
  room = v.room;
  head_fits = v.head_fits;
  tail_fits = omega arith;
  within = omega (arith, left, v.within);
  peak = omega (arith, left, v.peak);
  peak_within = v.peak_within;
}
  where
    left : fill (popped rb out n) + pop_count rb n ≡ fill rb
    left = fill-pop_body out n v

-- A pop moves `tail` only.
pub popped-counters :
    (rb : RingBuffer) (out : List SensorRecord) (n : ℕ)
    → ((popped rb out n).head ≡ rb.head)
      × ((popped rb out n).tail ≡ add32 rb.tail (pop_count rb n))
      × ((popped rb out n).overwritten ≡ rb.overwritten)
unfolding pop_body
popped-counters rb out n = (refl, refl, refl)

pub popped-capacity :
    (rb : RingBuffer) (out : List SensorRecord) (n : ℕ) → (popped rb out n).capacity ≡ rb.capacity
unfolding pop_body
popped-capacity rb out n = refl
