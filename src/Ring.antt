-- ===== src/Ring.antt =====
-- sw/stage4_watchdog/src/datalog/ring_buffer.c: a FIFO of sensor records over caller-owned storage,
-- which gives up its oldest record when full. A pointer that may be NULL is an `Option`; a function
-- that writes through `rb` returns the new object. Counters are `uint32_t` and wrap.
pub mod Fifo
pub mod Inv
pub mod Window
pub mod Refine
pub mod Trace
mod Tests
use mathlib.Core.Option
use zybo_rtos_sensor_aggrega.Prelude.{
  ℕ, zero, suc, ◌+◌, ◌-◌, ◌^◌, Bool, true, false, ◌||◌, not, Option, none, some, List, [], ltb,
  ◌==◌, if◌then◌else◌, add32, sub32, bit_and, get_or, set,
}
use zybo_rtos_sensor_aggrega.Sample.{SensorRecord, zero_record}

pub record RingBuffer : Type 0 where
  pub storage : Option (List SensorRecord)
  pub capacity : ℕ
  pub index_mask : ℕ
  pub head : ℕ
  pub tail : ℕ
  pub overwritten : ℕ
  pub fill_high_water : ℕ
  pub has_newest : Bool

-- `RING_CAPACITY_MAX`.
abbrev pub capacity_max : ℕ
capacity_max = 2 ^ 31

-- The array behind a storage pointer that is not NULL.
abbrev pub slots : RingBuffer → List SensorRecord
slots rb = Option.get_or rb.storage []

-- The test of `init` on the capacity; `capacity - 1` is evaluated only where `capacity` is not 0.
pub bad_capacity : ℕ → Bool
bad_capacity capacity =
    (capacity == 0) || not (bit_and capacity (capacity - 1) == 0) || ltb capacity_max capacity

unfoldable pub fresh : List SensorRecord → ℕ → RingBuffer
fresh storage capacity = record {
  storage = some storage;
  capacity = capacity;
  index_mask = capacity - 1;
  head = 0;
  tail = 0;
  overwritten = 0;
  fill_high_water = 0;
  has_newest = false;
}

pub init : Option RingBuffer → Option (List SensorRecord) → ℕ → Bool × Option RingBuffer
unfolding bad_capacity fresh
init none storage capacity = (false, none)
init (some rb) none capacity = (false, some rb)
init (some rb) (some storage) capacity =
    if bad_capacity capacity then (false, some rb) else (true, some (fresh storage capacity))

abbrev pub fill : RingBuffer → ℕ
fill rb = sub32 rb.head rb.tail

unfoldable pub count : Option RingBuffer → ℕ
count none = 0
count (some rb) = fill rb

-- Full: the oldest record is given up.
pub make_room : RingBuffer → RingBuffer
make_room rb =
    if fill rb == rb.capacity
    then record rb { tail = add32 rb.tail 1; overwritten = add32 rb.overwritten 1 }
    else rb

pub store : RingBuffer → SensorRecord → RingBuffer
store rb r = record rb {
  storage = some (set (slots rb) (bit_and rb.head rb.index_mask) r);
  head = add32 rb.head 1;
  has_newest = true;
}

pub note_fill : RingBuffer → RingBuffer
note_fill rb =
    if ltb rb.fill_high_water (fill rb) then record rb { fill_high_water = fill rb } else rb

pub push_body : RingBuffer → SensorRecord → Bool × RingBuffer
unfolding make_room store note_fill
push_body rb r = (fill rb == rb.capacity, note_fill (store (make_room rb) r))

-- Whether a pointer is NULL.
abbrev pub is_null {ℓ} : {A : Type ℓ} → Option A → Bool
is_null none = true
is_null (some a) = false

pub push : Option RingBuffer → Option SensorRecord → Bool × Option RingBuffer
unfolding push_body
push none r = (false, none)
push (some rb) none = (false, some rb)
push (some rb) (some r) =
    if is_null rb.storage
    then (false, some rb)
    else let (dropped, rb') = push_body rb r in (dropped, some rb')

-- The loop of `pop`, with `left` rounds to go at index `idx`; `out` is `records_out`.
pub copy_out : List SensorRecord → ℕ → ℕ → ℕ → ℕ → List SensorRecord → List SensorRecord
copy_out storage mask tail zero idx out = out
copy_out storage mask tail (suc left) idx out =
    copy_out storage mask tail left (idx + 1)
      (set out idx (get_or storage (bit_and (add32 tail idx) mask) zero_record))

-- How many records `pop` takes out.
pub pop_count : RingBuffer → ℕ → ℕ
pop_count rb max_records = if ltb max_records (fill rb) then max_records else fill rb

pub pop_body : RingBuffer → List SensorRecord → ℕ → ℕ × List SensorRecord × RingBuffer
unfolding pop_count copy_out
pop_body rb out max_records =
    let n = pop_count rb max_records in
    (n, copy_out (slots rb) rb.index_mask rb.tail n 0 out, record rb { tail = add32 rb.tail n })

pub pop :
    Option RingBuffer
    → Option (List SensorRecord)
    → ℕ
    → ℕ × Option (List SensorRecord) × Option RingBuffer
unfolding pop_body
pop none out max_records = (0, out, none)
pop (some rb) none max_records = (0, none, some rb)
pop (some rb) (some out) max_records =
    if is_null rb.storage
    then (0, some out, some rb)
    else let (n, out', rb') = pop_body rb out max_records in (n, some out', some rb')

-- The slot that the last push wrote.
pub newest : RingBuffer → SensorRecord
newest rb = get_or (slots rb) (bit_and (sub32 rb.head 1) rb.index_mask) zero_record

pub peek_newest : Option RingBuffer → Option SensorRecord → Bool × Option SensorRecord
unfolding newest
peek_newest none out = (false, out)
peek_newest (some rb) none = (false, none)
peek_newest (some rb) (some out) =
    if is_null rb.storage || not rb.has_newest then (false, some out) else (true, some (newest rb))
