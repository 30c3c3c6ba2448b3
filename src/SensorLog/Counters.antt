-- ===== src/SensorLog/Counters.antt =====
-- What a write and a read of the log do to the counters of its ring.
use zybo_rtos_sensor_aggrega.Prelude.{
  ℕ, ◌≤◌, ◌≡◌, refl, sym, Bool, true, false, ◌&&◌, inl, inr, some, none, List, ◌==◌, if◌then◌else◌,
  add32, arith, Bool-cases, length, take, drop, ◌++◌, ◌-◌,
}
use zybo_rtos_sensor_aggrega.Sample.{SensorRecord}
use zybo_rtos_sensor_aggrega.Ring
use zybo_rtos_sensor_aggrega.Ring.{RingBuffer, fill, push_body, pop_body, pop_count}
use zybo_rtos_sensor_aggrega.Ring.Inv.{
  IsValid, push_body-Pushed, push_body-IsValid, pop_body-IsValid, popped, pop_count-le,
  fill-pop_body, popped-counters,
}
use zybo_rtos_sensor_aggrega.Ring.Refine.{push_eq, pop_eq, contents}
use zybo_rtos_sensor_aggrega.SensorLog.{
  SensorLog, LockEnv, LogStats, lock, unlock, write, read, peek_newest, get_stats,
}

-- The mutex exists and is obtained within the wait.
abbrev pub gets : LockEnv → SensorLog → ℕ → Bool
gets env log max_wait = log.mutex && env.take max_wait

lock-gets :
    (env : LockEnv) (log : SensorLog) (max_wait : ℕ)
    → lock env log max_wait ≡ (if gets env log max_wait then some env.locked_at_us else none)
unfolding lock
lock-gets env log max_wait = ground arith

unlock-ring : (env : LockEnv) (log : SensorLog) (t : ℕ) → (unlock env log t).ring ≡ log.ring
unfolding unlock
unlock-ring env log t = ground arith

unlock-mutex : (env : LockEnv) (log : SensorLog) (t : ℕ) → (unlock env log t).mutex ≡ log.mutex
unfolding unlock
unlock-mutex env log t = ground arith

-- A ring with one more record.
abbrev pub with_ring : SensorLog → RingBuffer → SensorLog
with_ring log rb = record log { ring = rb }

module _ (env : LockEnv) (log : SensorLog) (max_wait : ℕ) (v : IsValid log.ring) where
  pub record Wrote (r : SensorRecord) (written was_empty b : Bool) (log' : SensorLog) : Type 0 where
    pub result : written ≡ gets env log max_wait
    pub was_empty_out : was_empty ≡ (if written then fill log.ring == 0 else b)
    pub head : log'.ring.head ≡ (if written then add32 log.ring.head 1 else log.ring.head)
    pub ring : log'.ring ≡ (if written then (push_body log.ring r).1 else log.ring)
    pub valid : IsValid log'.ring
    pub mutex : log'.mutex ≡ log.mutex

  pub write-Wrote :
      (r : SensorRecord) (b : Bool)
      → (written was_empty : Bool) × (log' : SensorLog) × (write env log (some r) max_wait (some b)
          ≡ (written, some was_empty, log'))
        × Wrote r written was_empty b log'
  write-Wrote r b = elim (Bool-cases (gets env log max_wait)) [
    | inl got ↦
        let rb' : RingBuffer = (push_body log.ring r).1 in
        (
          true,
          fill log.ring == 0,
          unlock env (with_ring log rb') env.locked_at_us,
          unfold write Ring.count in
              rw (lock-gets env log max_wait, write) (rw got (rw (push_eq r v))),
          record {
            result = sym got;
            was_empty_out = refl;
            head =
                rw (unlock-ring env (with_ring log rb') env.locked_at_us)
                  (push_body-Pushed log.ring r).head;
            ring = unlock-ring env (with_ring log rb') env.locked_at_us;
            valid =
                rw (unlock-ring env (with_ring log rb') env.locked_at_us) (push_body-IsValid r v);
            mutex = unlock-mutex env (with_ring log rb') env.locked_at_us;
          },
        )
    | inr not_got ↦ (
      false,
      b,
      log,
      unfold write in rw (lock-gets env log max_wait, write) (rw not_got),
      record {
        result = sym not_got;
        was_empty_out = refl;
        head = refl;
        ring = refl;
        valid = v;
        mutex = refl;
      },
    )
  ]

  pub record Took (out : List SensorRecord) (max_records n : ℕ) (out' : List SensorRecord)
      (log' : SensorLog) : Type 0 where
    pub ring : log'.ring ≡ popped log.ring out max_records
    pub records : out' ≡ take n (contents log.ring) ++ drop n out
    pub held : n ≤ fill log.ring
    pub left : fill log'.ring ≡ fill log.ring - n
    pub head : log'.ring.head ≡ log.ring.head
    pub tail : log'.ring.tail ≡ add32 log.ring.tail n
    pub overwritten : log'.ring.overwritten ≡ log.ring.overwritten
    pub valid : IsValid log'.ring
    pub mutex : log'.mutex ≡ log.mutex

  pub read-Took :
      (out : List SensorRecord) (max_records c : ℕ)
      → max_records ≤ length out
      → gets env log max_wait ≡ true
      → (out' : List SensorRecord) × (log' : SensorLog) × (read env log
            (some out)
            max_records
            max_wait
            (some c)
          ≡ (true, some out', some (pop_count log.ring max_records), log'))
        × Took out max_records (pop_count log.ring max_records) out' log'
  read-Took out max_records c enough got =
      let n = pop_count log.ring max_records in
      let rb' : RingBuffer = popped log.ring out max_records in
      let same = unlock-ring env (with_ring log rb') env.locked_at_us in
      (
        take n (contents log.ring) ++ drop n out,
        unlock env (with_ring log rb') env.locked_at_us,
        unfold read in
            rw (lock-gets env log max_wait, read) (rw got (rw (pop_eq out max_records v enough))),
        record {
          ring = same;
          records = refl;
          held = (pop_count-le log.ring max_records).0;
          left = rw same (omega (arith, fill-pop_body out max_records v));
          head = rw same (popped-counters log.ring out max_records).0;
          tail = rw same (popped-counters log.ring out max_records).1;
          overwritten = rw same (popped-counters log.ring out max_records).2;
          valid = rw same (pop_body-IsValid out max_records v);
          mutex = unlock-mutex env (with_ring log rb') env.locked_at_us;
        },
      )

-- Without the mutex a read only clears its count.
pub read-busy :
    (env : LockEnv) (log : SensorLog) (out : List SensorRecord) (max_records max_wait c : ℕ)
    → gets env log max_wait ≡ false
    → read env log (some out) max_records max_wait (some c) ≡ (false, some out, some 0, log)
read-busy env log out max_records max_wait c busy =
    unfold read in rw (lock-gets env log max_wait, read) (rw busy)

pub read-mutex :
    (env : LockEnv) (log : SensorLog) (out : List SensorRecord) (max_records max_wait c : ℕ)
    → (read env log (some out) max_records max_wait (some c)).3.mutex ≡ log.mutex
unfolding read
read-mutex env log out max_records max_wait c = elim (Bool-cases (gets env log max_wait)) [
  | inl got ↦ rw (lock-gets env log max_wait, read) (rw got (unlock-mutex env _ env.locked_at_us))
  | inr busy ↦ rw (lock-gets env log max_wait, read) (rw busy refl)
]

-- Looking at the log leaves its ring alone.
pub peek_newest-ring :
    (env : LockEnv) (log : SensorLog) (out : SensorRecord) (max_wait : ℕ)
    → (peek_newest env log (some out) max_wait).2.ring ≡ log.ring
unfolding peek_newest
peek_newest-ring env log out max_wait = elim (Bool-cases (gets env log max_wait)) [
  | inl got ↦
      rw (lock-gets env log max_wait, peek_newest) (rw got (unlock-ring env log env.locked_at_us))
  | inr busy ↦ rw (lock-gets env log max_wait, peek_newest) (rw busy refl)
]

pub peek_newest-mutex :
    (env : LockEnv) (log : SensorLog) (out : SensorRecord) (max_wait : ℕ)
    → (peek_newest env log (some out) max_wait).2.mutex ≡ log.mutex
unfolding peek_newest
peek_newest-mutex env log out max_wait = elim (Bool-cases (gets env log max_wait)) [
  | inl got ↦
      rw (lock-gets env log max_wait, peek_newest) (rw got (unlock-mutex env log env.locked_at_us))
  | inr busy ↦ rw (lock-gets env log max_wait, peek_newest) (rw busy refl)
]

pub get_stats-ring :
    (env : LockEnv) (log : SensorLog) (out : LogStats) (max_wait : ℕ)
    → (get_stats env log (some out) max_wait).2.ring ≡ log.ring
unfolding get_stats
get_stats-ring env log out max_wait = elim (Bool-cases (gets env log max_wait)) [
  | inl got ↦
      rw (lock-gets env log max_wait, get_stats) (rw got (unlock-ring env log env.locked_at_us))
  | inr busy ↦ rw (lock-gets env log max_wait, get_stats) (rw busy refl)
]

pub get_stats-mutex :
    (env : LockEnv) (log : SensorLog) (out : LogStats) (max_wait : ℕ)
    → (get_stats env log (some out) max_wait).2.mutex ≡ log.mutex
unfolding get_stats
get_stats-mutex env log out max_wait = elim (Bool-cases (gets env log max_wait)) [
  | inl got ↦
      rw (lock-gets env log max_wait, get_stats) (rw got (unlock-mutex env log env.locked_at_us))
  | inr busy ↦ rw (lock-gets env log max_wait, get_stats) (rw busy refl)
]
