-- ===== src/SensorLog/Laws.antt =====
-- What the log promises its two users, and what its statistics count.
use zybo_rtos_sensor_aggrega.Prelude.{
  ℕ, ◌+◌, ◌≤◌, ◌≡◌, refl, sym, ap, ◌∙◌, min, max, Bool, true, false, none, some, List, ◌++◌, arith,
  ◌==◌, length, length-replicate, take, drop, u32, sub64,
}
use zybo_rtos_sensor_aggrega.Config.{app_log_capacity, board_ddr_base_addr, board_ddr_high_addr}
use zybo_rtos_sensor_aggrega.Sample.{SensorRecord, zero_record}
use zybo_rtos_sensor_aggrega.Ring
use zybo_rtos_sensor_aggrega.Ring.{RingBuffer}
use zybo_rtos_sensor_aggrega.Ring.Fifo
use zybo_rtos_sensor_aggrega.Ring.Fifo.{Fifo, empty}
use zybo_rtos_sensor_aggrega.Ring.Inv.{IsValid}
use zybo_rtos_sensor_aggrega.Ring.Refine.{
  view, length-contents, push_refines, pop_refines, peek_refines, init_accepts,
}
use zybo_rtos_sensor_aggrega.Ring.Trace.{Ledger, Agrees}
use zybo_rtos_sensor_aggrega.SensorLog.{
  ok, SensorLog, LockEnv, LogStats, static_storage, storage_bytes, lock, unlock, init, write, read,
  peek_newest, stats_of, get_stats,
}

-- The longest hold after one more hold.
abbrev pub held : LockEnv → ℕ
held env = u32 (sub64 env.unlocked_at_us env.locked_at_us)

-- The mutex exists and is obtained within `max_wait`.
abbrev pub Locks : LockEnv → SensorLog → ℕ → Type 0
Locks env log max_wait = (log.mutex ≡ true) × (env.take max_wait ≡ true)

lock_lem :
    (env : LockEnv) (log : SensorLog) (max_wait : ℕ)
    → Locks env log max_wait
    → lock env log max_wait ≡ some env.locked_at_us
unfolding lock
lock_lem env log max_wait l = ground arith

-- The log after one hold of the lock, with the ring it was given.
abbrev pub after : LockEnv → SensorLog → RingBuffer → SensorLog
after env log rb = record log { ring = rb; lock_hold_max_us = max log.lock_hold_max_us (held env) }

unlock_lem :
    (env : LockEnv) (log : SensorLog) (rb : RingBuffer)
    → unlock env (record log { ring = rb }) env.locked_at_us ≡ after env log rb
unfolding unlock
unlock_lem env log rb = ground arith

-- `sensor_log_init` with the array inside DDR and the mutex created succeeds, with a valid empty ring
-- of the configured capacity.
init_ok :
    (log : SensorLog) (storage_first : ℕ)
    → board_ddr_base_addr ≤ storage_first
    → storage_first + storage_bytes ≤ board_ddr_high_addr + 1
    → (log' : SensorLog) × (init log storage_first true ≡ (ok, log'))
      × (log'.mutex ≡ true)
      × (log'.ring.capacity ≡ app_log_capacity)
      × (view log'.ring ≡ empty)
      × IsValid log'.ring
init_ok log storage_first lo hi =
    let enough : app_log_capacity ≤ length static_storage =
      unfold static_storage in omega (arith, length-replicate app_log_capacity zero_record) in
    let (rb', e, cap, seen, v) =
      init_accepts log.ring static_storage app_log_capacity 12 enough refl (omega arith) in
    (
      record log { ring = rb'; mutex = true },
      unfold init in rw e (ground arith),
      refl,
      cap,
      seen,
      v,
    )

-- `sensor_log_write` with the lock: it returns true, says whether the log was empty, and appends the
-- record to the log's queue, dropping the oldest if it was full; the longest hold is kept up.
pub write_locked :
    (env : LockEnv) (log : SensorLog) (r : SensorRecord) (max_wait : ℕ) (b : Bool)
    → IsValid log.ring
    → Locks env log max_wait
    → (log' : SensorLog) × (write env log (some r) max_wait (some b)
        ≡ (true, some (length (view log.ring).items == 0), log'))
      × (view log'.ring ≡ Fifo.push log.ring.capacity (view log.ring) r)
      × IsValid log'.ring
      × (log'.lock_hold_max_us ≡ max log.lock_hold_max_us (held env))
write_locked env log r max_wait b v l =
    let (rb', e, seen, v') = push_refines r v in
    (
      after env log rb',
      unfold write in
          rw (lock_lem env log max_wait l, write)
            (rw (e, unlock_lem env log rb') (unfold Ring.count in rw (length-contents log.ring))),
      seen,
      v',
      refl,
    )

-- `sensor_log_read` with the lock, into an array of at least `max_records`: it moves the oldest
-- records, as many as there are up to `max_records`, to the front of the array in order, counts them,
-- and keeps the rest in the log.
pub read_locked :
    (env : LockEnv) (log : SensorLog) (out : List SensorRecord) (max_records max_wait c : ℕ)
    → IsValid log.ring
    → max_records ≤ length out
    → Locks env log max_wait
    → let n = min max_records (length (view log.ring).items) in
      (log' : SensorLog) × (read env log (some out) max_records max_wait (some c)
        ≡ (true, some (take n (view log.ring).items ++ drop n out), some n, log'))
      × (view log'.ring ≡ Fifo.pop (view log.ring) n)
      × IsValid log'.ring
      × (log'.lock_hold_max_us ≡ max log.lock_hold_max_us (held env))
read_locked env log out max_records max_wait c v enough l =
    let (rb', e, seen, v') = pop_refines out max_records v enough in
    (
      after env log rb',
      unfold read in rw (lock_lem env log max_wait l, read) (rw (e, unlock_lem env log rb')),
      seen,
      v',
      refl,
    )

-- `sensor_log_peek_newest` with the lock copies the newest record ever written, read or not, and
-- returns false on a log that was never written; the ring is as before.
peek_locked :
    (env : LockEnv) (log : SensorLog) (out : SensorRecord) (max_wait : ℕ)
    → IsValid log.ring
    → Locks env log max_wait
    → peek_newest env log (some out) max_wait ≡ (elim (view log.ring).newest [
      | none ↦ (false, some out, after env log log.ring)
      | some r ↦ (true, some r, after env log log.ring)
    ])
unfolding peek_newest
peek_locked env log out max_wait v l =
    rw (lock_lem env log max_wait l, peek_newest)
      (ground (arith, peek_refines out v, unlock_lem env log log.ring))

-- What `sensor_log_get_stats` reports of a log whose ring agrees with a ledger: the counts of the
-- ledger modulo 2^32, the number of records waiting, and the records written are, modulo 2^32, those
-- read, overwritten and waiting together.
get_stats_lem :
    (env : LockEnv) (log : SensorLog) (out : LogStats) (max_wait : ℕ) (l : Ledger)
    → Agrees log.ring l
    → Locks env log max_wait
    → (s : LogStats) × (get_stats env log (some out) max_wait
        ≡ (true, some s, after env log log.ring))
      × (s.written ≡ u32 l.pushed)
      × (s.read ≡ u32 l.popped)
      × (s.overwritten ≡ u32 l.lost)
      × (s.fill ≡ length l.queue.items)
      × (s.written ≡ u32 (s.read + s.overwritten + s.fill))
      × (s.fill ≤ s.fill_high_water)
      × (s.fill_high_water ≤ s.capacity)
unfolding stats_of
get_stats_lem env log out max_wait l a h = (
  stats_of log,
  unfold get_stats in
      rw (lock_lem env log max_wait h, get_stats) (rw (unlock_lem env log log.ring)),
  a.head,
  omega (arith, a.tail, a.overwritten),
  a.overwritten,
  waiting,
  omega (arith, a.head, a.tail, a.overwritten, a.balance, waiting),
  unfold Ring.count in a.valid.peak,
  a.valid.peak_within,
)
  where
    waiting : Ring.count (some log.ring) ≡ length l.queue.items
    waiting =
        unfold Ring.count in
        sym (length-contents log.ring) ∙ ap (λ (q : Fifo). length q.items) a.same
