-- ===== src/Consumer/Backlog.antt =====
-- A consumer left alone reads its whole backlog.
use mathlib.Core.Option
use zybo_rtos_sensor_aggrega.Prelude.{
  ℕ, zero, suc, ◌+◌, ◌-◌, ◌*◌, ◌≤◌, ◌≡◌, refl, ap, ◌∙◌, Bool, true, false, Option, none, some, List,
  [], ◌∷◌, ltb, get_or, if◌then◌else◌, inl, inr, Bool-cases, length, length-drop, take, drop, arith,
}
use zybo_rtos_sensor_aggrega.Config.{app_log_read_batch, app_log_drain_batches_max}
use zybo_rtos_sensor_aggrega.Ring.Inv.{IsValid}
use zybo_rtos_sensor_aggrega.SensorLog
use zybo_rtos_sensor_aggrega.SensorLog.{LockEnv, SensorLog}
use zybo_rtos_sensor_aggrega.Sample.{SensorRecord, zero_record}
use zybo_rtos_sensor_aggrega.Watchdog
use zybo_rtos_sensor_aggrega.Watchdog.Checkin.{hangs, checkin-hangs}
use zybo_rtos_sensor_aggrega.Consumer.{
  World, State, Out, drain_log, drain_from, process_batch, process_record, count_record,
  check_stall,
}
use zybo_rtos_sensor_aggrega.Consumer.Drain.{waiting, count_all, drain_log_lem}
use zybo_rtos_sensor_aggrega.Consumer.Messages
use zybo_rtos_sensor_aggrega.Consumer.Messages.{pass, answer}

-- Passes in a row; `none` is a consumer that stops.
unfoldable pub passes : List Messages.PassEnv → Bool × World → Option (Bool × World)
passes [] at = some at
passes (env ∷ envs) (backlog_pending, w) = elim (pass env backlog_pending w).1 [
  | none ↦ none
  | some next ↦ passes envs next
]

-- No message waits, the mutex is free, and the array has room.
pub record Quiet (env : Messages.PassEnv) : Type 0 where
  pub silent : (wait : ℕ) → env.receive wait ≡ none
  pub free : (k : ℕ) → (env.locks k).take env.msg_env.read_wait ≡ true
  pub room : app_log_read_batch ≤ length env.batch

abbrev pub AllQuiet : List Messages.PassEnv → Type 0
AllQuiet [] = Unit
AllQuiet (env ∷ envs) = Quiet env × AllQuiet envs

abbrev hanging : World → Bool
hanging w = hangs Watchdog.client_consumer w.wdog

process_batch-wdog :
    (batch : List SensorRecord) (idx left : ℕ) (w : World)
    → (process_batch batch idx left w).1.wdog ≡ w.wdog
unfolding process_batch process_record
process_batch-wdog batch idx zero w = refl
process_batch-wdog batch idx (suc left) w =
    process_batch-wdog batch (idx + 1) left (process_record (get_or batch idx zero_record) w).1

drain_from-wdog :
    (locks : ℕ → LockEnv) (lock_wait : ℕ) (batch : List SensorRecord) (batch_num left : ℕ)
    (w : World)
    → (drain_from locks lock_wait batch batch_num left w).2.wdog ≡ w.wdog
unfolding drain_from
drain_from-wdog locks lock_wait batch batch_num zero w = refl
drain_from-wdog locks lock_wait batch batch_num (suc left) w =
    let read : Bool × Option (List SensorRecord) × Option ℕ × SensorLog =
      SensorLog.read (locks batch_num) w.log (some batch) app_log_read_batch lock_wait (some 0) in
    let filled : List SensorRecord = Option.get_or (read.1) batch in
    let count : ℕ = Option.get_or (read.2) 0 in
    let w1 : World = (process_batch filled 0 count (record w { log = read.3 })).1 in
    let same : w1.wdog ≡ w.wdog = process_batch-wdog filled 0 count (record w { log = read.3 }) in
    elim (Bool-cases (read.0)) [
      | inr busy ↦ rw busy refl
      | inl got ↦ elim (Bool-cases (ltb count app_log_read_batch)) [
        | inl short ↦ rw got (rw short same)
        | inr full ↦
            rw got (rw full (drain_from-wdog locks lock_wait filled (batch_num + 1) left w1 ∙ same))
      ]
    ]

drain_log-wdog :
    (locks : ℕ → LockEnv) (lock_wait : ℕ) (batch : List SensorRecord) (w : World)
    → (drain_log locks lock_wait batch w).2.wdog ≡ w.wdog
unfolding drain_log
drain_log-wdog locks lock_wait batch w = elim (Bool-cases w.state.drain_paused) [
  | inl paused ↦ ground (arith, paused)
  | inr running ↦
      let e : drain_log locks lock_wait batch w
          ≡ drain_from locks lock_wait batch 0 app_log_drain_batches_max w =
        ground (arith, running) in
      rw e (drain_from-wdog locks lock_wait batch 0 app_log_drain_batches_max w)
]

count_all-paused :
    (rs : List SensorRecord) (s : State) → (count_all rs s).drain_paused ≡ s.drain_paused
unfolding count_all count_record
count_all-paused [] s = refl
count_all-paused (r ∷ rs) s = count_all-paused rs (count_record r s)

stall-paused :
    (stall_ticks now_tick now_us samples : ℕ) (s : State)
    → (check_stall stall_ticks now_tick now_us samples s).1.drain_paused ≡ s.drain_paused
unfolding check_stall
stall-paused stall_ticks now_tick now_us samples s = ground arith

-- What a pass of a consumer left alone leaves.
record Passed (w : World) (w' : World) : Type 0 where
  left : waiting w' ≡ drop 64 (waiting w)
  valid : IsValid w'.log.ring
  mutex : w'.log.mutex ≡ true
  paused : w'.state.drain_paused ≡ false
  stays : hanging w' ≡ false

pass-Passed :
    (env : Messages.PassEnv) (backlog_pending : Bool) (w : World)
    → Quiet env
    → IsValid w.log.ring
    → w.log.mutex ≡ true
    → w.state.drain_paused ≡ false
    → hanging w ≡ false
    → (again : Bool) × (w' : World) × ((pass env backlog_pending w).1 ≡ some (again, w'))
      × Passed w w'
pass-Passed env backlog_pending w q v m running goes =
    let answered : answer env backlog_pending w ≡ ([], some w) =
      unfold answer in rw (q.silent (if backlog_pending then 0 else env.poll_ticks), answer) refl in
    let wait = env.msg_env.read_wait in
    let drained : Bool × List Out × World = drain_log env.locks wait env.batch w in
    let (again, counted, left, valid, mutex) =
      drain_log_lem env.locks wait env.batch w v m q.free q.room running in
    let w2 : World = drained.2 in
    let same : w2.wdog ≡ w.wdog = drain_log-wdog env.locks wait env.batch w in
    let (g, e, goes') =
      checkin-hangs Watchdog.client_consumer env.tick w2.wdog
        (ap (hangs Watchdog.client_consumer) same ∙ goes) in
    let state : State =
      (check_stall env.stall_ticks env.tick env.now_us env.producer_samples w2.state).1 in
    (
      drained.0,
      record w2 { state = state; wdog = g },
      unfold pass in rw (answered, pass) (rw e refl),
      record {
        left = left;
        valid = valid;
        mutex = mutex ∙ m;
        paused =
            stall-paused env.stall_ticks env.tick env.now_us env.producer_samples w2.state
            ∙ ap (λ (s : State). s.drain_paused) counted
            ∙ count_all-paused (take 64 (waiting w)) w.state
            ∙ running;
        stays = goes';
      },
    )

passes_next :
    (env : Messages.PassEnv) (envs : List Messages.PassEnv) (backlog_pending : Bool) (w : World)
    {next : Bool × World}
    → (pass env backlog_pending w).1 ≡ some next
    → passes (env ∷ envs) (backlog_pending, w) ≡ passes envs next
unfolding passes
passes_next env envs backlog_pending w e = rw (e, passes) refl

-- A consumer that is left alone reads its backlog to the end: from any state in which it reads and is not to
-- stop, passes in which no message comes and the mutex is free never stop it, and once 64 times their
-- number is at least that of the records waiting, the log is empty.
pub backlog_read :
    (envs : List Messages.PassEnv) (backlog_pending : Bool) (w : World)
    → AllQuiet envs
    → IsValid w.log.ring
    → w.log.mutex ≡ true
    → w.state.drain_paused ≡ false
    → hangs Watchdog.client_consumer w.wdog ≡ false
    → length (waiting w) ≤ 64 * length envs
    → (again : Bool) × (w' : World) × (passes envs (backlog_pending, w) ≡ some (again, w'))
      × (length (waiting w') ≡ 0)
unfolding passes
backlog_read [] backlog_pending w q v m running goes enough =
    (backlog_pending, w, refl, omega arith)
backlog_read (env ∷ envs) backlog_pending w q v m running goes enough =
    let (again, w1, e, p) = pass-Passed env backlog_pending w (q.0) v m running goes in
    let fewer : length (waiting w1) ≡ length (waiting w) - 64 =
      ap length p.left ∙ length-drop 64 (waiting w) in
    let (again', w', e', empty) =
      backlog_read envs again w1 (q.1) p.valid p.mutex p.paused p.stays (omega (arith, fewer)) in
    (again', w', passes_next env envs backlog_pending w e ∙ e', empty)
