-- ===== src/System/Accounts.antt =====
-- What becomes of every sample, over any interleaving of the two tasks.
use mathlib.Core.Path.{subst}
use zybo_rtos_sensor_aggrega.Prelude.{
  ℕ, ◌+◌, ◌≡◌, refl, sym, ap, ◌∙◌, inl, inr, true, List, [], ◌∷◌, ◌==◌, if◌then◌else◌, length, u32,
  arith, Bool-cases,
}
use zybo_rtos_sensor_aggrega.Sample.{SensorRecord}
use zybo_rtos_sensor_aggrega.Ring.Fifo.{Fifo}
use zybo_rtos_sensor_aggrega.Ring.Refine.{view}
use zybo_rtos_sensor_aggrega.Ring.Trace
use zybo_rtos_sensor_aggrega.Ring.Trace.{
  Agrees, Ledger, spec_step, put, take_out, push_body-Agrees, popped-Agrees,
}
use zybo_rtos_sensor_aggrega.Producer
use zybo_rtos_sensor_aggrega.Producer.{Producer, sample_pass, timed_out, take_sample}
use zybo_rtos_sensor_aggrega.Gpio.{Gpio}
use zybo_rtos_sensor_aggrega.Watchdog.{Wdog}
use zybo_rtos_sensor_aggrega.Consumer.Counts.{last_from}
use zybo_rtos_sensor_aggrega.Consumer.Messages
use zybo_rtos_sensor_aggrega.Consumer.Steps.Stepped.{step_at-Stepped}
use zybo_rtos_sensor_aggrega.System.{
  System, Event, sample, consume, step, run, start, fits, all_fit,
}
use zybo_rtos_sensor_aggrega.System.Start.{fresh_log-Agrees}
use zybo_rtos_sensor_aggrega.System.Accounted.{
  dropped_since, Accounted, idle-Accounted, written-Accounted, missed-Accounted, Reads-Accounted,
  Quiet-Accounted,
}

sample-Accounted :
    (env : Producer.PassEnv) (s : System) (behind : ℕ)
    → Accounted behind s
    → Accounted
        (if env.pending_ticks == 0
          then behind
          else if env.lock.take env.write_wait
          then 0
          else behind + 1)
        (step (sample env) s)
sample-Accounted env s behind a = elim (Bool-cases (env.pending_ticks == 0)) [
  | inl idle ↦ rw idle (idle-Accounted env s idle a)
  | inr busy ↦ elim (Bool-cases (env.lock.take env.write_wait)) [
    | inl takes ↦ rw (busy, takes) (written-Accounted env s busy (ground (arith, a.mutex, takes)) a)
    | inr fails ↦ rw (busy, fails) (missed-Accounted env s busy (ground (arith, fails)) a)
  ]
]

consume-Accounted :
    (env : Messages.PassEnv) (s : System) {behind : ℕ}
    → fits (consume env) ≡ true
    → Accounted behind s
    → Accounted behind (step (consume env) s)
unfolding step
consume-Accounted env s enough a =
    let t = step_at-Stepped env s.phase s.world a.agrees.valid (ground (arith, enough)) a.room in
    elim (t.effect) [
      | inl quiet ↦ Quiet-Accounted s t.room quiet a
      | inr reads ↦ Reads-Accounted s t.room reads a
    ]

run-Accounted :
    (es : List Event) {s : System} {behind : ℕ}
    → all_fit es ≡ true
    → Accounted behind s
    → Accounted (dropped_since es behind) (run es s)
unfolding run dropped_since
run-Accounted [] f a = a
run-Accounted (sample env ∷ es) {s} {behind} f a =
    run-Accounted es (ground (arith, f)) (sample-Accounted env s behind a)
run-Accounted (consume env ∷ es) {s} f a =
    run-Accounted es (ground (arith, f)) (consume-Accounted env s (ground (arith, f)) a)

start-Accounted :
    (timer_period_us now_tick : ℕ) (gpio : Gpio) (wdog : Wdog)
    → Accounted 0 (start timer_period_us now_tick gpio wdog)
start-Accounted timer_period_us now_tick gpio wdog = record {
  ledger = Trace.start;
  dropped = 0;
  agrees = fresh_log-Agrees;
  mutex = refl;
  room = refl;
  samples = refl;
  seq = refl;
  drops = refl;
  received = refl;
  lost = refl;
  newest = refl;
}

-- Every sample is accounted for: whatever the two tasks do from their start, the consumer's array with
-- room for a batch, modulo 2^32 the producer has taken as many samples as the consumer has received, the
-- log has overwritten, the log still holds, and the producer has dropped, together.
pub samples_accounted :
    (es : List Event) (timer_period_us now_tick : ℕ) (gpio : Gpio) (wdog : Wdog)
    → all_fit es ≡ true
    → let s = run es (start timer_period_us now_tick gpio wdog) in
      s.producer.stats.samples
      ≡ u32 (
          s.world.state.received
          + s.world.log.ring.overwritten
          + length (view s.world.log.ring).items
          + s.producer.stats.log_write_drops)
samples_accounted es timer_period_us now_tick gpio wdog f =
    let a = run-Accounted es f (start-Accounted timer_period_us now_tick gpio wdog) in
    let held = ap (λ (q : Fifo). length q.items) a.agrees.same in
    omega (arith, a.samples, a.received, a.drops, a.agrees.overwritten, a.agrees.balance, held)

-- The consumer's `lost`, once the log is empty, after whatever the two tasks did from their start, the
-- consumer's array with room for a batch: modulo 2^32 it counts the overwritten and the dropped
-- samples, but for those dropped since a sample last reached the log; after such drops it is too small
-- by their number, until another sample is received.
pub lost_when_drained :
    (es : List Event) (timer_period_us now_tick : ℕ) (gpio : Gpio) (wdog : Wdog) {s : System}
    → all_fit es ≡ true
    → run es (start timer_period_us now_tick gpio wdog) ≡ s
    → (view s.world.log.ring).items ≡ []
    → u32 (s.world.state.lost + dropped_since es 0)
      ≡ u32 (s.world.log.ring.overwritten + s.producer.stats.log_write_drops)
lost_when_drained es timer_period_us now_tick gpio wdog {s} f reached empty =
    let a : Accounted (dropped_since es 0) s =
      subst (Accounted (dropped_since es 0)) reached
        (run-Accounted es f (start-Accounted timer_period_us now_tick gpio wdog)) in
    let none_held : a.ledger.queue.items ≡ [] =
      ap (λ (q : Fifo). q.items) (sym a.agrees.same) ∙ empty in
    let newest : u32 (s.world.state.last_seq + dropped_since es 0)
        ≡ u32 (a.ledger.pushed + a.dropped) =
      ap
        (λ (xs : List SensorRecord). u32 (last_from xs s.world.state.last_seq + dropped_since es 0))
        (sym none_held)
      ∙ a.newest in
    omega (
      arith,
      a.lost,
      newest,
      a.received,
      a.drops,
      a.agrees.overwritten,
      a.agrees.balance,
      ap length none_held,
    )
