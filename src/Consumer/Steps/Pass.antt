-- ===== src/Consumer/Steps/Pass.antt =====
-- The steps of the consumer against a whole pass of its loop.
use mathlib.Core.Option
use zybo_rtos_sensor_aggrega.Prelude.{
  ℕ, zero, suc, ◌+◌, ◌-◌, ◌≤◌, ◌≡◌, refl, sym, ap, ◌∙◌, Bool, false, inl, inr, Option, none, some,
  List, [], ◌++◌, ltb, arith, Bool-cases, Option-cases, append-nil, append_assoc,
}
use zybo_rtos_sensor_aggrega.Config.{app_log_read_batch, app_log_drain_batches_max}
use zybo_rtos_sensor_aggrega.Sample.{SensorRecord}
use zybo_rtos_sensor_aggrega.SensorLog
use zybo_rtos_sensor_aggrega.SensorLog.{SensorLog}
use zybo_rtos_sensor_aggrega.Watchdog
use zybo_rtos_sensor_aggrega.Watchdog.{Wdog}
use zybo_rtos_sensor_aggrega.Consumer.{
  World, Out, process_batch, check_stall, drain_from, drain_log,
}
use zybo_rtos_sensor_aggrega.Consumer.Messages
use zybo_rtos_sensor_aggrega.Consumer.Messages.{answer, pass}
use zybo_rtos_sensor_aggrega.Consumer.Steps.{Phase, receiving, reading, closing, stopped, step_at}

-- That many steps of the consumer, nothing coming between them.
unfoldable pub walk : Messages.PassEnv → ℕ → Phase × World → List Out × Phase × World
walk env zero (phase, w) = ([], phase, w)
walk env (suc n) (phase, w) =
    let (outs, next, w1) = step_at env phase w in
    let (outs', last, w2) = walk env n (next, w1) in (outs ++ outs', last, w2)

-- What a walk that has come back to the queue, or stopped, gives as a pass.
abbrev pub as_pass : List Out × Phase × World → Option (List Out × Option (Bool × World))
as_pass (outs, receiving again, w) = some (outs, some (again, w))
as_pass (outs, stopped, w) = some (outs, none)
as_pass (outs, reading batch left, w) = none
as_pass (outs, closing again, w) = none

-- `k` steps behind `n` others.
abbrev behind : ℕ → ℕ → ℕ
behind zero k = k
behind (suc n) k = suc (behind n k)

-- What the drain from here on prints and leaves, and then `k` steps behind it.
abbrev drain_then : Messages.PassEnv → ℕ → List SensorRecord → ℕ → World → List Out × Phase × World
drain_then env k batch left w =
    let (again, outs, w') =
      drain_from env.locks env.msg_env.read_wait batch (app_log_drain_batches_max - left) left w in
    let (outs', last, w2) = walk env k (closing again, w') in (outs ++ outs', last, w2)

drain_steps :
    (env : Messages.PassEnv) (batch : List SensorRecord) (left : ℕ) (w : World)
    → left ≤ app_log_drain_batches_max
    → (n : ℕ) × (n ≤ left + 1)
      × ((k : ℕ) → walk env (behind n k) (reading batch left, w) ≡ drain_then env k batch left w)
unfolding walk step_at drain_from
drain_steps env batch zero w h = (1, omega arith, λ k. refl)
drain_steps env batch (suc left) w h =
    let read : Bool × Option (List SensorRecord) × Option ℕ × SensorLog =
      SensorLog.read (env.locks (app_log_drain_batches_max - suc left)) w.log (some batch)
        app_log_read_batch env.msg_env.read_wait (some 0) in
    elim (Bool-cases (read.0)) [
      | inr busy ↦ (1, omega arith, λ k. rw busy refl)
      | inl got ↦ elim (Bool-cases (ltb (Option.get_or (read.2) 0) app_log_read_batch)) [
        | inl short ↦ (1, omega arith, λ k. rw got (rw short refl))
        | inr full ↦
            let filled : List SensorRecord = Option.get_or (read.1) batch in
            let outs : List Out =
              (process_batch filled 0 (Option.get_or (read.2) 0) (record w { log = read.3 })).0 in
            let w1 : World =
              (process_batch filled 0 (Option.get_or (read.2) 0) (record w { log = read.3 })).1 in
            let (n, few, ih) = drain_steps env filled left w1 (omega arith) in
            let index : app_log_drain_batches_max - left
                ≡ app_log_drain_batches_max - suc left + 1 =
              omega (arith, h) in
            let rest : Bool × List Out × World =
              drain_from env.locks env.msg_env.read_wait filled
                (app_log_drain_batches_max - suc left + 1) left w1 in
            let next : (k : ℕ) → List Out × Phase × World =
              λ k. walk env k (closing (rest.0), rest.2) in
            let ih' : (k : ℕ)
                → walk env (behind n k) (reading filled left, w1)
                  ≡ (rest.1 ++ (next k).0, (next k).1, (next k).2) =
              λ k. rw index at ih k in
            (
              suc n,
              omega (arith, few),
              λ k. rw got (
                  rw full (
                    ap (λ (r : List Out × Phase × World). (outs ++ r.0, r.1, r.2)) (ih' k)
                    ∙ ap (λ (os : List Out). (os, (next k).1, (next k).2))
                        (sym (append_assoc outs (rest.1) ((next k).0))))),
            )
      ]
    ]

walk_one :
    (env : Messages.PassEnv) (phase : Phase) (w : World)
    → walk env (suc zero) (phase, w) ≡ step_at env phase w
unfolding walk
walk_one env phase w =
    ap (λ (outs : List Out). (outs, (step_at env phase w).1, (step_at env phase w).2))
      (append-nil ((step_at env phase w).0))

walk_next :
    (env : Messages.PassEnv) (n : ℕ) (phase : Phase) (w : World) {phase' : Phase} {w' : World}
    {outs : List Out}
    → step_at env phase w ≡ (outs, phase', w')
    → walk env (suc n) (phase, w)
      ≡ (let (outs2, last, w2) = walk env n (phase', w') in (outs ++ outs2, last, w2))
unfolding walk
walk_next env n phase w e = rw e refl

-- The end of a pass: `outs` is what it printed before the drain, `outs2` what the drain printed.
abbrev end_of :
    Messages.PassEnv → List Out → List Out → Bool → World → List Out × Option (Bool × World)
end_of env outs outs2 again w =
    let (warning, state) =
      check_stall env.stall_ticks env.tick env.now_us env.producer_samples w.state in
    (
      outs ++ (outs2 ++ warning),
      Option.map (λ (g : Wdog). (again, record w { state = state; wdog = g }))
          (Watchdog.checkin Watchdog.client_consumer env.tick w.wdog),
    )

close_step :
    (env : Messages.PassEnv) (outs outs2 : List Out) (again : Bool) (w : World)
    → let (outs3, phase, w') = step_at env (closing again) w in
      as_pass (outs ++ (outs2 ++ outs3), phase, w') ≡ some (end_of env outs outs2 again w)
unfolding step_at
close_step env outs outs2 again w =
    elim (Option-cases (Watchdog.checkin Watchdog.client_consumer env.tick w.wdog)) [
      | inl hangs ↦ rw (hangs, step_at) refl
      | inr (g, e) ↦ rw (e, step_at) refl
    ]

behind_one : (n : ℕ) → behind n (suc zero) ≡ n + 1
behind_one zero = refl
behind_one (suc n) = omega (arith, behind_one n)

-- A pass of the consumer's loop is at most seven of its steps with nothing between them: it prints the
-- same, and comes back to the queue with the same state and backlog, or stops where the pass does.
pass-walk :
    (env : Messages.PassEnv) (backlog_pending : Bool) (w : World)
    → (n : ℕ) × (n ≤ 7)
      × (as_pass (walk env n (receiving backlog_pending, w)) ≡ some (pass env backlog_pending w))
unfolding step_at drain_log
pass-walk env backlog_pending w =
    let outs : List Out = (answer env backlog_pending w).0 in
    elim (Option-cases ((answer env backlog_pending w).1)) [
      | inl gone ↦ (
        suc zero,
        omega arith,
        rw (walk_one env (receiving backlog_pending) w)
            (unfold pass in rw (gone, step_at, pass) refl),
      )
      | inr (w1, e) ↦ elim (Bool-cases w1.state.drain_paused) [
        | inl paused ↦
            let at_queue : step_at env (receiving backlog_pending) w ≡ (outs, closing false, w1) =
              rw (e, step_at) (rw paused refl) in
            let whole : pass env backlog_pending w ≡ end_of env outs ([]) false w1 =
              unfold pass in rw (e, pass) (rw (paused, drain_log) refl) in
            (
              suc (suc zero),
              omega arith,
              rw whole (
                  rw (walk_next env (suc zero) (receiving backlog_pending) w at_queue)
                    (rw (walk_one env (closing false) w1) (close_step env outs ([]) false w1))),
            )
        | inr running ↦
            let drained : Bool × List Out × World =
              drain_from env.locks env.msg_env.read_wait env.batch 0 app_log_drain_batches_max w1 in
            let (m, few, steps) =
              drain_steps env env.batch app_log_drain_batches_max w1 (omega arith) in
            let at_queue : step_at env (receiving backlog_pending) w
                ≡ (outs, reading env.batch app_log_drain_batches_max, w1) =
              rw (e, step_at) (rw running refl) in
            let whole : pass env backlog_pending w
                ≡ end_of env outs (drained.1) (drained.0) (drained.2) =
              unfold pass in rw (e, pass) (rw (running, drain_log) refl) in
            (
              suc (behind m (suc zero)),
              omega (arith, behind_one m, few),
              rw whole (
                  rw (walk_next env (behind m (suc zero)) (receiving backlog_pending) w at_queue) (
                    rw (steps (suc zero)) (
                      rw (walk_one env (closing (drained.0)) (drained.2))
                        (close_step env outs (drained.1) (drained.0) (drained.2))))),
            )
      ]
    ]
