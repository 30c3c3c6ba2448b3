-- ===== src/Consumer/Steps/Stepped.antt =====
-- What one step of the consumer does, and when it goes to sleep.
use zybo_rtos_sensor_aggrega.Prelude.{
  ℕ, zero, suc, ◌≤◌, ◌≡◌, refl, ◌⊎◌, Bool, true, false, inl, inr, if◌then◌else◌, length, arith,
  Option-cases,
}
use zybo_rtos_sensor_aggrega.Config.{app_log_read_batch, app_log_drain_batches_max}
use zybo_rtos_sensor_aggrega.Ring.{fill}
use zybo_rtos_sensor_aggrega.Ring.Inv.{IsValid}
use zybo_rtos_sensor_aggrega.Watchdog
use zybo_rtos_sensor_aggrega.Watchdog.{Wdog}
use zybo_rtos_sensor_aggrega.Consumer.{World, State, check_stall}
use zybo_rtos_sensor_aggrega.Consumer.Messages
use zybo_rtos_sensor_aggrega.Consumer.Messages.{MsgEnv, answer, handle_msg, note_depth}
use zybo_rtos_sensor_aggrega.Consumer.Steps.{
  Phase, receiving, reading, closing, stopped, takes, step_at,
}
use zybo_rtos_sensor_aggrega.Consumer.Steps.Effects.{
  Quiet, Reads, roomy, asleep, answer-Quiet, read-AfterRead,
}

-- The consumer was on its way to its queue before, and no message made it change.
pub record Stays (env : Messages.PassEnv) (phase : Phase) (w w' : World) : Type 0 where
  pub was_asleep : asleep phase ≡ true
  pub ring : w'.log.ring ≡ w.log.ring
  pub paused : w'.state.drain_paused ≡ w.state.drain_paused
  pub takes_none : takes env phase ≡ false

-- What a step leaves: it is quiet or reads a batch; and where the consumer is asleep after it, the log is
-- empty, reading is paused, or it was asleep before.
pub record Stepped (env : Messages.PassEnv) (phase : Phase) (w : World) (phase' : Phase)
    (w' : World) : Type 0 where
  pub effect : Quiet w w' ⊎ Reads w w'
  pub room : roomy phase' ≡ true
  pub sleeps :
      asleep phase' ≡ true
      → (fill w'.log.ring ≡ 0) ⊎ ((w'.state.drain_paused ≡ true) ⊎ Stays env phase w w')

Quiet-self : (w : World) → Quiet w w
Quiet-self w = record { ring = refl; mutex = refl; received = refl; last_seq = refl; lost = refl }

answered-Stepped :
    (env : Messages.PassEnv) (backlog_pending : Bool) (w w1 : World)
    → Quiet w w1
    → app_log_read_batch ≤ length env.batch
    → (paused : Bool) → w1.state.drain_paused ≡ paused
    → Stepped env
        (receiving backlog_pending)
        w
        (if paused then closing false else reading env.batch app_log_drain_batches_max)
        w1
answered-Stepped env backlog_pending w w1 quiet enough true e = record {
  effect = inl quiet;
  room = refl;
  sleeps = λ h. inr (inl e);
}
answered-Stepped env backlog_pending w w1 quiet enough false e = record {
  effect = inl quiet;
  room = ground (arith, enough);
  sleeps = λ h. ground (arith, h);
}

receiving-Stepped :
    (env : Messages.PassEnv) (backlog_pending : Bool) (w : World)
    → app_log_read_batch ≤ length env.batch
    → let (outs, phase, w') = step_at env (receiving backlog_pending) w in
      Stepped env (receiving backlog_pending) w phase w'
unfolding step_at
receiving-Stepped env backlog_pending w enough =
    elim (Option-cases ((answer env backlog_pending w).1)) [
      | inl gone ↦
          rw (gone, step_at)
            (record { effect = inl (Quiet-self w); room = refl; sleeps = λ h. ground (arith, h) })
      | inr (w1, e) ↦
          rw (e, step_at)
            (answered-Stepped env backlog_pending w w1 (answer-Quiet env backlog_pending w w1 e)
              enough w1.state.drain_paused refl)
    ]

stall_keeps :
    (stall_ticks now_tick now_us samples : ℕ) (s : State)
    → let s' = (check_stall stall_ticks now_tick now_us samples s).1 in
      (s'.received ≡ s.received)
      × (s'.last_seq ≡ s.last_seq)
      × (s'.lost ≡ s.lost)
      × (s'.drain_paused ≡ s.drain_paused)
unfolding check_stall
stall_keeps stall_ticks now_tick now_us samples s =
    (ground arith, ground arith, ground arith, ground arith)

closing-Stepped :
    (env : Messages.PassEnv) (again : Bool) (w : World)
    → let (outs, phase, w') = step_at env (closing again) w in
      Stepped env (closing again) w phase w'
unfolding step_at
closing-Stepped env again w =
    let (received, last_seq, lost, paused) =
      stall_keeps env.stall_ticks env.tick env.now_us env.producer_samples w.state in
    elim (Option-cases (Watchdog.checkin Watchdog.client_consumer env.tick w.wdog)) [
      | inl hangs ↦
          rw (hangs, step_at)
            (record {
              effect = inl (record {
                ring = refl;
                mutex = refl;
                received = received;
                last_seq = last_seq;
                lost = lost;
              });
              room = refl;
              sleeps = λ h. ground (arith, h);
            })
      | inr (g, e) ↦
          rw (e, step_at)
            (record {
              effect = inl (record {
                ring = refl;
                mutex = refl;
                received = received;
                last_seq = last_seq;
                lost = lost;
              });
              room = refl;
              sleeps = λ h. inr (
                  inr (record { was_asleep = h; ring = refl; paused = paused; takes_none = refl }));
            })
    ]

-- Every step of the consumer.
pub step_at-Stepped :
    (env : Messages.PassEnv) (phase : Phase) (w : World)
    → IsValid w.log.ring
    → app_log_read_batch ≤ length env.batch
    → roomy phase ≡ true
    → let (outs, phase', w') = step_at env phase w in Stepped env phase w phase' w'
step_at-Stepped env (receiving backlog_pending) w v enough room =
    receiving-Stepped env backlog_pending w enough
step_at-Stepped env (reading batch zero) w v enough room =
    unfold step_at in
    record { effect = inl (Quiet-self w); room = refl; sleeps = λ h. ground (arith, h) }
step_at-Stepped env (reading batch (suc left)) w v enough room =
    let r = read-AfterRead env batch left w v (ground (arith, room)) in
    record { effect = r.effect; room = r.room; sleeps = λ h. inl (r.emptied h) }
step_at-Stepped env (closing again) w v enough room = closing-Stepped env again w
step_at-Stepped env stopped w v enough room =
    unfold step_at in
    record { effect = inl (Quiet-self w); room = refl; sleeps = λ h. ground (arith, h) }
