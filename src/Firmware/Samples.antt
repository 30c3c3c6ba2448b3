-- ===== src/Firmware/Samples.antt =====
-- From the timer's interrupt to the consumer's count.
use mathlib.Core.Path.{subst}
use zybo_rtos_sensor_aggrega.Prelude.{
  ℕ, ◌+◌, ◌≡◌, refl, sym, ap, ◌∙◌, Bool, true, ◌&&◌, leb, List, [], ◌∷◌, length, u32, arith,
}
use zybo_rtos_sensor_aggrega.Config.{app_consumer_queue_len, app_log_read_batch}
use zybo_rtos_sensor_aggrega.Rtos.{Notification, Queue}
use zybo_rtos_sensor_aggrega.Message.{Msg}
use zybo_rtos_sensor_aggrega.Gpio.{Gpio}
use zybo_rtos_sensor_aggrega.Watchdog.{Wdog}
use zybo_rtos_sensor_aggrega.Ring.Refine.{view}
use zybo_rtos_sensor_aggrega.SampleTimer
use zybo_rtos_sensor_aggrega.SampleTimer.{Callback, SampleTimer, Ttc, InitEnv, period_us_of}
use zybo_rtos_sensor_aggrega.Producer.{Producer}
use zybo_rtos_sensor_aggrega.Producer.Timer.{enter, looping}
use zybo_rtos_sensor_aggrega.Producer.Timer.Ticks.{enter-Hooked}
use zybo_rtos_sensor_aggrega.System
use zybo_rtos_sensor_aggrega.System.{System}
use zybo_rtos_sensor_aggrega.System.Accounts.{samples_accounted}
use zybo_rtos_sensor_aggrega.Tasks
use zybo_rtos_sensor_aggrega.Tasks.{Tasks, TaskEvent}
use zybo_rtos_sensor_aggrega.Tasks.Bell.{all_roomy}
use zybo_rtos_sensor_aggrega.Tasks.Pair.{deeds, pair-run, all_fit-deeds}
use zybo_rtos_sensor_aggrega.Firmware.{
  Event, interrupt, sample, consume, command, Firmware, step, run, start,
}
use zybo_rtos_sensor_aggrega.Firmware.Ticks.{Ticked, ended, run-Ticked}

-- The consumer's array has room for a batch.
abbrev pub roomy_event : Event → Bool
roomy_event (consume env) = leb app_log_read_batch (length env.batch)
roomy_event e = true

abbrev pub all_roomy_events : List Event → Bool
all_roomy_events [] = true
all_roomy_events (e ∷ es) = roomy_event e && all_roomy_events es

-- The samples taken are those received, overwritten, held and dropped.
abbrev Balanced : System → Type 0
Balanced s =
    s.producer.stats.samples
    ≡ u32 (
        s.world.state.received
        + s.world.log.ring.overwritten
        + length (view s.world.log.ring).items
        + s.producer.stats.log_write_drops)

module _ (queues : Queue Msg app_consumer_queue_len) (n : Notification) where
  open n use {count, take, cleared, count-cleared}

  -- What the tasks do in a run, with the ticks that the producer finds.
  abbrev pub task_events : Ttc → List Event → Firmware queues n → List TaskEvent
  task_events c [] f = []
  task_events c (interrupt irq_status ∷ es) f =
      task_events c es (step queues n c (interrupt irq_status) f)
  task_events c (sample env ∷ es) f =
      Tasks.sample (record env { pending_ticks = (take f.notified).0 })
      ∷ task_events c es (step queues n c (sample env) f)
  task_events c (consume env ∷ es) f =
      Tasks.consume env ∷ task_events c es (step queues n c (consume env) f)
  task_events c (command id key ∷ es) f =
      Tasks.command id key ∷ task_events c es (step queues n c (command id key) f)

  tasks-run :
      (c : Ttc) (es : List Event) (f : Firmware queues n)
      → (run queues n c es f).tasks ≡ Tasks.run queues (task_events c es f) f.tasks
  unfolding run step Tasks.run
  tasks-run c [] f = refl
  tasks-run c (interrupt irq_status ∷ es) f =
      tasks-run c es (step queues n c (interrupt irq_status) f)
  tasks-run c (sample env ∷ es) f = tasks-run c es (step queues n c (sample env) f)
  tasks-run c (consume env ∷ es) f = tasks-run c es (step queues n c (consume env) f)
  tasks-run c (command id key ∷ es) f = tasks-run c es (step queues n c (command id key) f)

  all_roomy-task_events :
      (c : Ttc) (es : List Event) (f : Firmware queues n)
      → all_roomy (task_events c es f) ≡ all_roomy_events es
  all_roomy-task_events c [] f = refl
  all_roomy-task_events c (interrupt irq_status ∷ es) f =
      all_roomy-task_events c es (step queues n c (interrupt irq_status) f)
  all_roomy-task_events c (sample env ∷ es) f =
      all_roomy-task_events c es (step queues n c (sample env) f)
  all_roomy-task_events c (consume env ∷ es) f =
      ap (λ b. leb app_log_read_batch (length env.batch) && b)
        (all_roomy-task_events c es (step queues n c (consume env) f))
  all_roomy-task_events c (command id key ∷ es) f =
      all_roomy-task_events c es (step queues n c (command id key) f)

  -- Every tick of the timer is accounted for, from the interrupt to the consumer: once the producer has entered
  -- its loop with the timer set up, whatever interrupts, passes, commands and steps follow, the
  -- consumer's array with room for a batch, modulo 2^32 the times that the counter came to the end of its
  -- interval are the records that the consumer has received, those that the log has overwritten, those
  -- that it still holds, those that the producer has dropped, its overruns, and the ticks still pending.
  pub ticks_to_records :
      (c : Ttc) (env : InitEnv) (cb : Callback) (wdt_running : Bool) (t : SampleTimer)
      {calls : List SampleTimer.Call} {t' : SampleTimer} {p : Producer} (es : List Event)
      (now_tick : ℕ) (gpio : Gpio) (wdog : Wdog)
      → enter c env cb wdt_running t ≡ (calls, t', looping p)
      → all_roomy_events es ≡ true
      → let f = run queues n c es (start queues n t' now_tick gpio wdog) in
        let s = f.tasks.pair in
        u32 (ended c es)
        ≡ u32 (
            s.world.state.received
            + s.world.log.ring.overwritten
            + length (view s.world.log.ring).items
            + s.producer.stats.log_write_drops
            + s.producer.stats.overruns
            + count f.notified)
  ticks_to_records c env cb wdt_running t {calls} {t'} {p} es now_tick gpio wdog e roomy =
      let f0 = start queues n t' now_tick gpio wdog in
      let f = run queues n c es f0 in
      let begin : Ticked queues n c cb f0 0 = record {
        hooked = (enter-Hooked c env cb wdt_running t e).0;
        counts = omega (arith, count-cleared);
      } in
      let h : Ticked queues n c cb f (0 + ended c es) = run-Ticked queues n es begin in
      let events = task_events c es f0 in
      let happened : f.tasks.pair ≡ System.run (deeds queues events f0.tasks) f0.tasks.pair =
        ap (λ (s : Tasks queues). s.pair) (tasks-run c es f0) ∙ pair-run queues events f0.tasks in
      let records =
        samples_accounted (deeds queues events f0.tasks) (period_us_of t') now_tick gpio wdog
          (all_fit-deeds queues events f0.tasks ∙ all_roomy-task_events c es f0 ∙ roomy) in
      let balanced : Balanced f.tasks.pair = subst Balanced (sym happened) records in
      omega (arith, balanced, h.counts)
