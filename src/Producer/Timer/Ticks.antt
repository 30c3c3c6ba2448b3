-- ===== src/Producer/Timer/Ticks.antt =====
-- What becomes of the interrupts of the sample timer.
use mathlib.Core.Path.{subst, sym, ◌∙◌}
use zybo_rtos_sensor_aggrega.Prelude.{
  ℕ, ◌+◌, ◌≡◌, refl, ap, inl, inr, Bool, true, false, some, List, [], ◌∷◌, ◌==◌, if◌then◌else◌,
  bit_and, u32, arith, Bool-cases,
}
use zybo_rtos_sensor_aggrega.Config.{app_sample_rate_hz}
use zybo_rtos_sensor_aggrega.Rtos.{Notification}
use zybo_rtos_sensor_aggrega.Ring.Inv.{IsValid}
use zybo_rtos_sensor_aggrega.SampleTimer
use zybo_rtos_sensor_aggrega.SampleTimer.{
  Status, Callback, SampleTimer, Call, Ttc, InitEnv, isr, init, period_us_of,
}
use zybo_rtos_sensor_aggrega.SampleTimer.Setup.{is_ok, ticks, init_lem}
use zybo_rtos_sensor_aggrega.SensorLog.{SensorLog}
use zybo_rtos_sensor_aggrega.Producer.{Producer, PassEnv, initial}
use zybo_rtos_sensor_aggrega.Producer.Counts.{Totals, Tallies, none_yet, count_pass, pass-Tallies}
use zybo_rtos_sensor_aggrega.Producer.Timer.{
  Ticking, Event, interrupt, pass, Entry, halted, looping, after_init, enter, timer_tick_cb,
  answer_calls, step, run,
}

-- How often the counter has come to the end of its interval.
abbrev pub ended : Ttc → List Event → ℕ
ended c [] = 0
ended c (interrupt irq_status ∷ es) =
    (if bit_and irq_status c.interval_mask == 0 then 0 else 1) + ended c es
ended c (pass env ∷ es) = ended c es

-- The handler calls the producer's callback.
abbrev pub Hooked : Ttc → SampleTimer → Callback → Type 0
Hooked c t cb = (irq_status : ℕ) → isr c irq_status t ≡ ticks c irq_status cb

init-Hooked :
    (c : Ttc) (env : InitEnv) (cb : Callback) (t : SampleTimer)
    → is_ok (init c env app_sample_rate_hz (some cb) t).0 ≡ true
    → Hooked c (init c env app_sample_rate_hz (some cb) t).2 cb
init-Hooked c env cb t e irq_status =
    let (_, _, _, h, _) = init_lem c env app_sample_rate_hz irq_status cb t in rw e at h

abbrev reaches : Entry → Bool
reaches (halted acts) = false
reaches (looping p) = true

abbrev producer_of : Entry → Producer → Producer
producer_of (halted acts) p = p
producer_of (looping p') p = p'

after_init-looping :
    (wdt_running : Bool) (status : Status) (calls : List Call) (t : SampleTimer)
    {calls' : List Call} {t' : SampleTimer} {p : Producer}
    → after_init wdt_running status calls t ≡ (calls', t', looping p)
    → (is_ok status ≡ true) × (t ≡ t') × (initial (period_us_of t) ≡ p)
unfolding after_init
after_init-looping wdt_running SampleTimer.ok calls t {p = p} e = (
  refl,
  ap (λ (r : List Call × SampleTimer × Entry). r.1) e,
  ap (λ (r : List Call × SampleTimer × Entry). producer_of r.2 p) e,
)
after_init-looping wdt_running SampleTimer.err_param calls t e =
    let no : false ≡ true = ap (λ (r : List Call × SampleTimer × Entry). reaches r.2) e in
    ground (arith, no)
after_init-looping wdt_running failed calls t e =
    let no : false ≡ true = ap (λ (r : List Call × SampleTimer × Entry). reaches r.2) e in
    ground (arith, no)

-- A task that has entered its loop has the timer's handler hooked up.
pub enter-Hooked :
    (c : Ttc) (env : InitEnv) (cb : Callback) (wdt_running : Bool) (t : SampleTimer)
    {calls : List Call} {t' : SampleTimer} {p : Producer}
    → enter c env cb wdt_running t ≡ (calls, t', looping p)
    → Hooked c t' cb × (initial (period_us_of t') ≡ p)
unfolding enter
enter-Hooked c env cb wdt_running t {calls} {t'} {p} e =
    let (status, calls0, t0) = init c env app_sample_rate_hz (some cb) t in
    let (ok, timer, task) = after_init-looping wdt_running status calls0 t0 e in
    (
      subst (λ k. Hooked c k cb) timer (init-Hooked c env cb t ok),
      ap (λ k. initial (period_us_of k)) (sym timer) ∙ task,
    )

module _ (n : Notification) where
  open n use {Value, cleared, count, give, take, count-cleared, count-give, take-count, count-take}

  -- Every tick so far is one that a pass has answered or one still pending.
  record Ticked (base : ℕ) (c : Ttc) (cb : Callback) (s : Ticking n) (t : Totals) (interrupts : ℕ)
      : Type 0 where
    tallies : Tallies base s.producer s.log t
    ticks : u32 (t.ticks + count s.notified) ≡ u32 interrupts
    hooked : Hooked c s.timer cb

  pub interrupt-counts :
      (c : Ttc) (cb : Callback) (irq_status : ℕ) (v : Value)
      → count (answer_calls n (ticks c irq_status cb) v)
        ≡ (if bit_and irq_status c.interval_mask == 0 then count v else u32 (count v + 1))
  unfolding answer_calls timer_tick_cb
  interrupt-counts c cb irq_status v = elim (Bool-cases (bit_and irq_status c.interval_mask == 0)) [
    | inl going ↦ rw going refl
    | inr ends ↦ rw ends (count-give v)
  ]

  interrupt-Ticked :
      {base : ℕ} {c : Ttc} {cb : Callback} {s : Ticking n} {t : Totals} {k : ℕ} (irq_status : ℕ)
      → Ticked base c cb s t k
      → Ticked base c cb
          (step n c (interrupt irq_status) s)
          t
          (k + (if bit_and irq_status c.interval_mask == 0 then 0 else 1))
  unfolding step
  interrupt-Ticked {base} {c} {cb} {s} {t} {k} irq_status h = record {
    tallies = h.tallies;
    ticks =
        let now = ap (λ calls. count (answer_calls n calls s.notified)) (h.hooked irq_status) in
        ground (arith, now, interrupt-counts c cb irq_status s.notified, h.ticks);
    hooked = h.hooked;
  }

  pass-Ticked :
      {base : ℕ} {c : Ttc} {cb : Callback} {s : Ticking n} {t : Totals} {k : ℕ} (env : PassEnv)
      → Ticked base c cb s t k
      → (t' : Totals) × Ticked base c cb (step n c (pass env) s) t' k
  unfolding step
  pass-Ticked {base} {c} {cb} {s} {t} {k} env h =
      let env' = record env { pending_ticks = (take s.notified).0 } in
      (
        count_pass s.log.mutex env' t,
        record {
          tallies = (pass-Tallies env' h.tallies).0;
          ticks = ground (arith, take-count s.notified, count-take s.notified, h.ticks);
          hooked = h.hooked;
        },
      )

  run-Ticked :
      {base : ℕ} {c : Ttc} {cb : Callback} (es : List Event) {s : Ticking n} {t : Totals} {k : ℕ}
      → Ticked base c cb s t k
      → (t' : Totals) × Ticked base c cb (run n c es s) t' (k + ended c es)
  unfolding run
  run-Ticked {base} {c} {cb} [] {s} {t} {k} h =
      (t, let none_more : k + 0 ≡ k = omega arith in rw none_more h)
  run-Ticked {base} {c} {cb} (interrupt irq_status ∷ es) {s} {t} {k} h =
      let more : ℕ = if bit_and irq_status c.interval_mask == 0 then 0 else 1 in
      let sum : k + (more + ended c es) ≡ k + more + ended c es = omega arith in
      rw sum (run-Ticked es (interrupt-Ticked irq_status h))
  run-Ticked (pass env ∷ es) h = run-Ticked es (pass-Ticked env h).1

  -- No tick of the timer goes unnoticed: once the producer has entered its loop, whatever interrupts and
  -- passes follow on a valid log, modulo 2^32 the times that the counter came to the end of its interval
  -- are the samples, the overruns and the ticks still pending together.
  pub ticks_accounted :
      (c : Ttc) (env : InitEnv) (cb : Callback) (wdt_running : Bool) (t : SampleTimer)
      {calls : List Call} {t' : SampleTimer} {p : Producer} (log : SensorLog) (es : List Event)
      → enter c env cb wdt_running t ≡ (calls, t', looping p)
      → IsValid log.ring
      → let s = run n c es (record { producer = p; log = log; timer = t'; notified = cleared }) in
        u32 (s.producer.stats.samples + s.producer.stats.overruns + count s.notified)
        ≡ u32 (ended c es)
  ticks_accounted c env cb wdt_running t {calls} {t'} {p} log es e v =
      let (hooked, task) = enter-Hooked c env cb wdt_running t e in
      let first : Ticking n = record {
        producer = initial (period_us_of t');
        log = log;
        timer = t';
        notified = cleared;
      } in
      let begin : Ticked log.ring.head c cb first none_yet 0 = record {
        tallies = record {
          samples = refl;
          seq = refl;
          overruns = refl;
          timeouts = refl;
          drops = refl;
          head = refl;
          valid = v;
        };
        ticks = omega (arith, count-cleared);
        hooked = hooked;
      } in
      let (total, h) = run-Ticked es (
        subst
          (λ q.
            Ticked log.ring.head c cb
              (record { producer = q; log = log; timer = t'; notified = cleared }) none_yet 0)
          task begin) in
      omega (arith, h.tallies.overruns, h.ticks)
