-- ===== src/Watchdog/Pass.antt =====
-- One pass of the supervisor: when it kicks, when it reports, and what it records.
use zybo_rtos_sensor_aggrega.Prelude.{
  ℕ, zero, suc, ◌+◌, ◌≤◌, ◌<◌, ◌≡◌, ◌≢◌, ◌↔◌, refl, ap, ◌∙◌, max, Bool, true, ◌&&◌, Option, none,
  some, List, [], ◌∷◌, arith, ltb, if◌then◌else◌, length, get_or, get_or-set_self, get_or-set_ne,
  length-set,
}
use zybo_rtos_sensor_aggrega.Watchdog.{
  ClientState, Wdog, silence, is_none, note_late, note_worst, scan, quiet, kick, report, decide,
  check_pass, no_client,
}

-- Every client keeps its limit at tick `now`.
abbrev pub InTime : ℕ → ℕ → List ClientState → Type 0
InTime hz now [] = Unit
InTime hz now (c ∷ cs) = (silence hz now c ≤ c.limit_ms) × InTime hz now cs

-- The first client that is late, with its index and its silence.
abbrev pub first_late : ℕ → ℕ → List ClientState → ℕ → Option (ℕ × ℕ)
first_late hz now [] idx = none
first_late hz now (c ∷ cs) idx =
    if ltb c.limit_ms (silence hz now c)
    then some (idx, silence hz now c)
    else first_late hz now cs (idx + 1)

or_else : Option (ℕ × ℕ) → Option (ℕ × ℕ) → Option (ℕ × ℕ)
or_else none b = b
or_else (some a) b = some a

late_step :
    (hz now : ℕ) (c : ClientState) (cs : List ClientState) (idx : ℕ) (late : Option (ℕ × ℕ))
    → or_else (note_late idx (silence hz now c) c late) (first_late hz now cs (idx + 1))
      ≡ or_else late (first_late hz now (c ∷ cs) idx)
unfolding note_late or_else
late_step hz now c cs idx late = ground arith

scan-late :
    (hz now : ℕ) (cs : List ClientState) (idx : ℕ) (late : Option (ℕ × ℕ)) (worst : List ℕ)
    → (scan hz now cs idx late worst).0 ≡ or_else late (first_late hz now cs idx)
unfolding scan
scan-late hz now [] idx none worst = unfold or_else in refl
scan-late hz now [] idx (some p) worst = unfold or_else in refl
scan-late hz now (c ∷ cs) idx late worst =
    scan-late hz now cs (idx + 1) _ _ ∙ late_step hz now c cs idx late

-- Nobody is late exactly when all are in time.
pub first_late-none_iff :
    (hz now : ℕ) (cs : List ClientState) (idx : ℕ)
    → (first_late hz now cs idx ≡ none) ↔ InTime hz now cs
first_late-none_iff hz now [] idx = (λ e. tt, λ h. refl)
first_late-none_iff hz now (c ∷ cs) idx = ground (arith, first_late-none_iff hz now cs (idx + 1))

note_worst-length : (idx s : ℕ) (worst : List ℕ) → length (note_worst idx s worst) ≡ length worst
unfolding note_worst
note_worst-length idx s worst = ground (arith, length-set worst idx s)

note_worst_self :
    (idx s : ℕ) (worst : List ℕ)
    → idx < length worst
    → get_or (note_worst idx s worst) idx 0 ≡ max (get_or worst idx 0) s
unfolding note_worst
note_worst_self idx s worst h = ground (arith, get_or-set_self worst idx s 0 h)

note_worst_ne :
    (idx s k : ℕ) (worst : List ℕ)
    → idx ≢ k
    → get_or (note_worst idx s worst) k 0 ≡ get_or worst k 0
unfolding note_worst
note_worst_ne idx s k worst h = ground (arith, get_or-set_ne worst idx k s 0 h)

scan-worst_below :
    (hz now : ℕ) (cs : List ClientState) (idx : ℕ) (late : Option (ℕ × ℕ)) (worst : List ℕ) (k : ℕ)
    → k < idx
    → get_or (scan hz now cs idx late worst).1 k 0 ≡ get_or worst k 0
unfolding scan
scan-worst_below hz now [] idx late worst k h = refl
scan-worst_below hz now (c ∷ cs) idx late worst k h =
    scan-worst_below hz now cs (idx + 1) _ _ k (omega arith)
    ∙ note_worst_ne idx (silence hz now c) k worst (omega arith)

scan-worst :
    (hz now : ℕ) (cs : List ClientState) (idx : ℕ) (late : Option (ℕ × ℕ)) (worst : List ℕ) (j : ℕ)
    → idx + length cs ≤ length worst
    → j < length cs
    → get_or (scan hz now cs idx late worst).1 (idx + j) 0
      ≡ max (get_or worst (idx + j) 0) (silence hz now (get_or cs j no_client))
unfolding scan
scan-worst hz now [] idx late worst j room h = absurd (omega arith)
scan-worst hz now (c ∷ cs) idx late worst zero room h =
    let e : idx + 0 ≡ idx = omega arith in
    rw e (
      scan-worst_below hz now cs (idx + 1) _ _ idx (omega arith)
      ∙ note_worst_self idx (silence hz now c) worst (omega arith))
scan-worst hz now (c ∷ cs) idx late worst (suc j) room h =
    let e : idx + suc j ≡ idx + 1 + j = omega arith in
    rw e (
      scan-worst hz now cs (idx + 1) _ (note_worst idx (silence hz now c) worst) j
        (omega (arith, note_worst-length idx (silence hz now c) worst)) (omega arith)
      ∙ ap (λ (m : ℕ). max m (silence hz now (get_or cs j no_client)))
          (note_worst_ne idx (silence hz now c) (idx + 1 + j) worst (omega arith)))

module _ (hz now : ℕ) (running : Bool) (w : Wdog) where
  abbrev late : Option (ℕ × ℕ)
  late = first_late hz now w.clients 0

  -- A pass in terms of the first late client.
  pub check_pass-action : (check_pass hz now running w).0 ≡ (
      if w.kicking
      then elim late [
        | none ↦ if running then kick else quiet
        | some (client, late_ms) ↦ report client late_ms
      ]
      else quiet)
  unfolding check_pass decide or_else
  check_pass-action = ground (arith, scan-late hz now w.clients 0 none w.stats.worst_silence_ms)

  pub check_pass-kicking : (check_pass hz now running w).1.kicking ≡ (w.kicking && is_none late)
  unfolding check_pass decide or_else
  check_pass-kicking = ground (arith, scan-late hz now w.clients 0 none w.stats.worst_silence_ms)

  pub check_pass-clients : (check_pass hz now running w).1.clients ≡ w.clients
  unfolding check_pass decide
  check_pass-clients = ground arith

  -- A pass of the supervisor kicks exactly when it has never stopped kicking, the SWDT runs and every
  -- client checked in within its limit.
  pub kick_iff :
      ((check_pass hz now running w).0 ≡ kick)
      ↔ ((w.kicking ≡ true) × (running ≡ true) × InTime hz now w.clients)
  kick_iff = ground (arith, check_pass-action, first_late-none_iff hz now w.clients 0)

  -- A pass keeps kicking for later passes exactly when it did before and every client is in time.
  pub kicking_iff :
      ((check_pass hz now running w).1.kicking ≡ true)
      ↔ ((w.kicking ≡ true) × InTime hz now w.clients)
  kicking_iff = ground (arith, check_pass-kicking, first_late-none_iff hz now w.clients 0)

-- A pass leaves, for each client, the larger of its worst silence so far and its silence now, whether
-- it still kicks or not.
worst_silence_lem :
    (hz now : ℕ) (running : Bool) (w : Wdog) (i : ℕ)
    → length w.clients ≤ length w.stats.worst_silence_ms
    → i < length w.clients
    → get_or (check_pass hz now running w).1.stats.worst_silence_ms i 0
      ≡ max (get_or w.stats.worst_silence_ms i 0) (silence hz now (get_or w.clients i no_client))
worst_silence_lem hz now running w i room h = stored ∙ found
  where
    scanned : List ℕ
    scanned = (scan hz now w.clients 0 none w.stats.worst_silence_ms).1

    stored : get_or (check_pass hz now running w).1.stats.worst_silence_ms i 0 ≡ get_or scanned i 0
    stored = unfold check_pass decide in ground arith

    found :
        get_or scanned i 0
        ≡ max (get_or w.stats.worst_silence_ms i 0) (silence hz now (get_or w.clients i no_client))
    found =
        let e : 0 + i ≡ i = omega arith in
        rw e at (scan-worst hz now w.clients 0 none w.stats.worst_silence_ms i (omega arith) h)
