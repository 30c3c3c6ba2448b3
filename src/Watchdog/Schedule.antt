-- ===== src/Watchdog/Schedule.antt =====
-- The supervisor and its clients over time: events in any order, at times that do not wrap.
use mathlib.Core.Option
use native.Mathlib.Nat.{mul-le-mul_right, div-lt_iff_lt-mul}
use zybo_rtos_sensor_aggrega.Prelude.{
  ℕ, zero, suc, ◌+◌, ◌-◌, ◌*◌, ◌/◌, ◌^◌, ◌≤◌, ◌<◌, ◌≡◌, ◌≢◌, inl, inr, refl, Bool, true, false,
  List, [], ◌∷◌, arith, Bool-cases, length, get_or, get_or-set_self, get_or-set_ne, length-set, u32,
  u64, sub32,
}
use zybo_rtos_sensor_aggrega.Watchdog.{
  ClientState, Wdog, ticks_to_ms, silence, Action, quiet, kick, report, check_pass, no_client,
  checkin, inject_hang,
}
use zybo_rtos_sensor_aggrega.Watchdog.Pass.{InTime, kick_iff, kicking_iff, check_pass-clients}

-- The supervisor wakes, a client checks in, a test command asks a client to hang. Times are in ticks
-- since the start and do not wrap; the code sees them modulo 2^32.
pub data Event : Type 0 where
  wake : ℕ → Bool → Event
  check : ℕ → ℕ → Event
  inject : ℕ → Event

-- A client that hangs at its check-in leaves the state as it is.
unfoldable pub step : ℕ → Wdog → Event → Action × Wdog
step hz w (wake t running) = check_pass hz (u32 t) running w
step hz w (check client t) = (quiet, Option.get_or (checkin client (u32 t) w) w)
step hz w (inject client) = (quiet, inject_hang client w)

abbrev pub time : Event → ℕ
time (wake t running) = t
time (check client t) = t
time (inject client) = 0

abbrev add_kick : Action → ℕ → List ℕ → List ℕ
add_kick kick t rest = t ∷ rest
add_kick quiet t rest = rest
add_kick (report client late_ms) t rest = rest

-- The times of the kicks.
unfoldable pub kicks : ℕ → Wdog → List Event → List ℕ
unfolding step
kicks hz w [] = []
kicks hz w (e ∷ es) = add_kick (step hz w e).0 (time e) (kicks hz (step hz w e).1 es)

abbrev pub All {ℓ} : (ℕ → Type ℓ) → List ℕ → Type ℓ
All P [] = Unit
All P (x ∷ xs) = P x × All P xs

add_kick-All :
    (P : ℕ → Type 0) (a : Action) (t : ℕ) (rest : List ℕ)
    → (a ≡ kick → P t)
    → All P rest
    → All P (add_kick a t rest)
add_kick-All P kick t rest h all = (h refl, all)
add_kick-All P quiet t rest h all = all
add_kick-All P (report client late_ms) t rest h all = all

-- Check-ins and requests do not touch `kicking`.
checkin-kicking :
    (client now : ℕ) (w : Wdog) → (Option.get_or (checkin client now w) w).kicking ≡ w.kicking
unfolding checkin
checkin-kicking client now w = ground arith

inject_hang-kicking : (client : ℕ) (w : Wdog) → (inject_hang client w).kicking ≡ w.kicking
unfolding inject_hang
inject_hang-kicking client w = ground arith

step-stopped :
    (hz : ℕ) (w : Wdog) (e : Event)
    → w.kicking ≡ false
    → ((step hz w e).0 ≢ kick) × ((step hz w e).1.kicking ≡ false)
unfolding step
step-stopped hz w (wake t running) h =
    ground (arith, kick_iff hz (u32 t) running w, kicking_iff hz (u32 t) running w)
step-stopped hz w (check client t) h = ground (arith, checkin-kicking client (u32 t) w)
step-stopped hz w (inject client) h = ground (arith, inject_hang-kicking client w)

-- Once the supervisor has stopped kicking it never kicks again, whatever wakes, check-ins and hang
-- requests follow: the SWDT is left to reset the board.
pub stopped_forever : (hz : ℕ) (es : List Event) (w : Wdog) → w.kicking ≡ false → kicks hz w es ≡ []
unfolding kicks
stopped_forever hz [] w h = refl
stopped_forever hz (e ∷ es) w h =
    let (no_kick, stays) = step-stopped hz w e h in
    let rest : kicks hz (step hz w e).1 es ≡ [] = stopped_forever hz es (step hz w e).1 stays in
    no_add (step hz w e).0 no_kick rest
  where
    no_add : (a : Action) {rest : List ℕ} → a ≢ kick → rest ≡ [] → add_kick a (time e) rest ≡ []
    no_add kick ne e' = absurd (ne refl)
    no_add quiet ne e' = e'
    no_add (report client late_ms) ne e' = e'

-- The client that hangs, with its last check-in at time `t0` and its limit.
pub record Hung (client t0 limit : ℕ) (w : Wdog) : Type 0 where
  pub known : client < length w.clients
  pub last : (get_or w.clients client no_client).last_checkin_tick ≡ u32 t0
  pub limited : (get_or w.clients client no_client).limit_ms ≡ limit

-- Wakes come in order, at most `period` ticks apart, and `client` does not check in.
abbrev pub HangsOn : ℕ → ℕ → ℕ → List Event → Type 0
HangsOn client period prev [] = Unit
HangsOn client period prev (wake t running ∷ es) =
    (prev ≤ t) × (t ≤ prev + period) × HangsOn client period t es
HangsOn client period prev (check other t ∷ es) = (other ≢ client) × HangsOn client period prev es
HangsOn client period prev (inject other ∷ es) = HangsOn client period prev es

-- The milliseconds from `t0` to `t`.
abbrev pub elapsed_ms : ℕ → ℕ → ℕ → ℕ
elapsed_ms hz t0 t = (t - t0) * 1000 / hz

InTime-at :
    (hz now : ℕ) (cs : List ClientState) (i : ℕ)
    → InTime hz now cs
    → i < length cs
    → silence hz now (get_or cs i no_client) ≤ (get_or cs i no_client).limit_ms
InTime-at hz now [] i h lt = absurd (omega arith)
InTime-at hz now (c ∷ cs) zero h lt = h.0
InTime-at hz now (c ∷ cs) (suc i) h lt = InTime-at hz now cs i h.1 (omega arith)

-- Where neither the ticks nor the milliseconds wrap, the silence is the time passed.
silence_lem :
    (hz t0 t : ℕ) (c : ClientState)
    → c.last_checkin_tick ≡ u32 t0
    → t0 ≤ t
    → t - t0 < 2 ^ 32
    → elapsed_ms hz t0 t < 2 ^ 32
    → silence hz (u32 t) c ≡ elapsed_ms hz t0 t
unfolding silence ticks_to_ms
silence_lem hz t0 t c last order near small =
    let e : sub32 (u32 t) c.last_checkin_tick ≡ t - t0 = omega (arith, last) in
    let e' : u64 ((t - t0) * 1000) ≡ (t - t0) * 1000 = omega arith in rw (e, e') (omega arith)

-- From one wake in time to the next, nothing wraps.
module _ (hz period limit : ℕ) (pos : 0 < hz) (fast : hz ≤ 2 ^ 20) (often : period ≤ hz)
    (modest : limit < 2 ^ 16) where
  near_lem :
      (t0 prev t : ℕ)
      → t0 ≤ prev
      → elapsed_ms hz t0 prev ≤ limit
      → t ≤ prev + period
      → (t - t0 < 2 ^ 32) × (elapsed_ms hz t0 t < 2 ^ 32)
  near_lem t0 prev t order early next =
      let under : (prev - t0) * 1000 < suc limit * hz =
        (div-lt_iff_lt-mul {k = hz} {x = (prev - t0) * 1000} {y = suc limit} pos).0 (omega arith) in
      let scaled : suc limit * hz ≤ 65536 * hz = mul-le-mul_right hz (omega arith) in
      let bound : (t - t0) * 1000 < 66536 * hz = omega arith in
      let short : elapsed_ms hz t0 t < 66536 =
        (div-lt_iff_lt-mul {k = hz} {x = (t - t0) * 1000} {y = 66536} pos).1 bound in
      (omega arith, omega arith)

  -- A wake that kicks, or after which the supervisor still kicks, comes within the limit.
  wake-InTime :
      (client t0 prev t : ℕ) (running : Bool) (w : Wdog)
      → Hung client t0 limit w
      → t0 ≤ prev
      → elapsed_ms hz t0 prev ≤ limit
      → prev ≤ t
      → t ≤ prev + period
      → InTime hz (u32 t) w.clients
      → elapsed_ms hz t0 t ≤ limit
  wake-InTime client t0 prev t running w h order early after next fine =
      let (near, small) = near_lem t0 prev t order early next in
      let e =
        silence_lem hz t0 t (get_or w.clients client no_client) h.last (omega arith) near small in
      let at = InTime-at hz (u32 t) w.clients client fine h.known in omega (arith, e, at, h.limited)

  Hung-checkin :
      (client t0 other t : ℕ) (w : Wdog)
      → other ≢ client
      → Hung client t0 limit w
      → Hung client t0 limit (Option.get_or (checkin other (u32 t) w) w)
  unfolding checkin
  Hung-checkin client t0 other t w ne h =
      let other_state = record (get_or w.clients other no_client) { last_checkin_tick = u32 t } in
      let same = get_or-set_ne w.clients other client other_state no_client ne in
      let len = length-set w.clients other other_state in
      record {
        known = ground (arith, len);
        last = ground (arith, same);
        limited = ground (arith, same);
      }

  Hung-inject :
      (client t0 other : ℕ) (w : Wdog)
      → Hung client t0 limit w
      → Hung client t0 limit (inject_hang other w)
  unfolding inject_hang
  Hung-inject client t0 other w h =
      let other_state = record (get_or w.clients other no_client) { hang_requested = true } in
      let same = get_or-set_ne w.clients other client other_state no_client in
      let self = get_or-set_self w.clients client other_state no_client h.known in
      let len = length-set w.clients other other_state in
      record {
        known = ground (arith, len);
        last = ground (arith, same, self);
        limited = ground (arith, same, self);
      }

  Hung-wake :
      (client t0 t : ℕ) (running : Bool) (w : Wdog)
      → Hung client t0 limit w
      → Hung client t0 limit (check_pass hz (u32 t) running w).1
  Hung-wake client t0 t running w h =
      let e = check_pass-clients hz (u32 t) running w in
      record { known = rw e h.known; last = rw e h.last; limited = rw e h.limited }

  -- A client checks in for the last time at `t0` and then never again. If the supervisor wakes at
  -- least once a second, then whatever the other clients and the test commands do, every later kick
  -- of the SWDT comes while at most the client's limit has passed since `t0`. The tick rate is at
  -- most 2^20 Hz, the limit under 2^16 ms.
  pub hang_is_caught :
      (client t0 prev : ℕ) (es : List Event) (w : Wdog)
      → Hung client t0 limit w
      → t0 ≤ prev
      → elapsed_ms hz t0 prev ≤ limit
      → HangsOn client period prev es
      → All (λ t. elapsed_ms hz t0 t ≤ limit) (kicks hz w es)
  unfolding kicks
  hang_is_caught client t0 prev [] w h order early on = tt
  hang_is_caught client t0 prev (wake t running ∷ es) w h order early on =
      let w' = (check_pass hz (u32 t) running w).1 in
      let in_time = wake-InTime client t0 prev t running w h order early on.0 on.1 in
      add_kick-All (λ t. elapsed_ms hz t0 t ≤ limit) (check_pass hz (u32 t) running w).0 t
        (kicks hz w' es) (λ kicked. in_time ((kick_iff hz (u32 t) running w).0 kicked).2)
        (elim (Bool-cases w'.kicking) [
          | inl still ↦
              hang_is_caught client t0 t es w' (Hung-wake client t0 t running w h) (omega arith)
                (in_time ((kicking_iff hz (u32 t) running w).0 still).1) on.2
          | inr stopped ↦ rw (stopped_forever hz es w' stopped) tt
        ])
  hang_is_caught client t0 prev (check other t ∷ es) w h order early on =
      hang_is_caught client t0 prev es (Option.get_or (checkin other (u32 t) w) w)
        (Hung-checkin client t0 other t w on.0 h) order early on.1
  hang_is_caught client t0 prev (inject other ∷ es) w h order early on =
      hang_is_caught client t0 prev es (inject_hang other w) (Hung-inject client t0 other w h) order
        early on
