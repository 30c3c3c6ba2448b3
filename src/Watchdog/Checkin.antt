-- ===== src/Watchdog/Checkin.antt =====
-- A check-in that is not to hang.
use zybo_rtos_sensor_aggrega.Prelude.{
  ℕ, zero, suc, ◌≡◌, refl, Bool, false, List, [], ◌∷◌, some, leb, get_or, set, inl, inr, Bool-cases,
}
use zybo_rtos_sensor_aggrega.Watchdog.{ClientState, Wdog, no_client, client_count, checkin}

-- Whether a client is to stop in its next check-in, for a test.
abbrev pub hangs : ℕ → Wdog → Bool
hangs client w = (get_or w.clients client no_client).hang_requested

set-hangs :
    (cs : List ClientState) (client : ℕ) (c : ClientState)
    → c.hang_requested ≡ false
    → (get_or (set cs client c) client no_client).hang_requested ≡ false
set-hangs [] client c h = refl
set-hangs (x ∷ cs) zero c h = h
set-hangs (x ∷ cs) (suc client) c h = set-hangs cs client c h

-- It comes back, and the next one is not to hang either.
pub checkin-hangs :
    (client now : ℕ) (w : Wdog)
    → hangs client w ≡ false
    → (w' : Wdog) × (checkin client now w ≡ some w') × (hangs client w' ≡ false)
unfolding checkin
checkin-hangs client now w h =
    let c : ClientState = get_or w.clients client no_client in
    elim (Bool-cases (leb client_count client)) [
      | inl unknown ↦ (w, rw unknown refl, h)
      | inr known ↦ (
        record w { clients = set w.clients client (record c { last_checkin_tick = now }) },
        rw (known, h) refl,
        set-hangs w.clients client (record c { last_checkin_tick = now }) h,
      )
    ]
