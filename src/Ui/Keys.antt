-- ===== src/Ui/Keys.antt =====
-- Which keys are sent on, and what the count of dropped messages counts.
use zybo_rtos_sensor_aggrega.Prelude.{
  ℕ, ◌+◌, ◌≤◌, ◌≡◌, Bool, true, false, Option, none, some, List, [], ◌∷◌, ◌++◌, if◌then◌else◌,
  length, length-append, u32, add32, leb, arith, ◌&&◌,
}
use zybo_rtos_sensor_aggrega.Message.{Msg, MsgId, report, stream_toggle, send}
use zybo_rtos_sensor_aggrega.Gpio
use zybo_rtos_sensor_aggrega.Watchdog.{Wdog}
use zybo_rtos_sensor_aggrega.Ui.{
  Ui, Queue, ui_send, key_msg, handle_key, handle_keys, send_if, pass,
}

abbrev pub sends : Option MsgId → Bool
sends none = false
sends (some id) = true

-- A key asks for a message exactly if it is a printable character other than the space.
key_msg-sends : (key : ℕ) → sends (key_msg key) ≡ (leb 33 key && leb key 126)
unfolding key_msg
key_msg-sends key = ground arith

-- A letter means the same in both cases.
pub key_msg-case : (key : ℕ) → 65 ≤ key → key ≤ 90 → key_msg (key + 32) ≡ key_msg key
unfolding key_msg
key_msg-case key lo hi = ground arith

-- How many of a list of messages, the first of them message `n`, the queue refuses.
abbrev pub refused : Bool → Queue → ℕ → List Msg → ℕ
refused created takes n [] = 0
refused created takes n (m ∷ ms) =
    (if send created (takes n) m.id m.key then 0 else 1) + refused created takes (n + 1) ms

-- The count is that of the messages refused so far, modulo 2 ^ 32.
abbrev pub Counted : Bool → Queue → Ui → Type 0
Counted created takes u = u.dropped_msgs ≡ u32 (refused created takes 0 u.sent)

module _ (created : Bool) (takes : Queue) where
  refused-snoc :
      (n : ℕ) (ms : List Msg) (m : Msg)
      → refused created takes n (ms ++ (m ∷ []))
        ≡ refused created takes n ms
          + (if send created (takes (n + length ms)) m.id m.key then 0 else 1)
  refused-snoc n [] m = let e : n + 0 ≡ n = omega arith in rw e (omega arith)
  refused-snoc n (x ∷ ms) m =
      let e : n + length (x ∷ ms) ≡ n + 1 + length ms = omega arith in
      rw e (omega (arith, refused-snoc (n + 1) ms m))

  pub ui_send-Counted :
      (id : MsgId) (key : ℕ) (u : Ui)
      → Counted created takes u
      → Counted created takes (ui_send created takes id key u)
  unfolding ui_send
  ui_send-Counted id key u h = ground (arith, refused-snoc 0 u.sent (record { id = id; key = key }))

  message-Counted :
      (m : Option MsgId) (key : ℕ) (u : Ui)
      → Counted created takes u
      → Counted created takes (elim m [ none ↦ u | some id ↦ ui_send created takes id key u ])
  message-Counted none key u h = h
  message-Counted (some id) key u h = ui_send-Counted id key u h

  handle_key-Counted :
      (key : ℕ) (u : Ui)
      → Counted created takes u
      → Counted created takes (handle_key created takes key u)
  unfolding handle_key
  handle_key-Counted key u h = message-Counted (key_msg key) key u h

  handle_keys-Counted :
      (keys : List ℕ) (u : Ui)
      → Counted created takes u
      → Counted created takes (handle_keys created takes keys u)
  unfolding handle_keys
  handle_keys-Counted [] u h = h
  handle_keys-Counted (key ∷ keys) u h =
      handle_keys-Counted keys (handle_key created takes key u) (handle_key-Counted key u h)

  send_if-Counted :
      (pressed : Bool) (id : MsgId) (u : Ui)
      → Counted created takes u
      → Counted created takes (send_if pressed created takes id u)
  send_if-Counted true id u h = ui_send-Counted id 0 u h
  send_if-Counted false id u h = h

-- A pass of the UI task keeps the count of dropped messages exact, modulo 2^32: it is that of the messages
-- sent so far, on a button or a key, that the consumer's queue refused.
pass_counts :
    (level : ℕ → ℕ) (created : Bool) (takes : Queue) (keys : List ℕ) (tick : ℕ) (g : Gpio.Gpio)
    (w : Wdog) (u : Ui)
    → u.dropped_msgs ≡ u32 (refused created takes 0 u.sent)
    → let u' = (pass level created takes keys tick g w u).2 in
      u'.dropped_msgs ≡ u32 (refused created takes 0 u'.sent)
unfolding pass
pass_counts level created takes keys tick g w u h =
    let (report_pressed, g1) = Gpio.btn_take_press Gpio.btn4 (Gpio.btn_scan level g) in
    let u1 = send_if report_pressed created takes report u in
    let (stream_pressed, g2) = Gpio.btn_take_press Gpio.btn5 g1 in
    let u2 = send_if stream_pressed created takes stream_toggle u1 in
    handle_keys-Counted created takes keys u2 (
      send_if-Counted created takes stream_pressed stream_toggle u1
        (send_if-Counted created takes report_pressed report u h))

-- One send, whatever becomes of the message.
pub ui_send-counts :
    (created : Bool) (takes : Queue) (id : MsgId) (key : ℕ) (u : Ui)
    → let u' = ui_send created takes id key u in
      (length u'.sent ≡ length u.sent + 1)
      × (u'.dropped_msgs ≡ (
          if send created (takes (length u.sent)) id key
          then u.dropped_msgs
          else add32 u.dropped_msgs 1))
unfolding ui_send
ui_send-counts created takes id key u =
    let sent = length-append u.sent (record { id = id; key = key } ∷ []) in
    (ground (arith, sent), ground arith)
