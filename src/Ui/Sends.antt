-- ===== src/Ui/Sends.antt =====
-- Which messages passes of the UI task send, and in which order.
use zybo_rtos_sensor_aggrega.Prelude.{
  ℕ, ◌≡◌, refl, sym, ap, ◌∙◌, ◌+◌, leb, ◌==◌, ◌&&◌, arith, append_assoc, append-nil, Bool, true,
  false, Option, none, some, List, [], ◌∷◌, ◌++◌, if◌then◌else◌,
}
use zybo_rtos_sensor_aggrega.Message.{
  Msg, MsgId, report, stream_toggle, rate_toggle, pause_toggle, print_newest, stats, help,
  unknown_key, wdt_test,
}
use zybo_rtos_sensor_aggrega.Gpio
use zybo_rtos_sensor_aggrega.Watchdog.{Wdog}
use zybo_rtos_sensor_aggrega.Ui.Keys.{Counted, ui_send-Counted}
use zybo_rtos_sensor_aggrega.Ui.{
  Ui, Queue, ui_send, key_msg, handle_key, handle_keys, send_if, pass,
}

-- What the keys mean, in lower case.
abbrev pub meanings : List (ℕ × MsgId)
meanings =
    (114, report)
    ∷ (115, stream_toggle)
    ∷ (102, rate_toggle)
    ∷ (112, pause_toggle)
    ∷ (116, print_newest)
    ∷ (100, stats)
    ∷ (104, help)
    ∷ (63, help)
    ∷ (49, wdt_test)
    ∷ (50, wdt_test)
    ∷ (51, wdt_test)
    ∷ (52, wdt_test)
    ∷ []

abbrev pub look_up : ℕ → List (ℕ × MsgId) → Option MsgId → Option MsgId
look_up key [] other = other
look_up key ((k, id) ∷ rest) other = if key == k then some id else look_up key rest other

abbrev pub lower : ℕ → ℕ
lower key = if leb 65 key && leb key 90 then key + 32 else key

-- By the table, in either case; any other visible character is an unknown key, and the rest means nothing.
abbrev pub meaning : ℕ → Option MsgId
meaning key =
    look_up (lower key) meanings (if leb 33 key && leb key 126 then some unknown_key else none)

-- The message of a key, if it has one.
abbrev pub of_key : Option MsgId → ℕ → List Msg
of_key none key = []
of_key (some id) key = record { id = id; key = key } ∷ []

abbrev pub of_keys : List ℕ → List Msg
of_keys [] = []
of_keys (key ∷ keys) = of_key (meaning key) key ++ of_keys keys

abbrev pub of_press : Bool → MsgId → List Msg
of_press pressed id = if pressed then record { id = id; key = 0 } ∷ [] else []

unfoldable pub send_all : Bool → Queue → List Msg → Ui → Ui
send_all created takes [] u = u
send_all created takes (m ∷ ms) u = send_all created takes ms (ui_send created takes m.id m.key u)

-- `ui_handle_key` sends what the table says.
key_msg_lem : (key : ℕ) → key_msg key ≡ meaning key
unfolding key_msg
key_msg_lem key = ground arith

module _ (created : Bool) (takes : Queue) where
  send_all-append :
      (xs ys : List Msg) (u : Ui)
      → send_all created takes (xs ++ ys) u
        ≡ send_all created takes ys (send_all created takes xs u)
  unfolding send_all
  send_all-append [] ys u = refl
  send_all-append (x ∷ xs) ys u = send_all-append xs ys (ui_send created takes x.id x.key u)

  send_if-send_all :
      (pressed : Bool) (id : MsgId) (u : Ui)
      → send_if pressed created takes id u ≡ send_all created takes (of_press pressed id) u
  unfolding send_all
  send_if-send_all true id u = refl
  send_if-send_all false id u = refl

  key-send_all :
      (m : Option MsgId) (key : ℕ) (u : Ui)
      → elim m [ none ↦ u | some id ↦ ui_send created takes id key u ]
        ≡ send_all created takes (of_key m key) u
  unfolding send_all
  key-send_all none key u = refl
  key-send_all (some id) key u = refl

  handle_keys-send_all :
      (keys : List ℕ) (u : Ui)
      → handle_keys created takes keys u ≡ send_all created takes (of_keys keys) u
  unfolding handle_keys handle_key
  handle_keys-send_all [] u = unfold send_all in refl
  handle_keys-send_all (key ∷ keys) u =
      handle_keys-send_all keys (handle_key created takes key u)
      ∙ ap (send_all created takes (of_keys keys)) (
          key-send_all (key_msg key) key u
          ∙ ap (λ m. send_all created takes (of_key m key) u) (key_msg_lem key))
      ∙ sym (send_all-append (of_key (meaning key) key) (of_keys keys) u)

  sent-ui_send : (m : Msg) (u : Ui) → (ui_send created takes m.id m.key u).sent ≡ u.sent ++ (m ∷ [])
  unfolding ui_send
  sent-ui_send m u = ground arith

  -- The messages go out in order, and those refused are counted.
  pub send_all-sends :
      (ms : List Msg) (u : Ui)
      → Counted created takes u
      → ((send_all created takes ms u).sent ≡ u.sent ++ ms)
        × Counted created takes (send_all created takes ms u)
  unfolding send_all
  send_all-sends [] u h = (sym (append-nil u.sent), h)
  send_all-sends (m ∷ ms) u h =
      let (sent, counted) =
        send_all-sends ms (ui_send created takes m.id m.key u)
          (ui_send-Counted created takes m.id m.key u h) in
      (sent ∙ ap (◌++ ms) (sent-ui_send m u) ∙ append_assoc u.sent (m ∷ []) ms, counted)

  -- One pass, by the presses it finds latched.
  pub pass-send_all :
      (level : ℕ → ℕ) (keys : List ℕ) (tick : ℕ) (g : Gpio.Gpio) (w : Wdog) (u : Ui)
      → let (report_pressed, g1) = Gpio.btn_take_press Gpio.btn4 (Gpio.btn_scan level g) in
        let (stream_pressed, g2) = Gpio.btn_take_press Gpio.btn5 g1 in
        (pass level created takes keys tick g w u).2
        ≡ send_all created takes
            (of_press report_pressed report
              ++ (of_press stream_pressed stream_toggle ++ of_keys keys))
            u
  unfolding pass
  pass-send_all level keys tick g w u =
      let (report_pressed, g1) = Gpio.btn_take_press Gpio.btn4 (Gpio.btn_scan level g) in
      let (stream_pressed, g2) = Gpio.btn_take_press Gpio.btn5 g1 in
      let reports = of_press report_pressed report in
      let streams = of_press stream_pressed stream_toggle in
      let u1 = send_if report_pressed created takes report u in
      handle_keys-send_all keys (send_if stream_pressed created takes stream_toggle u1)
      ∙ ap (send_all created takes (of_keys keys))
          (send_if-send_all stream_pressed stream_toggle u1)
      ∙ sym (send_all-append streams (of_keys keys) u1)
      ∙ ap (send_all created takes (streams ++ of_keys keys))
          (send_if-send_all report_pressed report u)
      ∙ sym (send_all-append reports (streams ++ of_keys keys) u)
