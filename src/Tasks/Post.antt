-- ===== src/Tasks/Post.antt =====
-- One message offered to the queue.
use zybo_rtos_sensor_aggrega.Prelude.{
  ◌≤◌, ◌≡◌, refl, sym, ap, ◌∙◌, List, [], ◌∷◌, ◌++◌, ltb, length, length-append, length-drop, drop,
  append_assoc, inl, inr, Bool-cases, arith,
}
use zybo_rtos_sensor_aggrega.Config.{app_consumer_queue_len}
use zybo_rtos_sensor_aggrega.Rtos.{Queue, first}
use zybo_rtos_sensor_aggrega.Message.{Msg}
use zybo_rtos_sensor_aggrega.Tasks.{Tasks, as_list, post}

-- The first message and the rest are the list.
first-drop : {A : Type 0} (xs : List A) → as_list (first xs) ++ drop 1 xs ≡ xs
first-drop [] = refl
first-drop (x ∷ xs) = refl

module _ (queues : Queue Msg app_consumer_queue_len) where
  open queues use {
    State, waiting, offer, receive, offer_lem, waiting-offer, receive_lem, waiting-receive,
  }

  -- What was accepted is what was taken out and what waits, in this order; and no more waits than fits.
  pub record InOrder (s : Tasks queues) : Type 0 where
    pub order : s.accepted ≡ s.handled ++ waiting s.queue
    pub room : length (waiting s.queue) ≤ app_consumer_queue_len

  pub post-InOrder : (msg : Msg) (s : Tasks queues) → InOrder s → InOrder (post queues msg s)
  unfolding post
  post-InOrder msg s h =
      let answer = offer_lem s.queue msg in
      let after = waiting-offer s.queue msg in
      elim (Bool-cases (ltb (length (waiting s.queue)) app_consumer_queue_len)) [
        | inl room ↦ record {
          order =
              rw (answer, after, room)
                (rw h.order (append_assoc s.handled (waiting s.queue) (msg ∷ [])));
          room = ground (arith, after, room, length-append (waiting s.queue) (msg ∷ []));
        }
        | inr full ↦ record {
          order = rw (answer, after, full) h.order;
          room = ground (arith, after, full, h.room);
        }
      ]

  -- The message taken out goes to the end of those handled.
  pub received-order :
      (s : Tasks queues)
      → InOrder s
      → (s.accepted ≡ (s.handled ++ as_list (receive s.queue).0) ++ waiting (receive s.queue).1)
        × (length (waiting (receive s.queue).1) ≤ app_consumer_queue_len)
  received-order s h = (
    rw (receive_lem s.queue, waiting-receive s.queue)
        (h.order
          ∙ ap (◌++◌ s.handled) (sym (first-drop (waiting s.queue)))
          ∙ sym (
              append_assoc s.handled (as_list (first (waiting s.queue)))
                (drop 1 (waiting s.queue)))),
    omega (arith, ap length (waiting-receive s.queue), length-drop 1 (waiting s.queue), h.room),
  )
