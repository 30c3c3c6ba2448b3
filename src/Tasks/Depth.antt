-- ===== src/Tasks/Depth.antt =====
-- The consumer's `queue_depth_peak`: between `xQueueReceive` and `uxQueueMessagesWaiting` the producer and the
-- UI task, of higher priority, may send.
use zybo_rtos_sensor_aggrega.Prelude.{
  ◌+◌, ◌≤◌, ◌<◌, ◌≡◌, ap, List, [], ◌∷◌, length, length-append, length-drop, min, max, arith,
}
use zybo_rtos_sensor_aggrega.Config.{app_consumer_queue_len}
use zybo_rtos_sensor_aggrega.Rtos.{Queue}
use zybo_rtos_sensor_aggrega.Message.{Msg}
use zybo_rtos_sensor_aggrega.Consumer.{State}
use zybo_rtos_sensor_aggrega.Consumer.Messages.{note_depth}

module _ (queues : Queue Msg app_consumer_queue_len) where
  open queues use {
    State as Contents, waiting, offer, receive, messages_waiting, waiting-offer, waiting-receive,
    messages_waiting_lem,
  }

  -- The queue after messages have been offered to it.
  unfoldable pub offer_all : List Msg → Contents → Contents
  offer_all [] q = q
  offer_all (msg ∷ msgs) q = offer_all msgs (offer q msg).1

  length-offer_all :
      (msgs : List Msg) (q : Contents)
      → length (waiting q) ≤ app_consumer_queue_len
      → length (waiting (offer_all msgs q))
        ≡ min (length (waiting q) + length msgs) app_consumer_queue_len
  unfolding offer_all
  length-offer_all [] q room = omega arith
  length-offer_all (msg ∷ msgs) q room =
      let one : length (waiting (offer q msg).1)
          ≡ min (length (waiting q) + 1) app_consumer_queue_len =
        ground (arith, ap length (waiting-offer q msg), length-append (waiting q) (msg ∷ [])) in
      omega (arith, one, length-offer_all msgs (offer q msg).1 (omega (arith, one)))

  -- The consumer takes a message out of a queue that holds some, messages are offered to the queue, and then
  -- the depth is noted: `queue_depth_peak` becomes the greater of itself and of the messages that waited
  -- together with those offered, at most 17. Where none is offered in between it is the depth of the queue;
  -- with a full queue and one message offered in between it is 17, one more than the queue holds.
  pub depth_noted :
      (q : Contents) (arrived : List Msg) (s : State)
      → 0 < length (waiting q)
      → length (waiting q) ≤ app_consumer_queue_len
      → let left = messages_waiting (offer_all arrived (receive q).1) in
        (note_depth left s).queue_depth_peak
        ≡ max s.queue_depth_peak
            (min (length (waiting q) + length arrived) (app_consumer_queue_len + 1))
  depth_noted q arrived s some_wait room =
      let q' = (receive q).1 in
      let short : length (waiting q') + 1 ≡ length (waiting q) =
        omega (arith, ap length (waiting-receive q), length-drop 1 (waiting q), some_wait) in
      let now = messages_waiting_lem (offer_all arrived q') in
      let count = length-offer_all arrived q' (omega (arith, short, room)) in
      ground (arith, now, count, short)
