-- ===== src/Ring/Refine.antt =====
-- The records of a valid ring (datalog/ring_buffer.c) as a dropping queue, operation by operation.
use zybo_rtos_sensor_aggrega.Prelude.{
  ℕ, suc, ◌+◌, ◌-◌, ◌%◌, ◌^◌, ◌≤◌, ◌<◌, ◌≡◌, ◌≢◌, refl, sym, ap, ◌∙◌, inl, inr, min, true, false,
  none, some, List, [], ◌∷◌, ◌++◌, arith, if◌then◌else◌, Bool-cases, length, get_or-set_self, set,
  take, drop, add32, sub32, u32, bit_and,
}
use zybo_rtos_sensor_aggrega.Sample.{SensorRecord, zero_record}
use zybo_rtos_sensor_aggrega.Ring.{
  RingBuffer, slots, bad_capacity, fresh, init, fill, push_body, push, pop_count, pop_body, pop,
  newest, peek_newest,
}
use zybo_rtos_sensor_aggrega.Ring.Fifo
use zybo_rtos_sensor_aggrega.Ring.Fifo.{Fifo, empty, is_full}
use zybo_rtos_sensor_aggrega.Ring.Inv.{
  IsValid, capacity_bounds, mask_lem, wrap_lem, index-lt, bad_capacity-pow, pow_of_bad_capacity,
  fresh-IsValid, Pushed, push_body-Pushed, push_body-IsValid, fill-push_body, popped, pop_count-le,
  fill-pop_body, pop_body-IsValid,
}
use zybo_rtos_sensor_aggrega.Ring.Window.{
  window, length-window, window-cong, take-window, drop-window, window-set, copy_out-window,
}

abbrev pub contents : RingBuffer → List SensorRecord
contents rb = window (slots rb) rb.capacity rb.tail (fill rb)

-- The queue that a ring stands for.
abbrev pub view : RingBuffer → Fifo
view rb = record { items = contents rb; newest = if rb.has_newest then some (newest rb) else none }

pub length-contents : (rb : RingBuffer) → length (contents rb) ≡ fill rb
length-contents rb = length-window (slots rb) rb.capacity rb.tail (fill rb)

window_eq :
    {s s' : List SensorRecord} {m m' t t' n n' : ℕ}
    → s ≡ s'
    → m ≡ m'
    → t ≡ t'
    → n ≡ n'
    → window s m t n ≡ window s' m' t' n'
window_eq s m t n = λ i. window (s i) (m i) (t i) (n i)

module _ {rb : RingBuffer} (r : SensorRecord) (v : IsValid rb) where
  abbrev rb' : RingBuffer
  rb' = (push_body rb r).1

  p : Pushed rb rb' r
  p = push_body-Pushed rb r

  abbrev target : ℕ
  target = bit_and rb.head rb.index_mask

  slots-push_body : slots rb' ≡ set (slots rb) target r
  slots-push_body = ground (arith, p.storage)

  -- The counter of the slot that is written, from the tail.
  target_lem : (t n : ℕ) → rb.head ≡ u32 (t + n) → target ≡ (t + n) % rb.capacity
  target_lem t n e = mask_lem v rb.head ∙ ap (λ a. a % rb.capacity) e ∙ wrap_lem v (t + n)

  contents-push_full :
      (n : ℕ)
      → fill rb ≡ rb.capacity
      → rb.capacity ≡ suc n
      → contents rb' ≡ drop 1 (contents rb) ++ (r ∷ [])
  contents-push_full n full e =
      let tail_eq : rb'.tail ≡ add32 rb.tail 1 = ground (arith, p.tail) in
      let fill_eq : fill rb' ≡ suc n = ground (arith, fill-push_body r v) in
      let head_eq : rb.head ≡ u32 (rb.tail + 1 + n) = omega (arith, v.head_fits, v.tail_fits) in
      window_eq slots-push_body p.capacity tail_eq fill_eq
      ∙ window-cong _ rb.capacity (add32 rb.tail 1) (rb.tail + 1) (suc n) (wrap_lem v (rb.tail + 1))
      ∙ window-set (slots rb) rb.capacity r (rb.tail + 1) n target v.room (omega arith)
          (target_lem (rb.tail + 1) n head_eq)
      ∙ ap (λ l. l ++ (r ∷ []))
          (sym (drop-window (slots rb) rb.capacity rb.tail n 1)
            ∙ ap (λ k. drop 1 (window (slots rb) rb.capacity rb.tail k)) (omega arith))

  contents-push_room : fill rb < rb.capacity → contents rb' ≡ contents rb ++ (r ∷ [])
  contents-push_room less =
      let tail_eq : rb'.tail ≡ rb.tail = ground (arith, p.tail) in
      let fill_eq : fill rb' ≡ suc (fill rb) = ground (arith, fill-push_body r v) in
      let head_eq : rb.head ≡ u32 (rb.tail + fill rb) = omega (arith, v.head_fits, v.tail_fits) in
      window_eq slots-push_body p.capacity tail_eq fill_eq
      ∙ window-set (slots rb) rb.capacity r rb.tail (fill rb) target v.room less
          (target_lem rb.tail (fill rb) head_eq)

  newest-push_body : newest rb' ≡ r
  unfolding newest
  newest-push_body =
      let head_eq : sub32 rb'.head 1 ≡ rb.head = omega (arith, p.head, v.head_fits) in
      rw (head_eq, p.index_mask, slots-push_body)
        (get_or-set_self (slots rb) target r zero_record (index-lt v rb.head))

  pub view-push_body : view rb' ≡ Fifo.push rb.capacity (view rb) r
  unfolding Fifo.push
  view-push_body = λ i. record { items = items i; newest = newest_eq i }
    where
      items :
          contents rb'
          ≡ (if is_full rb.capacity (view rb) then drop 1 (contents rb) else contents rb)
            ++ (r ∷ [])
      items = elim (Bool-cases (is_full rb.capacity (view rb))) [
        | inl full ↦ rw full (
            contents-push_full (rb.capacity - 1) (ground (arith, length-contents rb))
              (omega (arith, capacity_bounds v)))
        | inr room ↦ rw room (contents-push_room (ground (arith, length-contents rb, v.within)))
      ]

      newest_eq : (if rb'.has_newest then some (newest rb') else none) ≡ some r
      newest_eq = ground (arith, p.has_newest, newest-push_body)

pub push_eq :
    {rb : RingBuffer} (r : SensorRecord)
    → IsValid rb
    → push (some rb) (some r) ≡ (is_full rb.capacity (view rb), some (push_body rb r).1)
unfolding push push_body
push_eq {rb} r v = ground (arith, v.stored, length-contents rb)

-- `ring_buffer_push` on a valid ring: it reports whether the queue was full, and leaves a valid ring
-- that holds the queue with the new record at its end, less the oldest record if it was full.
pub push_refines :
    {rb : RingBuffer} (r : SensorRecord)
    → IsValid rb
    → (rb' : RingBuffer) × (push (some rb) (some r) ≡ (is_full rb.capacity (view rb), some rb'))
      × (view rb' ≡ Fifo.push rb.capacity (view rb) r)
      × IsValid rb'
push_refines {rb} r v = ((push_body rb r).1, push_eq r v, view-push_body r v, push_body-IsValid r v)

module _ {rb : RingBuffer} (out : List SensorRecord) (max_records : ℕ) (v : IsValid rb) where
  abbrev taken : ℕ
  taken = pop_count rb max_records

  pub view-pop_body : view (popped rb out max_records) ≡ Fifo.pop (view rb) taken
  unfolding pop_body newest Fifo.pop
  view-pop_body = λ i. record { items = items i; newest = (view rb).newest }
    where
      left : taken + fill (popped rb out max_records) ≡ fill rb
      left = omega (arith, fill-pop_body out max_records v)

      items : contents (popped rb out max_records) ≡ drop taken (contents rb)
      items =
          window-cong (slots rb) rb.capacity (add32 rb.tail taken) (rb.tail + taken)
            (fill (popped rb out max_records)) (wrap_lem v (rb.tail + taken))
          ∙ sym
              (drop-window (slots rb) rb.capacity rb.tail (fill (popped rb out max_records)) taken)
          ∙ ap (λ k. drop taken (window (slots rb) rb.capacity rb.tail k)) left

  out-pop_body :
      max_records ≤ length out
      → (pop_body rb out max_records).1 ≡ take taken (contents rb) ++ drop taken out
  unfolding pop_body
  out-pop_body enough =
      copy_out-window (slots rb) rb.index_mask rb.capacity rb.tail
        (λ a. mask_lem v (u32 a) ∙ wrap_lem v a) taken 0 [] out refl
        (omega (arith, pop_count-le rb max_records))
      ∙ ap (λ l. l ++ drop taken out)
          (ap (λ t. window (slots rb) rb.capacity t taken) (omega arith)
            ∙ sym (
                take-window (slots rb) rb.capacity rb.tail (fill rb) taken
                  (pop_count-le rb max_records).0))

  pub taken_lem : taken ≡ min max_records (length (view rb).items)
  unfolding pop_count
  taken_lem = ground (arith, length-contents rb)

pub pop_eq :
    {rb : RingBuffer} (out : List SensorRecord) (max_records : ℕ)
    → IsValid rb
    → max_records ≤ length out
    → let n = pop_count rb max_records in
      pop (some rb) (some out) max_records
      ≡ (n, some (take n (contents rb) ++ drop n out), some (popped rb out max_records))
unfolding pop pop_body
pop_eq out max_records v enough = ground (arith, v.stored, out-pop_body out max_records v enough)

-- `ring_buffer_pop` on a valid ring, into an array of at least `max_records`: it returns how many it
-- took, the smaller of `max_records` and the queue's length; the array then begins with those
-- oldest records in order, and is unchanged behind them; the ring is valid and holds the rest.
pub pop_refines :
    {rb : RingBuffer} (out : List SensorRecord) (max_records : ℕ)
    → IsValid rb
    → max_records ≤ length out
    → let n = min max_records (length (view rb).items) in
      (rb' : RingBuffer) × (pop (some rb) (some out) max_records
        ≡ (n, some (take n (view rb).items ++ drop n out), some rb'))
      × (view rb' ≡ Fifo.pop (view rb) n)
      × IsValid rb'
pop_refines {rb} out max_records v enough =
    let n_eq = taken_lem out max_records v in
    rw (← n_eq) (
      popped rb out max_records,
      pop_eq out max_records v enough,
      view-pop_body out max_records v,
      pop_body-IsValid out max_records v,
    )

-- `ring_buffer_peek_newest` on a valid ring copies the newest record ever pushed, whether it still
-- waits or not; with nothing ever pushed it returns false and leaves the output alone.
pub peek_refines :
    {rb : RingBuffer} (out : SensorRecord)
    → IsValid rb
    → peek_newest (some rb) (some out)
      ≡ elim (view rb).newest [ none ↦ (false, some out) | some r ↦ (true, some r) ]
unfolding peek_newest
peek_refines {rb} out v = ground (arith, v.stored)

pub init_eq :
    (rb : RingBuffer) (storage : List SensorRecord) (capacity k : ℕ)
    → capacity ≡ 2 ^ k
    → k ≤ 31
    → init (some rb) (some storage) capacity ≡ (true, some (fresh storage capacity))
init_eq rb storage capacity k power small =
    unfold init in rw (bad_capacity-pow storage capacity k power small) refl

-- `ring_buffer_init` accepts every power of two up to 2^31, and makes a valid empty ring of it, if
-- the storage holds that many records.
pub init_accepts :
    (rb : RingBuffer) (storage : List SensorRecord) (capacity k : ℕ)
    → capacity ≤ length storage
    → capacity ≡ 2 ^ k
    → k ≤ 31
    → (rb' : RingBuffer) × (init (some rb) (some storage) capacity ≡ (true, some rb'))
      × (rb'.capacity ≡ capacity)
      × (view rb' ≡ empty)
      × IsValid rb'
init_accepts rb storage capacity k enough power small =
    let ok = bad_capacity-pow storage capacity k power small in
    (
      fresh storage capacity,
      init_eq rb storage capacity k power small,
      unfold fresh in refl,
      unfold fresh in refl,
      fresh-IsValid storage capacity enough ok,
    )

-- `ring_buffer_init` rejects every other capacity, 0 among them, and leaves the ring as it was.
pub init_rejects :
    (rb : RingBuffer) (storage : List SensorRecord) (capacity : ℕ)
    → ((k : ℕ) → k ≤ 31 → capacity ≢ 2 ^ k)
    → init (some rb) (some storage) capacity ≡ (false, some rb)
unfolding init
init_rejects rb storage capacity odd = elim (Bool-cases (bad_capacity capacity)) [
  | inl bad ↦ rw bad
  | inr ok ↦ let (k, e, small) = pow_of_bad_capacity storage capacity ok in absurd (odd k small e)
]
