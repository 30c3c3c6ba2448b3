-- ===== src/Rtos/Plain.antt =====
-- A number as a notification and a list as a queue: the laws can be met.
use zybo_rtos_sensor_aggrega.Prelude.{
  ℕ, ◌+◌, ◌≡◌, refl, Bool, true, false, List, [], ◌∷◌, ◌++◌, ltb, if◌then◌else◌, length, drop, u32,
  inl, inr, Bool-cases,
}
use zybo_rtos_sensor_aggrega.Rtos.{Notification, Queue, first}

abbrev pub counting : Notification
counting = record {
  Value = ℕ;
  cleared = 0;
  count = λ v. v;
  give = λ v. (true, u32 (v + 1));
  take = λ v. (v, 0);
  count-cleared = refl;
  count-give = λ v. refl;
  take-count = λ v. refl;
  count-take = λ v. refl;
}

abbrev pub offer_to : {A : Type 0} → ℕ → List A → A → Bool × List A
offer_to limit q a = if ltb (length q) limit then (true, q ++ (a ∷ [])) else (false, q)

pub offer_to_lem :
    {A : Type 0} (limit : ℕ) (q : List A) (a : A)
    → ((offer_to limit q a).0 ≡ ltb (length q) limit)
      × ((offer_to limit q a).1 ≡ (if ltb (length q) limit then q ++ (a ∷ []) else q))
offer_to_lem limit q a = elim (Bool-cases (ltb (length q) limit)) [
  | inl room ↦ rw room (refl, refl)
  | inr full ↦ rw full (refl, refl)
]

module _ {A : Type 0} (limit : ℕ) where
  abbrev pub listed : Queue A limit
  listed = record {
    State = List A;
    created = [];
    waiting = λ q. q;
    offer = λ q a. offer_to limit q a;
    receive = λ q. (first q, drop 1 q);
    messages_waiting = λ q. length q;
    waiting-created = refl;
    offer_lem = λ q a. (offer_to_lem limit q a).0;
    waiting-offer = λ q a. (offer_to_lem limit q a).1;
    receive_lem = λ q. refl;
    waiting-receive = λ q. refl;
    messages_waiting_lem = λ q. refl;
  }
