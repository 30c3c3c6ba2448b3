-- ===== src/Ring/Fifo.antt =====
-- What the ring promises: a queue of at most `cap` records, oldest first, that drops from the front.
use zybo_rtos_sensor_aggrega.Prelude.{
  ℕ, Bool, List, [], ◌∷◌, ◌++◌, Option, none, some, ◌==◌, if◌then◌else◌, length, drop,
}
use zybo_rtos_sensor_aggrega.Sample.{SensorRecord}

-- The records waiting, and the newest one ever pushed.
pub record Fifo : Type 0 where
  pub items : List SensorRecord
  pub newest : Option SensorRecord

abbrev pub empty : Fifo
empty = record { items = []; newest = none }

abbrev pub is_full : ℕ → Fifo → Bool
is_full cap q = length q.items == cap

unfoldable pub push : ℕ → Fifo → SensorRecord → Fifo
push cap q r = record {
  items = (if is_full cap q then drop 1 q.items else q.items) ++ (r ∷ []);
  newest = some r;
}

unfoldable pub pop : Fifo → ℕ → Fifo
pop q n = record q { items = drop n q.items }
