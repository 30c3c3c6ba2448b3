-- ===== src/Watchdog.antt =====
-- sw/stage4_watchdog/src/tasks/task_watchdog.c: check-ins of the monitored tasks, and the supervisor
-- that kicks the SWDT only while every task keeps its limit. The tick rate of FreeRTOS, the tick
-- counts and whether the SWDT runs are arguments.
pub mod Checkin
pub mod Pass
pub mod Schedule
pub mod Reset
mod Tests
use Prim.Native.String.{String}
use mathlib.Core.Option
use zybo_rtos_sensor_aggrega.Rtos
use zybo_rtos_sensor_aggrega.Rtos.{Kernel, TaskSpec, create_task}
use zybo_rtos_sensor_aggrega.Prelude.{
  ℕ, ◌+◌, ◌*◌, ◌/◌, Bool, true, false, ◌&&◌, not, Option, none, some, List, [], ◌∷◌, ltb, leb, ◌==◌,
  if◌then◌else◌, get_or, set, u32, u64, add32, sub32,
}
use zybo_rtos_sensor_aggrega.Config.{
  app_stack_watchdog, app_prio_watchdog, app_wdt_limit_producer_ms, app_wdt_limit_ui_ms,
  app_wdt_limit_consumer_ms,
}

-- `wdog_client_t`: the indices 0, 1, 2, and the count.
abbrev pub client_producer : ℕ
client_producer = 0

abbrev pub client_ui : ℕ
client_ui = 1

abbrev pub client_consumer : ℕ
client_consumer = 2

abbrev pub client_count : ℕ
client_count = 3

pub record ClientState : Type 0 where
  pub name : String
  pub limit_ms : ℕ
  pub last_checkin_tick : ℕ  -- TickType_t
  pub hang_requested : Bool

pub record WdogStats : Type 0 where
  pub timeout_ms : ℕ
  pub kicks : ℕ
  pub worst_silence_ms : List ℕ

-- The file's static variables, and the local `kicking` of the task.
pub record Wdog : Type 0 where
  pub clients : List ClientState
  pub stats : WdogStats
  pub kicking : Bool

abbrev pub no_client : ClientState
no_client = record { name = "?"; limit_ms = 0; last_checkin_tick = 0; hang_requested = false }

-- `s_clients` as initialised.
abbrev pub initial_clients : List ClientState
initial_clients =
    record no_client { name = "producer"; limit_ms = app_wdt_limit_producer_ms }
    ∷ record no_client { name = "ui"; limit_ms = app_wdt_limit_ui_ms }
    ∷ record no_client { name = "consumer"; limit_ms = app_wdt_limit_consumer_ms }
    ∷ []

abbrev pub initial : Wdog
initial = record {
  clients = initial_clients;
  stats = record { timeout_ms = 0; kicks = 0; worst_silence_ms = 0 ∷ 0 ∷ 0 ∷ [] };
  kicking = true;
}

-- `wdog_ticks_to_ms` at tick rate `hz`.
pub ticks_to_ms : ℕ → ℕ → ℕ
ticks_to_ms hz ticks = u32 (u64 (ticks * 1000) / hz)

-- How long a client has not checked in, as the supervisor reckons at tick `now`.
pub silence : ℕ → ℕ → ClientState → ℕ
silence hz now c = ticks_to_ms hz (sub32 now c.last_checkin_tick)

abbrev pub is_none {ℓ} : {A : Type ℓ} → Option A → Bool
is_none none = true
is_none (some a) = false

-- The first late client stays the one that is reported.
pub note_late : ℕ → ℕ → ClientState → Option (ℕ × ℕ) → Option (ℕ × ℕ)
note_late idx silence_ms c late =
    if ltb c.limit_ms silence_ms && is_none late then some (idx, silence_ms) else late

pub note_worst : ℕ → ℕ → List ℕ → List ℕ
note_worst idx silence_ms worst =
    if ltb (get_or worst idx 0) silence_ms then set worst idx silence_ms else worst

-- The loop over the clients: the first late client with its silence, and the worst silences.
pub scan : ℕ → ℕ → List ClientState → ℕ → Option (ℕ × ℕ) → List ℕ → Option (ℕ × ℕ) × List ℕ
scan hz now [] idx late worst = (late, worst)
scan hz now (c ∷ cs) idx late worst =
    let silence_ms = silence hz now c in
    scan hz now cs (idx + 1) (note_late idx silence_ms c late) (note_worst idx silence_ms worst)

-- What a pass of the supervisor does outside its own state.
pub data Action : Type 0 where
  quiet : Action
  kick : Action
  report : ℕ → ℕ → Action

-- What the pass does with the result of the loop; `running` is `wdt_drv_is_running`.
pub decide : Bool → Option (ℕ × ℕ) → Wdog → Action × Wdog
decide running late w = if not w.kicking then (quiet, w) else elim late [
  | none ↦
      if running
      then (kick, record w { stats = record (w.stats) { kicks = add32 w.stats.kicks 1 } })
      else (quiet, w)
  | some (client, late_ms) ↦ (report client late_ms, record w { kicking = false })
]

-- One pass of `wdog_task`'s loop, woken at tick `now`.
pub check_pass : ℕ → ℕ → Bool → Wdog → Action × Wdog
check_pass hz now running w =
    let (late, worst) = scan hz now w.clients 0 none w.stats.worst_silence_ms in
    decide running late (record w { stats = record (w.stats) { worst_silence_ms = worst } })

-- What is written to the console: literal text, or a number in decimal.
pub data Piece : Type 0 where
  text : String → Piece
  dec : ℕ → Piece

-- `wdog_report_late`.
pub report_late : Wdog → ℕ → ℕ → Bool → ℕ → List Piece
report_late w client silence_ms running timeout_ms =
    text "\n\nWATCHDOG: "
    ∷ text (get_or w.clients client no_client).name
    ∷ text " has not checked in for "
    ∷ dec silence_ms
    ∷ (if running
        then text " ms, no more kicks - SWDT reset in " ∷ dec timeout_ms ∷ text " ms or less\n" ∷ []
        else text " ms (SWDT not running, no reset)\n" ∷ [])

-- `wdog_test_hang`: the UI task suspends itself for ever, the others spin.
pub data Hang : Type 0 where
  suspends spins : Hang

pub test_hang : ℕ → Hang
test_hang client = if client == client_ui then suspends else spins

-- `task_watchdog_checkin` at tick `now`; `none` is a task that hangs here on request, as `test_hang` says.
pub checkin : ℕ → ℕ → Wdog → Option Wdog
checkin client now w =
    let c = get_or w.clients client no_client in
    if leb client_count client
    then some w
    else if c.hang_requested
    then none
    else some (record w { clients = set w.clients client (record c { last_checkin_tick = now }) })

-- `task_watchdog_get_stats`; `timeout_ms` is what `wdt_drv_timeout_ms` returns.
pub get_stats : ℕ → Wdog → Option WdogStats → Option WdogStats
get_stats timeout_ms w none = none
get_stats timeout_ms w (some out) = some (record (w.stats) { timeout_ms = timeout_ms })

pub client_name : ℕ → Wdog → String
client_name client w =
    if ltb client client_count then (get_or w.clients client no_client).name else "?"

pub inject_hang : ℕ → Wdog → Wdog
inject_hang client w =
    let c = get_or w.clients client no_client in
    if ltb client client_count
    then record w { clients = set w.clients client (record c { hang_requested = true }) }
    else w

-- `task_watchdog_create`: the calls and the result.
abbrev pub task : Kernel → TaskSpec
task k = record {
  name = "watchdog";
  stack_words = app_stack_watchdog;
  priority = app_prio_watchdog k.idle_priority;
}

pub create : Kernel → List Rtos.Call × Bool
create k = create_task k (task k)
