-- ===== src/Fixtures.antt =====
-- Data for the tests: a log of two slots whose two records wait, its counters just past their wrap, and the
-- answers of a quiet board.
use zybo_rtos_sensor_aggrega.Prelude.{
  ℕ, ◌-◌, ◌*◌, ◌^◌, refl, true, false, some, none, [], ◌∷◌, replicate, arith,
}
use zybo_rtos_sensor_aggrega.Sample.{SensorRecord, XadcSample, zero_record}
use zybo_rtos_sensor_aggrega.Ring.{RingBuffer}
use zybo_rtos_sensor_aggrega.Ring.Inv.{IsValid}
use zybo_rtos_sensor_aggrega.SensorLog.{SensorLog, LockEnv}
use zybo_rtos_sensor_aggrega.Xadc.{XadcPs}
use zybo_rtos_sensor_aggrega.Gpio.{Gpio, released}
use zybo_rtos_sensor_aggrega.Producer
use zybo_rtos_sensor_aggrega.Producer.{PassEnv}
use zybo_rtos_sensor_aggrega.Consumer.Messages
use zybo_rtos_sensor_aggrega.Consumer.Messages.{MsgEnv}
use zybo_rtos_sensor_aggrega.SampleTimer.{success, Callback, SampleTimer, Ttc, InitEnv}
use zybo_rtos_sensor_aggrega.Consumer.Report.{Diagnostics}

abbrev pub codes : ℕ → XadcSample
codes n = record { raw_code = n ∷ n ∷ n ∷ n ∷ n ∷ n ∷ n ∷ [] }

abbrev pub numbered : ℕ → SensorRecord
numbered n = record { capture_us = n * 100; seq = n; sensors = codes n; buttons = 0 }

abbrev pub waiting_ring : RingBuffer
waiting_ring = record {
  storage = some (numbered 3 ∷ numbered 4 ∷ []);
  capacity = 2;
  index_mask = 1;
  head = 0;
  tail = 2 ^ 32 - 2;
  overwritten = 0;
  fill_high_water = 2;
  has_newest = true;
}

pub waiting_ring-IsValid : IsValid waiting_ring
waiting_ring-IsValid = record {
  exponent = 1;
  small = omega arith;
  stored = refl;
  power = refl;
  mask = refl;
  room = omega arith;
  head_fits = omega arith;
  tail_fits = omega arith;
  within = omega arith;
  peak = omega arith;
  peak_within = omega arith;
}

abbrev pub waiting_log : SensorLog
waiting_log = record { ring = waiting_ring; lock_hold_max_us = 0; mutex = true }

abbrev pub free : LockEnv
free = record { take = λ wait. true; locked_at_us = 10; unlocked_at_us = 13 }

abbrev pub busy : LockEnv
busy = record free { take = λ wait. false }

-- Every channel reads 0x9990, so the code 0x999.
abbrev pub adc : XadcPs
adc = record {
  get_adc_data = λ channel. 0x9990;
  get_min_max = λ index. 0x9990;
  adc_channel = λ sensor. sensor;
  min_index = λ sensor. sensor;
  max_index = λ sensor. sensor;
}

abbrev pub quiet_gpio : Gpio
quiet_gpio = record { ready = true; led_on = false; btn_state = released ∷ released ∷ [] }

-- One pass of the producer, with one tick late.
abbrev pub sampling : PassEnv
sampling = record {
  pending_ticks = 2;
  capture_us = 1000;
  xadc_ready = true;
  xadc = adc;
  gpio = quiet_gpio;
  write_start_us = 1040;
  lock = free;
  write_wait = 2;
  write_end_us = 1060;
  queue_created = true;
  queue_takes = λ msg. false;
  tick = 1;
}

abbrev pub diagnostics : Diagnostics
diagnostics = record {
  now_ms = 0;
  prod_stats = (Producer.initial 100).stats;
  log_first = 0x0020_0000;
  ui_dropped = 0;
  rx_overrun = 0;
  rx_framing = 0;
  rx_parity = 0;
  stack_watchdog = 100;
  stack_producer = 100;
  stack_ui = 100;
  stack_consumer = 100;
  heap_free = 1000;
  reset_cause = "power-on";
  wdt_timeout_ms = 2000;
}

abbrev pub msg_env : MsgEnv
msg_env = record { lock = free; read_wait = 10; diagnostics = diagnostics; wdt_running = true }

-- A step of the consumer that finds no message.
abbrev pub polling : Messages.PassEnv
polling = record {
  receive = λ wait. none;
  queue_left = 0;
  poll_ticks = 100;
  msg_env = msg_env;
  locks = λ batch_num. free;
  batch = replicate 16 zero_record;
  stall_ticks = 1000;
  tick = 5;
  now_us = 5000;
  producer_samples = 1;
}

-- The counter of the board at 10 Hz, from 111.1 MHz, and the timer before and after its set-up.
abbrev pub ttc : Ttc
ttc = record { interval_mask = 0x01; ps_disable = 0x10 }

abbrev pub timer_board : InitEnv
timer_board = record {
  found = true;
  initialized = success;
  options_set = true;
  calc = λ rate_hz. (43402, 7);
  input_clock_hz = 111_111_115;
  installed = true;
}

abbrev pub on_tick : Callback
on_tick = record { function = 0x10_0000; context = 0 }

abbrev pub timer_off : SampleTimer
timer_off = record { tick_cb = none; period_us = 0; ready = false }

abbrev pub timer_on : SampleTimer
timer_on = record { tick_cb = some on_tick; period_us = 100_000; ready = true }
