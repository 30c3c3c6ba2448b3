-- ===== src/Sample.antt =====
-- The data of sw/stage4_watchdog/src/datalog/sensor_record.h and of drivers/xadc_drv.h.
use zybo_rtos_sensor_aggrega.Prelude.{ℕ, List, replicate}

-- `XADC_SENSOR_COUNT`.
abbrev pub sensor_count : ℕ
sensor_count = 7

-- One raw 12-bit code for each sensor, in the order of `xadc_sensor_t`.
pub record XadcSample : Type 0 where
  pub raw_code : List ℕ

pub record SensorRecord : Type 0 where
  pub capture_us : ℕ  -- uint64_t
  pub seq : ℕ  -- uint32_t
  pub sensors : XadcSample
  pub buttons : ℕ  -- uint8_t

abbrev pub zero_sample : XadcSample
zero_sample = record { raw_code = replicate sensor_count 0 }

-- What the zeroed `.bss` holds.
abbrev pub zero_record : SensorRecord
zero_record = record { capture_us = 0; seq = 0; sensors = zero_sample; buttons = 0 }
