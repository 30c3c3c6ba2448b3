-- ===== src/Xadc.antt =====
-- sw/stage4_watchdog/src/drivers/xadc_drv.c: readings of the XADC and their conversion to milli-units.
-- What XAdcPs returns, and its constants, are arguments.
pub mod Milli
mod Tests
use Prim.Native.String.{String}
use zybo_rtos_sensor_aggrega.Prelude.{
  ℕ, zero, suc, ◌+◌, ◌*◌, ◌/◌, ◌^◌, Bool, true, false, not, ◌||◌, ◌&&◌, Option, none, some, List,
  [], ◌∷◌, ltb, leb, if◌then◌else◌, get_or, set, u16, u32,
}
use zybo_rtos_sensor_aggrega.Prelude.Int.{ℤ, pos, sub_ℕ}
use zybo_rtos_sensor_aggrega.Sample.{XadcSample, sensor_count}

pub data Status : Type 0 where
  ok err_lookup err_init err_selftest err_seq_config : Status

-- `s_sensor_desc` but for the three indices, which are constants of XAdcPs.
pub record SensorDesc : Type 0 where
  pub name : String
  pub is_temp : Bool

abbrev pub no_desc : SensorDesc
no_desc = record { name = "?"; is_temp = false }

abbrev pub sensor_desc : List SensorDesc
sensor_desc =
    record { name = "Die temp"; is_temp = true }
    ∷ record { name = "VCCINT"; is_temp = false }
    ∷ record { name = "VCCAUX"; is_temp = false }
    ∷ record { name = "VCCBRAM"; is_temp = false }
    ∷ record { name = "VCCPINT"; is_temp = false }
    ∷ record { name = "VCCPAUX"; is_temp = false }
    ∷ record { name = "VCCO_DDR"; is_temp = false }
    ∷ []

-- The answers of XAdcPs, and its indices by sensor.
pub record XadcPs : Type 0 where
  pub get_adc_data : ℕ → ℕ
  pub get_min_max : ℕ → ℕ
  pub adc_channel : ℕ → ℕ
  pub min_index : ℕ → ℕ
  pub max_index : ℕ → ℕ

abbrev pub code_full_scale : ℕ
code_full_scale = 4096

abbrev pub temp_gain_milli : ℕ
temp_gain_milli = 503975

abbrev pub temp_offset_milli : ℕ
temp_offset_milli = 273150

abbrev pub supply_fs_mv : ℕ
supply_fs_mv = 3000

-- The calls that set the sequencer up, in the order they are made.
pub data Call : Type 0 where
  mode_safe calib_enables avg_16 seq_avg_enables seq_ch_enables mode_contin_pass : Call

-- Whether each call of XAdcPs that can fail succeeds.
pub record InitEnv : Type 0 where
  pub found : Bool
  pub configured : Bool
  pub selftest : Bool
  pub seq_avg : Bool
  pub seq_ch : Bool

-- The status, the calls made after the self test, and `s_xadc_ready`.
pub init : InitEnv → Status × List Call × Bool
init env =
    if not env.found
    then (err_lookup, [], false)
    else if not env.configured
    then (err_init, [], false)
    else if not env.selftest
    then (err_selftest, [], false)
    else if not env.seq_avg
    then (err_seq_config, mode_safe ∷ calib_enables ∷ avg_16 ∷ seq_avg_enables ∷ [], false)
    else if not env.seq_ch
    then (
      err_seq_config,
      mode_safe ∷ calib_enables ∷ avg_16 ∷ seq_avg_enables ∷ seq_ch_enables ∷ [],
      false,
    )
    else (
      ok,
      mode_safe ∷ calib_enables ∷ avg_16 ∷ seq_avg_enables ∷ seq_ch_enables ∷ mode_contin_pass ∷ [],
      true,
    )

-- The shift drops the 4 low bits of a 16-bit register.
abbrev pub result_code : ℕ → ℕ
result_code word = u16 (word / 2 ^ 4)

pub read_raw : Bool → XadcPs → ℕ → ℕ
read_raw ready x sensor =
    if not ready || leb sensor_count sensor
    then 0
    else result_code (x.get_adc_data (x.adc_channel sensor))

-- The loop from `sensor` on, with the number of sensors left.
pub read_from : Bool → XadcPs → ℕ → ℕ → List ℕ → List ℕ
read_from ready x sensor zero codes = codes
read_from ready x sensor (suc left) codes =
    read_from ready x (sensor + 1) left (set codes sensor (read_raw ready x sensor))

-- A NULL pointer is `none`.
pub read_all : Bool → XadcPs → Option XadcSample → Option XadcSample
read_all ready x none = none
read_all ready x (some out) =
    some (record { raw_code = read_from ready x 0 sensor_count out.raw_code })

-- `*min_code_out` and `*max_code_out`.
pub read_min_max : Bool → XadcPs → ℕ → Option ℕ → Option ℕ → Option ℕ × Option ℕ
read_min_max ready x sensor (some lo) (some hi) =
    if not ready || leb sensor_count sensor then (some 0, some 0) else (
      some (result_code (x.get_min_max (x.min_index sensor))),
      some (result_code (x.get_min_max (x.max_index sensor))),
    )
read_min_max ready x sensor none hi = (none, hi)
read_min_max ready x sensor (some lo) none = (some lo, none)

-- Round to nearest, in `uint32_t`.
abbrev pub scaled : ℕ → ℕ → ℕ
scaled raw_code gain = u32 (u32 (raw_code * gain) + code_full_scale / 2) / code_full_scale

-- The quotient is below 2 ^ 20, so the casts to `int32_t` keep it.
pub code_to_milli : ℕ → ℕ → ℤ
code_to_milli sensor raw_code =
    if leb sensor_count sensor
    then pos 0
    else if (get_or sensor_desc sensor no_desc).is_temp
    then sub_ℕ (scaled raw_code temp_gain_milli) temp_offset_milli
    else pos (scaled raw_code supply_fs_mv)

pub is_temperature : ℕ → Bool
is_temperature sensor = ltb sensor sensor_count && (get_or sensor_desc sensor no_desc).is_temp

pub sensor_name : ℕ → String
sensor_name sensor =
    if ltb sensor sensor_count then (get_or sensor_desc sensor no_desc).name else "?"

pub sensor_unit : ℕ → String
sensor_unit sensor = if is_temperature sensor then "C" else "V"
