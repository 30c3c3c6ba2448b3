-- ===== src/Xadc/Milli.antt =====
-- The conversion to milli-units against the transfer functions, and what a snapshot holds.
use zybo_rtos_sensor_aggrega.Prelude.{
  ℕ, zero, suc, ◌+◌, ◌*◌, ◌/◌, ◌^◌, ◌≤◌, ◌<◌, ◌≡◌, refl, ◌∙◌, ◌≢◌, Bool, true, false, ◌==◌, inl,
  inr, some, List, if◌then◌else◌, get_or, set, length, arith, length-set, get_or-set_self,
  get_or-set_ne, Bool-cases,
}
use zybo_rtos_sensor_aggrega.Prelude.Int.{pos, sub_ℕ, pos_part, neg_part, ◌≤ℤ◌}
use zybo_rtos_sensor_aggrega.Sample.{XadcSample, sensor_count}
use zybo_rtos_sensor_aggrega.Xadc.{
  XadcPs, code_to_milli, is_temperature, read_from, read_raw, read_all, scaled, temp_gain_milli,
  temp_offset_milli, supply_fs_mv, sensor_desc, no_desc,
}

-- Milli-units per full scale, and below which the scale starts.
abbrev pub gain : ℕ → ℕ
gain sensor = if is_temperature sensor then 503975 else 3000

abbrev pub offset : ℕ → ℕ
offset sensor = if is_temperature sensor then 273150 else 0

sub_ℕ-parts : (a b : ℕ) → pos_part (sub_ℕ a b) + b ≡ a + neg_part (sub_ℕ a b)
sub_ℕ-parts a b = ground arith

-- Every sensor but the first is a supply rail.
rail_desc : (n : ℕ) → n < 6 → (get_or sensor_desc (suc n) no_desc).is_temp ≡ false
rail_desc zero h = refl
rail_desc (suc zero) h = refl
rail_desc (suc (suc zero)) h = refl
rail_desc (suc (suc (suc zero))) h = refl
rail_desc (suc (suc (suc (suc zero)))) h = refl
rail_desc (suc (suc (suc (suc (suc zero))))) h = refl
rail_desc (suc (suc (suc (suc (suc (suc n)))))) h = absurd (omega arith)

rail : (n code : ℕ) → n < 6 → code_to_milli (suc n) code ≡ pos (scaled code supply_fs_mv)
unfolding code_to_milli
rail n code h = ground (arith, rail_desc n h)

rail-is_temperature : (n : ℕ) → n < 6 → is_temperature (suc n) ≡ false
unfolding is_temperature
rail-is_temperature n h = ground (arith, rail_desc n h)

-- The milli-units of a 12-bit code are those of the transfer function to the nearest unit: nothing wraps,
-- and the value times 4096 is within 2048 of the code times the gain, less the offset.
pub code_to_milli-rounds :
    (sensor code : ℕ)
    → sensor < sensor_count
    → code < 4096
    → (4096 * (pos_part (code_to_milli sensor code) + offset sensor)
        ≤ code * gain sensor + 2048 + 4096 * neg_part (code_to_milli sensor code))
      × (code * gain sensor + 4096 * neg_part (code_to_milli sensor code)
          < 4096 * (pos_part (code_to_milli sensor code) + offset sensor) + 2048)
unfolding code_to_milli is_temperature
code_to_milli-rounds zero code hs hc =
    omega (arith, sub_ℕ-parts (scaled code temp_gain_milli) temp_offset_milli)
code_to_milli-rounds (suc n) code hs hc =
    rw (rail n code (omega arith), rail-is_temperature n (omega arith)) (omega arith, omega arith)

-- Of two 12-bit codes of a sensor the larger has at least the milli-units of the smaller.
code_to_milli-mono :
    (sensor a b : ℕ)
    → sensor < sensor_count
    → a ≤ b
    → b < 4096
    → code_to_milli sensor a ≤ℤ code_to_milli sensor b
code_to_milli-mono zero a b hs hab hb =
    unfold code_to_milli in
    omega (
      arith,
      sub_ℕ-parts (scaled a temp_gain_milli) temp_offset_milli,
      sub_ℕ-parts (scaled b temp_gain_milli) temp_offset_milli,
    )
code_to_milli-mono (suc n) a b hs hab hb =
    rw (rail n a (omega arith), rail n b (omega arith)) (omega arith)

length-read_from :
    (ready : Bool) (x : XadcPs) (sensor left : ℕ) (codes : List ℕ)
    → length (read_from ready x sensor left codes) ≡ length codes
unfolding read_from
length-read_from ready x sensor zero codes = refl
length-read_from ready x sensor (suc left) codes =
    length-read_from ready x (sensor + 1) left (set codes sensor (read_raw ready x sensor))
    ∙ length-set codes sensor (read_raw ready x sensor)

read_from-below :
    (ready : Bool) (x : XadcPs) (sensor left i : ℕ) (codes : List ℕ)
    → i < sensor
    → get_or (read_from ready x sensor left codes) i 0 ≡ get_or codes i 0
unfolding read_from
read_from-below ready x sensor zero i codes h = refl
read_from-below ready x sensor (suc left) i codes h =
    read_from-below ready x (sensor + 1) left i (set codes sensor (read_raw ready x sensor))
      (omega arith)
    ∙ get_or-set_ne codes sensor i (read_raw ready x sensor) 0 (λ e. omega arith)

read_from-reads :
    (ready : Bool) (x : XadcPs) (sensor left i : ℕ) (codes : List ℕ)
    → sensor ≤ i
    → i < sensor + left
    → sensor + left ≤ length codes
    → get_or (read_from ready x sensor left codes) i 0 ≡ read_raw ready x i
unfolding read_from
read_from-reads ready x sensor zero i codes lo hi room = absurd (omega arith)
read_from-reads ready x sensor (suc left) i codes lo hi room = elim (Bool-cases (sensor == i)) [
  | inl same ↦
      let e : sensor ≡ i = ground arith in
      read_from-below ready x (sensor + 1) left i (set codes sensor (read_raw ready x sensor))
        (omega arith)
      ∙ rw e (get_or-set_self codes i (read_raw ready x i) 0 (omega arith))
  | inr other ↦
      let ne : sensor ≢ i = ground arith in
      read_from-reads ready x (sensor + 1) left i (set codes sensor (read_raw ready x sensor))
        (omega (arith, ne)) (omega arith)
        (omega (arith, length-set codes sensor (read_raw ready x sensor)))
]

-- `xadc_drv_read_all` of a ready driver fills a whole snapshot, and the code of each sensor is the high 12
-- bits of the 16-bit register of its channel, so below 4096.
read_all_lem :
    (x : XadcPs) (out : XadcSample) (sensor : ℕ)
    → length out.raw_code ≡ sensor_count
    → sensor < sensor_count
    → x.get_adc_data (x.adc_channel sensor) < 2 ^ 16
    → (out' : XadcSample) × (read_all true x (some out) ≡ some out')
      × (length out'.raw_code ≡ sensor_count)
      × (get_or out'.raw_code sensor 0 ≡ x.get_adc_data (x.adc_channel sensor) / 16)
      × (get_or out'.raw_code sensor 0 < 4096)
read_all_lem x out sensor hl hs h16 = (
  out',
  unfold read_all in refl,
  length-read_from true x 0 sensor_count out.raw_code ∙ hl,
  code,
  omega (arith, code),
)
  where
    out' : XadcSample
    out' = record { raw_code = read_from true x 0 sensor_count out.raw_code }

    raw : read_raw true x sensor ≡ x.get_adc_data (x.adc_channel sensor) / 16
    raw = unfold read_raw in ground arith

    code : get_or out'.raw_code sensor 0 ≡ x.get_adc_data (x.adc_channel sensor) / 16
    code =
        read_from-reads true x 0 sensor_count sensor out.raw_code (omega arith) (omega arith)
          (omega arith)
        ∙ raw
