-- ===== src/Vantage/Loop.antt =====
-- The LOOP and LOOP2 packets of backend/app/protocol/vantage/loop_packet.py: `LoopData`,
-- `parse_loop`, `Loop2Data` and `parse_loop2`. A field that the source leaves at its default is none.
pub mod Packets
use kanfei.Prelude.{
  ℕ, zero, suc, ◌+◌, ◌*◌, Bool, true, false, ◌&&◌, ◌||◌, Option, none, some, List, [], ◌∷◌, length,
  ltb, take, ◌==◌, not, ℤ, pos, eqb_ℤ, if◌then◌else◌,
}
use kanfei.Bytes.{Bytes, byte_at, u16_at, i8_at, i16_at}
use kanfei.Floats.{Float, of_nat, decimal, round_to, ◌⊘◌}
use kanfei.Crc.{crc_validate}
use kanfei.Vantage.Archive.{unless_eq}
use kanfei.Vantage.Validity.{
  valid_temp, valid_humidity, valid_barometer, valid_uv, valid_solar, valid_rain_rate,
  valid_wind_dir, valid_wind_speed, valid_derived_temp, valid_clock, decode_extra_temp,
}

abbrev pub loop_packet_size : ℕ
loop_packet_size = 99

abbrev pub bar_trend_unknown : ℤ
bar_trend_unknown = pos 0x50

pub record LoopData (F : Type 0) : Type 0 where
  pub bar_trend : Option ℤ
  pub barometer : Option ℕ
  pub inside_temp : Option ℤ
  pub inside_humidity : Option ℕ
  pub outside_temp : Option ℤ
  pub outside_humidity : Option ℕ
  pub wind_speed : Option ℕ
  pub wind_speed_10min : Option ℕ
  pub wind_direction : Option ℕ
  pub rain_rate : Option ℕ
  pub uv_index : Option ℕ
  pub solar_radiation : Option ℕ
  pub storm_rain : Option ℕ
  pub day_rain : Option ℕ
  pub month_rain : Option ℕ
  pub year_rain : Option ℕ
  pub day_et : Option ℕ
  pub month_et : Option ℕ
  pub year_et : Option ℕ
  pub sunrise : Option ℕ
  pub sunset : Option ℕ
  pub forecast_icons : Option ℕ
  pub forecast_rule : Option ℕ
  pub transmitter_battery_status : Option ℕ
  pub console_battery_voltage : Option F
  pub extra_temps : List (Option ℤ)
  pub soil_temps : List (Option ℤ)
  pub leaf_temps : List (Option ℤ)
  pub extra_humidities : List (Option ℕ)
  pub soil_moistures : List (Option ℕ)
  pub leaf_wetnesses : List (Option ℕ)

pub record Loop2Data : Type 0 where
  pub bar_trend : Option ℤ
  pub barometer : Option ℕ
  pub wind_speed_10min : Option ℕ
  pub wind_speed_2min : Option ℕ
  pub wind_gust_10min : Option ℕ
  pub wind_gust_dir : Option ℕ
  pub dew_point : Option ℤ
  pub heat_index : Option ℤ
  pub wind_chill : Option ℤ
  pub thsw_index : Option ℤ
  pub rain_rate : Option ℕ
  pub uv_index : Option ℕ
  pub solar_radiation : Option ℕ
  pub day_rain : Option ℕ
  pub rain_last_15min : Option ℕ
  pub rain_last_hour : Option ℕ
  pub bar_reduction_method : Option ℕ
  pub bar_user_offset : Option ℕ
  pub bar_calibration : Option ℤ
  pub bar_raw_sensor : Option ℕ
  pub abs_barometer : Option ℕ
  pub altimeter_barometer : Option ℕ

-- raw[0:3] == LOOP_HEADER
unfoldable pub has_header : Bytes → Bool
has_header raw = (byte_at raw 0 == b'L') && (byte_at raw 1 == b'O') && (byte_at raw 2 == b'O')

unfoldable pub known_trend : ℤ → Option ℤ
known_trend v = if eqb_ℤ v bar_trend_unknown then none else some v

-- [decode(raw[i]) for i in range(i, i + n)]
unfoldable pub slots : {A : Type 0} → (ℕ → A) → ℕ → ℕ → Bytes → List A
slots decode zero i raw = []
slots decode (suc n) i raw = decode (byte_at raw i) ∷ slots decode n (i + 1) raw

module _ {F : Type 0} ⦃fl : Float F⦄ where
  -- A raw value of zero is false.
  unfoldable pub console_voltage : ℕ → Option F
  console_voltage raw =
      if raw == 0
      then none
      else some (round_to (of_nat (raw * 300) ⊘ of_nat 512 ⊘ decimal 1000 1) 2)

  unfoldable pub loop_fields : Bytes → LoopData F
  unfolding slots
  loop_fields raw = record {
    bar_trend = known_trend (i8_at raw 3);
    barometer = valid_barometer (u16_at raw 7);
    inside_temp = valid_temp (i16_at raw 9);
    outside_temp = valid_temp (i16_at raw 12);
    inside_humidity = valid_humidity (byte_at raw 11);
    outside_humidity = valid_humidity (byte_at raw 33);
    wind_speed = valid_wind_speed (byte_at raw 14);
    wind_speed_10min = valid_wind_speed (byte_at raw 15);
    wind_direction = valid_wind_dir (u16_at raw 16);
    rain_rate = valid_rain_rate (u16_at raw 41);
    storm_rain = some (u16_at raw 46);
    day_rain = some (u16_at raw 50);
    month_rain = some (u16_at raw 52);
    year_rain = some (u16_at raw 54);
    uv_index = valid_uv (byte_at raw 43);
    solar_radiation = valid_solar (u16_at raw 44);
    day_et = some (u16_at raw 56);
    month_et = some (u16_at raw 58);
    year_et = some (u16_at raw 60);
    extra_temps = slots decode_extra_temp 7 18 raw;
    soil_temps = slots decode_extra_temp 4 25 raw;
    leaf_temps = slots decode_extra_temp 4 29 raw;
    extra_humidities = slots valid_humidity 7 34 raw;
    soil_moistures = slots (unless_eq 0xFF) 4 62 raw;
    leaf_wetnesses = slots (unless_eq 0xFF) 4 66 raw;
    transmitter_battery_status = some (byte_at raw 86);
    console_battery_voltage = console_voltage (u16_at raw 87);
    forecast_icons = some (byte_at raw 89);
    forecast_rule = some (byte_at raw 90);
    sunrise = valid_clock (u16_at raw 91);
    sunset = valid_clock (u16_at raw 93);
  }

  -- The packet type at offset 4 is looked at and not used.
  unfoldable pub parse_loop : Bytes → Option (LoopData F)
  parse_loop raw =
      if ltb (length raw) loop_packet_size
      then none
      else if not (has_header raw)
      then none
      else if not (crc_validate (take loop_packet_size raw))
      then none
      else some (loop_fields raw)

unfoldable pub loop2_fields : Bytes → Loop2Data
loop2_fields raw = record {
  bar_trend = known_trend (i8_at raw 3);
  barometer = valid_barometer (u16_at raw 7);
  wind_speed_10min = unless_eq 0x7FFF (u16_at raw 18);
  wind_speed_2min = unless_eq 0x7FFF (u16_at raw 20);
  wind_gust_10min = unless_eq 0x7FFF (u16_at raw 22);
  wind_gust_dir = unless_eq 0x7FFF (u16_at raw 24);
  dew_point = valid_derived_temp (i16_at raw 30);
  heat_index = valid_derived_temp (i16_at raw 35);
  wind_chill = valid_derived_temp (i16_at raw 37);
  thsw_index = valid_derived_temp (i16_at raw 39);
  rain_rate = valid_rain_rate (u16_at raw 41);
  day_rain = some (u16_at raw 50);
  rain_last_15min = some (u16_at raw 52);
  rain_last_hour = some (u16_at raw 54);
  uv_index = valid_uv (byte_at raw 43);
  solar_radiation = valid_solar (u16_at raw 44);
  bar_reduction_method = some (byte_at raw 60);
  bar_user_offset = some (u16_at raw 61);
  bar_calibration = some (i16_at raw 63);
  bar_raw_sensor = valid_barometer (u16_at raw 65);
  abs_barometer = valid_barometer (u16_at raw 67);
  altimeter_barometer = valid_barometer (u16_at raw 69);
}

unfoldable pub parse_loop2 : Bytes → Option Loop2Data
parse_loop2 raw =
    if ltb (length raw) loop_packet_size
    then none
    else if not (has_header raw)
    then none
    else if not (byte_at raw 4 == 1)
    then none
    else if not (crc_validate (take loop_packet_size raw))
    then none
    else some (loop2_fields raw)
