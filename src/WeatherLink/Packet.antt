-- ===== src/WeatherLink/Packet.antt =====
-- The LOOP packets of a legacy station: `parse_loop_packet` and `_to_si` of
-- backend/app/protocol/loop_packet.py with their layouts. A field that a layout leaves out is none.
use kanfei.Prelude.{
  ℕ, ◌+◌, ◌||◌, Option, none, some, length, take, drop, ltb, leb, ◌==◌, not, ℤ, pos, negsuc, eqb_ℤ,
  ltb_ℤ, if◌then◌else◌,
}
use mathlib.Core.Option
use kanfei.Bytes.{Bytes, byte_at, u16_at, i16_at, u24_at}
use kanfei.Floats.{Float}
use kanfei.Units.{
  f_tenths_to_c_tenths, inhg_thousandths_to_hpa_tenths, mph_to_ms_tenths,
  in_hundredths_to_mm_tenths,
}
use kanfei.Crc.{crc_validate}
use kanfei.ArchiveSync.Records.{StationModel, groweather, energy, health}

pub record SensorReading : Type 0 where
  pub inside_temp : Option ℤ
  pub outside_temp : Option ℤ
  pub inside_humidity : Option ℕ
  pub outside_humidity : Option ℤ
  pub wind_speed : Option ℤ
  pub wind_direction : Option ℕ
  pub barometer : Option ℤ
  pub rain_total : Option ℤ
  pub rain_rate : Option ℤ
  pub rain_yearly : Option ℤ
  pub solar_radiation : Option ℕ
  pub uv_index : Option ℕ
  pub uv_dose : Option ℕ
  pub soil_temp : Option ℤ
  pub leaf_wetness : Option ℕ
  pub wind_run_total : Option ℕ
  pub et_total : Option ℕ
  pub degree_days_total : Option ℕ
  pub solar_energy_total : Option ℕ

-- SensorReading()
abbrev pub no_reading : SensorReading
no_reading = record {
  inside_temp = none;
  outside_temp = none;
  inside_humidity = none;
  outside_humidity = none;
  wind_speed = none;
  wind_direction = none;
  barometer = none;
  rain_total = none;
  rain_rate = none;
  rain_yearly = none;
  solar_radiation = none;
  uv_index = none;
  uv_dose = none;
  soil_temp = none;
  leaf_wetness = none;
  wind_run_total = none;
  et_total = none;
  degree_days_total = none;
  solar_energy_total = none;
}

-- LOOP_DATA_SIZE
unfoldable pub loop_data_size : StationModel → ℕ
loop_data_size groweather = 33
loop_data_size energy = 27
loop_data_size health = 25
loop_data_size _ = 15

abbrev pub soh : ℕ
soh = 0x01

unfoldable pub valid_temp_4nib : ℤ → Option ℤ
valid_temp_4nib value =
    if eqb_ℤ value (pos 0x7FFF) || eqb_ℤ value (pos 0x8000)
    then none
    else if ltb_ℤ (pos 2500) value || ltb_ℤ value (negsuc 899)
    then none
    else some value

unfoldable pub humidity_of : ℕ → Option ℕ
humidity_of value = if value == 0x80 then none else some value

unfoldable pub wind_dir_of : ℕ → Option ℕ
wind_dir_of value = if (value == 0x7FFF) || ltb 359 value then none else some value

unfoldable pub solar_of : ℕ → Option ℕ
solar_of value = if (value == 0xFFF) || leb 0xFFF value then none else some value

unfoldable pub uv_of : ℕ → Option ℕ
uv_of value = if value == 0xFF then none else some value

-- The fields before the conversion: tenths of a degree Fahrenheit, thousandths of an inch of mercury,
-- miles an hour and clicks.
unfoldable pub parse_basic : Bytes → SensorReading
parse_basic bytes = record no_reading {
  inside_temp = valid_temp_4nib (i16_at bytes 0);
  outside_temp = valid_temp_4nib (i16_at bytes 2);
  wind_speed = some (pos (byte_at bytes 4));
  wind_direction = wind_dir_of (u16_at bytes 5);
  barometer = some (pos (u16_at bytes 7));
  inside_humidity = humidity_of (byte_at bytes 9);
  outside_humidity = Option.map pos (humidity_of (byte_at bytes 10));
  rain_total = some (pos (u16_at bytes 11));
}

unfoldable pub parse_groweather : Bytes → SensorReading
parse_groweather bytes = record no_reading {
  soil_temp = valid_temp_4nib (i16_at bytes 3);
  outside_temp = valid_temp_4nib (i16_at bytes 5);
  wind_speed = some (pos (byte_at bytes 7));
  wind_direction = wind_dir_of (u16_at bytes 8);
  barometer = some (pos (u16_at bytes 10));
  rain_rate = some (pos (byte_at bytes 12));
  outside_humidity = Option.map pos (humidity_of (byte_at bytes 13));
  rain_total = some (pos (u16_at bytes 14));
  solar_radiation = solar_of (u16_at bytes 16);
  wind_run_total = some (u24_at bytes 18);
  et_total = some (u16_at bytes 21);
  degree_days_total = some (u24_at bytes 23);
  solar_energy_total = some (u24_at bytes 26);
  leaf_wetness = some (byte_at bytes 32);
}

unfoldable pub parse_energy : Bytes → SensorReading
parse_energy bytes = record no_reading {
  inside_temp = valid_temp_4nib (i16_at bytes 3);
  outside_temp = valid_temp_4nib (i16_at bytes 5);
  wind_speed = some (pos (byte_at bytes 7));
  wind_direction = wind_dir_of (u16_at bytes 8);
  barometer = some (pos (u16_at bytes 10));
  rain_rate = some (pos (byte_at bytes 12));
  outside_humidity = Option.map pos (humidity_of (byte_at bytes 13));
  rain_total = some (pos (u16_at bytes 14));
  solar_radiation = solar_of (u16_at bytes 16);
}

unfoldable pub parse_health : Bytes → SensorReading
parse_health bytes = record no_reading {
  inside_temp = valid_temp_4nib (i16_at bytes 3);
  outside_temp = valid_temp_4nib (i16_at bytes 5);
  wind_speed = some (pos (byte_at bytes 7));
  wind_direction = wind_dir_of (u16_at bytes 8);
  barometer = some (pos (u16_at bytes 10));
  rain_rate = some (pos (byte_at bytes 12));
  rain_total = some (pos (u16_at bytes 13));
  solar_radiation = solar_of (u16_at bytes 15);
  inside_humidity = humidity_of (byte_at bytes 17);
  outside_humidity = Option.map pos (humidity_of (byte_at bytes 18));
  uv_index = uv_of (byte_at bytes 19);
  uv_dose = some (u16_at bytes 20);
}

-- The layout of each model.
unfoldable pub parse_layout : StationModel → Bytes → SensorReading
parse_layout groweather bytes = parse_groweather bytes
parse_layout energy bytes = parse_energy bytes
parse_layout health bytes = parse_health bytes
parse_layout _ bytes = parse_basic bytes

module _ (F : Type 0) ⦃fl : Float F⦄ where
  unfoldable pub to_si : SensorReading → SensorReading
  to_si reading = record reading {
    inside_temp = Option.map (f_tenths_to_c_tenths F) reading.inside_temp;
    outside_temp = Option.map (f_tenths_to_c_tenths F) reading.outside_temp;
    soil_temp = Option.map (f_tenths_to_c_tenths F) reading.soil_temp;
    wind_speed = Option.map (mph_to_ms_tenths F) reading.wind_speed;
    barometer = Option.map (inhg_thousandths_to_hpa_tenths F) reading.barometer;
    rain_total = Option.map (in_hundredths_to_mm_tenths F) reading.rain_total;
    rain_rate = Option.map (in_hundredths_to_mm_tenths F) reading.rain_rate;
    rain_yearly = Option.map (in_hundredths_to_mm_tenths F) reading.rain_yearly;
  }

  unfoldable pub parse_loop_packet : Bytes → StationModel → Option SensorReading
  unfolding loop_data_size parse_layout to_si
  parse_loop_packet raw m =
      if ltb (length raw) (1 + loop_data_size m + 2)
      then none
      else if not (byte_at raw 0 == soh)
      then none
      else if not (crc_validate (take (loop_data_size m + 2) (drop 1 raw)))
      then none
      else some (to_si (parse_layout m (take (loop_data_size m) (drop 1 raw))))
