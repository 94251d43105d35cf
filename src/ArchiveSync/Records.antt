-- ===== src/ArchiveSync/Records.antt =====
-- The archive records of a WeatherLink: `parse_archive_record` of
-- backend/app/services/archive_sync.py with its four layouts, StationModel of
-- backend/app/protocol/constants.py and ArchiveRecordModel of backend/app/models/archive_record.py. A key
-- that a layout leaves out of its dict is `none` here, as it is NULL in the table.
use kanfei.Prelude.{ℕ, Option, none, some, ltb, ◌==◌, length, ℤ, if◌then◌else◌}
use kanfei.Bytes.{Bytes, byte_at, u16_at, i16_at}
use kanfei.Calendar.{DateTime}
use kanfei.ArchiveSync.Stamp.{decode_archive_timestamp}

pub data StationModel : Type 0 where
  wizard_iii wizard_ii monitor perception groweather energy health old_link : StationModel

abbrev pub model_value : StationModel → ℕ
model_value wizard_iii = 0
model_value wizard_ii = 1
model_value monitor = 2
model_value perception = 3
model_value groweather = 4
model_value energy = 5
model_value health = 6
model_value old_link = 0xF

-- Every model has an entry.
unfoldable pub archive_record_size_of : StationModel → ℕ
archive_record_size_of groweather = 32
archive_record_size_of energy = 32
archive_record_size_of health = 30
archive_record_size_of _ = 21

pub record ArchiveRow : Type 0 where
  pub archive_address : ℕ
  pub record_time : DateTime
  pub station_type : ℕ
  pub barometer : Option ℕ
  pub inside_humidity : Option ℕ
  pub outside_humidity : Option ℕ
  pub rain_in_period : Option ℕ
  pub inside_temp_avg : Option ℤ
  pub outside_temp_avg : Option ℤ
  pub wind_speed_avg : Option ℕ
  pub wind_direction : Option ℕ
  pub outside_temp_hi : Option ℤ
  pub wind_gust : Option ℕ
  pub outside_temp_lo : Option ℤ
  pub archive_interval : Option ℕ
  pub solar_rad_avg : Option ℕ
  pub solar_energy : Option ℕ
  pub wind_run : Option ℕ
  pub et : Option ℕ
  pub degree_days : Option ℕ
  pub uv_avg : Option ℕ
  pub uv_dose : Option ℕ
  pub rain_rate_hi : Option ℕ

-- data[i] if data[i] != 0xFF else None
unfoldable pub known_byte : Bytes → ℕ → Option ℕ
known_byte bytes offset = if byte_at bytes offset == 0xFF then none else some (byte_at bytes offset)

abbrev pub basic_row : Bytes → ℕ → ℕ → DateTime → ArchiveRow
basic_row bytes address station_type ts = record {
  archive_address = address;
  record_time = ts;
  station_type = station_type;
  barometer = some (u16_at bytes 0);
  inside_humidity = known_byte bytes 2;
  outside_humidity = known_byte bytes 3;
  rain_in_period = some (u16_at bytes 4);
  inside_temp_avg = some (i16_at bytes 6);
  outside_temp_avg = some (i16_at bytes 8);
  wind_speed_avg = some (byte_at bytes 10);
  wind_direction = known_byte bytes 11;
  outside_temp_hi = some (i16_at bytes 12);
  wind_gust = some (byte_at bytes 14);
  outside_temp_lo = some (i16_at bytes 19);
  archive_interval = none;
  solar_rad_avg = none;
  solar_energy = none;
  wind_run = none;
  et = none;
  degree_days = none;
  uv_avg = none;
  uv_dose = none;
  rain_rate_hi = none;
}

abbrev pub groweather_row : Bytes → ℕ → ℕ → DateTime → ArchiveRow
groweather_row bytes address station_type ts = record {
  archive_address = address;
  record_time = ts;
  station_type = station_type;
  barometer = some (u16_at bytes 0);
  inside_humidity = none;
  outside_humidity = known_byte bytes 2;
  rain_in_period = some (u16_at bytes 6);
  inside_temp_avg = some (i16_at bytes 8);
  outside_temp_avg = some (i16_at bytes 10);
  wind_speed_avg = some (byte_at bytes 3);
  wind_direction = known_byte bytes 5;
  outside_temp_hi = some (i16_at bytes 16);
  wind_gust = some (byte_at bytes 4);
  outside_temp_lo = some (i16_at bytes 18);
  archive_interval = none;
  solar_rad_avg = some (u16_at bytes 26);
  solar_energy = some (u16_at bytes 28);
  wind_run = some (u16_at bytes 24);
  et = some (byte_at bytes 22);
  degree_days = some (u16_at bytes 20);
  uv_avg = none;
  uv_dose = none;
  rain_rate_hi = some (byte_at bytes 30);
}

abbrev pub energy_row : Bytes → ℕ → ℕ → DateTime → ArchiveRow
energy_row bytes address station_type ts = record {
  archive_address = address;
  record_time = ts;
  station_type = station_type;
  barometer = some (u16_at bytes 0);
  inside_humidity = none;
  outside_humidity = known_byte bytes 2;
  rain_in_period = some (u16_at bytes 6);
  inside_temp_avg = some (i16_at bytes 8);
  outside_temp_avg = some (i16_at bytes 10);
  wind_speed_avg = some (byte_at bytes 3);
  wind_direction = known_byte bytes 5;
  outside_temp_hi = some (i16_at bytes 16);
  wind_gust = some (byte_at bytes 4);
  outside_temp_lo = some (i16_at bytes 18);
  archive_interval = none;
  solar_rad_avg = some (u16_at bytes 26);
  solar_energy = some (u16_at bytes 28);
  wind_run = some (u16_at bytes 24);
  et = none;
  degree_days = some (byte_at bytes 20);
  uv_avg = none;
  uv_dose = none;
  rain_rate_hi = some (byte_at bytes 30);
}

abbrev pub health_row : Bytes → ℕ → ℕ → DateTime → ArchiveRow
health_row bytes address station_type ts = record {
  archive_address = address;
  record_time = ts;
  station_type = station_type;
  barometer = some (u16_at bytes 0);
  inside_humidity = known_byte bytes 20;
  outside_humidity = known_byte bytes 21;
  rain_in_period = some (u16_at bytes 6);
  inside_temp_avg = some (i16_at bytes 8);
  outside_temp_avg = some (i16_at bytes 10);
  wind_speed_avg = some (byte_at bytes 2);
  wind_direction = known_byte bytes 4;
  outside_temp_hi = some (i16_at bytes 16);
  wind_gust = some (byte_at bytes 3);
  outside_temp_lo = some (i16_at bytes 18);
  archive_interval = none;
  solar_rad_avg = some (u16_at bytes 26);
  solar_energy = none;
  wind_run = none;
  et = none;
  degree_days = none;
  uv_avg = some (byte_at bytes 22);
  uv_dose = some (u16_at bytes 24);
  rain_rate_hi = some (byte_at bytes 5);
}

-- A layout: its size, where its stamp is, and the row of a record with a stamp that can be read.
abbrev pub stamped :
    (Bytes → ℕ → ℕ → DateTime → ArchiveRow) → Bytes → ℕ → ℕ → Option DateTime → Option ArchiveRow
stamped row bytes address station_type none = none
stamped row bytes address station_type (some ts) = some (row bytes address station_type ts)

unfoldable pub parse_basic_archive : DateTime → Bytes → ℕ → ℕ → Option ArchiveRow
unfolding known_byte
parse_basic_archive now bytes address station_type =
    if ltb (length bytes) 21
    then none
    else stamped basic_row bytes address station_type (decode_archive_timestamp now bytes 15)

unfoldable pub parse_groweather_archive : DateTime → Bytes → ℕ → ℕ → Option ArchiveRow
unfolding known_byte
parse_groweather_archive now bytes address station_type =
    if ltb (length bytes) 32
    then none
    else stamped groweather_row bytes address station_type (decode_archive_timestamp now bytes 12)

unfoldable pub parse_energy_archive : DateTime → Bytes → ℕ → ℕ → Option ArchiveRow
unfolding known_byte
parse_energy_archive now bytes address station_type =
    if ltb (length bytes) 32
    then none
    else stamped energy_row bytes address station_type (decode_archive_timestamp now bytes 12)

unfoldable pub parse_health_archive : DateTime → Bytes → ℕ → ℕ → Option ArchiveRow
unfolding known_byte
parse_health_archive now bytes address station_type =
    if ltb (length bytes) 30
    then none
    else stamped health_row bytes address station_type (decode_archive_timestamp now bytes 12)

unfoldable pub parse_archive_record : DateTime → Bytes → ℕ → StationModel → Option ArchiveRow
unfolding parse_basic_archive parse_groweather_archive parse_energy_archive parse_health_archive
parse_archive_record now bytes address groweather =
    parse_groweather_archive now bytes address (model_value groweather)
parse_archive_record now bytes address energy =
    parse_energy_archive now bytes address (model_value energy)
parse_archive_record now bytes address health =
    parse_health_archive now bytes address (model_value health)
parse_archive_record now bytes address model =
    parse_basic_archive now bytes address (model_value model)
