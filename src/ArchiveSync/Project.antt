-- ===== src/ArchiveSync/Project.antt =====
-- From an archive record to a sensor reading: the sentinel filters and `_project_to_sensor_reading` of
-- backend/app/services/archive_sync.py, with the conversions of Units. The derived values of backend/app/services/calculations.py are an interface.
pub mod Dashed
use kanfei.Prelude.{
  ℕ, Bool, ◌||◌, Option, none, some, List, [], ◌∷◌, ltb, leb, ◌==◌, get_or, ℤ, pos, negsuc, ◌-ℤ◌,
  ◌*ℤ◌, eqb_ℤ, ltb_ℤ, if◌then◌else◌,
}
use mathlib.Core.Option
use kanfei.Floats.{Float, of_int, of_nat, decimal, ◌⊗◌, ◌⊘◌, round_int}
use kanfei.Calendar.{DateTime}
use kanfei.Units.{f_tenths_to_c_tenths, inhg_thousandths_to_hpa_tenths, mph_to_ms_tenths}
use kanfei.ArchiveSync.Records.{ArchiveRow}

abbrev pub wind_dir_degrees : List ℕ
wind_dir_degrees =
    0 ∷ 22 ∷ 45 ∷ 68 ∷ 90 ∷ 112 ∷ 135 ∷ 158 ∷ 180 ∷ 202 ∷ 225 ∷ 248 ∷ 270 ∷ 292 ∷ 315 ∷ 338 ∷ []

-- `None` stays None; a value that `bad` tells of becomes None.
abbrev pub unless : {A : Type 0} → (A → Bool) → Option A → Option A
unless bad none = none
unless bad (some value) = if bad value then none else some value

unfoldable pub valid_archive_temp : Option ℤ → Option ℤ
valid_archive_temp =
    unless λ v.
      eqb_ℤ v (negsuc 32767) || eqb_ℤ v (pos 32767) || ltb_ℤ (pos 2500) v || ltb_ℤ v (negsuc 899)

unfoldable pub valid_archive_baro : Option ℕ → Option ℕ
valid_archive_baro = unless λ v. (v == 0) || (v == 0xFFFF)

unfoldable pub valid_archive_u8 : Option ℕ → Option ℕ
valid_archive_u8 = unless λ v. v == 0xFF

unfoldable pub valid_archive_humidity : Option ℕ → Option ℕ
valid_archive_humidity = unless λ v. (v == 0xFF) || (v == 0x80)

unfoldable pub valid_archive_solar : Option ℕ → Option ℕ
valid_archive_solar = unless λ v. leb 0xFFF v

unfoldable pub wind_dir_deg : Option ℕ → Option ℕ
wind_dir_deg none = none
wind_dir_deg (some code) = if leb code 15 then some (get_or wind_dir_degrees code 0) else none

-- The functions of backend/app/services/calculations.py, of temperature, humidity, wind and pressure.
pub record Derived : Type 0 where
  pub heat_index : ℤ → ℕ → Option ℤ
  pub dew_point : ℤ → ℕ → Option ℤ
  pub equivalent_potential_temperature : ℤ → ℕ → ℤ → Option ℤ
  pub wind_chill : ℤ → ℤ → Option ℤ
  pub feels_like : ℤ → ℕ → ℤ → ℤ

-- The columns of backend/app/models/sensor_reading.py that a projected row sets; the others stay NULL.
pub record SensorReading (T : Type 0) : Type 0 where
  pub timestamp : T
  pub station_type : ℕ
  pub inside_temp : Option ℤ
  pub outside_temp : Option ℤ
  pub inside_humidity : Option ℕ
  pub outside_humidity : Option ℕ
  pub wind_speed : Option ℤ
  pub wind_gust : Option ℤ
  pub wind_direction : Option ℕ
  pub barometer : Option ℤ
  pub solar_radiation : Option ℕ
  pub uv_index : Option ℕ
  pub heat_index : Option ℤ
  pub dew_point : Option ℤ
  pub wind_chill : Option ℤ
  pub feels_like : Option ℤ
  pub theta_e : Option ℤ

-- A value that is derived from others is there when they all are.
abbrev pub from_two : {A B C : Type 0} → (A → B → Option C) → Option A → Option B → Option C
from_two f (some a) (some b) = f a b
from_two f _ _ = none

abbrev pub from_three :
    {A B C D : Type 0} → (A → B → C → Option D) → Option A → Option B → Option C → Option D
from_three f (some a) (some b) (some c) = f a b c
from_three f _ _ _ = none

module _ (F : Type 0) {T : Type 0} ⦃fl : Float F⦄ (calculations : Derived)
    (stored : DateTime → T) where
  unfoldable pub project_to_sensor_reading : ArchiveRow → SensorReading T
  unfolding valid_archive_temp valid_archive_baro valid_archive_u8 valid_archive_humidity
      valid_archive_solar wind_dir_deg
  project_to_sensor_reading row =
      let inside_temp_c =
        Option.map (f_tenths_to_c_tenths F) (valid_archive_temp row.inside_temp_avg) in
      let outside_temp_c =
        Option.map (f_tenths_to_c_tenths F) (valid_archive_temp row.outside_temp_avg) in
      let barometer_hpa =
        Option.map (λ b. inhg_thousandths_to_hpa_tenths F (pos b))
          (valid_archive_baro row.barometer) in
      let wind_speed_ms =
        Option.map (λ v. mph_to_ms_tenths F (pos v)) (valid_archive_u8 row.wind_speed_avg) in
      let wind_gust_ms =
        Option.map (λ v. mph_to_ms_tenths F (pos v)) (valid_archive_u8 row.wind_gust) in
      let outside_hum = valid_archive_humidity row.outside_humidity in
      record {
        timestamp = stored row.record_time;
        station_type = row.station_type;
        inside_temp = inside_temp_c;
        outside_temp = outside_temp_c;
        inside_humidity = valid_archive_humidity row.inside_humidity;
        outside_humidity = outside_hum;
        wind_speed = wind_speed_ms;
        wind_gust = wind_gust_ms;
        wind_direction = wind_dir_deg row.wind_direction;
        barometer = barometer_hpa;
        solar_radiation = valid_archive_solar row.solar_rad_avg;
        uv_index = valid_archive_u8 row.uv_avg;
        heat_index = from_two calculations.heat_index outside_temp_c outside_hum;
        dew_point = from_two calculations.dew_point outside_temp_c outside_hum;
        wind_chill = from_two calculations.wind_chill outside_temp_c wind_speed_ms;
        feels_like =
            from_three (λ t h w. some (calculations.feels_like t h w)) outside_temp_c outside_hum
              wind_speed_ms;
        theta_e =
            from_three calculations.equivalent_potential_temperature outside_temp_c outside_hum
              barometer_hpa;
      }
