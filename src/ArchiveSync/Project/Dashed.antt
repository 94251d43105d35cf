-- ===== src/ArchiveSync/Project/Dashed.antt =====
-- What a dashed field of an archive record becomes in a sensor reading.
use kanfei.Prelude.{
  ℕ, ◌≡◌, ◌≢◌, ◌<◌, refl, Bool, false, Option, none, some, Each, Bool-cases, inl, inr, arith, leb,
  all_below, all_below_sound, get_or, ltb, ltb→lt,
}
use kanfei.Floats.{Float}
use kanfei.Calendar.{DateTime}
use kanfei.ArchiveSync.Records.{ArchiveRow}
use kanfei.ArchiveSync.Project.{
  wind_dir_degrees, unless, valid_archive_temp, valid_archive_u8, valid_archive_humidity,
  valid_archive_solar, wind_dir_deg, Derived, SensorReading, project_to_sensor_reading,
}

-- What a reading says of the values that it has.
pub record IsClean {T : Type 0} (r : SensorReading T) : Type 0 where
  pub inside_humidity : Each (λ h. (h ≢ 0xFF) × (h ≢ 0x80)) r.inside_humidity
  pub outside_humidity : Each (λ h. (h ≢ 0xFF) × (h ≢ 0x80)) r.outside_humidity
  pub solar : Each (λ s. s < 0xFFF) r.solar_radiation
  pub uv : Each (λ u. u ≢ 0xFF) r.uv_index
  pub direction : Each (λ d. d < 360) r.wind_direction

module _ {A : Type 0} (bad : A → Bool) (P : A → Type 0) where
  unless-Each : ((a : A) → bad a ≡ false → P a) → (o : Option A) → Each P (unless bad o)
  unless-Each h none = tt
  unless-Each h (some a) = elim (Bool-cases (bad a)) [ inl e ↦ rw e tt | inr e ↦ rw e (h a e) ]

humidity_known : (o : Option ℕ) → Each (λ h. (h ≢ 0xFF) × (h ≢ 0x80)) (valid_archive_humidity o)
unfolding valid_archive_humidity
humidity_known o = unless-Each _ _ (λ a e. (ground (arith, e), ground (arith, e))) o

direction-bound : (o : Option ℕ) → Each (λ d. d < 360) (wind_dir_deg o)
unfolding wind_dir_deg all_below
direction-bound none = tt
direction-bound (some code) = elim (Bool-cases (leb code 15)) [
  | inl e ↦ rw e (
      ltb→lt _ _ (
        all_below_sound 16 (λ c. ltb (get_or wind_dir_degrees c 0) 360) refl code
          (ground (arith, e))))
  | inr e ↦ rw e tt
]

-- A reading that has no outside temperature has none of the values that are derived from it.
abbrev pub IsBare : {T : Type 0} → SensorReading T → Type 0
IsBare r =
    (r.heat_index ≡ none)
    × (r.dew_point ≡ none)
    × (r.wind_chill ≡ none)
    × (r.feels_like ≡ none)
    × (r.theta_e ≡ none)

module _ (F : Type 0) {T : Type 0} ⦃fl : Float F⦄ (calculations : Derived)
    (stored : DateTime → T) where
  -- Whatever an archive record holds, the reading that it becomes has no dashed humidity, solar
  -- radiation or UV index, and a wind direction below 360 if any.
  project_to_sensor_reading-IsClean :
      (row : ArchiveRow) → IsClean (project_to_sensor_reading F calculations stored row)
  unfolding project_to_sensor_reading valid_archive_solar valid_archive_u8
  project_to_sensor_reading-IsClean row = record {
    inside_humidity = humidity_known row.inside_humidity;
    outside_humidity = humidity_known row.outside_humidity;
    solar = unless-Each _ _ (λ a e. ground (arith, e)) row.solar_rad_avg;
    uv = unless-Each _ _ (λ a e. ground (arith, e)) row.uv_avg;
    direction = direction-bound row.wind_direction;
  }

  -- An archive record whose outside temperature is missing, dashed or out of range becomes a reading
  -- with no outside temperature and none of the values that are derived from it.
  pub project_to_sensor_reading-IsBare :
      (row : ArchiveRow)
      → valid_archive_temp row.outside_temp_avg ≡ none
      → ((project_to_sensor_reading F calculations stored row).outside_temp ≡ none)
        × IsBare (project_to_sensor_reading F calculations stored row)
  unfolding project_to_sensor_reading
  project_to_sensor_reading-IsBare row dashed = rw dashed (refl, (refl, refl, refl, refl, refl))
