-- ===== src/Catchup.antt =====
-- Catch-up after a gap: `async_backfill_from_vantage` of backend/app/services/dmpaft_catchup.py. The
-- session does not flush by itself, so its query sees the readings that were committed before. A row
-- stands for its dict on the wire too, which has the same columns. The time zone, the comparison of stored
-- timestamps and the derived values are parameters.
pub mod Inserted
mod Tests
use kanfei.Prelude.{
  ℕ, ◌+◌, Bool, true, false, ◌||◌, Option, none, some, List, [], ◌∷◌, ◌++◌, length, take, ltb, ℤ,
  if◌then◌else◌,
}
use mathlib.Core.Option
use kanfei.Floats.{Float, of_nat, ◌⊗◌, round_int}
use kanfei.Calendar.{DateTime}
use kanfei.Vantage.Archive.{ArchiveRecord}
use kanfei.ArchiveSync.Project.{Derived, from_two, from_three}

-- The conversions with the UTC offset that is in force at a call, as `_local_tzinfo` finds it: a call
-- after a change of the clocks has another Zone.
pub record Zone (T : Type 0) : Type 0 where
  pub to_utc_naive : DateTime → T
  pub to_local : T → DateTime
  -- three days before now, in local time
  pub horizon : DateTime
  pub equal : T → T → Bool
  pub later : T → T → Bool

-- The columns that a backfilled row sets, with its flag in `extra_json`; the others stay NULL.
pub record Backfilled (T : Type 0) : Type 0 where
  pub timestamp : T
  pub station_type : ℕ
  pub inside_temp : Option ℤ
  pub outside_temp : Option ℤ
  pub inside_humidity : Option ℕ
  pub outside_humidity : Option ℕ
  pub wind_speed : Option ℤ
  pub wind_gust : Option ℤ
  pub wind_direction : Option ℕ
  pub barometer : Option ℤ
  pub solar_radiation : Option ℕ
  pub uv_index : Option ℤ
  pub heat_index : Option ℤ
  pub dew_point : Option ℤ
  pub wind_chill : Option ℤ
  pub feels_like : Option ℤ
  pub theta_e : Option ℤ

abbrev pub max_backfill_records : ℕ
max_backfill_records = 3000

module _ {F : Type 0} ⦃fl : Float F⦄ where
  unfoldable pub tenths : Option F → Option ℤ
  tenths value = Option.map (λ v. round_int {F = F} (v ⊗ of_nat 10)) value

  unfoldable pub project_to_sensor_reading :
      {T : Type 0} → Derived → ArchiveRecord F → T → ℕ → Backfilled T
  unfolding tenths
  project_to_sensor_reading calculations rec ts_utc station_type_code =
      let outside_temp = tenths rec.outside_temp_avg in
      let wind_speed = tenths rec.wind_speed_avg in
      let barometer = tenths rec.barometer in
      let outside_hum = rec.outside_humidity in
      record {
        timestamp = ts_utc;
        station_type = station_type_code;
        inside_temp = tenths rec.inside_temp;
        outside_temp = outside_temp;
        inside_humidity = rec.inside_humidity;
        outside_humidity = outside_hum;
        wind_speed = wind_speed;
        wind_gust = tenths rec.wind_speed_hi;
        wind_direction = rec.wind_dir_prevailing;
        barometer = barometer;
        solar_radiation = rec.solar_radiation;
        uv_index = tenths rec.uv_index;
        heat_index = from_two calculations.heat_index outside_temp outside_hum;
        dew_point = from_two calculations.dew_point outside_temp outside_hum;
        wind_chill = from_two calculations.wind_chill outside_temp wind_speed;
        feels_like =
            from_three (λ t h w. some (calculations.feels_like t h w)) outside_temp outside_hum
              wind_speed;
        theta_e =
            from_three calculations.equivalent_potential_temperature outside_temp outside_hum
              barometer;
      }

-- func.max
abbrev pub latest : {T : Type 0} → (T → T → Bool) → T → List (Backfilled T) → T
latest later t [] = t
latest later t (r ∷ rs) = latest later (if later r.timestamp t then r.timestamp else t) rs

abbrev pub newest : {T : Type 0} → (T → T → Bool) → List (Backfilled T) → Option T
newest later [] = none
newest later (r ∷ rs) = some (latest later r.timestamp rs)

pub record Batch (T : Type 0) : Type 0 where
  pub row_dicts : List (Backfilled T)
  pub inserted : ℕ
  pub skipped : ℕ

abbrev pub capped : {A : Type 0} → ℕ → List A → List A
capped max_records records =
    if ltb max_records (length records) then take max_records records else records

-- The batch is committed as a whole, or the commit raises and nothing is.
abbrev pub committed :
    {T : Type 0}
    → Bool
    → List (Backfilled T)
    → Batch T
    → (ℕ × List (Backfilled T)) × List (Backfilled T)
committed true readings batch = ((batch.inserted, batch.row_dicts), readings ++ batch.row_dicts)
committed false readings batch = ((0, []), readings)

module _ {T : Type 0} (zone : Zone T) where
  abbrev pub floor_of : Option T → DateTime
  floor_of none = zone.horizon
  floor_of (some t) = zone.to_local t

  unfoldable pub floor_timestamp : List (Backfilled T) → DateTime
  floor_timestamp readings = floor_of (newest zone.later readings)

  unfoldable pub has_time : T → List (Backfilled T) → Bool
  has_time t [] = false
  has_time t (r ∷ rs) = zone.equal r.timestamp t || has_time t rs

  module _ {F : Type 0} ⦃fl : Float F⦄ (calculations : Derived) (station_type_code : ℕ) where
    abbrev pub row_of : ArchiveRecord F → Backfilled T
    row_of rec =
        project_to_sensor_reading calculations rec (zone.to_utc_naive rec.timestamp)
          station_type_code

    unfoldable pub insert_loop : List (Backfilled T) → List (ArchiveRecord F) → Batch T → Batch T
    unfolding has_time
    insert_loop readings [] batch = batch
    insert_loop readings (rec ∷ records) batch =
        let skip = insert_loop readings records (record batch { skipped = batch.skipped + 1 }) in
        let insert = insert_loop readings records (record batch {
          row_dicts = batch.row_dicts ++ row_of rec ∷ [];
          inserted = batch.inserted + 1;
        }) in
        if has_time (zone.to_utc_naive rec.timestamp) readings then skip else insert

    -- `none` is a driver that raised.
    abbrev pub on_answer :
        ℕ
        → Bool
        → List (Backfilled T)
        → Option (List (ArchiveRecord F))
        → (ℕ × List (Backfilled T)) × List (Backfilled T)
    on_answer max_records commits readings none = ((0, []), readings)
    on_answer max_records commits readings (some []) = ((0, []), readings)
    on_answer max_records commits readings (some (rec ∷ records)) = committed commits readings (
        insert_loop readings (capped max_records (rec ∷ records))
          (record { row_dicts = []; inserted = 0; skipped = 0 }))

    -- What is returned, and the readings afterwards. `driver` is what `async_dmpaft` answers, and
    -- `commits` is false when the commit raises.
    unfoldable pub async_backfill_from_vantage :
        ℕ
        → (DateTime → Option (List (ArchiveRecord F)))
        → Bool
        → List (Backfilled T)
        → (ℕ × List (Backfilled T)) × List (Backfilled T)
    unfolding insert_loop floor_timestamp
    async_backfill_from_vantage max_records driver commits readings =
        on_answer max_records commits readings (driver (floor_timestamp readings))
