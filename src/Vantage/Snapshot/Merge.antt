-- ===== src/Vantage/Snapshot/Merge.antt =====
-- How a LOOP2 packet changes what `loop_to_snapshot` of
-- backend/app/protocol/vantage/loop_packet.py makes of a LOOP packet.
use kanfei.Prelude.{◌≡◌, refl, Option, none, some}
use mathlib.Core.Option
use kanfei.Floats.{Float}
use kanfei.Vantage.Loop.{LoopData, Loop2Data}
use kanfei.Vantage.Snapshot.{SensorSnapshot, loop_to_snapshot, override}

-- All fields but those that only LOOP2 reports.
pub record SameReadings {F : Type 0} (s t : SensorSnapshot F) : Type 0 where
  pub inside_temp : s.inside_temp ≡ t.inside_temp
  pub outside_temp : s.outside_temp ≡ t.outside_temp
  pub inside_humidity : s.inside_humidity ≡ t.inside_humidity
  pub outside_humidity : s.outside_humidity ≡ t.outside_humidity
  pub wind_speed : s.wind_speed ≡ t.wind_speed
  pub wind_direction : s.wind_direction ≡ t.wind_direction
  pub barometer : s.barometer ≡ t.barometer
  pub rain_rate : s.rain_rate ≡ t.rain_rate
  pub rain_daily : s.rain_daily ≡ t.rain_daily
  pub rain_yearly : s.rain_yearly ≡ t.rain_yearly
  pub solar_radiation : s.solar_radiation ≡ t.solar_radiation
  pub uv_index : s.uv_index ≡ t.uv_index
  pub soil : (s.soil_temp ≡ t.soil_temp) × (s.soil_moisture ≡ t.soil_moisture)
  pub leaf_wetness : s.leaf_wetness ≡ t.leaf_wetness
  pub et : (s.et_daily ≡ t.et_daily) × (s.et_monthly ≡ t.et_monthly) × (s.et_yearly ≡ t.et_yearly)

map-override :
    {A B : Type 0} (f : A → B) (new old : Option A)
    → override (Option.map f new) (Option.map f old) ≡ Option.map f (override new old)
map-override f none old = refl
map-override f (some a) old = refl

-- A LOOP packet with the four readings of a LOOP2 packet that both report, where LOOP2 has them.
abbrev pub corrected : {F : Type 0} → LoopData F → Loop2Data → LoopData F
corrected loop l = record loop {
  rain_rate = override l.rain_rate loop.rain_rate;
  day_rain = override l.day_rain loop.day_rain;
  solar_radiation = override l.solar_radiation loop.solar_radiation;
  uv_index = override l.uv_index loop.uv_index;
}

-- A snapshot of both packets has the readings that the LOOP packet alone would give, had it the
-- LOOP2 packet's rain rate, daily rain, solar radiation and UV index wherever that has them: a dashed
-- LOOP2 field hides no LOOP field, and the other fields of LOOP2 change no reading of LOOP.
loop_to_snapshot_overrides :
    {F : Type 0} ⦃fl : Float F⦄ (loop : LoopData F) (l : Loop2Data) (click : F)
    → SameReadings
        (loop_to_snapshot loop (some l) click)
        (loop_to_snapshot (corrected loop l) none click)
unfolding loop_to_snapshot
loop_to_snapshot_overrides loop l click = record {
  inside_temp = refl;
  outside_temp = refl;
  inside_humidity = refl;
  outside_humidity = refl;
  wind_speed = refl;
  wind_direction = refl;
  barometer = refl;
  rain_rate = map-override _ l.rain_rate loop.rain_rate;
  rain_daily = map-override _ l.day_rain loop.day_rain;
  rain_yearly = refl;
  solar_radiation = refl;
  uv_index = refl;
  soil = (refl, refl);
  leaf_wetness = refl;
  et = (refl, refl, refl);
}
