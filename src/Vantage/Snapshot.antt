-- ===== src/Vantage/Snapshot.antt =====
-- `loop_to_snapshot` of backend/app/protocol/vantage/loop_packet.py: the merge of a LOOP packet and
-- an optional LOOP2 packet into the `SensorSnapshot` of backend/app/protocol/base.py, in SI units.
-- The `extra` dictionary is a record with a field per key; none is a key that is not there.
pub mod Merge
pub mod Batteries
use kanfei.Prelude.{
  ℕ, zero, suc, ◌+◌, ◌^◌, Option, none, some, List, [], ◌∷◌, bit_and, ltb, ◌==◌, ℤ, pos, ◌-ℤ◌,
  if◌then◌else◌,
}
use mathlib.Core.Option
use kanfei.Floats.{Float, of_int, of_nat, decimal, round_to, round_int, ◌⊖◌, ◌⊗◌, ◌⊘◌}
use kanfei.Vantage.Loop.{LoopData, Loop2Data}

pub record Extra (F : Type 0) : Type 0 where
  pub bar_trend : Option ℤ
  pub forecast_rule : Option ℕ
  pub sunrise : Option ℕ
  pub sunset : Option ℕ
  pub transmitter_battery_status : Option ℕ
  pub transmitters_low_battery : Option (List ℕ)
  pub console_battery_voltage : Option F
  pub storm_rain_mm : Option F
  pub month_rain_mm : Option F
  pub thsw_index_c : Option F
  pub wind_2min_avg_ms : Option F
  pub wind_10min_avg_ms : Option F
  pub wind_gust_10min_ms : Option F
  pub wind_gust_dir : Option ℕ
  pub rain_15min_mm : Option F
  pub rain_hour_mm : Option F

pub record SensorSnapshot (F : Type 0) : Type 0 where
  pub inside_temp : Option F
  pub outside_temp : Option F
  pub inside_humidity : Option ℕ
  pub outside_humidity : Option ℕ
  pub wind_speed : Option F
  pub wind_direction : Option ℕ
  pub wind_gust : Option F
  pub barometer : Option F
  pub rain_rate : Option F
  pub rain_daily : Option F
  pub rain_yearly : Option F
  pub solar_radiation : Option ℕ
  pub uv_index : Option F
  pub soil_temp : Option F
  pub soil_moisture : Option ℕ
  pub leaf_wetness : Option ℕ
  pub et_daily : Option F
  pub et_monthly : Option F
  pub et_yearly : Option F
  pub thsw_index : Option F
  pub extra : Extra F

-- [n + 1 for n in range(8) if status & (1 << n)], from `n` on.
pub low_transmitters : ℕ → ℕ → ℕ → List ℕ
low_transmitters zero n status = []
low_transmitters (suc left) n status =
    let rest = low_transmitters left (n + 1) status in
    if bit_and status (2 ^ n) == 0 then rest else (n + 1) ∷ rest

-- `xs[0]` of a list that may be empty, when it is not None.
abbrev pub first_slot : {A : Type 0} → List (Option A) → Option A
first_slot [] = none
first_slot (slot ∷ slots) = slot

-- `loop2.field` when `loop2` is not None.
abbrev pub from_loop2 : {A : Type 0} → (Loop2Data → Option A) → Option Loop2Data → Option A
from_loop2 field none = none
from_loop2 field (some l) = field l

-- A value that is not None replaces the earlier one.
abbrev pub override : {A : Type 0} → Option A → Option A → Option A
override none old = old
override (some new) old = some new

-- `if clicks is not None and clicks > 0`
abbrev pub positive : Option ℕ → Option ℕ
positive none = none
positive (some zero) = none
positive (some (suc n)) = some (suc n)

module _ {F : Type 0} ⦃fl : Float F⦄ where
  unfoldable pub f10_to_c : ℤ → F
  f10_to_c tenths_f =
      round_to ((of_int tenths_f ⊘ decimal 100 1 ⊖ of_nat 32) ⊗ of_nat 5 ⊘ of_nat 9) 1

  unfoldable pub inhg1000_to_hpa : ℕ → F
  inhg1000_to_hpa thousandths_inhg =
      round_to (of_nat thousandths_inhg ⊘ decimal 10000 1 ⊗ decimal 338639 4) 1

  unfoldable pub mph_to_ms : ℤ → F
  mph_to_ms mph = round_to (of_int mph ⊗ decimal 44704 5) 1

  unfoldable pub clicks_to_mm : F → ℕ → F
  clicks_to_mm click_inches clicks = round_to (of_nat clicks ⊗ click_inches ⊗ decimal 254 1) 2

  -- _mph_to_ms(round(v / 10.0))
  unfoldable pub tenths_mph_to_ms : ℕ → F
  tenths_mph_to_ms v = mph_to_ms (round_int {F = F} (of_nat v ⊘ decimal 100 1))

  unfoldable pub thousandths_to_mm : ℕ → F
  thousandths_to_mm v = round_to (of_nat v ⊘ decimal 10000 1 ⊗ decimal 254 1) 2

  unfoldable pub hundredths_to_mm : ℕ → F
  hundredths_to_mm v = round_to (of_nat v ⊘ decimal 1000 1 ⊗ decimal 254 1) 2

  unfoldable pub f_to_c : ℤ → F
  f_to_c v = round_to (of_int (v -ℤ pos 32) ⊗ decimal 50 1 ⊘ decimal 90 1) 1

  unfoldable pub build_extra : LoopData F → Option Loop2Data → F → Extra F
  unfolding low_transmitters
  build_extra loop loop2 rain_click_inches =
      let mm = clicks_to_mm rain_click_inches in
      record {
        bar_trend = loop.bar_trend;
        forecast_rule = loop.forecast_rule;
        sunrise = loop.sunrise;
        sunset = loop.sunset;
        transmitter_battery_status = loop.transmitter_battery_status;
        transmitters_low_battery =
            Option.map (low_transmitters 8 0) loop.transmitter_battery_status;
        console_battery_voltage = loop.console_battery_voltage;
        storm_rain_mm = Option.map mm (positive loop.storm_rain);
        month_rain_mm = Option.map mm loop.month_rain;
        thsw_index_c = Option.map f_to_c (from_loop2 (λ l. l.thsw_index) loop2);
        wind_2min_avg_ms = Option.map tenths_mph_to_ms (from_loop2 (λ l. l.wind_speed_2min) loop2);
        wind_10min_avg_ms =
            Option.map tenths_mph_to_ms (from_loop2 (λ l. l.wind_speed_10min) loop2);
        wind_gust_10min_ms =
            Option.map tenths_mph_to_ms (from_loop2 (λ l. l.wind_gust_10min) loop2);
        wind_gust_dir = from_loop2 (λ l. l.wind_gust_dir) loop2;
        rain_15min_mm = Option.map mm (from_loop2 (λ l. l.rain_last_15min) loop2);
        rain_hour_mm = Option.map mm (from_loop2 (λ l. l.rain_last_hour) loop2);
      }

  unfoldable pub loop_to_snapshot : LoopData F → Option Loop2Data → F → SensorSnapshot F
  unfolding build_extra
  loop_to_snapshot loop loop2 rain_click_inches =
      let mm = clicks_to_mm rain_click_inches in
      let uv = override (from_loop2 (λ l. l.uv_index) loop2) loop.uv_index in
      record {
        inside_temp = Option.map f10_to_c loop.inside_temp;
        outside_temp = Option.map f10_to_c loop.outside_temp;
        inside_humidity = loop.inside_humidity;
        outside_humidity = loop.outside_humidity;
        wind_speed = Option.map (λ v. mph_to_ms (pos v)) loop.wind_speed;
        wind_direction = loop.wind_direction;
        wind_gust = Option.map tenths_mph_to_ms (from_loop2 (λ l. l.wind_gust_10min) loop2);
        barometer = Option.map inhg1000_to_hpa loop.barometer;
        rain_rate =
            override (Option.map mm (from_loop2 (λ l. l.rain_rate) loop2))
              (Option.map mm loop.rain_rate);
        rain_daily =
            override (Option.map mm (from_loop2 (λ l. l.day_rain) loop2))
              (Option.map mm loop.day_rain);
        rain_yearly = Option.map mm loop.year_rain;
        solar_radiation = override (from_loop2 (λ l. l.solar_radiation) loop2) loop.solar_radiation;
        uv_index = Option.map (λ v. of_nat v ⊘ decimal 100 1) uv;
        soil_temp = Option.map f10_to_c (first_slot loop.soil_temps);
        soil_moisture = first_slot loop.soil_moistures;
        leaf_wetness = first_slot loop.leaf_wetnesses;
        et_daily = Option.map thousandths_to_mm loop.day_et;
        et_monthly = Option.map hundredths_to_mm loop.month_et;
        et_yearly = Option.map hundredths_to_mm loop.year_et;
        thsw_index = Option.map f_to_c (from_loop2 (λ l. l.thsw_index) loop2);
        extra = build_extra loop loop2 rain_click_inches;
      }
