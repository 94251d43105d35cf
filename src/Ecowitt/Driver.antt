-- ===== src/Ecowitt/Driver.antt =====
-- Polling an Ecowitt gateway: `raw_to_snapshot` of backend/app/protocol/ecowitt/sensors.py, without the readings
-- that it puts into `extra`, and `poll` of driver.py beside it. Each attempt has its own connection, and
-- another task may request a stop while it runs.
pub mod Attempts
use kanfei.Prelude.{
  ℕ, zero, suc, ◌+◌, Bool, true, false, ◌||◌, Option, none, some, List, [], ◌∷◌, ◌==◌, ℤ, pos,
  if◌then◌else◌,
}
use mathlib.Core.Option
use kanfei.Bytes.{Bytes}
use kanfei.Floats.{Float, of_int, of_nat, ◌⊘◌, round_int}
use kanfei.Ecowitt.Protocol.{
  Failure, connection_error, timeout_error, incomplete_read, protocol_error, value_error, Result,
  ok, failed, Gateway, send_command,
}
use kanfei.Ecowitt.Sensors.{Value, number, raw, air, Dict, parse_live_data}

abbrev pub value_at : ℕ → Dict → Option Value
value_at marker [] = none
value_at marker ((m, v) ∷ rest) = if m == marker then some v else value_at marker rest

-- The markers that are read here have numbers.
abbrev pub number_in : Option Value → Option ℤ
number_in (some (number n)) = some n
number_in _ = none

unfoldable pub number_at : ℕ → Dict → Option ℤ
number_at marker dict = number_in (value_at marker dict)

pub record Readings (F : Type 0) : Type 0 where
  pub inside_temp : Option F
  pub outside_temp : Option F
  pub inside_humidity : Option ℤ
  pub outside_humidity : Option ℤ
  pub wind_speed : Option F
  pub wind_direction : Option ℤ
  pub wind_gust : Option F
  pub barometer : Option F
  pub rain_rate : Option F
  pub rain_daily : Option F
  pub rain_yearly : Option F
  pub solar_radiation : Option ℤ
  pub uv_index : Option F
  pub soil_temp : Option F
  pub soil_moisture : Option ℤ
  pub leaf_wetness : Option ℤ

module _ {F : Type 0} ⦃fl : Float F⦄ where
  abbrev pub tenths_at : ℕ → Dict → Option F
  tenths_at marker dict = Option.map (λ n. of_int n ⊘ of_nat 10) (number_at marker dict)

  unfoldable pub raw_to_snapshot : Dict → Readings F
  unfolding number_at
  raw_to_snapshot dict = record {
    inside_temp = tenths_at 0x01 dict;
    outside_temp = tenths_at 0x02 dict;
    inside_humidity = number_at 0x06 dict;
    outside_humidity = number_at 0x07 dict;
    wind_speed = tenths_at 0x0B dict;
    wind_direction = number_at 0x0A dict;
    wind_gust = tenths_at 0x0C dict;
    barometer = tenths_at 0x09 dict;
    rain_rate = tenths_at 0x0E dict;
    rain_daily = tenths_at 0x10 dict;
    rain_yearly = tenths_at 0x13 dict;
    solar_radiation =
        Option.map (λ n. round_int {F = F} (of_int n ⊘ of_nat 10)) (number_at 0x16 dict);
    uv_index = Option.map (λ n. of_int {F = F} n) (number_at 0x17 dict);
    soil_temp = tenths_at 0x2B dict;
    soil_moisture = number_at 0x2C dict;
    leaf_wetness = number_at 0x72 dict;
  }

abbrev pub cmd_livedata : ℕ
cmd_livedata = 0x27

-- MAX_RETRIES + 1
abbrev pub live_attempts : ℕ
live_attempts = 3

-- The exceptions that `poll` catches: EcowittProtocolError is a ConnectionError, and an
-- IncompleteReadError is none of them.
abbrev pub is_caught : Failure → Bool
is_caught connection_error = true
is_caught timeout_error = true
is_caught protocol_error = true
is_caught incomplete_read = false
is_caught value_error = false

module _ {F : Type 0} ⦃fl : Float F⦄ where
  -- What an attempt makes of the answer, with the attempts that are left: the snapshot or the exception
  -- that leaves `poll`, and whether the driver is connected afterwards.
  abbrev pub settled_by :
      (Bool → Result (Option (Readings F)) × Bool)
      → Bool
      → Result Bytes
      → Result (Option (Readings F)) × Bool
  settled_by rest connected (ok payload) =
      (ok (some (raw_to_snapshot (parse_live_data payload))), true)
  settled_by rest connected (failed e) = if is_caught e then rest false else (failed e, connected)

module _ {F : Type 0} ⦃fl : Float F⦄ (attempt : ℕ → Gateway × Bool) where
  unfoldable pub poll_from : ℕ → ℕ → Bool → Bool → Result (Option (Readings F)) × Bool
  unfolding raw_to_snapshot parse_live_data send_command
  poll_from zero i stop connected = (ok none, connected)
  poll_from (suc n) i stop connected =
      let attempted =
        settled_by (poll_from n (i + 1) (attempt i).1) connected
          (send_command (attempt i).0 cmd_livedata []) in
      if stop then (ok none, connected) else attempted

  unfoldable pub poll : Bool → Bool → Result (Option (Readings F)) × Bool
  unfolding poll_from
  poll stop connected = poll_from live_attempts 0 stop connected
