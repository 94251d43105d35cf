-- ===== src/Vantage/Hilows.antt =====
-- The highs and lows of the console: backend/app/protocol/vantage/hilows.py, and `hilows` of
-- backend/app/protocol/vantage/driver.py. A time is its hour and minute.
pub mod Plausible
pub mod Answered
mod Tests
use kanfei.Prelude.{
  ℕ, zero, suc, ◌+◌, ◌*◌, ◌/◌, ◌%◌, Bool, ◌||◌, Option, none, some, List, [], ◌∷◌, length, take,
  drop, ltb, ◌==◌, ℤ, pos, negsuc, ◌-ℤ◌, ◌*ℤ◌, eqb_ℤ, if◌then◌else◌,
}
use mathlib.Core.Option
use kanfei.Bytes.{Bytes, byte_at, u16_at, i16_at}
use kanfei.Floats.{Float, of_int, of_nat, decimal, ◌⊗◌, ◌⊘◌, round_to}
use kanfei.Crc.{crc_validate}
use kanfei.Vantage.Validity.{
  valid_temp, valid_humidity, valid_barometer, valid_solar, decode_extra_temp,
}
use kanfei.Vantage.Snapshot.{f10_to_c, inhg1000_to_hpa, mph_to_ms}
use kanfei.Vantage.Link.{
  Io, pure, raise, ◌>>=◌, ◌>>◌, connection_error, send, receive, receive_byte, flush, is_byte,
  wakeup,
}
use kanfei.Vantage.Transfer.{ack}

abbrev pub hilows_total_size : ℕ
hilows_total_size = 438

pub record Time : Type 0 where
  pub hour : ℕ
  pub minute : ℕ

-- The extremes of one day, month or year; those of a month or a year have no times.
pub record HiLo (A : Type 0) : Type 0 where
  pub low : Option A
  pub high : Option A
  pub time_low : Option Time
  pub time_high : Option Time

-- HiOnly and LoOnly have the same fields.
pub record Extreme (A : Type 0) : Type 0 where
  pub value : Option A
  pub time : Option Time

pub record Period (A : Type 0) : Type 0 where
  pub day : HiLo A
  pub month : HiLo A
  pub year : HiLo A

-- HiOnlyPeriod and LoOnlyPeriod
pub record ExtremePeriod (A : Type 0) : Type 0 where
  pub day : Extreme A
  pub month : Extreme A
  pub year : Extreme A

pub record HighsLows (F : Type 0) : Type 0 where
  pub barometer : Period F
  pub wind_speed : ExtremePeriod F
  pub inside_temp : Period F
  pub inside_humidity : Period ℕ
  pub outside_temp : Period F
  pub dew_point : Period F
  pub wind_chill : ExtremePeriod F
  pub heat_index : ExtremePeriod F
  pub thsw_index : ExtremePeriod F
  pub solar_radiation : ExtremePeriod ℕ
  pub uv_index : ExtremePeriod F
  pub rain_rate : ExtremePeriod F
  pub rain_rate_hour_hi : Option F
  pub extra_temps : List (Period F)
  pub soil_temps : List (Period F)
  pub leaf_temps : List (Period F)
  pub humidities : List (Period ℕ)
  pub soil_moistures : List (Period ℕ)
  pub leaf_wetnesses : List (Period ℕ)

abbrev pub dashed_u16 : ℕ → Bool
dashed_u16 raw = (raw == 0x7FFF) || (raw == 0xFFFF) || (raw == 0x8000)

unfoldable pub time_from_raw : ℕ → Option Time
time_from_raw raw =
    if dashed_u16 raw
    then none
    else if ltb 23 (raw / 100) || ltb 59 (raw % 100)
    then none
    else some (record { hour = raw / 100; minute = raw % 100 })

unfoldable pub soil_moisture : ℕ → Option ℕ
soil_moisture raw = if raw == 0xFF then none else some raw

unfoldable pub leaf_wetness : ℕ → Option ℕ
leaf_wetness raw = if (raw == 0xFF) || ltb 15 raw then none else some raw

-- The times of a pair: at these offsets, or never.
abbrev pub hilo : {A : Type 0} → Option A → Option A → HiLo A
hilo low high = record { low = low; high = high; time_low = none; time_high = none }

unfoldable pub daily : {A : Type 0} → Bytes → Option A → Option A → ℕ → ℕ → HiLo A
unfolding time_from_raw
daily b low high time_low time_high = record {
  low = low;
  high = high;
  time_low = time_from_raw (u16_at b time_low);
  time_high = time_from_raw (u16_at b time_high);
}

abbrev pub extremes : {A : Type 0} → Bytes → Option A → ℕ → Option A → Option A → ExtremePeriod A
extremes b day time month year = record {
  day = record { value = day; time = time_from_raw (u16_at b time) };
  month = record { value = month; time = none };
  year = record { value = year; time = none };
}

-- [slot i, slot (i + 1), ...]
abbrev pub slots : {A : Type 0} → ℕ → ℕ → (ℕ → A) → List A
slots zero i slot = []
slots (suc n) i slot = slot i ∷ slots n (suc i) slot

-- Eight fields of one width, in the order of the two layouts of the slots: the offsets of the daily low,
-- high and their times, and of the monthly and yearly high and low.
unfoldable pub slot_period :
    {A : Type 0} → Bytes → (ℕ → Option A) → ℕ → ℕ → ℕ → ℕ → ℕ → ℕ → ℕ → ℕ → ℕ → Period A
unfolding daily
slot_period b read low high time_low time_high month_high month_low year_high year_low i = record {
  day =
      daily b (read (byte_at b (low + i))) (read (byte_at b (high + i))) (time_low + i * 2)
        (time_high + i * 2);
  month = hilo (read (byte_at b (month_low + i))) (read (byte_at b (month_high + i)));
  year = hilo (read (byte_at b (year_low + i))) (read (byte_at b (year_high + i)));
}

abbrev pub cmd_hilows : Bytes
cmd_hilows = b'H' ∷ b'I' ∷ b'L' ∷ b'O' ∷ b'W' ∷ b'S' ∷ 0x0A ∷ []

module _ {F : Type 0} ⦃fl : Float F⦄ where
  unfoldable pub temp_c : ℤ → Option F
  temp_c raw = Option.map f10_to_c (valid_temp raw)

  unfoldable pub temp_whole_c : ℤ → Option F
  temp_whole_c raw =
      if eqb_ℤ raw (pos 0x7FFF) || eqb_ℤ raw (pos 0x8000) || eqb_ℤ raw (negsuc 32767)
      then none
      else some (round_to (of_int ((raw -ℤ pos 32) *ℤ pos 5) ⊘ of_nat 9) 1)

  unfoldable pub bar_hpa : ℕ → Option F
  bar_hpa raw = Option.map inhg1000_to_hpa (valid_barometer raw)

  unfoldable pub wind_ms : ℕ → Option F
  wind_ms raw = if raw == 0xFF then none else some (mph_to_ms (pos raw))

  unfoldable pub extra_c : ℕ → Option F
  extra_c raw = Option.map f10_to_c (decode_extra_temp raw)

  unfoldable pub uv : ℕ → Option F
  uv raw = if raw == 0xFF then none else some (round_to (of_nat raw ⊘ decimal 100 1) 1)

  unfoldable pub rain_rate_mm_hr : F → ℕ → Option F
  rain_rate_mm_hr click_inches raw =
      if raw == 0xFFFF then none else some (round_to (of_nat raw ⊗ click_inches ⊗ decimal 254 1) 2)

  -- The fifteen slots of extra, soil and leaf temperatures.
  abbrev pub temp_slots : Bytes → List (Period F)
  temp_slots b = slots 15 0 (slot_period b extra_c 126 141 156 186 216 231 246 261)

  unfoldable pub highs_lows : F → Bytes → HighsLows F
  unfolding daily slot_period time_from_raw soil_moisture leaf_wetness
  highs_lows rain_click_inches b =
      let rain = rain_rate_mm_hr rain_click_inches in
      record {
        barometer = record {
          day = daily b (bar_hpa (u16_at b 0)) (bar_hpa (u16_at b 2)) 12 14;
          month = hilo (bar_hpa (u16_at b 4)) (bar_hpa (u16_at b 6));
          year = hilo (bar_hpa (u16_at b 8)) (bar_hpa (u16_at b 10));
        };
        wind_speed =
            extremes b (wind_ms (byte_at b 16)) 17 (wind_ms (byte_at b 19))
              (wind_ms (byte_at b 20));
        inside_temp = record {
          day = daily b (temp_c (i16_at b 23)) (temp_c (i16_at b 21)) 27 25;
          month = hilo (temp_c (i16_at b 29)) (temp_c (i16_at b 31));
          year = hilo (temp_c (i16_at b 33)) (temp_c (i16_at b 35));
        };
        inside_humidity = record {
          day = daily b (valid_humidity (byte_at b 38)) (valid_humidity (byte_at b 37)) 41 39;
          month = hilo (valid_humidity (byte_at b 44)) (valid_humidity (byte_at b 43));
          year = hilo (valid_humidity (byte_at b 46)) (valid_humidity (byte_at b 45));
        };
        outside_temp = record {
          day = daily b (temp_c (i16_at b 47)) (temp_c (i16_at b 49)) 51 53;
          month = hilo (temp_c (i16_at b 57)) (temp_c (i16_at b 55));
          year = hilo (temp_c (i16_at b 61)) (temp_c (i16_at b 59));
        };
        dew_point = record {
          day = daily b (temp_whole_c (i16_at b 63)) (temp_whole_c (i16_at b 65)) 67 69;
          month = hilo (temp_whole_c (i16_at b 73)) (temp_whole_c (i16_at b 71));
          year = hilo (temp_whole_c (i16_at b 77)) (temp_whole_c (i16_at b 75));
        };
        wind_chill =
            extremes b (temp_whole_c (i16_at b 79)) 81 (temp_whole_c (i16_at b 83))
              (temp_whole_c (i16_at b 85));
        heat_index =
            extremes b (temp_whole_c (i16_at b 87)) 89 (temp_whole_c (i16_at b 91))
              (temp_whole_c (i16_at b 93));
        thsw_index =
            extremes b (temp_whole_c (i16_at b 95)) 97 (temp_whole_c (i16_at b 99))
              (temp_whole_c (i16_at b 101));
        solar_radiation =
            extremes b (valid_solar (u16_at b 103)) 105 (valid_solar (u16_at b 107))
              (valid_solar (u16_at b 109));
        uv_index = extremes b (uv (byte_at b 111)) 112 (uv (byte_at b 114)) (uv (byte_at b 115));
        rain_rate =
            extremes b (rain (u16_at b 116)) 118 (rain (u16_at b 122)) (rain (u16_at b 124));
        rain_rate_hour_hi = rain (u16_at b 120);
        extra_temps = take 7 (temp_slots b);
        soil_temps = take 4 (drop 7 (temp_slots b));
        leaf_temps = drop 11 (temp_slots b);
        humidities = slots 8 0 (slot_period b valid_humidity 276 284 292 308 324 332 340 348);
        soil_moistures = slots 4 0 (slot_period b soil_moisture 368 356 372 360 384 380 392 388);
        leaf_wetnesses = slots 4 0 (slot_period b leaf_wetness 408 396 412 400 424 420 432 428);
      }

  unfoldable pub parse_hilows : F → Bytes → Option (HighsLows F)
  unfolding highs_lows
  parse_hilows rain_click_inches block =
      if ltb (length block) hilows_total_size
      then none
      else if crc_validate (take hilows_total_size block)
      then some (highs_lows rain_click_inches block)
      else none

  -- What follows the block.
  abbrev pub after_block : F → Bytes → Io (Option (HighsLows F))
  after_block rain_click_inches block =
      if ltb (length block) hilows_total_size
      then raise connection_error
      else if crc_validate (take hilows_total_size block)
      then pure (parse_hilows rain_click_inches block)
      else raise connection_error

  abbrev pub after_hilows : F → Option ℕ → Io (Option (HighsLows F))
  after_hilows rain_click_inches answer =
      if is_byte ack answer
      then (receive hilows_total_size >>= after_block rain_click_inches)
      else raise connection_error

  unfoldable pub hilows : F → Io (Option (HighsLows F))
  unfolding receive_byte parse_hilows
  hilows rain_click_inches =
      wakeup >> flush >> send cmd_hilows >> (receive_byte >>= after_hilows rain_click_inches)
