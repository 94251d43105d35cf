-- ===== src/WeatherLink/Calibration.antt =====
-- The calibration of a legacy station: CalibrationOffsets, `read_calibration` and `write_calibration` of
-- backend/app/protocol/link_driver.py. The offsets that the driver holds are an argument and a result.
use kanfei.Prelude.{
  ℕ, Bool, true, false, ◌&&◌, Option, none, some, ltb, ℤ, pos, ◌-ℤ◌, if◌then◌else◌,
}
use kanfei.Bytes.{Bytes, u16_at, i16_at, pack_u16_le, pack_i16_le}
use kanfei.Vantage.Link.{Io, pure, raise, struct_error, ◌>>=◌, ◌>>◌, flush}
use kanfei.WeatherLink.Commands.{
  MemAddr, bar_cal, inside_temp_cal, outside_temp_cal, outside_humidity_cal, rain_cal,
}
use kanfei.WeatherLink.Memory.{read_station_memory, write_station_memory}
use kanfei.WeatherLink.Registers.{read_register, write_register, long_enough, while_stopped}

-- What is added to a raw reading, and the clicks of an inch of rain.
pub record CalibrationOffsets : Type 0 where
  pub inside_temp : ℤ
  pub outside_temp : ℤ
  pub barometer : ℤ
  pub outside_hum : ℤ
  pub rain_clicks : ℤ

-- The register has the barometer's offset to subtract.
unfoldable pub negated : ℤ → ℤ
unfolding ◌-ℤ◌
negated v = pos 0 -ℤ v

abbrev pub or_kept : ℤ → (Bytes → ℤ) → Option Bytes → ℤ
or_kept kept f none = kept
or_kept kept f (some bytes) = f bytes

abbrev pub positive_or : ℕ → ℤ → ℤ
positive_or cal kept = if ltb 0 cal then pos cal else kept

-- One register, and what the offsets become by it.
abbrev pub refreshed :
    MemAddr
    → (CalibrationOffsets → Option Bytes → CalibrationOffsets)
    → CalibrationOffsets
    → Io CalibrationOffsets
refreshed addr update held =
    read_register addr >>= λ found. pure (update held (long_enough 2 found))

abbrev pub with_inside : CalibrationOffsets → Option Bytes → CalibrationOffsets
with_inside held found = record held {
  inside_temp = or_kept held.inside_temp (λ b. i16_at b 0) found;
}

abbrev pub with_outside : CalibrationOffsets → Option Bytes → CalibrationOffsets
with_outside held found = record held {
  outside_temp = or_kept held.outside_temp (λ b. i16_at b 0) found;
}

abbrev pub with_bar : CalibrationOffsets → Option Bytes → CalibrationOffsets
with_bar held found = record held {
  barometer = or_kept held.barometer (λ b. negated (i16_at b 0)) found;
}

abbrev pub with_hum : CalibrationOffsets → Option Bytes → CalibrationOffsets
with_hum held found = record held { outside_hum = or_kept held.outside_hum (λ b. i16_at b 0) found }

abbrev pub with_rain : CalibrationOffsets → Option Bytes → CalibrationOffsets
with_rain held found = record held {
  rain_clicks = or_kept held.rain_clicks (λ b. positive_or (u16_at b 0) held.rain_clicks) found;
}

unfoldable pub read_calibration : CalibrationOffsets → Io CalibrationOffsets
unfolding flush read_station_memory i16_at u16_at negated
read_calibration held =
    flush
    >> refreshed inside_temp_cal with_inside held
    >>= refreshed outside_temp_cal with_outside
    >>= refreshed bar_cal with_bar
    >>= refreshed outside_humidity_cal with_hum
    >>= refreshed rain_cal with_rain

-- An offset that does not fit its register raises.
abbrev pub stored_offset : MemAddr → Option Bytes → Io Bool
stored_offset addr none = raise struct_error
stored_offset addr (some payload) = write_register addr payload

unfoldable pub write_offsets : CalibrationOffsets → Io Bool
unfolding write_station_memory pack_i16_le pack_u16_le negated
write_offsets offsets = do
  a ← stored_offset inside_temp_cal (pack_i16_le offsets.inside_temp)
  b ← stored_offset outside_temp_cal (pack_i16_le offsets.outside_temp)
  c ← stored_offset bar_cal (pack_i16_le (negated offsets.barometer))
  d ← stored_offset outside_humidity_cal (pack_i16_le offsets.outside_hum)
  e ← stored_offset rain_cal (pack_u16_le offsets.rain_clicks)
  pure (a && b && c && d && e)

-- The offsets that are held afterwards: those written, or those read back after a failure.
abbrev pub settled : CalibrationOffsets → CalibrationOffsets → Bool → Io (Bool × CalibrationOffsets)
settled held offsets true = pure (true, offsets)
settled held offsets false = read_calibration held >>= λ actual. pure (false, actual)

unfoldable pub write_calibration :
    CalibrationOffsets → CalibrationOffsets → Io (Bool × CalibrationOffsets)
unfolding while_stopped write_offsets read_calibration
write_calibration held offsets = while_stopped (write_offsets offsets) >>= settled held offsets
