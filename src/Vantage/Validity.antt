-- ===== src/Vantage/Validity.antt =====
-- The tests of backend/app/protocol/vantage/loop_packet.py that keep dashed and impossible values
-- out of a packet: `_valid_*` and `_decode_extra_temp`.
pub mod Ranges
use kanfei.Prelude.{
  ℕ, ◌/◌, ◌%◌, Bool, ◌&&◌, ◌||◌, Option, none, some, ltb, leb, ◌==◌, not, ℤ, pos, negsuc, eqb_ℤ,
  ltb_ℤ, leb_ℤ, sub_ℕ, ◌*ℤ◌, if◌then◌else◌,
}

unfoldable pub valid_temp : ℤ → Option ℤ
valid_temp val =
    if eqb_ℤ val (pos 0x7FFF) || eqb_ℤ val (negsuc 32767)
    then none
    else if ltb_ℤ (pos 2500) val || ltb_ℤ val (negsuc 899)
    then none
    else some val

unfoldable pub valid_humidity : ℕ → Option ℕ
valid_humidity val = if (val == 0xFF) || ltb 100 val then none else some val

unfoldable pub valid_barometer : ℕ → Option ℕ
valid_barometer val = if (val == 0) || (val == 0xFFFF) then none else some val

unfoldable pub valid_uv : ℕ → Option ℕ
valid_uv val = if val == 0xFF then none else some val

unfoldable pub valid_solar : ℕ → Option ℕ
valid_solar val = if leb 0x7FFF val then none else some val

unfoldable pub valid_rain_rate : ℕ → Option ℕ
valid_rain_rate val = if val == 0xFFFF then none else some val

unfoldable pub valid_wind_dir : ℕ → Option ℕ
valid_wind_dir val = if (val == 0x7FFF) || ltb 360 val then none else some val

unfoldable pub valid_wind_speed : ℕ → Option ℕ
valid_wind_speed val = if val == 0xFF then none else some val

-- -150 and -1 are `negsuc 149` and `negsuc 0`.
unfoldable pub valid_derived_temp : ℤ → Option ℤ
valid_derived_temp val =
    if eqb_ℤ val (pos 0x7FFF)
      || eqb_ℤ val (negsuc 0)
      || not (leb_ℤ (negsuc 149) val && leb_ℤ val (pos 200))
    then none
    else some val

unfoldable pub valid_clock : ℕ → Option ℕ
valid_clock val =
    if (val == 0) || (val == 0xFFFF) || (val == 0x7FFF)
    then none
    else if not (leb (val / 100) 23 && leb (val % 100) 59)
    then none
    else some val

unfoldable pub decode_extra_temp : ℕ → Option ℤ
decode_extra_temp raw = if raw == 0xFF then none else some (sub_ℕ raw 90 *ℤ pos 10)
