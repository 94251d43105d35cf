-- ===== src/Vantage/Archive.antt =====
-- backend/app/protocol/vantage/archive.py: 52-byte archive records and 267-byte archive pages.
pub mod Exact
pub mod Ranges
pub mod Pages
use kanfei.Prelude.{
  ℕ, zero, suc, ◌+◌, ◌*◌, ◌/◌, ◌%◌, Bool, ◌&&◌, ◌||◌, Option, none, some, List, [], ◌∷◌, map, take,
  drop, length, get_or, leb, ltb, ◌==◌, not, ℤ, pos, negsuc, eqb_ℤ, sub_ℕ, if◌then◌else◌,
}
use mathlib.Core.Option
use kanfei.Bytes.{Bytes, byte_at, u16_at, i16_at}
use kanfei.Floats.{Float, of_int, of_nat, decimal, round_to, ◌⊖◌, ◌⊗◌, ◌⊘◌}
use kanfei.Calendar.{DateTime}
use kanfei.Crc.{crc_validate}
use kanfei.Vantage.Stamp.{decode_stamps}

abbrev pub archive_page_size : ℕ
archive_page_size = 267

abbrev pub archive_page_header_size : ℕ
archive_page_header_size = 1

abbrev pub archive_record_size : ℕ
archive_record_size = 52

abbrev pub archive_records_per_page : ℕ
archive_records_per_page = 5

-- WIND_DIR_DEGREES in tenths of a degree: each value is a multiple of 22.5.
abbrev pub wind_dir_tenths : List ℕ
wind_dir_tenths =
    0 ∷ 225 ∷ 450 ∷ 675 ∷ 900 ∷ 1125 ∷ 1350 ∷ 1575 ∷ 1800 ∷ 2025 ∷ 2250 ∷ 2475 ∷ 2700 ∷ 2925 ∷ 3150
    ∷ 3375 ∷ []

-- `round` of a number of tenths: to the nearest whole number, a half to the even one.
pub round_tenths : ℕ → ℕ
round_tenths n =
    let q = n / 10 in
    let r = n % 10 in
    if ltb r 5 then q else if ltb 5 r then q + 1 else if q % 2 == 0 then q else q + 1

unfoldable pub decode_wind_dir : ℕ → Option ℕ
unfolding round_tenths
decode_wind_dir code =
    if ltb 15 code then none else some (round_tenths (get_or wind_dir_tenths code 0))

pub record ArchiveRecord (F : Type 0) : Type 0 where
  pub timestamp : DateTime
  pub outside_temp_avg : Option F
  pub outside_temp_hi : Option F
  pub outside_temp_lo : Option F
  pub inside_temp : Option F
  pub inside_humidity : Option ℕ
  pub outside_humidity : Option ℕ
  pub barometer : Option F
  pub wind_speed_avg : Option F
  pub wind_speed_hi : Option F
  pub wind_dir_hi : Option ℕ
  pub wind_dir_prevailing : Option ℕ
  pub rainfall : Option F
  pub rain_rate_hi : Option F
  pub solar_radiation : Option ℕ
  pub solar_radiation_hi : Option ℕ
  pub uv_index : Option F
  pub uv_index_hi : Option F
  pub et : Option F
  pub forecast_rule : Option ℕ
  pub record_type : ℕ
  pub soil_temps : List (Option F)
  pub soil_moistures : List (Option ℕ)
  pub leaf_temps : List (Option F)
  pub leaf_wetnesses : List (Option ℕ)
  pub extra_temps : List (Option F)
  pub extra_humidities : List (Option ℕ)

-- `v if v != sentinel else None`
unfoldable pub unless_eq : ℕ → ℕ → Option ℕ
unless_eq sentinel v = if v == sentinel then none else some v

-- `v if v != 0xFF and v <= 100 else None`
unfoldable pub percent : ℕ → Option ℕ
percent v = if not (v == 0xFF) && leb v 100 then some v else none

module _ {F : Type 0} ⦃fl : Float F⦄ where
  -- `_temp` of the value at an offset
  unfoldable pub temp : ℤ → Option F
  temp v =
      if eqb_ℤ v (pos 0x7FFF) || eqb_ℤ v (negsuc 32767)
      then none
      else some (round_to ((of_int v ⊘ decimal 100 1 ⊖ of_nat 32) ⊗ of_nat 5 ⊘ of_nat 9) 1)

  unfoldable pub extra_temp : ℕ → Option F
  extra_temp raw =
      if raw == 0xFF
      then none
      else some (round_to ((of_int (sub_ℕ raw 90) ⊖ of_nat 32) ⊗ of_nat 5 ⊘ of_nat 9) 1)

  unfoldable pub clicks_or_none : F → ℕ → Option F
  clicks_or_none rain_click_inches clicks =
      if clicks == 0xFFFF
      then none
      else some (round_to (of_nat clicks ⊗ rain_click_inches ⊗ decimal 254 1) 2)

  unfoldable pub barometer_or_none : ℕ → Option F
  barometer_or_none v =
      if (v == 0) || (v == 0xFFFF)
      then none
      else some (round_to (of_nat v ⊘ decimal 10000 1 ⊗ decimal 338639 4) 1)

  unfoldable pub wind_or_none : ℕ → Option F
  wind_or_none v = if v == 0xFF then none else some (round_to (of_nat v ⊗ decimal 44704 5) 1)

  unfoldable pub uv_or_none : ℕ → Option F
  uv_or_none v = if v == 0xFF then none else some (of_nat v ⊘ decimal 100 1)

  unfoldable pub et_or_none : ℕ → Option F
  et_or_none v =
      if v == 0xFF then none else some (round_to (of_nat v ⊘ decimal 10000 1 ⊗ decimal 254 1) 2)

  -- The fields that both revisions have.
  pub rev_a_fields : F → DateTime → Bytes → ArchiveRecord F
  rev_a_fields rain_click_inches ts bytes = record {
    timestamp = ts;
    outside_temp_avg = temp (i16_at bytes 4);
    outside_temp_hi = temp (i16_at bytes 6);
    outside_temp_lo = temp (i16_at bytes 8);
    inside_temp = temp (i16_at bytes 20);
    inside_humidity = percent (byte_at bytes 22);
    outside_humidity = percent (byte_at bytes 23);
    barometer = barometer_or_none (u16_at bytes 14);
    wind_speed_avg = wind_or_none (byte_at bytes 24);
    wind_speed_hi = wind_or_none (byte_at bytes 25);
    wind_dir_hi = decode_wind_dir (byte_at bytes 26);
    wind_dir_prevailing = decode_wind_dir (byte_at bytes 27);
    rainfall = clicks_or_none rain_click_inches (u16_at bytes 10);
    rain_rate_hi = clicks_or_none rain_click_inches (u16_at bytes 12);
    solar_radiation = unless_eq 0x7FFF (u16_at bytes 16);
    solar_radiation_hi = none;
    uv_index = uv_or_none (byte_at bytes 28);
    uv_index_hi = none;
    et = et_or_none (byte_at bytes 29);
    forecast_rule = none;
    record_type = byte_at bytes 42;
    soil_temps = [];
    soil_moistures = [];
    leaf_temps = [];
    leaf_wetnesses = [];
    extra_temps = [];
    extra_humidities = [];
  }

  -- What the branch `if is_rev_b` adds.
  pub rev_b_fields : Bytes → ArchiveRecord F → ArchiveRecord F
  rev_b_fields bytes rec = record rec {
    solar_radiation_hi = unless_eq 0x7FFF (u16_at bytes 30);
    uv_index_hi = uv_or_none (byte_at bytes 32);
    forecast_rule = unless_eq 0xFF (byte_at bytes 33);
    leaf_temps = extra_temp (byte_at bytes 34) ∷ extra_temp (byte_at bytes 35) ∷ [];
    leaf_wetnesses = unless_eq 0xFF (byte_at bytes 36) ∷ unless_eq 0xFF (byte_at bytes 37) ∷ [];
    soil_temps =
        extra_temp (byte_at bytes 38)
        ∷ extra_temp (byte_at bytes 39)
        ∷ extra_temp (byte_at bytes 40)
        ∷ extra_temp (byte_at bytes 41)
        ∷ [];
    extra_humidities = percent (byte_at bytes 43) ∷ percent (byte_at bytes 44) ∷ [];
    extra_temps =
        extra_temp (byte_at bytes 45)
        ∷ extra_temp (byte_at bytes 46)
        ∷ extra_temp (byte_at bytes 47)
        ∷ [];
    soil_moistures = unless_eq 0xFF (byte_at bytes 48) ∷ unless_eq 0xFF (byte_at bytes 49) ∷ [];
  }

  pub fill_record : F → Bytes → DateTime → ArchiveRecord F
  fill_record rain_click_inches bytes ts =
      let rec = rev_a_fields rain_click_inches ts bytes in
      if byte_at bytes 42 == 0x00 then rev_b_fields bytes rec else rec

  -- `None` for a short record, an empty slot, and a date or a time that does not exist.
  unfoldable pub parse_archive_record : Bytes → F → Option (ArchiveRecord F)
  unfolding fill_record rev_a_fields rev_b_fields
  parse_archive_record bytes rain_click_inches =
      let date_raw = u16_at bytes 0 in
      if ltb (length bytes) archive_record_size
      then none
      else if (date_raw == 0xFFFF) || (date_raw == 0)
      then none
      else Option.map (fill_record rain_click_inches bytes)
          (decode_stamps date_raw (u16_at bytes 2))

-- page[start:end] of the records from index `i` on, `n` of them.
pub page_records : ℕ → ℕ → Bytes → List (ℕ × Bytes)
page_records zero i page = []
page_records (suc n) i page =
    (i, take archive_record_size (drop (archive_page_header_size + i * archive_record_size) page))
    ∷ page_records n (i + 1) page

unfoldable pub parse_archive_page : Bytes → List (ℕ × Bytes)
unfolding page_records
parse_archive_page page =
    if ltb (length page) archive_page_size
    then []
    else if crc_validate (take archive_page_size page)
    then page_records archive_records_per_page 0 page
    else []
