-- ===== src/Ecowitt/Sensors.antt =====
-- The live data of an Ecowitt gateway: MARKER_SIZE of backend/app/protocol/ecowitt/constants.py and
-- `parse_live_data` of sensors.py beside it.
pub mod Items
use kanfei.Prelude.{
  ℕ, zero, suc, ◌+◌, ◌*◌, ◌%◌, Bool, true, false, ◌&&◌, ◌||◌, Option, none, some, List, [], ◌∷◌,
  length, take, drop, ltb, leb, ◌==◌, ℤ, pos, if◌then◌else◌,
}
use kanfei.Bytes.{Bytes, byte_at, signed16}

abbrev pub between : ℕ → ℕ → ℕ → Bool
between lo hi m = leb lo m && leb m hi

-- MARKER_SIZE.get(marker), the table by its ranges.
unfoldable pub marker_size : ℕ → Option ℕ
marker_size m =
    if between 0x01 0x05 m
      || between 0x08 0x11 m
      || (m == 0x16)
      || between 0x19 0x21 m
      || (m == 0x2A)
      || between 0x4D 0x53 m
    then some 2
    else if between 0x06 0x07 m
        || (m == 0x17)
        || between 0x22 0x29 m
        || between 0x58 0x5B m
        || (m == 0x60)
        || between 0x72 0x79 m
    then some 1
    else if between 0x12 0x15 m || between 0x61 0x62 m || (m == 0x6C)
    then some 4
    else if between 0x2B 0x4A m
    then some (if m % 2 == 1 then 2 else 1)
    else if between 0x63 0x6A m
    then some 3
    else if m == 0x18
    then some 6
    else if (m == 0x4C) || (m == 0x70)
    then some 16
    else if m == 0x6B
    then some 24
    else none

-- struct.unpack_from with ">H", ">h" and ">I"
unfoldable pub decode_u16 : Bytes → ℕ → ℕ
decode_u16 bytes offset = byte_at bytes offset * 256 + byte_at bytes (offset + 1)

unfoldable pub decode_signed_temp : Bytes → ℕ → ℤ
unfolding decode_u16 signed16
decode_signed_temp bytes offset = signed16 (decode_u16 bytes offset)

unfoldable pub decode_u32 : Bytes → ℕ → ℕ
unfolding decode_u16
decode_u32 bytes offset = decode_u16 bytes offset * 65536 + decode_u16 bytes (offset + 2)

pub record AirQuality : Type 0 where
  pub co2 : ℕ
  pub co2_24h : ℕ
  pub pm25 : ℕ
  pub pm25_24h : ℕ
  pub pm10 : ℕ
  pub pm10_24h : ℕ
  -- pm1, pm1_24h, pm4 and pm4_24h, of a WH46 only
  pub fine : List ℕ
  pub temp : ℤ
  pub humidity : ℕ

unfoldable pub parse_wh45 : Bytes → AirQuality
unfolding decode_u16 decode_signed_temp
parse_wh45 bytes = record {
  co2 = decode_u16 bytes 0;
  co2_24h = decode_u16 bytes 2;
  pm25 = decode_u16 bytes 4;
  pm25_24h = decode_u16 bytes 6;
  pm10 = decode_u16 bytes 8;
  pm10_24h = decode_u16 bytes 10;
  fine = [];
  temp = decode_signed_temp bytes 12;
  humidity = byte_at bytes 14;
}

unfoldable pub parse_wh46 : Bytes → AirQuality
unfolding decode_u16 decode_signed_temp
parse_wh46 bytes = record {
  co2 = decode_u16 bytes 0;
  co2_24h = decode_u16 bytes 2;
  pm25 = decode_u16 bytes 4;
  pm25_24h = decode_u16 bytes 6;
  pm10 = decode_u16 bytes 8;
  pm10_24h = decode_u16 bytes 10;
  fine = decode_u16 bytes 12 ∷ decode_u16 bytes 14 ∷ decode_u16 bytes 16 ∷ decode_u16 bytes 18 ∷ [];
  temp = decode_signed_temp bytes 20;
  humidity = byte_at bytes 22;
}

pub data Value : Type 0 where
  number : ℤ → Value
  raw : Bytes → Value
  air : AirQuality → Value

-- _SIGNED_TEMP_MARKERS and _WN34_MARKERS
abbrev pub is_signed_temp : ℕ → Bool
is_signed_temp m =
    between 0x01 0x05 m || between 0x1A 0x21 m || (between 0x2B 0x4A m && (m % 2 == 1))

abbrev pub is_wn34 : ℕ → Bool
is_wn34 m = between 0x63 0x6A m

unfoldable pub decoded : ℕ → ℕ → Bytes → Value
unfolding decode_signed_temp decode_u16 decode_u32 parse_wh45 parse_wh46
decoded marker size bytes =
    if is_signed_temp marker || is_wn34 marker
    then number (decode_signed_temp bytes 0)
    else if size == 1
    then number (pos (byte_at bytes 0))
    else if size == 2
    then number (pos (decode_u16 bytes 0))
    else if size == 4
    then number (pos (decode_u32 bytes 0))
    else if marker == 0x70
    then air (parse_wh45 bytes)
    else if marker == 0x6B
    then air (parse_wh46 bytes)
    else raw bytes

-- The dict of a parse, in the order in which its markers came first.
abbrev pub Dict : Type 0
Dict = List (ℕ × Value)

unfoldable pub put : ℕ → Value → Dict → Dict
put marker v [] = (marker, v) ∷ []
put marker v ((m, w) ∷ rest) = if m == marker then (m, v) ∷ rest else (m, w) ∷ put marker v rest

-- What follows a marker of the size that is looked up: an unknown marker or truncated data ends the loop, and
-- `rest` goes on with it.
abbrev pub after_marker : (Bytes → Dict → Dict) → ℕ → Bytes → Dict → Option ℕ → Dict
after_marker rest marker bytes result none = result
after_marker rest marker bytes result (some size) =
    if ltb (length bytes) size
    then result
    else rest (drop size bytes) (put marker (decoded marker size (take size bytes)) result)

-- The loop over the bytes that are left.
unfoldable pub parse_from : ℕ → Bytes → Dict → Dict
unfolding decoded put marker_size
parse_from zero bytes result = result
parse_from (suc fuel) [] result = result
parse_from (suc fuel) (marker ∷ bytes) result =
    after_marker (parse_from fuel) marker bytes result (marker_size marker)

unfoldable pub parse_live_data : Bytes → Dict
unfolding parse_from
parse_live_data payload = parse_from (length payload) payload []
