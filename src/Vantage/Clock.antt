-- ===== src/Vantage/Clock.antt =====
-- The console's clock: `read_station_time` and `write_station_time` of
-- backend/app/protocol/vantage/driver.py, and `build_settime_payload` of
-- backend/app/protocol/vantage/commands.py.
pub mod RoundTrip
mod Tests
use kanfei.Prelude.{
  ℕ, ◌+◌, ◌-◌, Bool, true, false, ◌&&◌, Option, none, some, List, [], ◌∷◌, ◌++◌, length, ltb, leb,
  if◌then◌else◌,
}
use kanfei.Bytes.{Bytes, byte_at, pack_u16_be}
use kanfei.Crc.{crc_calculate, crc_validate}
use kanfei.Vantage.Link.{
  Io, pure, raise, ◌>>=◌, ◌>>◌, value_error, send, receive, receive_byte, flush, is_byte, wakeup,
}
use kanfei.Vantage.Transfer.{ack}
use kanfei.Vantage.Eeprom.{with_crc}

pub record StationTime : Type 0 where
  pub year : ℕ
  pub month : ℕ
  pub day : ℕ
  pub hour : ℕ
  pub minute : ℕ
  pub second : ℕ

-- b"GETTIME\n" and b"SETTIME\n"
abbrev pub cmd_gettime : Bytes
cmd_gettime = b'G' ∷ b'E' ∷ b'T' ∷ b'T' ∷ b'I' ∷ b'M' ∷ b'E' ∷ 0x0A ∷ []

abbrev pub cmd_settime : Bytes
cmd_settime = b'S' ∷ b'E' ∷ b'T' ∷ b'T' ∷ b'I' ∷ b'M' ∷ b'E' ∷ 0x0A ∷ []

-- The years whose distance from 1900 is a byte.
unfoldable pub has_byte_year : StationTime → Bool
has_byte_year t = leb 1900 t.year && ltb t.year 2156

abbrev pub clock_bytes : StationTime → Bytes
clock_bytes t = t.second ∷ t.minute ∷ t.hour ∷ t.day ∷ t.month ∷ (t.year - 1900) ∷ []

-- `none` is the ValueError of `bytes` at a year that does not fit; the other fields are those of a
-- datetime, so they fit.
unfoldable pub build_settime_payload : StationTime → Option Bytes
unfolding has_byte_year
build_settime_payload t = if has_byte_year t then with_crc (clock_bytes t) else none

abbrev pub station_time : Bytes → StationTime
station_time response = record {
  year = 1900 + byte_at response 5;
  month = byte_at response 4;
  day = byte_at response 3;
  hour = byte_at response 2;
  minute = byte_at response 1;
  second = byte_at response 0;
}

abbrev pub clock_of : Bytes → Option StationTime
clock_of response =
    if ltb (length response) 8
    then none
    else if crc_validate response
    then some (station_time response)
    else none

-- What follows the byte that answers GETTIME.
unfoldable pub after_gettime : Option ℕ → Io (Option StationTime)
unfolding receive
after_gettime answer =
    if is_byte ack answer then (receive 8 >>= λ response. pure (clock_of response)) else pure none

unfoldable pub read_station_time : Io (Option StationTime)
unfolding receive_byte after_gettime
read_station_time = do wakeup; flush; send cmd_gettime; answer ← receive_byte; after_gettime answer

-- Send the payload, and see whether the console takes it.
abbrev pub send_clock : Option Bytes → Io Bool
send_clock none = raise value_error
send_clock (some payload) =
    send payload >> (receive_byte >>= λ confirmation. pure (is_byte ack confirmation))

unfoldable pub write_station_time : StationTime → Io Bool
unfolding receive_byte build_settime_payload
write_station_time t = do
  wakeup
  flush
  send cmd_settime
  answer ← receive_byte
  if is_byte ack answer then send_clock (build_settime_payload t) else pure false
