-- ===== src/WeatherLink/Clock.antt =====
-- The clock of a legacy station: `read_station_time` and `write_station_time` of
-- backend/app/protocol/link_driver.py.
pub mod RoundTrip
use kanfei.Prelude.{
  ℕ, ◌+◌, ◌*◌, ◌/◌, ◌%◌, Bool, true, false, ◌&&◌, Option, none, some, List, [], ◌∷◌, length, leb,
  bit_and, bit_or, sub_ℕ, if◌then◌else◌,
}
use kanfei.Bytes.{Bytes, byte_at, low_byte}
use kanfei.Calendar.{DateTime}
use kanfei.Vantage.Link.{Io, pure, raise, ◌>>=◌, ◌>>◌}
use kanfei.ArchiveSync.Stamp.{bcd_decode, bcd_encode}
use kanfei.ArchiveSync.Records.{StationModel}
use kanfei.WeatherLink.Commands.{MemAddr, basic_time, basic_date, gro_time, gro_date}
use kanfei.WeatherLink.Memory.{read_station_memory, write_station_memory}
use kanfei.WeatherLink.Registers.{is_gro, long_enough, when_there, while_stopped}

pub record StationTime : Type 0 where
  pub hour : ℕ
  pub minute : ℕ
  pub second : ℕ
  pub day : ℕ
  pub month : ℕ
  pub year : Option ℕ

abbrev pub time_addr : Bool → MemAddr
time_addr gro = if gro then gro_time else basic_time

abbrev pub date_addr : Bool → MemAddr
date_addr gro = if gro then gro_date else basic_date

abbrev pub date_nibbles : Bool → ℕ
date_nibbles gro = if gro then 5 else 3

-- 1900 + ((date_data[2] & 0x0F) << 4) | (date_data[1] >> 4), where the sum is taken first
unfoldable pub year_at : Bytes → ℕ
year_at date_data =
    bit_or (1900 + bit_and (byte_at date_data 2) 0x0F * 16) (byte_at date_data 1 / 16)

unfoldable pub station_time : Bool → Bytes → Bytes → StationTime
unfolding bcd_decode year_at
station_time gro time_data date_data = record {
  hour = bcd_decode (byte_at time_data 0);
  minute = bcd_decode (byte_at time_data 1);
  second = bcd_decode (byte_at time_data 2);
  day = bcd_decode (byte_at date_data 0);
  month = bit_and (byte_at date_data 1) 0x0F;
  year = if gro && leb 3 (length date_data) then some (year_at date_data) else none;
}

abbrev pub read_clock : Bool → Io (Option StationTime)
read_clock gro =
    read_station_memory (time_addr gro).bank (time_addr gro).address (time_addr gro).nibbles
    >>= λ t.
        when_there
          (λ time_data.
            read_station_memory (date_addr gro).bank (date_addr gro).address (date_nibbles gro)
            >>= λ d.
                when_there (λ date_data. pure (some (station_time gro time_data date_data)))
                  (long_enough 2 d))
          (long_enough 3 t)

unfoldable pub read_station_time : Option StationModel → Io (Option StationTime)
unfolding read_station_memory
read_station_time none = pure none
read_station_time (some m) = read_clock (is_gro m)

unfoldable pub time_bytes : DateTime → ℕ → Bytes
unfolding bcd_encode
time_bytes dt second = bcd_encode dt.hour ∷ bcd_encode dt.minute ∷ bcd_encode second ∷ []

unfoldable pub date_bytes : Bool → DateTime → Bytes
unfolding bcd_encode
date_bytes gro dt =
    let yr = low_byte (sub_ℕ dt.year 1900) in
    if gro
    then bcd_encode dt.day
      ∷ bit_or (bit_and yr 0x0F * 16) (bit_and dt.month 0x0F)
      ∷ bit_and (yr / 16) 0x0F
      ∷ []
    else bcd_encode dt.day ∷ bit_and dt.month 0x0F ∷ []

-- Both writes are tried, whatever the first gives.
abbrev pub write_clock : Bool → DateTime → ℕ → Io Bool
write_clock gro dt second =
    write_station_memory (time_addr gro).bank (time_addr gro).address 6 (time_bytes dt second)
    >>= λ ok_time.
        write_station_memory (date_addr gro).bank (date_addr gro).address (date_nibbles gro)
          (date_bytes gro dt)
        >>= λ ok_date. pure (ok_time && ok_date)

-- `dt` has the minute, and `second` the rest of the time.
unfoldable pub write_station_time : Option StationModel → DateTime → ℕ → Io Bool
unfolding while_stopped write_station_memory time_bytes date_bytes
write_station_time none dt second = pure false
write_station_time (some m) dt second = while_stopped (write_clock (is_gro m) dt second)
