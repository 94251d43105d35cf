-- ===== src/ArchiveSync/Stamp.antt =====
-- Stamps of the WeatherLink archive: `_decode_archive_timestamp` of
-- backend/app/services/archive_sync.py, `bcd_decode` and `_bcd_encode` of
-- backend/app/protocol/link_driver.py. The time at which it runs is the argument `now`, to the minute:
-- a stamp has no seconds, so it is after `now` exactly when it is after that minute.
pub mod Laws
use kanfei.Prelude.{
  ℕ, ◌+◌, ◌-◌, ◌*◌, ◌/◌, ◌%◌, Bool, ◌||◌, Option, none, some, bit_and, bit_or, ltb, length,
  if◌then◌else◌,
}
use kanfei.Bytes.{Bytes, byte_at}
use kanfei.Calendar.{DateTime, make, before_or_at}

unfoldable pub bcd_decode : ℕ → ℕ
bcd_decode b = b / 16 * 10 + bit_and b 0x0F

unfoldable pub bcd_encode : ℕ → ℕ
bcd_encode val = bit_or (val / 10 * 16) (val % 10)

-- The four bytes, with the year of `now`.
unfoldable pub stamp_at : ℕ → Bytes → ℕ → DateTime
unfolding bcd_decode
stamp_at year raw offset = record {
  year = year;
  month = bit_and (byte_at raw (offset + 3)) 0x0F;
  day = bcd_decode (byte_at raw (offset + 2));
  hour = bcd_decode (byte_at raw offset);
  minute = bcd_decode (byte_at raw (offset + 1));
}

unfoldable pub is_out_of_range : DateTime → Bool
is_out_of_range t =
    ltb 23 t.hour
    || ltb 59 t.minute
    || ltb t.day 1
    || ltb 31 t.day
    || ltb t.month 1
    || ltb 12 t.month

-- A date in the future is taken for one of last year.
abbrev pub unless_future : DateTime → Option DateTime → Option DateTime
unless_future now none = none
unless_future now (some dt) =
    if before_or_at dt now then some dt else make (record dt { year = dt.year - 1 })

unfoldable pub infer_year : DateTime → DateTime → Option DateTime
unfolding is_out_of_range
infer_year now t = if is_out_of_range t then none else unless_future now (make t)

unfoldable pub decode_archive_timestamp : DateTime → Bytes → ℕ → Option DateTime
unfolding infer_year stamp_at
decode_archive_timestamp now raw offset =
    if ltb (length raw) (offset + 4) then none else infer_year now (stamp_at now.year raw offset)
