-- ===== src/Vantage/Stamp.antt =====
-- Date and time stamps of archive records: the decoders of backend/app/protocol/vantage/archive.py
-- and the encoder that backend/app/protocol/vantage/commands.py sends with DMPAFT.
pub mod Laws
use kanfei.Prelude.{
  ℕ, ◌+◌, ◌*◌, ◌/◌, ◌%◌, ◌≤◌, ◌<◌, ◌≡◌, refl, true, Option, none, some, ◌++◌, bit_and, arith, ℤ,
  pos, negsuc, sub_ℕ, leb, ltb, if◌then◌else◌,
}
use kanfei.Prelude.Masks.{mask4, mask5, mask7}
use kanfei.Bytes.{Bytes, byte_at, u16_at, pack_u16_le, pack_u16_be}
use kanfei.Calendar.{DateTime, make, is_valid, days_in_month}
use kanfei.Crc.{crc_calculate}

pub record YearMonthDay : Type 0 where
  pub year : ℕ
  pub month : ℕ
  pub day : ℕ

unfoldable pub decode_datestamp : ℕ → YearMonthDay
decode_datestamp raw = record {
  year = bit_and (raw / 512) 0x7F + 2000;
  month = bit_and (raw / 32) 0x0F;
  day = bit_and raw 0x1F;
}

-- (hour, minute)
unfoldable pub decode_timestamp : ℕ → ℕ × ℕ
decode_timestamp raw = (raw / 100, raw % 100)

-- The two decoded and handed to the `datetime` constructor.
unfoldable pub decode_stamps : ℕ → ℕ → Option DateTime
unfolding decode_datestamp decode_timestamp
decode_stamps date_raw time_raw =
    let d = decode_datestamp date_raw in
    let (h, m) = decode_timestamp time_raw in
    make (record { year = d.year; month = d.month; day = d.day; hour = h; minute = m })

-- The stamps that `build_dmpaft_timestamp` computes; the date may be negative.
unfoldable pub date_stamp : DateTime → ℤ
date_stamp t = sub_ℕ (t.day + t.month * 32 + t.year * 512) (2000 * 512)

unfoldable pub time_stamp : DateTime → ℕ
time_stamp t = t.hour * 100 + t.minute

infixl 5 ◌>>=◌
abbrev ◌>>=◌ : {A B : Type 0} → Option A → (A → Option B) → Option B
none >>= f = none
some a >>= f = f a

-- `none` is a `struct.error`.
unfoldable pub build_dmpaft_timestamp : DateTime → Option Bytes
unfolding date_stamp time_stamp
build_dmpaft_timestamp t = do
  date ← pack_u16_le (date_stamp t)
  clock ← pack_u16_le (pos (time_stamp t))
  crc ← pack_u16_be (crc_calculate (date ++ clock))
  some ((date ++ clock) ++ crc)
