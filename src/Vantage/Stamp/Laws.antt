-- ===== src/Vantage/Stamp/Laws.antt =====
-- The stamps that the logger sends are those that the archive decoder reads.
use kanfei.Prelude.{
  ℕ, ◌+◌, ◌-◌, ◌*◌, ◌/◌, ◌%◌, ◌≤◌, ◌<◌, ◌≡◌, ◌⊎◌, refl, Bool, true, none, some, [], ◌∷◌, ◌++◌,
  bit_and, arith, pos, if◌then◌else◌, length, ap, ◌∙◌, subst, lt→ltb,
}
use kanfei.Prelude.Masks.{mask4, mask5, mask7}
use kanfei.Bytes.{Bytes, byte_at, u16_at, pack_u16_le, pack_u16_be}
use kanfei.Calendar.{DateTime, make, is_valid, days_in_month}
use kanfei.Crc.{crc_calculate, crc_validate}
use kanfei.Crc.Append.{crc_calculate-lt, crc_validate_iff_trailer}
use kanfei.Vantage.Stamp.{decode_stamps, date_stamp, time_stamp, build_dmpaft_timestamp}

pub days_in_month-le : (y m : ℕ) → days_in_month y m ≤ 31
unfolding days_in_month
days_in_month-le y m = ground arith

-- What the constructor accepts, as bounds.
pub record InBounds (t : DateTime) : Type 0 where
  pub months : t.month ≤ 12
  pub days : t.day ≤ 31
  pub hours : t.hour < 24
  pub minutes : t.minute < 60

pub is_valid-InBounds : (t : DateTime) → is_valid t ≡ true → InBounds t
unfolding is_valid
is_valid-InBounds t h = ground (arith, days_in_month-le t.year t.month)

-- The date stamp as a number, for a year from 2000 on.
abbrev pub date : DateTime → ℕ
date t = t.day + t.month * 32 + (t.year - 2000) * 512

module _ (t : DateTime) (valid : is_valid t ≡ true) (from : 2000 ≤ t.year)
    (to : t.year ≤ 2127) where
  date-lt : (date t) < 65536
  date-lt = omega (arith, is_valid-InBounds t valid)

  time-lt : time_stamp t < 65536
  unfolding time_stamp
  time-lt = omega (arith, is_valid-InBounds t valid)

  date_stamp-eq : date_stamp t ≡ pos (date t)
  unfolding date_stamp
  date_stamp-eq = ground arith

  fields_back :
      (record {
        year = bit_and ((date t) / 512) 0x7F + 2000;
        month = bit_and ((date t) / 32) 0x0F;
        day = bit_and (date t) 0x1F;
        hour = time_stamp t / 100;
        minute = time_stamp t % 100;
      })
      ≡ t
  unfolding time_stamp
  fields_back = ground (
    arith,
    is_valid-InBounds t valid,
    mask7 ((date t) / 512),
    mask4 ((date t) / 32),
    mask5 (date t),
  )

  pub decode-stamps : decode_stamps (date t) (time_stamp t) ≡ some t
  unfolding decode_stamps make
  decode-stamps = ap make fields_back ∙ ap (λ (b : Bool). if b then some t else none) valid

  -- The six bytes: two stamps, low byte first, and their checksum, high byte first.
  stamps : Bytes
  stamps = (date t) % 256 ∷ (date t) / 256 ∷ time_stamp t % 256 ∷ time_stamp t / 256 ∷ []

  checksum : ℕ
  checksum = crc_calculate stamps

  checksum-lt : checksum < 65536
  unfolding checksum
  checksum-lt = crc_calculate-lt stamps

  payload : Bytes
  payload = stamps ++ checksum / 256 ∷ checksum % 256 ∷ []

  build-eq-payload : build_dmpaft_timestamp t ≡ some payload
  unfolding build_dmpaft_timestamp pack_u16_le pack_u16_be payload checksum stamps
  build-eq-payload =
      rw (date_stamp-eq, lt→ltb _ _ date-lt, lt→ltb _ _ time-lt, lt→ltb _ _ checksum-lt)

  payload-checked : crc_validate payload ≡ true
  unfolding payload
  payload-checked =
      (crc_validate_iff_trailer stamps (checksum / 256) (checksum % 256)
          (omega (arith, checksum-lt)) (omega arith)).1
        (unfold checksum in omega arith)

  payload-read : decode_stamps (u16_at payload 0) (u16_at payload 2) ≡ some t
  unfolding payload stamps u16_at byte_at
  payload-read =
      subst (λ (n : ℕ). decode_stamps n (time_stamp t % 256 + time_stamp t / 256 * 256) ≡ some t)
        (omega arith)
        (subst (λ (n : ℕ). decode_stamps (date t) n ≡ some t) (omega arith) decode-stamps)

  -- For every existing minute from 2000 to 2127 `build_dmpaft_timestamp` gives six bytes that pass
  -- the checksum, and whose two stamps the archive decoder reads as that minute.
  pub build_dmpaft_timestamp-decode :
      (message : Bytes) × (build_dmpaft_timestamp t ≡ some message)
      × (length message ≡ 6)
      × (crc_validate message ≡ true)
      × (decode_stamps (u16_at message 0) (u16_at message 2) ≡ some t)
  unfolding payload stamps
  build_dmpaft_timestamp-decode = (payload, build-eq-payload, refl, payload-checked, payload-read)

-- Any other year is refused: a stamp does not fit its 16 bits.
build_dmpaft_timestamp_range :
    (t : DateTime)
    → is_valid t ≡ true
    → (t.year < 2000) ⊎ (2127 < t.year)
    → build_dmpaft_timestamp t ≡ none
unfolding build_dmpaft_timestamp date_stamp pack_u16_le
build_dmpaft_timestamp_range t valid outside = ground (arith, is_valid-InBounds t valid)
