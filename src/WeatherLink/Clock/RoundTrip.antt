-- ===== src/WeatherLink/Clock/RoundTrip.antt =====
-- A clock of a legacy station that is set and read back.
use kanfei.Prelude.{
  ℕ, ◌+◌, ◌-◌, ◌*◌, ◌/◌, ◌%◌, ◌≤◌, ◌<◌, ◌≡◌, refl, ap, ap₂, ◌∙◌, Bool, true, false, ◌&&◌, none,
  some, List, [], ◌∷◌, ◌++◌, arith, append_assoc, bit_and, bit_or, all_below, all_below_sound,
  ==_iff, ◌==◌, if◌then◌else◌, sub_ℕ,
}
use kanfei.Prelude.Masks.{mask4}
use kanfei.Bytes.{Bytes, byte_at, low_byte}
use kanfei.Calendar.{DateTime, is_valid}
use kanfei.Vantage.Stamp.Laws.{InBounds, is_valid-InBounds}
use kanfei.Vantage.Link.{ok}
use kanfei.Vantage.Transfer.{ack}
use kanfei.Vantage.Transfer.Recovery.{port}
use kanfei.ArchiveSync.Stamp.{bcd_encode}
use kanfei.ArchiveSync.Stamp.Laws.{bcd_decode-encode}
use kanfei.ArchiveSync.Records.{StationModel}
use kanfei.WeatherLink.Commands.{build_stop_command, build_start_command, build_wwr_command}
use kanfei.WeatherLink.Memory.{read_station_memory, write_station_memory}
use kanfei.WeatherLink.Registers.{is_gro, while_stopped}
use kanfei.WeatherLink.Clock.{
  StationTime, read_clock, write_clock, year_at, station_time, read_station_time, time_bytes,
  date_bytes, write_station_time,
}

-- The year that is read where `y` was written: the low nibble of the year loses the bits that 1900 has too.
abbrev pub year_read : ℕ → ℕ
year_read y = y - (y - 1900) % 16 + (y - 1900) % 4

and_true : (x y : Bool) → (x && y) ≡ true → (x ≡ true) × (y ≡ true)
and_true true true e = (refl, refl)
and_true true false e = cc
and_true false y e = cc

abbrev splits : ℕ → ℕ → Bool
splits a b = (bit_or (a * 16) b / 16 == a) && (bit_and (bit_or (a * 16) b) 0x0F == b)

two_nibbles :
    (a b : ℕ)
    → a < 16
    → b < 16
    → (bit_or (a * 16) b / 16 ≡ a) × (bit_and (bit_or (a * 16) b) 0x0F ≡ b)
unfolding all_below
two_nibbles a b h k =
    let row : all_below 16 (splits a) ≡ true =
      all_below_sound 16 (λ a. all_below 16 (splits a)) refl a h in
    let both = and_true _ _ (all_below_sound 16 (splits a) row b k) in
    ((==_iff _ _).0 both.0, (==_iff _ _).0 both.1)

year_or :
    (yr : ℕ)
    → yr < 256
    → bit_or (1900 + bit_and (bit_and (yr / 16) 0x0F) 0x0F * 16) (bit_and yr 0x0F)
      ≡ 1900 + yr - yr % 16 + yr % 4
unfolding all_below
year_or yr h = (==_iff _ _).0 (
    all_below_sound 256
      (λ yr.
        bit_or (1900 + bit_and (bit_and (yr / 16) 0x0F) 0x0F * 16) (bit_and yr 0x0F)
        == 1900 + yr - yr % 16 + yr % 4)
      refl yr h)

regroup :
    (xs : List Bytes) (a b c d : Bytes)
    → (((xs ++ a ∷ []) ++ b ∷ []) ++ c ∷ []) ++ d ∷ [] ≡ xs ++ a ∷ b ∷ c ∷ d ∷ []
regroup xs a b c d = simp append_assoc refl

module _ (dt : DateTime) (valid : is_valid dt ≡ true) (second : ℕ) (short : second < 60) where
  bounds : InBounds dt
  bounds = is_valid-InBounds dt valid

  -- What is read where `dt` was written.
  abbrev pub clock_read : Bool → StationTime
  clock_read gro = record {
    hour = dt.hour;
    minute = dt.minute;
    second = second;
    day = dt.day;
    month = dt.month;
    year = if gro then some (year_read dt.year) else none;
  }

  low_year : 1900 ≤ dt.year → dt.year < 2156 → low_byte (sub_ℕ dt.year 1900) ≡ dt.year - 1900
  unfolding low_byte
  low_year from to = ground (arith, from, to)

  month_nibble : bit_and dt.month 0x0F ≡ dt.month
  month_nibble = mask4 dt.month ∙ omega (arith, bounds)

  station_time-basic :
      station_time false (time_bytes dt second) (date_bytes false dt) ≡ clock_read false
  unfolding station_time time_bytes date_bytes byte_at
  station_time-basic =
      rw
        (
          bcd_decode-encode dt.hour (omega (arith, bounds)),
          bcd_decode-encode dt.minute (omega (arith, bounds)),
          bcd_decode-encode second (omega (arith, short)),
          bcd_decode-encode dt.day (omega (arith, bounds)),
          month_nibble,
          month_nibble,
        )
        refl

  abbrev gro_date_bytes : ℕ → Bytes
  gro_date_bytes yr =
      bcd_encode dt.day
      ∷ bit_or (bit_and yr 0x0F * 16) (bit_and dt.month 0x0F)
      ∷ bit_and (yr / 16) 0x0F
      ∷ []

  year_at-gro : (yr : ℕ) → yr < 256 → year_at (gro_date_bytes yr) ≡ 1900 + yr - yr % 16 + yr % 4
  unfolding year_at byte_at
  year_at-gro yr small =
      ap (λ (n : ℕ). bit_or (1900 + bit_and (bit_and (yr / 16) 0x0F) 0x0F * 16) n)
        (two_nibbles (bit_and yr 0x0F) (bit_and dt.month 0x0F) (omega (arith, mask4 yr))
          (omega (arith, mask4 dt.month))).0
      ∙ year_or yr small

  month-gro : (yr : ℕ) → bit_and (byte_at (gro_date_bytes yr) 1) 0x0F ≡ dt.month
  unfolding byte_at
  month-gro yr =
      (two_nibbles (bit_and yr 0x0F) (bit_and dt.month 0x0F) (omega (arith, mask4 yr))
        (omega (arith, mask4 dt.month))).1
      ∙ month_nibble

  station_time-gro :
      1900 ≤ dt.year
      → dt.year < 2156
      → station_time true (time_bytes dt second) (date_bytes true dt) ≡ clock_read true
  unfolding station_time time_bytes date_bytes
  station_time-gro from to = rw (low_year from to) (
      unfold byte_at in
      rw
        (
          bcd_decode-encode dt.hour (omega (arith, bounds)),
          bcd_decode-encode dt.minute (omega (arith, bounds)),
          bcd_decode-encode second (omega (arith, short)),
          bcd_decode-encode dt.day (omega (arith, bounds)),
        )
        (ap₂ (λ (m y : ℕ). record (clock_read true) { month = m; year = some y })
          (month-gro (dt.year - 1900))
          (year_at-gro (dt.year - 1900) (omega (arith, to)) ∙ omega (arith, from))))

  station_time-written :
      (gro : Bool)
      → 1900 ≤ dt.year
      → dt.year < 2156
      → station_time gro (time_bytes dt second) (date_bytes gro dt) ≡ clock_read gro
  station_time-written true from to = station_time-gro from to
  station_time-written false from to = station_time-basic

  -- What is sent to set the clock.
  abbrev pub clock_commands : Bool → List Bytes
  clock_commands gro =
      build_stop_command
      ∷ build_wwr_command 6 1 (if gro then 0x94 else 0xBE) (time_bytes dt second)
      ∷ build_wwr_command (if gro then 5 else 3) 1 (if gro then 0x9E else 0xC8) (date_bytes gro dt)
      ∷ build_start_command
      ∷ []

  module _ (sent : List Bytes) (later : List (Bytes × Bool)) where
    abbrev pub acked : Bytes × Bool
    acked = (ack ∷ [], false)

    write_clock-acked :
        (gro : Bool)
        → while_stopped
            (write_clock gro dt second)
            (port (acked ∷ acked ∷ acked ∷ acked ∷ later) sent)
          ≡ (ok true, port later (sent ++ clock_commands gro))
    unfolding while_stopped write_station_memory acked
    write_clock-acked true =
        ap (λ (lines : List Bytes). (ok true, port later lines)) (regroup sent _ _ _ _)
    write_clock-acked false =
        ap (λ (lines : List Bytes). (ok true, port later lines)) (regroup sent _ _ _ _)

    module _ (a b c d : ℕ) where
      read_clock-answered :
          (gro : Bool)
          → (read_clock gro (
              port
                (acked
                  ∷ (time_bytes dt second ++ a ∷ b ∷ [], false)
                  ∷ acked
                  ∷ (date_bytes gro dt ++ c ∷ d ∷ [], false)
                  ∷ later)
                sent)).0
            ≡ ok (some (station_time gro (time_bytes dt second) (date_bytes gro dt)))
      unfolding read_station_memory acked time_bytes date_bytes
      read_clock-answered true = refl
      read_clock-answered false = refl

      -- For a detected station, an existing minute of 1900 to 2155 and a second below 60, with no stop
      -- requested: when each command is acknowledged, the clock is written between a STOP and a START,
      -- and `write_station_time` returns True; when a read then gives back the bytes that were written,
      -- whatever checksums follow them, it returns that time and date, without a year for the models that
      -- keep none, and for the others with the year less the bits that its last nibble shares with 1900.
      pub station_clock_round_trip :
          (m : StationModel)
          → 1900 ≤ dt.year
          → dt.year < 2156
          → (write_station_time
                (some m)
                dt
                second
                (port (acked ∷ acked ∷ acked ∷ acked ∷ later) sent)
              ≡ (ok true, port later (sent ++ clock_commands (is_gro m))))
            × ((read_station_time (some m) (
                  port
                    (acked
                      ∷ (time_bytes dt second ++ a ∷ b ∷ [], false)
                      ∷ acked
                      ∷ (date_bytes (is_gro m) dt ++ c ∷ d ∷ [], false)
                      ∷ later)
                    sent)).0
                ≡ ok (some (clock_read (is_gro m))))
      unfolding write_station_time read_station_time
      station_clock_round_trip m from to = (
        write_clock-acked (is_gro m),
        read_clock-answered (is_gro m)
            ∙ ap (λ (t : StationTime). ok (some t)) (station_time-written (is_gro m) from to),
      )
