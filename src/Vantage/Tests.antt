-- ===== src/Vantage/Tests.antt =====
-- The Vantage protocol at concrete bytes.
use kanfei.Prelude.{
  ◌≤◌, ◌≡◌, ◌↔◌, refl, true, some, [], ◌∷◌, ◌++◌, arith, ℤ, pos, replicate, length, take, drop,
}
use kanfei.Vantage.Sample.{whole, sealed, sealed_passes}
use kanfei.Bytes.{Bytes, byte_at, u16_at}
use kanfei.Calendar.{DateTime, make, is_valid}
use kanfei.Crc.{crc_validate}
use kanfei.Vantage.Stamp.{build_dmpaft_timestamp, decode_stamps, date_stamp, time_stamp}
use kanfei.Vantage.Stamp.Laws.{build_dmpaft_timestamp-decode}
use kanfei.Vantage.Archive.{ArchiveRecord, parse_archive_record, parse_archive_page, fill_record}
use kanfei.Vantage.Archive.Exact.{parse_archive_record_iff}
use kanfei.Vantage.Archive.Pages.{numbers, bodies, AllSized, parse_archive_page_tiles}
use kanfei.Vantage.Link.{ok}
use kanfei.Vantage.Transfer.{dmpaft}
use kanfei.Vantage.Transfer.Recovery.{port, Delivery, IsTolerable, on_the_line, answers, records_of}
use kanfei.Vantage.Transfer.Session.{greeting, opening_lines, dmpaft_recovers}

abbrev noon : DateTime
noon = record { year = 2026; month = 2; day = 28; hour = 12; minute = 30 }

build_dmpaft_timestamp-decode_example :
    (message : Bytes) × (build_dmpaft_timestamp noon ≡ some message)
    × (length message ≡ 6)
    × (crc_validate message ≡ true)
    × (decode_stamps (u16_at message 0) (u16_at message 2) ≡ some noon)
unfolding is_valid
build_dmpaft_timestamp-decode_example =
    build_dmpaft_timestamp-decode noon refl (omega arith) (omega arith)

-- A record of revision B: 28 February 2026, 12:30, 65.2 °F, no rain, 29.916 inHg.
abbrev one_record : Bytes
one_record =
    92 ∷ 52 ∷ 206 ∷ 4 ∷ 140 ∷ 2 ∷ 150 ∷ 2 ∷ 130 ∷ 2 ∷ 0 ∷ 0 ∷ 0 ∷ 0 ∷ 220 ∷ 116 ∷ 100 ∷ 0 ∷ 23 ∷ 0
    ∷ 188 ∷ 2 ∷ 45 ∷ 60 ∷ 3 ∷ 9 ∷ 4 ∷ 255 ∷ 12 ∷ 2 ∷ 120 ∷ 0 ∷ 14 ∷ 8 ∷ 255 ∷ 255 ∷ 255 ∷ 255 ∷ 255
    ∷ 255 ∷ 255 ∷ 255 ∷ 0 ∷ 255 ∷ 255 ∷ 255 ∷ 255 ∷ 255 ∷ 255 ∷ 255 ∷ 255 ∷ 255 ∷ []

parse_archive_record_iff_example :
    ((rec : ArchiveRecord ℤ) × (parse_archive_record one_record (pos 1) ≡ some rec)
      × (rec.timestamp ≡ noon))
    ↔ ((52 ≤ length one_record)
        × (is_valid noon ≡ true)
        × (date_stamp noon ≡ pos (u16_at one_record 0))
        × (time_stamp noon ≡ u16_at one_record 2))
parse_archive_record_iff_example = parse_archive_record_iff one_record (pos 1) noon (omega arith)

parsed_record : parse_archive_record one_record (pos 1) ≡ some (fill_record (pos 1) one_record noon)
unfolding parse_archive_record u16_at decode_stamps is_valid byte_at make
parsed_record = refl

-- A page with one record in its first slot.
abbrev page : Bytes
page = sealed (0 ∷ one_record ++ replicate 212 0)

page_passes : crc_validate (take 267 page) ≡ true
page_passes = sealed_passes (0 ∷ one_record ++ replicate 212 0)

parse_archive_page_tiles_example :
    (numbers (parse_archive_page page) ≡ 0 ∷ 1 ∷ 2 ∷ 3 ∷ 4 ∷ [])
    × AllSized (parse_archive_page page)
    × (take 1 page ++ (bodies (parse_archive_page page) ++ drop 261 page) ≡ page)
parse_archive_page_tiles_example = parse_archive_page_tiles page (omega arith) page_passes

-- One read in vain, then the page.
abbrev delivery : Delivery
delivery = record { bad = [] ∷ []; wire = page }

delivery-IsTolerable : IsTolerable delivery
delivery-IsTolerable = record { few = omega arith; refused = (refl, tt); arrives = page_passes }

abbrev header : Bytes
header = sealed (1 ∷ 0 ∷ 0 ∷ 0 ∷ [])

dmpaft_recovers_example :
    (payload : Bytes) × (dmpaft
        (pos 1)
        noon
        (port (greeting header (on_the_line (delivery ∷ []) ++ [])) [])
      ≡ (
        ok (records_of (pos 1) 0 (some noon) 0 (delivery ∷ [])),
        port [] (opening_lines (pos 1) noon payload header ++ answers (delivery ∷ [])),
      ))
unfolding is_valid u16_at byte_at
dmpaft_recovers_example =
    let sent = build_dmpaft_timestamp-decode noon refl (omega arith) (omega arith) in
    (
      sent.0,
      dmpaft_recovers (pos 1) noon sent.0 header (delivery ∷ []) [] [] sent.1 refl
          (sealed_passes (1 ∷ 0 ∷ 0 ∷ 0 ∷ [])) refl (omega arith) (delivery-IsTolerable, tt),
    )
