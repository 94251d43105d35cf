-- ===== src/WeatherLink/Tests.antt =====
-- A legacy station with concrete answers.
use kanfei.Prelude.{
  ◌≡◌, refl, true, false, some, none, List, [], ◌∷◌, ◌++◌, ◌+◌, length, take, arith, ℤ, pos,
}
use kanfei.Bytes.{Bytes}
use kanfei.Calendar.{DateTime, is_valid}
use kanfei.Vantage.Sample.{whole, sealed, sealed_passes}
use kanfei.Vantage.Link.{ok}
use kanfei.Vantage.Transfer.{ack}
use kanfei.Vantage.Transfer.Recovery.{port}
use kanfei.Vantage.Eeprom.{data_of}
use kanfei.ArchiveSync.Records.{monitor, groweather}
use kanfei.WeatherLink.Commands.{build_srd_command}
use kanfei.WeatherLink.Memory.{read_archive}
use kanfei.WeatherLink.Memory.Retries.{Vain, unanswered, spoiled, in_vain}
use kanfei.WeatherLink.Memory.Archive.{Sound, read_archive-Sound, read_archive_recovers}
use kanfei.WeatherLink.Clock.{read_station_time, write_station_time, time_bytes, date_bytes}
use kanfei.WeatherLink.Clock.RoundTrip.{clock_commands, station_clock_round_trip}
use kanfei.WeatherLink.Calibration.{CalibrationOffsets}
use kanfei.WeatherLink.Packet.{loop_data_size, soh, parse_layout, to_si}
use kanfei.WeatherLink.Loop.{build_loop_command, apply_calibration, packet_of, poll_loop}
use kanfei.WeatherLink.Loop.Readings.{Calibrated, poll_loop-Calibrated}
use kanfei.WeatherLink.Loop.Recovery.{packet, poll_loop_recovers}
use kanfei.WeatherLink.Driver.{clear_daily, set_time, set_calibration, force, loop, perform_all}
use kanfei.WeatherLink.Driver.Keeps.{is_polled}
use kanfei.WeatherLink.Driver.Polled.{perform_all-is_polled}

abbrev page : Bytes
page = 10 ∷ 20 ∷ 30 ∷ 40 ∷ []

abbrev command : Bytes
command = b'S' ∷ b'R' ∷ b'D' ∷ 0 ∷ 2 ∷ 3 ∷ 0 ∷ 0x0D ∷ []

-- Nothing, then a short answer, then the page.
abbrev vain : List Vain
vain = unanswered [] ∷ spoiled (10 ∷ 20 ∷ []) ∷ []

command_built : build_srd_command 512 4 ≡ some command
unfolding build_srd_command
command_built = refl

page_arrives : data_of 4 (take 6 (sealed page)) ≡ some page
page_arrives = rw (sealed_passes page) refl

read_archive_recovers_example :
    read_archive 512 4 (port (in_vain vain ((ack ∷ [], false) ∷ (sealed page, false) ∷ [])) [])
    ≡ (ok (some page), port [] (command ∷ command ∷ command ∷ []))
read_archive_recovers_example =
    read_archive_recovers 512 4 command command_built vain (sealed page) page [] [] (omega arith)
      (refl, (refl, tt)) page_arrives

read_archive-Sound_example :
    Sound 4
      ((ack ∷ [], false) ∷ (sealed page, true) ∷ [])
      (read_archive 512 4 (port ((ack ∷ [], false) ∷ (sealed page, true) ∷ []) [])).0
read_archive-Sound_example =
    read_archive-Sound 512 4 (port ((ack ∷ [], false) ∷ (sealed page, true) ∷ []) [])

abbrev evening : DateTime
evening = record { year = 2026; month = 11; day = 27; hour = 18; minute = 45 }

evening_valid : is_valid evening ≡ true
unfolding is_valid
evening_valid = refl

-- The year is read as 2014.
station_clock_round_trip_example :
    (write_station_time (some groweather) evening 30 (
        port
          ((ack ∷ [], false) ∷ (ack ∷ [], false) ∷ (ack ∷ [], false) ∷ (ack ∷ [], false) ∷ [])
          [])
      ≡ (ok true, port [] (clock_commands evening evening_valid 30 (omega arith) true)))
    × ((read_station_time (some groweather) (
          port
            ((ack ∷ [], false)
              ∷ (time_bytes evening 30 ++ 1 ∷ 2 ∷ [], false)
              ∷ (ack ∷ [], false)
              ∷ (date_bytes true evening ++ 3 ∷ 4 ∷ [], false)
              ∷ [])
            [])).0
        ≡ ok (
            some (record {
              hour = 18;
              minute = 45;
              second = 30;
              day = 27;
              month = 11;
              year = some 2014;
            })))
station_clock_round_trip_example =
    station_clock_round_trip evening evening_valid 30 (omega arith) [] [] 1 2 3 4 groweather
      (omega arith) (omega arith)

abbrev offsets : CalibrationOffsets
offsets = record {
  inside_temp = pos 5;
  outside_temp = pos 0;
  barometer = pos 40000;
  outside_hum = pos 0;
  rain_clicks = pos 100;
}

-- An offset that does not fit raises between the STOP and the START.
perform_all-is_polled_example :
    is_polled true
      (perform_all ℤ
        (clear_daily
          ∷ set_calibration offsets offsets
          ∷ set_time (some monitor) evening 30
          ∷ force
          ∷ loop (some monitor) offsets
          ∷ [])
        (port ((ack ∷ [], false) ∷ []) [])).sent
    ≡ true
perform_all-is_polled_example =
    perform_all-is_polled ℤ
      (clear_daily
        ∷ set_calibration offsets offsets
        ∷ set_time (some monitor) evening 30
        ∷ force
        ∷ loop (some monitor) offsets
        ∷ [])
      (port ((ack ∷ [], false) ∷ []) []) refl

-- 72.0 degrees inside, 61.5 outside, 5 mph from 270 degrees, 29.920 inches, 45 and 80 percent, 12 clicks.
abbrev fields : Bytes
fields = 0xD0 ∷ 2 ∷ 103 ∷ 2 ∷ 5 ∷ 14 ∷ 1 ∷ 0xE0 ∷ 0x74 ∷ 45 ∷ 80 ∷ 12 ∷ 0 ∷ 0 ∷ 0 ∷ []

fields_size : length fields ≡ loop_data_size monitor
unfolding loop_data_size
fields_size = refl

-- Nothing, then a packet that is cut off.
short_packet : packet_of ℤ monitor (take (1 + loop_data_size monitor + 2) (soh ∷ 0xD0 ∷ [])) ≡ none
unfolding loop_data_size
short_packet = refl

poll_loop_recovers_example :
    poll_loop ℤ (some monitor) offsets (
      port
        (in_vain
          (unanswered [] ∷ spoiled (soh ∷ 0xD0 ∷ []) ∷ [])
          ((ack ∷ [], false) ∷ (packet fields, false) ∷ []))
        [])
    ≡ (
      ok (some (apply_calibration ℤ offsets (to_si ℤ (parse_layout monitor fields)))),
      port [] (build_loop_command 1 ∷ build_loop_command 1 ∷ build_loop_command 1 ∷ []),
    )
poll_loop_recovers_example =
    poll_loop_recovers ℤ monitor offsets (unanswered [] ∷ spoiled (soh ∷ 0xD0 ∷ []) ∷ []) fields []
      [] (omega arith) (refl, (short_packet, tt)) fields_size

poll_loop-Calibrated_example :
    Calibrated ℤ monitor
      ((ack ∷ [], false) ∷ (packet fields, true) ∷ [])
      offsets
      (poll_loop ℤ
        (some monitor)
        offsets
        (port ((ack ∷ [], false) ∷ (packet fields, true) ∷ []) [])).0
poll_loop-Calibrated_example =
    poll_loop-Calibrated ℤ monitor offsets
      (port ((ack ∷ [], false) ∷ (packet fields, true) ∷ []) [])
