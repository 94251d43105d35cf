-- ===== src/WeatherLink/Loop.antt =====
-- The poll of a legacy station: `build_loop_command` of backend/app/protocol/commands.py, and
-- `apply_calibration`, `_send_loop_once` and `poll_loop` of backend/app/protocol/link_driver.py.
pub mod Readings
pub mod Recovery
use kanfei.Prelude.{
  ℕ, ◌+◌, ◌-◌, ◌/◌, ◌%◌, Option, none, some, [], ◌∷◌, length, ltb, ℤ, pos, ltb_ℤ, ◌+ℤ◌, ◌*ℤ◌,
  if◌then◌else◌,
}
use mathlib.Core.Option
use kanfei.Bytes.{Bytes}
use kanfei.Floats.{Float, of_int, round_int, ◌⊘◌}
use kanfei.Units.{inhg_thousandths_to_hpa_tenths}
use kanfei.Vantage.Link.{Io, pure, raise, runtime_error, ◌>>=◌, ◌>>◌, send, receive, flush}
use kanfei.ArchiveSync.Records.{StationModel}
use kanfei.WeatherLink.Commands.{cr}
use kanfei.WeatherLink.Memory.{attempts, wait_for_ack, when_acked, retried}
use kanfei.WeatherLink.Calibration.{CalibrationOffsets}
use kanfei.WeatherLink.Packet.{SensorReading, loop_data_size, parse_loop_packet}

-- (65536 - n_packets) & 0xFFFF, for at most 65536 packets.
unfoldable pub build_loop_command : ℕ → Bytes
build_loop_command n_packets =
    let count = (65536 - n_packets) % 65536 in
    b'L' ∷ b'O' ∷ b'O' ∷ b'P' ∷ count % 256 ∷ count / 256 ∷ cr ∷ []

-- max(1, min(100, h))
unfoldable pub to_percent : ℤ → ℤ
to_percent h = if ltb_ℤ h (pos 1) then pos 1 else if ltb_ℤ (pos 100) h then pos 100 else h

module _ (F : Type 0) ⦃fl : Float F⦄ where
  -- round(offset * 5 / 9)
  abbrev pub temp_offset : ℤ → ℤ
  temp_offset offset = round_int {F = F} (of_int (offset *ℤ pos 5) ⊘ of_int (pos 9))

  unfoldable pub apply_calibration : CalibrationOffsets → SensorReading → SensorReading
  unfolding to_percent inhg_thousandths_to_hpa_tenths ◌+ℤ◌
  apply_calibration held reading = record reading {
    inside_temp = Option.map (λ t. t +ℤ temp_offset held.inside_temp) reading.inside_temp;
    outside_temp = Option.map (λ t. t +ℤ temp_offset held.outside_temp) reading.outside_temp;
    barometer =
        Option.map (λ b. b +ℤ inhg_thousandths_to_hpa_tenths F held.barometer) reading.barometer;
    outside_humidity =
        Option.map (λ h. to_percent (h +ℤ held.outside_hum)) reading.outside_humidity;
  }

  -- The bytes that answer LOOP.
  abbrev pub packet_of : StationModel → Bytes → Option SensorReading
  packet_of m raw =
      if ltb (length raw) (1 + loop_data_size m + 2) then none else parse_loop_packet F raw m

  unfoldable pub read_packet : StationModel → Io (Option SensorReading)
  unfolding receive
  read_packet m = receive (1 + loop_data_size m + 2) >>= λ raw. pure (packet_of m raw)

  unfoldable pub send_loop_once : StationModel → Io (Option SensorReading)
  unfolding flush send wait_for_ack read_packet build_loop_command
  send_loop_once m =
      flush >> send (build_loop_command 1) >> wait_for_ack >>= when_acked (read_packet m)

  -- The stop is looked at after a failed attempt too, where it ends the loop as the next look would.
  unfoldable pub poll_loop : Option StationModel → CalibrationOffsets → Io (Option SensorReading)
  unfolding retried send_loop_once apply_calibration
  poll_loop none held = raise runtime_error
  poll_loop (some m) held = retried (send_loop_once m) attempts >>= λ found.
      pure (Option.map (apply_calibration held) found)
