-- ===== src/WeatherLink/Loop/Recovery.antt =====
-- `poll_loop` of backend/app/protocol/link_driver.py over a line that loses or damages answers.
use kanfei.Prelude.{
  ℕ, ◌+◌, ◌<◌, ◌≡◌, refl, sym, ap, ◌∙◌, Bool, true, false, Option, none, some, List, [], ◌∷◌, ◌++◌,
  arith, All, length, take, replicate, ltb, take_all, take-append, length-append,
}
use mathlib.Core.Option
use kanfei.Bytes.{Bytes, byte_at}
use kanfei.Floats.{Float}
use kanfei.Crc.{crc_validate}
use kanfei.Vantage.Link.{Port, ok, pure, ◌>>=◌, send, receive, receive_byte, flush, is_byte, first?}
use kanfei.Vantage.Sample.{sealed, sealed_passes}
use kanfei.Vantage.Transfer.{ack}
use kanfei.Vantage.Transfer.Recovery.{port}
use kanfei.ArchiveSync.Records.{StationModel}
use kanfei.WeatherLink.Memory.{attempts, wait_for_ack, when_acked}
use kanfei.WeatherLink.Memory.Retries.{
  Vain, unanswered, spoiled, one_vain, in_vain, retried_recovers,
}
use kanfei.WeatherLink.Calibration.{CalibrationOffsets}
use kanfei.WeatherLink.Packet.{
  SensorReading, loop_data_size, parse_layout, to_si, soh, parse_loop_packet,
}
use kanfei.WeatherLink.Loop.{
  build_loop_command, apply_calibration, packet_of, read_packet, send_loop_once, poll_loop,
}

-- A whole packet of these fields.
abbrev pub packet : Bytes → Bytes
packet fields = soh ∷ sealed fields

module _ (F : Type 0) ⦃fl : Float F⦄ (m : StationModel) where
  -- An attempt in vain got something else than an ACK, or bytes that are no packet of the model.
  abbrev pub IsVain : Vain → Type 0
  IsVain (unanswered bytes) = is_byte ack (first? (take 1 bytes)) ≡ false
  IsVain (spoiled wire) = packet_of F m (take (1 + loop_data_size m + 2) wire) ≡ none

  packet_of-packet :
      (fields : Bytes)
      → length fields ≡ loop_data_size m
      → packet_of F m (take (1 + loop_data_size m + 2) (packet fields))
        ≡ some (to_si F (parse_layout m fields))
  unfolding parse_loop_packet byte_at
  packet_of-packet fields size = rw (whole, long, passes, front) refl
    where
      sealed_size : length (sealed fields) ≡ loop_data_size m + 2
      sealed_size = length-append fields _ ∙ omega (arith, size)

      whole : take (1 + loop_data_size m + 2) (packet fields) ≡ packet fields
      whole = take_all (1 + loop_data_size m + 2) (packet fields) (omega (arith, sealed_size))

      long : ltb (length (packet fields)) (1 + loop_data_size m + 2) ≡ false
      long = ground (arith, sealed_size)

      passes : crc_validate (take (loop_data_size m + 2) (sealed fields)) ≡ true
      passes =
          ap crc_validate
            (take_all (loop_data_size m + 2) (sealed fields) (omega (arith, sealed_size)))
          ∙ sealed_passes fields

      front : take (loop_data_size m) (sealed fields) ≡ fields
      front = ap (λ (n : ℕ). take n (sealed fields)) (sym size) ∙ take-append fields _

  once_vain :
      (v : Vain) (rest : List (Bytes × Bool)) (sent : List Bytes)
      → IsVain v
      → send_loop_once F m (port (one_vain v rest) sent)
        ≡ (ok none, port rest (sent ++ build_loop_command 1 ∷ []))
  unfolding send_loop_once flush send wait_for_ack receive_byte receive read_packet
  once_vain (unanswered bytes) rest sent h =
      ap
        (λ (b : Bool).
          when_acked (read_packet F m) b (port rest (sent ++ build_loop_command 1 ∷ [])))
        h
  once_vain (spoiled wire) rest sent h =
      ap (λ (o : Option SensorReading). (ok o, port rest (sent ++ build_loop_command 1 ∷ []))) h

  once_good :
      (fields : Bytes)
      → length fields ≡ loop_data_size m
      → (rest : List (Bytes × Bool)) (sent : List Bytes)
      → send_loop_once F m (port ((ack ∷ [], false) ∷ (packet fields, false) ∷ rest) sent) ≡ (
        ok (some (to_si F (parse_layout m fields))),
        port rest (sent ++ build_loop_command 1 ∷ []),
      )
  unfolding send_loop_once flush send wait_for_ack receive_byte receive read_packet
  once_good fields size rest sent =
      ap (λ (o : Option SensorReading). (ok o, port rest (sent ++ build_loop_command 1 ∷ [])))
        (packet_of-packet fields size)

  -- With no stop requested: after at most two attempts in vain, each of which got no ACK or no packet, an
  -- attempt that is acknowledged and gets a packet of the model's fields ends the poll with the reading of
  -- those fields, converted and calibrated; LOOP was sent once for each attempt.
  pub poll_loop_recovers :
      (held : CalibrationOffsets) (vs : List Vain) (fields : Bytes) (rest : List (Bytes × Bool))
      (sent : List Bytes)
      → length vs < attempts
      → All IsVain vs
      → length fields ≡ loop_data_size m
      → poll_loop F
          (some m)
          held
          (port (in_vain vs ((ack ∷ [], false) ∷ (packet fields, false) ∷ rest)) sent)
        ≡ (
          ok (some (apply_calibration F held (to_si F (parse_layout m fields)))),
          port rest (sent ++ build_loop_command 1 ∷ replicate (length vs) (build_loop_command 1)),
        )
  unfolding poll_loop
  poll_loop_recovers held vs fields rest sent few vain size =
      ap
        (λ (r : _).
          ((λ (_ : Port). r) >>= λ found. pure (Option.map (apply_calibration F held) found))
            (port [] []))
        (retried_recovers (send_loop_once F m) (build_loop_command 1) IsVain once_vain
          (packet fields) (to_si F (parse_layout m fields)) (once_good fields size) attempts vs rest
          sent few vain)
