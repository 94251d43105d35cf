-- ===== src/WeatherLink/Loop/Readings.antt =====
-- What `poll_loop` of backend/app/protocol/link_driver.py gives back, over a quiet and over a noisy line.
use kanfei.Prelude.{
  ℕ, suc, List, [], ◌∷◌, ◌++◌, subst, ◌⊎◌, lt→ltb, ==_iff, ◌+◌, ◌≤◌, ◌≡◌, refl, ap, ◌∙◌, Bool, true,
  false, Option, none, some, arith, Each, length, take, drop, ltb, ◌==◌, Bool-cases, inl, inr,
  length-take, length-drop, take-append-drop, take_all, sym,
}
use mathlib.Core.Option
use kanfei.Bytes.{Bytes, byte_at}
use kanfei.Floats.{Float}
use kanfei.Crc.{crc_validate}
use kanfei.Vantage.Link.{
  Port, Outcome, ok, raised, Io, pure, ◌>>=◌, send, receive, receive_byte, flush, next_read,
}
use kanfei.Vantage.Eeprom.Checked.{next_read-le, next_read-given}
use kanfei.Vantage.Link.Delivered.{Delivers, Within, Gives, later_reads-Delivers}
use kanfei.ArchiveSync.Records.{StationModel}
use kanfei.WeatherLink.Memory.{attempts, wait_for_ack, retried, when_acked}
use kanfei.WeatherLink.Memory.Retries.{Settled, retried-Settled}
use kanfei.WeatherLink.Calibration.{CalibrationOffsets}
use kanfei.WeatherLink.Packet.{
  SensorReading, loop_data_size, parse_layout, to_si, soh, parse_loop_packet,
}
use kanfei.WeatherLink.Loop.{apply_calibration, packet_of, read_packet, send_loop_once, poll_loop}

-- As many bytes as the packets of the model have fields, which some read gave with a SOH before them and
-- with two bytes behind them that make them pass the checksum.
pub record IsPacket (m : StationModel) (inbox : List (Bytes × Bool)) (bytes : Bytes) : Type 0 where
  pub whole : length bytes ≡ loop_data_size m
  pub trailer : Bytes
  pub two : length trailer ≡ 2
  pub passes : crc_validate (bytes ++ trailer) ≡ true
  pub delivered : Delivers (1 + loop_data_size m + 2) inbox (soh ∷ (bytes ++ trailer))

module _ (F : Type 0) ⦃fl : Float F⦄ (m : StationModel) (inbox : List (Bytes × Bool)) where
  abbrev total : ℕ
  total = 1 + loop_data_size m + 2

  -- The reading of a packet.
  abbrev pub IsMeasured : SensorReading → Type 0
  IsMeasured r = (bytes : Bytes) × IsPacket m inbox bytes × (r ≡ to_si F (parse_layout m bytes))

  fields-IsPacket :
      (raw : Bytes)
      → length raw ≡ loop_data_size m + 2
      → crc_validate (take (loop_data_size m + 2) raw) ≡ true
      → Delivers total inbox (soh ∷ raw)
      → IsPacket m inbox (take (loop_data_size m) raw)
  fields-IsPacket raw size good given = record {
    whole = length-take (loop_data_size m) raw ∙ omega (arith, size);
    trailer = drop (loop_data_size m) raw;
    two = length-drop (loop_data_size m) raw ∙ omega (arith, size);
    passes =
        ap crc_validate (
          take-append-drop (loop_data_size m) raw
          ∙ sym (take_all (loop_data_size m + 2) raw (omega (arith, size))))
        ∙ good;
    delivered =
        subst (λ (t : Bytes). Delivers total inbox (soh ∷ t))
          (sym (take-append-drop (loop_data_size m) raw)) given;
  }

  packet_of-IsMeasured :
      (raw : Bytes)
      → length raw ≤ total
      → (raw ≡ []) ⊎ Delivers total inbox raw
      → Each IsMeasured (packet_of F m raw)
  unfolding parse_loop_packet byte_at
  packet_of-IsMeasured [] most given = rw (lt→ltb 0 total (omega arith)) tt
  packet_of-IsMeasured (b ∷ raw) most (inl empty) = absurd (cc)
  packet_of-IsMeasured (b ∷ raw) most (inr given) =
      elim (Bool-cases (ltb (suc (length raw)) total)) [
        | inl short ↦ rw short tt
        | inr long ↦ elim (Bool-cases (b == soh)) [
          | inr other ↦ rw (long, other) tt
          | inl start ↦ elim (Bool-cases (crc_validate (take (loop_data_size m + 2) raw))) [
            | inr bad ↦ rw (long, start, bad) tt
            | inl good ↦
                rw (long, start, good)
                  (
                    take (loop_data_size m) raw,
                    fields-IsPacket raw (ground (arith, long, most)) good (
                        subst (λ (t : ℕ). Delivers total inbox (t ∷ raw)) ((==_iff b soh).0 start)
                          given),
                    refl,
                  )
          ]
        ]
      ]

  abbrev Measures : Outcome (Option SensorReading) × Port → Type 0
  Measures = Gives total inbox (Each IsMeasured)

  when_acked-Measures :
      (acked : Bool) (p : Port)
      → Within total inbox p
      → Measures (when_acked (read_packet F m) acked p)
  unfolding read_packet receive
  when_acked-Measures false p w = (tt, w)
  when_acked-Measures true p w = (
    packet_of-IsMeasured (next_read total p.inbox) (next_read-le total p.inbox)
        (next_read-given total inbox p w),
    λ message d. w message (later_reads-Delivers total p.inbox message d),
  )

  once-Measures : (p : Port) → Within total inbox p → Measures (send_loop_once F m p)
  unfolding send_loop_once flush send wait_for_ack receive_byte receive
  once-Measures p w =
      when_acked-Measures _ _
        (λ message d. w message (later_reads-Delivers total p.inbox message d))

  module _ (held : CalibrationOffsets) where
    -- No exception, and nothing or a calibrated reading.
    abbrev pub Calibrated : Outcome (Option SensorReading) → Type 0
    Calibrated (ok none) = Unit
    Calibrated (ok (some r)) =
        (raw : SensorReading) × IsMeasured raw × (r ≡ apply_calibration F held raw)
    Calibrated (raised e) = ⊥

    calibrated : Option SensorReading → Io (Option SensorReading)
    calibrated found = pure (Option.map (apply_calibration F held) found)

    calibrate :
        (o : Outcome (Option SensorReading)) (q : Port)
        → Settled IsMeasured o
        → Calibrated (((λ (_ : Port). (o, q)) >>= calibrated) q).0
    unfolding calibrated
    calibrate (ok none) q h = tt
    calibrate (ok (some r)) q h = (r, h, refl)
    calibrate (raised e) q h = h

-- Once the model is known, whatever the station answers and whenever a stop is requested, `poll_loop`
-- raises nothing: it returns None, or the calibrated and converted fields of a packet: exactly as many
-- bytes as the packets of the model have, which some read of the line gave with a SOH before them and
-- with two more behind them that make them pass the checksum.
pub poll_loop-Calibrated :
    (F : Type 0) ⦃fl : Float F⦄ (m : StationModel) (held : CalibrationOffsets) (p : Port)
    → Calibrated F m p.inbox held (poll_loop F (some m) held p).0
unfolding poll_loop calibrated
poll_loop-Calibrated F m held p =
    calibrate F m p.inbox held (retried (send_loop_once F m) attempts p).0
      (retried (send_loop_once F m) attempts p).1
      (retried-Settled (IsMeasured F m p.inbox) (send_loop_once F m) (1 + loop_data_size m + 2)
        p.inbox (once-Measures F m p.inbox) attempts p (λ message d. d))
