-- ===== src/Vantage/Clock/RoundTrip.antt =====
-- A clock that is set and read back.
use kanfei.Prelude.{
  ℕ, ◌/◌, ◌%◌, ◌≤◌, ◌<◌, ◌≡◌, ap, ◌∙◌, Bool, true, false, Option, some, List, [], ◌∷◌, ◌++◌, arith,
  lt→ltb, append_assoc,
}
use kanfei.Bytes.{Bytes, byte_at, pack_u16_be}
use kanfei.Crc.{crc_calculate, crc_validate}
use kanfei.Crc.Append.{crc_calculate-lt, crc_validate_iff_trailer}
use kanfei.Vantage.Link.{ok, send, receive, flush, wakeup}
use kanfei.Vantage.Transfer.{ack}
use kanfei.Vantage.Transfer.Recovery.{port}
use kanfei.Vantage.Transfer.Session.{wakeup_response}
use kanfei.Vantage.Clock.{
  StationTime, clock_bytes, build_settime_payload, clock_of, read_station_time, write_station_time,
  send_clock, cmd_gettime, cmd_settime,
}

-- The payload of a clock: its six bytes and their checksum.
abbrev sealed_clock : StationTime → Bytes
sealed_clock t =
    clock_bytes t ++ crc_calculate (clock_bytes t) / 256 ∷ crc_calculate (clock_bytes t) % 256 ∷ []

payload-eq-sealed :
    (t : StationTime)
    → 1900 ≤ t.year
    → t.year < 2156
    → build_settime_payload t ≡ some (sealed_clock t)
unfolding build_settime_payload pack_u16_be
payload-eq-sealed t low high =
    rw (lt→ltb _ _ (crc_calculate-lt (clock_bytes t))) (ground (arith, low, high))

sealed_passes : (t : StationTime) → crc_validate (sealed_clock t) ≡ true
sealed_passes t =
    (crc_validate_iff_trailer (clock_bytes t) (crc_calculate (clock_bytes t) / 256)
        (crc_calculate (clock_bytes t) % 256) (omega (arith, crc_calculate-lt (clock_bytes t)))
        (omega arith)).1
      (omega arith)

clock_of-sealed : (t : StationTime) → 1900 ≤ t.year → clock_of (sealed_clock t) ≡ some t
unfolding byte_at
clock_of-sealed t low =
    rw (sealed_passes t) (ap (λ (y : ℕ). some (record t { year = y })) (omega (arith, low)))

module _ (t : StationTime) (later : List (Bytes × Bool)) (sent : List Bytes) where
  set_clock :
      1900 ≤ t.year
      → t.year < 2156
      → write_station_time t
          (port ((wakeup_response, false) ∷ (ack ∷ [], false) ∷ (ack ∷ [], false) ∷ later) sent)
        ≡ (ok true, port later (sent ++ (0x0A ∷ []) ∷ cmd_settime ∷ sealed_clock t ∷ []))
  unfolding write_station_time wakeup send receive flush
  set_clock low high =
      let sent' : List Bytes = (sent ++ (0x0A ∷ []) ∷ []) ++ cmd_settime ∷ [] in
      ap (λ (o : Option Bytes). send_clock o (port ((ack ∷ [], false) ∷ later) sent'))
        (payload-eq-sealed t low high)
      ∙ ap (λ (lines : List Bytes). (ok true, port later lines))
          (append_assoc (sent ++ (0x0A ∷ []) ∷ []) (cmd_settime ∷ []) (sealed_clock t ∷ [])
            ∙ append_assoc sent ((0x0A ∷ []) ∷ []) (cmd_settime ∷ sealed_clock t ∷ []))

  clock_read :
      1900 ≤ t.year
      → read_station_time (
          port
            ((wakeup_response, false) ∷ (ack ∷ [], false) ∷ (sealed_clock t, false) ∷ later)
            sent)
        ≡ (ok (some t), port later (sent ++ (0x0A ∷ []) ∷ cmd_gettime ∷ []))
  unfolding read_station_time wakeup send receive flush
  clock_read low =
      ap
        (λ (o : Option StationTime).
          (ok o, port later ((sent ++ (0x0A ∷ []) ∷ []) ++ cmd_gettime ∷ [])))
        (clock_of-sealed t low)
      ∙ ap (λ (lines : List Bytes). (ok (some t), port later lines))
          (append_assoc sent ((0x0A ∷ []) ∷ []) (cmd_gettime ∷ []))

-- For a time from 1900 to 2155 there is a payload such that `write_station_time` sends it after the
-- command, and returns true when the console takes both; and a console that answers GETTIME with this
-- payload makes `read_station_time` return the time that was set.
pub clock_round_trip :
    (t : StationTime) (later : List (Bytes × Bool)) (sent : List Bytes)
    → 1900 ≤ t.year
    → t.year < 2156
    → (payload : Bytes) × (build_settime_payload t ≡ some payload)
      × (write_station_time t
            (port ((wakeup_response, false) ∷ (ack ∷ [], false) ∷ (ack ∷ [], false) ∷ later) sent)
          ≡ (ok true, port later (sent ++ (0x0A ∷ []) ∷ cmd_settime ∷ payload ∷ [])))
      × (read_station_time
            (port ((wakeup_response, false) ∷ (ack ∷ [], false) ∷ (payload, false) ∷ later) sent)
          ≡ (ok (some t), port later (sent ++ (0x0A ∷ []) ∷ cmd_gettime ∷ [])))
clock_round_trip t later sent low high = (
  sealed_clock t,
  payload-eq-sealed t low high,
  set_clock t later sent low high,
  clock_read t later sent low,
)
