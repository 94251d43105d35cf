-- ===== src/Vantage/Clock/Tests.antt =====
-- A clock at a concrete time.
use kanfei.Prelude.{◌≡◌, some, [], ◌∷◌, ◌++◌, true, false, arith}
use kanfei.Bytes.{Bytes}
use kanfei.Vantage.Link.{ok}
use kanfei.Vantage.Transfer.{ack}
use kanfei.Vantage.Transfer.Recovery.{port}
use kanfei.Vantage.Transfer.Session.{wakeup_response}
use kanfei.Vantage.Clock.{
  StationTime, build_settime_payload, write_station_time, read_station_time, cmd_settime,
  cmd_gettime,
}
use kanfei.Vantage.Clock.RoundTrip.{clock_round_trip}

abbrev noon : StationTime
noon = record { year = 2026; month = 7; day = 4; hour = 12; minute = 0; second = 30 }

clock_round_trip_example :
    (payload : Bytes) × (build_settime_payload noon ≡ some payload)
    × (write_station_time noon
          (port ((wakeup_response, false) ∷ (ack ∷ [], false) ∷ (ack ∷ [], false) ∷ []) [])
        ≡ (ok true, port [] ([] ++ (0x0A ∷ []) ∷ cmd_settime ∷ payload ∷ [])))
    × (read_station_time
          (port ((wakeup_response, false) ∷ (ack ∷ [], false) ∷ (payload, false) ∷ []) [])
        ≡ (ok (some noon), port [] ([] ++ (0x0A ∷ []) ∷ cmd_gettime ∷ [])))
clock_round_trip_example = clock_round_trip noon [] [] (omega arith) (omega arith)
