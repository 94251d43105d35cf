-- ===== src/Vantage/Poll/Tests.antt =====
-- Packets and polls of the Vantage protocol at concrete bytes.
use kanfei.Prelude.{ℕ, ◌≡◌, true, Option, [], ◌∷◌, ℤ, pos, replicate, Each}
use kanfei.Bytes.{Bytes}
use kanfei.Vantage.Sample.{whole, sealed}
use kanfei.Vantage.Snapshot.{SensorSnapshot}
use kanfei.Vantage.Link.{Port, ok}
use kanfei.Vantage.Transfer.Recovery.{port}
use kanfei.Vantage.Poll.{poll_sync}
use kanfei.Vantage.Poll.Outcomes.{IsReading, poll_sync-IsReading}
use kanfei.Vantage.Poll.Degraded.{poll_answers}

-- LOO, a steady barometer, the type, a pressure of 29.916 inHg, and every other byte 3.
abbrev packet : ℕ → Bytes
packet kind = sealed (b'L' ∷ b'O' ∷ b'O' ∷ 0 ∷ kind ∷ 0 ∷ 0 ∷ 220 ∷ 116 ∷ replicate 88 3)

abbrev body : ℕ → Bytes
body kind = b'L' ∷ b'O' ∷ b'O' ∷ 0 ∷ kind ∷ 0 ∷ 0 ∷ 220 ∷ 116 ∷ replicate 88 3

poll_sync-IsReading_example :
    (result : Option (SensorSnapshot ℤ)) × (q : Port) × (poll_sync
        (pos 1)
        true
        (port (poll_answers (packet 0) []) [])
      ≡ (ok result, q))
    × Each IsReading result
poll_sync-IsReading_example =
    poll_sync-IsReading (pos 1) true (port (poll_answers (packet 0) []) [])
