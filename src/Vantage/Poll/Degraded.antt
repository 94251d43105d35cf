-- ===== src/Vantage/Poll/Degraded.antt =====
-- A poll whose LOOP2 packet may be missing or damaged.
use kanfei.Prelude.{◌≡◌, Bool, false, some, List, [], ◌∷◌, take}
use kanfei.Bytes.{Bytes}
use kanfei.Floats.{Float}
use kanfei.Vantage.Loop.{LoopData, parse_loop}
use kanfei.Vantage.Snapshot.{SensorSnapshot, loop_to_snapshot}
use kanfei.Vantage.Link.{Io, pure, ◌>>=◌}
use kanfei.Vantage.Transfer.{ack}
use kanfei.Vantage.Transfer.Session.{wakeup_response}
use kanfei.Vantage.Poll.{read_loop2}

-- The answers to a poll: the console wakes, takes the command, and sends its two packets.
abbrev pub poll_answers : Bytes → Bytes → List (Bytes × Bool)
poll_answers raw raw2 =
    (wakeup_response, false) ∷ (ack ∷ [], false) ∷ (raw, false) ∷ (raw2, false) ∷ []

module _ {F : Type 0} ⦃fl : Float F⦄ (click : F) (raw raw2 : Bytes) (loop : LoopData F)
    (later : List (Bytes × Bool)) (sent : List Bytes)
    (parsed : parse_loop (take 99 raw) ≡ some loop) where
  merge : LoopData F → Io (SensorSnapshot F)
  merge d = read_loop2 >>= λ l. pure (loop_to_snapshot d l click)
