-- ===== src/Vantage/Poll.antt =====
-- Polling of backend/app/protocol/vantage/driver.py: `_poll_sync`, `_poll_lps` and
-- `_poll_loop_only`, with the commands of backend/app/protocol/vantage/commands.py.
pub mod Outcomes
pub mod Degraded
mod Tests
use kanfei.Prelude.{
  ℕ, zero, suc, Bool, true, false, Option, none, some, List, [], ◌∷◌, ltb, length, ◌||◌,
  if◌then◌else◌,
}
use kanfei.Bytes.{Bytes}
use kanfei.Floats.{Float}
use kanfei.Vantage.Loop.{LoopData, Loop2Data, loop_packet_size, parse_loop, parse_loop2}
use kanfei.Vantage.Snapshot.{SensorSnapshot, loop_to_snapshot}
use kanfei.Vantage.Link.{
  Port, Outcome, ok, raised, Exception, connection_error, Io, pure, raise, ◌>>=◌, ◌>>◌, send,
  receive, flush, wakeup,
}
use kanfei.Vantage.Transfer.{max_retries, expect_ack}

-- b"LPS 3 2\n" and b"LOOP 1\n"
abbrev pub cmd_lps : Bytes
cmd_lps = b'L' ∷ b'P' ∷ b'S' ∷ b' ' ∷ b'3' ∷ b' ' ∷ b'2' ∷ 0x0A ∷ []

abbrev pub cmd_loop : Bytes
cmd_loop = b'L' ∷ b'O' ∷ b'O' ∷ b'P' ∷ b' ' ∷ b'1' ∷ 0x0A ∷ []

module _ {F : Type 0} ⦃fl : Float F⦄ where
  -- The ConnectionError is that of a short or a damaged packet.
  abbrev pub loop_of : Bytes → Io (LoopData F)
  loop_of raw =
      if ltb (length raw) loop_packet_size
      then raise connection_error
      else elim (parse_loop raw) [ none ↦ raise connection_error | some loop ↦ pure loop ]

  unfoldable pub read_loop : Io (LoopData F)
  unfolding receive
  read_loop = receive loop_packet_size >>= loop_of

-- A LOOP2 packet that is missing or damaged is passed over.
abbrev pub loop2_of : Bytes → Option Loop2Data
loop2_of raw = if ltb (length raw) loop_packet_size then none else parse_loop2 raw

unfoldable pub read_loop2 : Io (Option Loop2Data)
unfolding receive
read_loop2 = receive loop_packet_size >>= λ raw. pure (loop2_of raw)

module _ {F : Type 0} ⦃fl : Float F⦄ (click : F) where
  unfoldable pub poll_lps : Io (SensorSnapshot F)
  unfolding expect_ack
  poll_lps = do
    flush
    send cmd_lps
    expect_ack
    loop ← read_loop
    loop2 ← read_loop2
    pure (loop_to_snapshot loop loop2 click)

  unfoldable pub poll_loop_only : Io (SensorSnapshot F)
  unfolding expect_ack
  poll_loop_only = do
    flush
    send cmd_loop
    expect_ack
    loop ← read_loop
    pure (loop_to_snapshot loop none click)

  -- One attempt: the body of the `try`.
  unfoldable pub poll_once : Bool → Io (SensorSnapshot F)
  poll_once has_loop2 = do wakeup; if has_loop2 then poll_lps else poll_loop_only

  -- What the `except` does with an exception, when `rest` are the attempts that are left.
  abbrev pub after_attempt :
      Io (Option (SensorSnapshot F))
      → Outcome (SensorSnapshot F) × Port
      → Outcome (Option (SensorSnapshot F)) × Port
  after_attempt rest (ok snapshot, p) = (ok (some snapshot), p)
  after_attempt rest (raised e, p) = if p.stop_requested then (ok none, p) else (flush >> rest) p

  unfoldable pub poll_attempts : Bool → ℕ → Io (Option (SensorSnapshot F))
  poll_attempts has_loop2 zero p = (ok none, p)
  poll_attempts has_loop2 (suc n) p =
      let attempt = after_attempt (poll_attempts has_loop2 n) (poll_once has_loop2 p) in
      if p.stop_requested then (ok none, p) else attempt

  unfoldable pub poll_sync : Bool → Io (Option (SensorSnapshot F))
  unfolding poll_attempts
  poll_sync has_loop2 = poll_attempts has_loop2 max_retries
