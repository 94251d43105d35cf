-- ===== src/WeatherLink/Memory.antt =====
-- Reading and writing the memories of a legacy station: `read_station_memory`, `read_link_memory`,
-- `read_archive` and `write_station_memory` of backend/app/protocol/link_driver.py, and `wait_for_ack` of
-- backend/app/protocol/serial_port.py. A read that is not acknowledged, too short or damaged is `none`.
pub mod Retries
pub mod Archive
use kanfei.Prelude.{
  ℕ, zero, suc, ◌+◌, ◌/◌, Bool, true, false, Option, none, some, length, take, ltb, if◌then◌else◌,
}
use kanfei.Bytes.{Bytes}
use kanfei.Vantage.Link.{
  Port, Outcome, ok, raised, Io, pure, ◌>>=◌, ◌>>◌, send, receive, receive_byte, flush, is_byte,
}
use kanfei.Vantage.Transfer.{ack, send_payload}
use kanfei.Vantage.Eeprom.{data_of}
use kanfei.Vantage.Diagnostics.{build_wrd_command}
use kanfei.WeatherLink.Commands.{build_wwr_command, build_rrd_command, build_srd_command}

-- MAX_RETRIES + 1
abbrev pub attempts : ℕ
attempts = 3

unfoldable pub wait_for_ack : Io Bool
unfolding receive_byte
wait_for_ack = receive_byte >>= λ answer. pure (is_byte ack answer)

-- What follows an attempt: an exception is caught.
abbrev pub after_once :
    {A : Type 0} → Io (Option A) → Outcome (Option A) × Port → Outcome (Option A) × Port
after_once rest (ok (some a), p) = (ok (some a), p)
after_once rest (ok none, p) = rest p
after_once rest (raised e, p) = rest p

-- The `for` loop over the attempts, which a stop ends.
unfoldable pub retried : {A : Type 0} → Io (Option A) → ℕ → Io (Option A)
retried once zero p = (ok none, p)
retried once (suc n) p =
    let attempt = after_once (retried once n) (once p) in
    if p.stop_requested then (ok none, p) else attempt

abbrev pub when_acked : {A : Type 0} → Io (Option A) → Bool → Io (Option A)
when_acked m false = pure none
when_acked m true = m

-- The checksum behind the data is read and not held against them.
abbrev pub nibbles_of : ℕ → Bytes → Option Bytes
nibbles_of n_bytes response =
    if ltb (length response) n_bytes then none else some (take n_bytes response)

unfoldable pub read_nibbles : ℕ → Io (Option Bytes)
unfolding receive
read_nibbles n_nibbles =
    let n_bytes = (n_nibbles + 1) / 2 in
    receive (n_bytes + 2) >>= λ response. pure (nibbles_of n_bytes response)

unfoldable pub read_station_once : ℕ → ℕ → ℕ → Io (Option Bytes)
unfolding send wait_for_ack read_nibbles build_wrd_command
read_station_once bank address n_nibbles =
    send (build_wrd_command n_nibbles bank address)
    >> wait_for_ack
    >>= when_acked (read_nibbles n_nibbles)

unfoldable pub read_station_memory : ℕ → ℕ → ℕ → Io (Option Bytes)
unfolding read_station_once retried
read_station_memory bank address n_nibbles =
    retried (read_station_once bank address n_nibbles) attempts

unfoldable pub read_link_once : ℕ → ℕ → ℕ → Io (Option Bytes)
unfolding send wait_for_ack read_nibbles build_rrd_command
read_link_once bank address n_nibbles =
    send (build_rrd_command bank address n_nibbles)
    >> wait_for_ack
    >>= when_acked (read_nibbles n_nibbles)

unfoldable pub read_link_memory : ℕ → ℕ → ℕ → Io (Option Bytes)
unfolding read_link_once retried
read_link_memory bank address n_nibbles = retried (read_link_once bank address n_nibbles) attempts

unfoldable pub read_checked : ℕ → Io (Option Bytes)
unfolding receive
read_checked n_bytes = receive (n_bytes + 2) >>= λ response. pure (data_of n_bytes response)

unfoldable pub read_archive_once : ℕ → ℕ → Io (Option Bytes)
unfolding send wait_for_ack read_checked build_srd_command
read_archive_once address n_bytes =
    flush
    >> send_payload (build_srd_command address n_bytes)
    >> wait_for_ack
    >>= when_acked (read_checked n_bytes)

unfoldable pub read_archive : ℕ → ℕ → Io (Option Bytes)
unfolding read_archive_once retried
read_archive address n_bytes = retried (read_archive_once address n_bytes) attempts

abbrev pub done : Bool → Option (Unit {0})
done true = some tt
done false = none

abbrev pub succeeded : Option (Unit {0}) → Bool
succeeded none = false
succeeded (some u) = true

unfoldable pub write_station_once : ℕ → ℕ → ℕ → Bytes → Io (Option (Unit {0}))
unfolding send wait_for_ack build_wwr_command
write_station_once bank address n_nibbles payload =
    send (build_wwr_command n_nibbles bank address payload) >> wait_for_ack >>= λ acked.
    pure (done acked)

unfoldable pub write_station_memory : ℕ → ℕ → ℕ → Bytes → Io Bool
unfolding write_station_once retried
write_station_memory bank address n_nibbles payload =
    retried (write_station_once bank address n_nibbles payload) attempts >>= λ written.
    pure (succeeded written)
