-- ===== src/Vantage/Eeprom.antt =====
-- EEPROM access of backend/app/protocol/vantage/driver.py: `_eeprom_read`, `_eeprom_read_once` and
-- `_eeprom_write`, with the commands of backend/app/protocol/vantage/commands.py.
pub mod Checked
pub mod Answered
pub mod Written
mod Tests
use kanfei.Prelude.{
  ℕ, zero, suc, ◌+◌, ◌/◌, ◌%◌, Bool, true, false, Option, none, some, List, [], ◌∷◌, ◌++◌, ltb,
  length, take, ◌==◌, if◌then◌else◌,
}
use mathlib.Core.Option
use kanfei.Bytes.{Bytes, pack_u16_be}
use kanfei.Crc.{crc_calculate, crc_validate}
use kanfei.Vantage.Link.{Io, pure, ◌>>=◌, ◌>>◌, send, receive, receive_byte, flush, is_byte, wakeup}
use kanfei.Vantage.Transfer.{ack, max_retries, send_payload}

-- f"{v:02X}": the digits of `v` to base 16, of which there are at most `v`, and at least two.
unfoldable pub hex_digit : ℕ → ℕ
hex_digit d = if ltb d 10 then 48 + d else 55 + d

unfoldable pub hex_digits : ℕ → ℕ → Bytes → Bytes
hex_digits zero v digits = digits
hex_digits (suc fuel) v digits =
    let rest = hex_digits fuel (v / 16) (hex_digit (v % 16) ∷ digits) in
    if v == 0 then digits else rest

unfoldable pub hex02 : ℕ → Bytes
unfolding hex_digits hex_digit
hex02 v = if ltb v 16 then 48 ∷ hex_digit v ∷ [] else hex_digits v v []

unfoldable pub cmd_eebrd : ℕ → ℕ → Bytes
unfolding hex02
cmd_eebrd address n_bytes =
    (b'E' ∷ b'E' ∷ b'B' ∷ b'R' ∷ b'D' ∷ b' ' ∷ [])
    ++ hex02 address
    ++ (b' ' ∷ [])
    ++ hex02 n_bytes
    ++ 0x0A ∷ []

unfoldable pub cmd_eebwr : ℕ → ℕ → Bytes
unfolding hex02
cmd_eebwr address n_bytes =
    (b'E' ∷ b'E' ∷ b'B' ∷ b'W' ∷ b'R' ∷ b' ' ∷ [])
    ++ hex02 address
    ++ (b' ' ∷ [])
    ++ hex02 n_bytes
    ++ 0x0A ∷ []

-- The data of a response, unless it is short or fails its checksum.
abbrev pub data_of : ℕ → Bytes → Option Bytes
data_of n_bytes response =
    if ltb (length response) (n_bytes + 2)
    then none
    else if crc_validate response
    then some (take n_bytes response)
    else none

unfoldable pub read_response : ℕ → Io (Option Bytes)
unfolding receive
read_response n_bytes = receive (n_bytes + 2) >>= λ response. pure (data_of n_bytes response)

unfoldable pub eeprom_read_once : ℕ → ℕ → Io (Option Bytes)
unfolding receive_byte read_response
eeprom_read_once address n_bytes = do
  wakeup
  flush
  send (cmd_eebrd address n_bytes)
  answer ← receive_byte
  if is_byte ack answer then read_response n_bytes else pure none

-- What follows an attempt: its data, or the attempts that are left. The source leaves out the flush
-- after the last one; a flush changes nothing here.
abbrev pub or_retry : Io (Option Bytes) → Option Bytes → Io (Option Bytes)
or_retry rest none = flush >> rest
or_retry rest (some bytes) = pure (some bytes)

unfoldable pub eeprom_attempts : ℕ → ℕ → ℕ → Io (Option Bytes)
eeprom_attempts zero address n_bytes p = pure none p
eeprom_attempts (suc n) address n_bytes p =
    (eeprom_read_once address n_bytes >>= or_retry (eeprom_attempts n address n_bytes)) p

unfoldable pub eeprom_read : ℕ → ℕ → Io (Option Bytes)
unfolding eeprom_attempts
eeprom_read address n_bytes = eeprom_attempts max_retries address n_bytes

-- data + struct.pack(">H", crc)
abbrev pub with_crc : Bytes → Option Bytes
with_crc bytes = Option.map (λ crc. bytes ++ crc) (pack_u16_be (crc_calculate bytes))

unfoldable pub eeprom_write : ℕ → Bytes → Io Bool
unfolding receive_byte
eeprom_write address bytes = do
  wakeup
  flush
  send (cmd_eebwr address (length bytes))
  answer ← receive_byte
  if is_byte ack answer
      then (do
        send_payload (with_crc bytes)
        confirmation ← receive_byte
        pure (is_byte ack confirmation))
      else pure false
