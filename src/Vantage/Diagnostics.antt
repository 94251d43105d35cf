-- ===== src/Vantage/Diagnostics.antt =====
-- What the console tells of itself: `_read_station_type_code`, `receivers`, `get_eeprom`,
-- `set_yearly_rain` and `set_yearly_et` of backend/app/protocol/vantage/driver.py, with `build_wrd_command`
-- of backend/app/protocol/commands.py.
pub mod Receivers
mod Tests
use kanfei.Prelude.{
  ℕ, zero, suc, ◌+◌, ◌*◌, Bool, true, false, ◌&&◌, ◌||◌, Option, none, some, List, [], ◌∷◌, ◌++◌,
  bit_and, bit_or, drop, take, length, ltb, ◌==◌, ℤ, if◌then◌else◌,
}
use kanfei.Bytes.{Bytes}
use kanfei.Floats.{Float, of_nat, decimal, ◌⊗◌, ◌⊘◌, round_int}
use kanfei.Crc.{crc_validate}
use kanfei.Vantage.Link.{
  Io, pure, raise, ◌>>=◌, ◌>>◌, connection_error, value_error, send, receive, receive_byte, flush,
  is_byte, wakeup,
}
use kanfei.Vantage.Transfer.{ack, max_retries}
use kanfei.Vantage.Text.{str_ℤ, starts_with}
use kanfei.Vantage.Reply.{status_command}
use kanfei.Vantage.Snapshot.{low_transmitters}

-- "WRD", the command byte, the address, CR
unfoldable pub build_wrd_command : ℕ → ℕ → ℕ → Bytes
build_wrd_command n_nibbles bank address =
    let bank_code = if bank == 0 then 0x02 else 0x04 in
    b'W'
    ∷ b'R'
    ∷ b'D'
    ∷ bit_or (bit_and n_nibbles 0x0F * 16) bank_code
    ∷ bit_and address 0xFF
    ∷ 0x0D
    ∷ []

abbrev pub station_type_wrd_addr : ℕ
station_type_wrd_addr = 0x4D

-- An ACK and the code; anything else is tried again.
abbrev pub code_or : Io (Option ℕ) → Bytes → Io (Option ℕ)
code_or again (a ∷ code ∷ rest) = if a == ack then pure (some code) else again
code_or again _ = again

unfoldable pub station_type_attempts : ℕ → Io (Option ℕ)
unfolding build_wrd_command receive
station_type_attempts zero p = pure none p
station_type_attempts (suc n) p =
    let rest = station_type_attempts n in
    (wakeup
        >> flush
        >> send (build_wrd_command 1 0 station_type_wrd_addr)
        >> (receive 2 >>= code_or rest))
      p

unfoldable pub read_station_type_code : Io (Option ℕ)
unfolding station_type_attempts
read_station_type_code = station_type_attempts max_retries

abbrev pub cmd_receivers : Bytes
cmd_receivers = b'R' ∷ b'E' ∷ b'C' ∷ b'E' ∷ b'I' ∷ b'V' ∷ b'E' ∷ b'R' ∷ b'S' ∷ 0x0A ∷ []

-- What follows the first "OK".
unfoldable pub after_ok : Bytes → Option Bytes
unfolding starts_with
after_ok [] = none
after_ok (b ∷ buf) =
    if starts_with (b'O' ∷ b'K' ∷ []) (b ∷ buf) then some (drop 2 (b ∷ buf)) else after_ok buf

-- lstrip(b"\n\r")
unfoldable pub strip_line_ends : Bytes → Bytes
strip_line_ends [] = []
strip_line_ends (b ∷ buf) = if (b == 0x0A) || (b == 0x0D) then strip_line_ends buf else b ∷ buf

abbrev pub heard_of : Bytes → Option (List ℕ)
heard_of [] = none
heard_of (bitmask ∷ rest) = some (low_transmitters 8 0 bitmask)

abbrev pub heard_after : Option Bytes → Option (List ℕ)
heard_after none = none
heard_after (some payload) = heard_of (strip_line_ends payload)

unfoldable pub receivers : Io (Option (List ℕ))
unfolding receive after_ok strip_line_ends
receivers = do
  wakeup
  flush
  send cmd_receivers
  raw ← receive 16
  pure (heard_after (after_ok raw))

abbrev pub eeprom_size : ℕ
eeprom_size = 4096

abbrev pub getee_total_size : ℕ
getee_total_size = 4098

abbrev pub cmd_getee : Bytes
cmd_getee = b'G' ∷ b'E' ∷ b'T' ∷ b'E' ∷ b'E' ∷ 0x0A ∷ []

abbrev pub dump_of : Bytes → Option Bytes
dump_of block =
    if ltb (length block) getee_total_size
    then none
    else if crc_validate (take getee_total_size block)
    then some (take eeprom_size block)
    else none

unfoldable pub get_eeprom : Io (Option Bytes)
unfolding receive receive_byte
get_eeprom = do
  wakeup
  flush
  send cmd_getee
  answer ← receive_byte
  if is_byte ack answer
      then (receive getee_total_size >>= λ block. pure (dump_of block))
      else raise connection_error

unfoldable pub cmd_putrain : ℤ → Bytes
unfolding str_ℤ
cmd_putrain clicks =
    (b'P' ∷ b'U' ∷ b'T' ∷ b'R' ∷ b'A' ∷ b'I' ∷ b'N' ∷ b' ' ∷ []) ++ str_ℤ clicks ++ 0x0A ∷ []

unfoldable pub cmd_putet : ℤ → Bytes
unfolding str_ℤ
cmd_putet hundredths_inch =
    (b'P' ∷ b'U' ∷ b'T' ∷ b'E' ∷ b'T' ∷ b' ' ∷ []) ++ str_ℤ hundredths_inch ++ 0x0A ∷ []

-- `is_negative` and `is_zero` are the tests `< 0` and `not x` of a float.
module _ {F : Type 0} ⦃fl : Float F⦄ (is_negative is_zero : F → Bool) where
  -- `none` is a collector that is not known.
  abbrev pub put_clicks : Option F → F → Io Bool
  put_clicks none millimetres = pure false
  put_clicks (some click_inches) millimetres =
      if is_zero click_inches
      then pure false
      else status_command (cmd_putrain (round_int (millimetres ⊘ (click_inches ⊗ decimal 254 1))))

  unfoldable pub set_yearly_rain : Option F → F → Io Bool
  unfolding cmd_putrain
  set_yearly_rain rain_click_inches millimetres =
      if is_negative millimetres
      then raise value_error
      else put_clicks rain_click_inches millimetres

  unfoldable pub set_yearly_et : F → Io Bool
  unfolding cmd_putet
  set_yearly_et millimetres =
      if is_negative millimetres
      then raise value_error
      else status_command (cmd_putet (round_int (millimetres ⊘ decimal 254 1 ⊗ of_nat 100)))
