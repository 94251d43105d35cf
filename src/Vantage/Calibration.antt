-- ===== src/Vantage/Calibration.antt =====
-- Temperature and humidity calibration of backend/app/protocol/vantage/driver.py: `_caled`, `_calfix`,
-- `write_calibration` and `read_calibration`, with the addresses of
-- backend/app/protocol/vantage/eeprom.py.
pub mod BackOut
pub mod Sequence
pub mod Applied
mod Tests
use kanfei.Prelude.{
  ℕ, ◌+◌, Bool, true, false, ◌&&◌, ◌||◌, Option, none, some, List, [], ◌∷◌, ◌++◌, length, set, ltb,
  leb, leb_ℤ, eqb_ℤ, take, not, ◌==◌, ℤ, pos, negsuc, ◌-ℤ◌, if◌then◌else◌,
}
use mathlib.Core.Option
use kanfei.Bytes.{Bytes, byte_at, i16_at, signed8, pack_i16_le, pack_i8, low_byte}
use kanfei.Crc.{crc_validate}
use kanfei.Vantage.Link.{
  Io, pure, raise, ◌>>=◌, ◌>>◌, value_error, struct_error, send, receive, receive_byte, flush,
  is_byte, wakeup,
}
use kanfei.Vantage.Transfer.{ack, send_payload}
use kanfei.Vantage.Eeprom.{eeprom_read, eeprom_write, with_crc}

pub record EeAddr : Type 0 where
  pub address : ℕ
  pub n_bytes : ℕ

abbrev pub cal_inside_temp : ℕ
cal_inside_temp = 0x32

abbrev pub cal_inside_temp_comp : ℕ
cal_inside_temp_comp = 0x33

abbrev pub cal_outside_temp : ℕ
cal_outside_temp = 0x34

abbrev pub cal_inside_hum : ℕ
cal_inside_hum = 0x44

abbrev pub cal_outside_hum : ℕ
cal_outside_hum = 0x45

abbrev pub cal_block_start : ℕ
cal_block_start = 0x32

abbrev pub cal_block_end : ℕ
cal_block_end = 0x4E

abbrev pub calfix_block_size : ℕ
calfix_block_size = 43

-- b"CALED\n" and b"CALFIX\n"
abbrev pub cmd_caled : Bytes
cmd_caled = b'C' ∷ b'A' ∷ b'L' ∷ b'E' ∷ b'D' ∷ 0x0A ∷ []

abbrev pub cmd_calfix : Bytes
cmd_calfix = b'C' ∷ b'A' ∷ b'L' ∷ b'F' ∷ b'I' ∷ b'X' ∷ 0x0A ∷ []

abbrev pub block_of : Bytes → Option Bytes
block_of payload =
    if ltb (length payload) (calfix_block_size + 2)
    then none
    else if crc_validate payload
    then some (take calfix_block_size payload)
    else none

-- What follows the byte that answers CALED.
abbrev pub after_caled : Option ℕ → Io (Option Bytes)
after_caled answer =
    if is_byte ack answer
    then (receive (calfix_block_size + 2) >>= λ payload. pure (block_of payload))
    else pure none

unfoldable pub caled : Io (Option Bytes)
unfolding receive receive_byte
caled = do wakeup; flush; send cmd_caled; answer ← receive_byte; after_caled answer

-- What follows the byte that answers CALFIX.
abbrev pub after_calfix : Bytes → Option ℕ → Io Bool
after_calfix block answer =
    if is_byte ack answer
    then (send_payload (with_crc block)
        >> (receive_byte >>= λ confirmation. pure (is_byte ack confirmation)))
    else pure false

unfoldable pub calfix : Bytes → Io Bool
unfolding receive_byte
calfix block =
    if length block == calfix_block_size
    then (wakeup >> (flush >> (send cmd_calfix >> (receive_byte >>= after_calfix block))))
    else raise value_error

-- struct.pack_into("<h", block, off, v) once `v` is packed
unfoldable pub put_pair : Bytes → ℕ → Bytes → Bytes
put_pair block off (low ∷ high ∷ []) = set (set block off low) (off + 1) high
put_pair block off _ = block

-- One sensor of the block, less the offset that is in effect; `none` is a `struct.error`. A dashed
-- reading stays.
unfoldable pub back_out_temp : ℕ → ℤ → Bytes → Option Bytes
unfolding put_pair
back_out_temp off cur block =
    if eqb_ℤ (i16_at block off) (pos 0x7FFF)
    then some block
    else Option.map (put_pair block off) (pack_i16_le (i16_at block off -ℤ cur))

unfoldable pub back_out_hum : ℕ → ℤ → Bytes → Option Bytes
back_out_hum off cur block =
    if byte_at block off == 0xFF
    then some block
    else some (set block off (low_byte (pos (byte_at block off) -ℤ cur)))

-- The offset of a sensor that is read at `address`; one that cannot be read leaves the block as it is.
abbrev pub adjusted : (ℤ → Bytes → Option Bytes) → Bytes → Option Bytes → Io Bytes
adjusted back_out block none = pure block
adjusted back_out block (some cur) = elim (back_out (signed8 (byte_at cur 0)) block) [
  | none ↦ raise struct_error
  | some b ↦ pure b
]

unfoldable pub adjust : ℕ → (ℤ → Bytes → Option Bytes) → Bytes → Io Bytes
adjust address back_out block = eeprom_read address 1 >>= adjusted back_out block

unfoldable pub uncalibrate : Bytes → Io Bytes
unfolding adjust back_out_temp back_out_hum
uncalibrate block =
    adjust cal_inside_temp (back_out_temp 0) block
    >>= adjust cal_outside_temp (back_out_temp 2)
    >>= adjust cal_inside_hum (back_out_hum 34)
    >>= adjust cal_outside_hum (back_out_hum 35)

-- (~offset) & 0xFF
abbrev pub complement : ℤ → ℕ
complement offset = low_byte (negsuc 0 -ℤ offset)

-- The companion byte of the inside temperature, and CALFIX.
abbrev pub push_block : Bytes → Bool → Io Bool
push_block block true = calfix block
push_block block false = pure false

abbrev pub after_write : EeAddr → ℤ → Bytes → Bool → Io Bool
after_write field offset block false = pure false
after_write field offset block true =
    if field.address == cal_inside_temp
    then (eeprom_write cal_inside_temp_comp (complement offset ∷ []) >>= push_block block)
    else calfix block

-- The EEPROM write of a packed offset. The guards have seen to it that it can be packed.
abbrev pub write_packed : EeAddr → ℤ → Bytes → Option Bytes → Io Bool
write_packed field offset block none = raise struct_error
write_packed field offset block (some bytes) =
    eeprom_write field.address bytes >>= after_write field offset block

abbrev pub write_offset : EeAddr → ℤ → Bytes → Io Bool
write_offset field offset block = write_packed field offset block (pack_i8 offset)

abbrev pub apply_calibration : EeAddr → ℤ → Option Bytes → Io Bool
apply_calibration field offset none = pure false
apply_calibration field offset (some calibrated) =
    uncalibrate calibrated >>= write_offset field offset

-- field.n_bytes == 1, the address inside the block, and -128 <= offset <= 127
unfoldable pub is_settable : EeAddr → ℤ → Bool
is_settable field offset =
    (field.n_bytes == 1)
    && (leb cal_block_start field.address && leb field.address cal_block_end)
    && (leb_ℤ (negsuc 127) offset && leb_ℤ offset (pos 127))

unfoldable pub write_calibration : EeAddr → ℤ → Io Bool
unfolding is_settable uncalibrate calfix
write_calibration field offset =
    if is_settable field offset
    then (caled >>= apply_calibration field offset)
    else raise value_error

pub record Offsets : Type 0 where
  pub inside_temp : Option ℤ
  pub outside_temp : Option ℤ
  pub inside_humidity : Option ℤ
  pub outside_humidity : Option ℤ

-- `if not raw: continue`
abbrev pub offset_of : Option Bytes → Option ℤ
offset_of none = none
offset_of (some []) = none
offset_of (some (b ∷ bytes)) = some (signed8 b)

abbrev pub is_missing : Option ℤ → Bool
is_missing none = true
is_missing (some v) = false

-- offsets or None
abbrev pub unless_empty : Offsets → Option Offsets
unless_empty o =
    if is_missing o.inside_temp
      && is_missing o.outside_temp
      && is_missing o.inside_humidity
      && is_missing o.outside_humidity
    then none
    else some o

unfoldable pub read_calibration : Io (Option Offsets)
read_calibration = do
  inside_temp ← eeprom_read cal_inside_temp 1
  outside_temp ← eeprom_read cal_outside_temp 1
  inside_humidity ← eeprom_read cal_inside_hum 1
  outside_humidity ← eeprom_read cal_outside_hum 1
  pure (
      unless_empty (record {
        inside_temp = offset_of inside_temp;
        outside_temp = offset_of outside_temp;
        inside_humidity = offset_of inside_humidity;
        outside_humidity = offset_of outside_humidity;
      }))
