-- ===== src/Vantage/Calibration/Applied.antt =====
-- When `write_calibration` of backend/app/protocol/vantage/driver.py returns true.
use kanfei.Prelude.{ℕ, ◌≡◌, Bool, true, false, some, List, [], ◌∷◌, ◌++◌, ℤ, length, ◌==◌}
use kanfei.Bytes.{Bytes, pack_i8}
use kanfei.Vantage.Link.{Port, Outcome, ok, raised}
use kanfei.Vantage.Link.Messages.{messages}
use kanfei.Vantage.Eeprom.{cmd_eebwr, with_crc}
use kanfei.Vantage.Calibration.{
  EeAddr, calfix_block_size, cmd_calfix, complement, cal_inside_temp, cal_inside_temp_comp,
  uncalibrate, caled,
}

-- The two messages of a write to the EEPROM: the command, and the data with its checksum.
abbrev pub IsWrite : ℕ → Bytes → List Bytes → Type 0
IsWrite address bytes sent =
    (payload : Bytes) × (with_crc bytes ≡ some payload)
    × (sent ≡ cmd_eebwr address (length bytes) ∷ payload ∷ [])

-- Only the inside temperature has a companion byte, its complement.
abbrev pub IsCompanion : Bool → ℤ → List Bytes → Type 0
IsCompanion true offset sent = IsWrite cal_inside_temp_comp (complement offset ∷ []) sent
IsCompanion false offset sent = sent ≡ []

-- The end of a calibration: the companion byte, and the whole block with its checksum behind CALFIX.
pub record Finished (field : EeAddr) (offset : ℤ) (block : Bytes) (p q : Port) : Type 0 where
  pub companion : List Bytes
  pub payload : Bytes
  pub complemented : IsCompanion (field.address == cal_inside_temp) offset companion
  pub whole : length block ≡ calfix_block_size
  pub checked : with_crc block ≡ some payload
  pub last : messages q.sent ≡ messages p.sent ++ (companion ++ cmd_calfix ∷ payload ∷ [])

-- A calibration from the port `p` to the port `q`: CALED gave a block, the offsets in effect were taken out
-- of it, and then exactly these messages were sent: the offset, its companion, and the block.
pub record Applied (field : EeAddr) (offset : ℤ) (p q : Port) : Type 0 where
  pub calibrated : Bytes
  pub block : Bytes
  pub given : Port
  pub adjusted : Port
  pub offset_bytes : Bytes
  pub writes : List Bytes
  pub companion : List Bytes
  pub payload : Bytes
  pub taken : caled p ≡ (ok (some calibrated), given)
  pub backed_out : uncalibrate calibrated given ≡ (ok block, adjusted)
  pub packed : pack_i8 offset ≡ some offset_bytes
  pub written : IsWrite field.address offset_bytes writes
  pub complemented : IsCompanion (field.address == cal_inside_temp) offset companion
  pub whole : length block ≡ calfix_block_size
  pub checked : with_crc block ≡ some payload
  pub sequence :
      messages q.sent
      ≡ messages adjusted.sent ++ (writes ++ (companion ++ cmd_calfix ∷ payload ∷ []))

abbrev pub IsApplied : EeAddr → ℤ → Port → Outcome Bool × Port → Type 0
IsApplied field offset p (ok true, q) = Applied field offset p q
IsApplied field offset p (ok false, q) = Unit
IsApplied field offset p (raised e, q) = Unit
