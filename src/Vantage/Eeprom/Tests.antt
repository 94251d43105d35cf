-- ===== src/Vantage/Eeprom/Tests.antt =====
-- EEPROM reads at concrete bytes.
use kanfei.Prelude.{◌≡◌, refl, Bool, false, some, lt→ltb, List, [], ◌∷◌}
use kanfei.Bytes.{Bytes, pack_u16_be}
use kanfei.Crc.Append.{crc_calculate-lt}
use kanfei.Vantage.Sample.{sealed, sealed_passes}
use kanfei.Vantage.Link.{ok}
use kanfei.Vantage.Transfer.{ack}
use kanfei.Vantage.Transfer.Recovery.{port}
use kanfei.Vantage.Transfer.Session.{wakeup_response}
use kanfei.Vantage.Eeprom.{cmd_eebrd, hex02, with_crc, eeprom_read}
use kanfei.Vantage.Eeprom.Checked.{IsChecked, eeprom_read-IsChecked}
use kanfei.Vantage.Eeprom.Answered.{eeprom_read_answered}

-- EEBRD 4D 02
command_line :
    cmd_eebrd 0x4D 2
    ≡ b'E' ∷ b'E' ∷ b'B' ∷ b'R' ∷ b'D' ∷ b' ' ∷ b'4' ∷ b'D' ∷ b' ' ∷ b'0' ∷ b'2' ∷ 0x0A ∷ []
unfolding cmd_eebrd hex02
command_line = refl

abbrev stored : Bytes
stored = 12 ∷ 34 ∷ []

abbrev answers : List (Bytes × Bool)
answers = (wakeup_response, false) ∷ (ack ∷ [], false) ∷ (sealed stored, false) ∷ []

stored_read :
    eeprom_read 0x4D 2 (port answers [])
    ≡ (ok (some stored), port [] ((0x0A ∷ []) ∷ cmd_eebrd 0x4D 2 ∷ []))
stored_read = eeprom_read_answered 0x4D 2 (sealed stored) [] [] refl (sealed_passes stored)

eeprom_read-IsChecked_example : IsChecked 2 answers stored
eeprom_read-IsChecked_example =
    eeprom_read-IsChecked 0x4D 2 (port answers []) (port [] ((0x0A ∷ []) ∷ cmd_eebrd 0x4D 2 ∷ []))
      stored stored_read

-- The checksum stands as a call.
abbrev checked_stored : Bytes
checked_stored = sealed stored

stored-with_crc : with_crc stored ≡ some checked_stored
unfolding pack_u16_be
stored-with_crc = rw (lt→ltb _ _ (crc_calculate-lt stored)) refl
