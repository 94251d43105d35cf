-- ===== src/Vantage/Eeprom/Written.antt =====
-- An EEPROM write of backend/app/protocol/vantage/driver.py.
use kanfei.Prelude.{
  ℕ, ◌≡◌, ap, ◌∙◌, Bool, false, Option, some, List, [], ◌∷◌, ◌++◌, take, length, append_assoc,
}
use kanfei.Bytes.{Bytes}
use kanfei.Vantage.Link.{
  ok, pure, ◌>>=◌, send, receive, receive_byte, flush, wakeup, first?, is_byte,
}
use kanfei.Vantage.Transfer.{ack, send_payload}
use kanfei.Vantage.Transfer.Recovery.{port}
use kanfei.Vantage.Transfer.Session.{wakeup_response}
use kanfei.Vantage.Eeprom.{cmd_eebwr, with_crc, eeprom_write}

-- When the console wakes and takes the command, `_eeprom_write` sends the data with its checksum
-- behind it and returns true exactly when the next byte is an ACK: silence and any other byte are a
-- failure.
eeprom_write_confirmed :
    (address : ℕ) (bytes payload answer : Bytes) (later : List (Bytes × Bool)) (sent : List Bytes)
    → with_crc bytes ≡ some payload
    → eeprom_write address bytes
        (port ((wakeup_response, false) ∷ (ack ∷ [], false) ∷ (answer, false) ∷ later) sent)
      ≡ (
        ok (is_byte ack (first? (take 1 answer))),
        port later (sent ++ (0x0A ∷ []) ∷ cmd_eebwr address (length bytes) ∷ payload ∷ []),
      )
unfolding eeprom_write wakeup send receive flush
eeprom_write_confirmed address bytes payload answer later sent e =
    let command : Bytes = cmd_eebwr address (length bytes) in
    let sent' : List Bytes = (sent ++ (0x0A ∷ []) ∷ []) ++ command ∷ [] in
    ap
      (λ (o : Option Bytes).
        (send_payload o >>= λ _. receive_byte >>= λ c. pure (is_byte ack c))
          (port ((answer, false) ∷ later) sent'))
      e
    ∙ ap (λ (lines : List Bytes). (ok (is_byte ack (first? (take 1 answer))), port later lines))
        (append_assoc (sent ++ (0x0A ∷ []) ∷ []) (command ∷ []) (payload ∷ [])
          ∙ append_assoc sent ((0x0A ∷ []) ∷ []) (command ∷ payload ∷ []))
