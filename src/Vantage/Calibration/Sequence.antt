-- ===== src/Vantage/Calibration/Sequence.antt =====
-- What `_eeprom_write` and `_calfix` of backend/app/protocol/vantage/driver.py have sent when they return
-- true.
use kanfei.Prelude.{
  ℕ, ◌≡◌, refl, sym, ap, ◌∙◌, Bool, true, false, Option, none, some, List, [], ◌∷◌, ◌++◌,
  append_assoc, length, ◌==◌, ==_iff, Bool-cases, inl, inr, if◌then◌else◌, ltb,
}
use kanfei.Bytes.{Bytes, pack_u16_be}
use kanfei.Crc.{crc_calculate}
use kanfei.Vantage.Link.{
  Port, Outcome, ok, Io, pure, ◌>>=◌, ◌>>◌, send, receive, receive_byte, flush, is_byte, wakeup,
  first?, next_read,
}
use kanfei.Vantage.Link.Messages.{
  is_line_feed, messages, messages-append, wakeup-messages, raised-ne-ok, false-ne-true,
  bind_returned,
}
use kanfei.Vantage.Transfer.{ack, send_payload}
use kanfei.Vantage.Eeprom.{cmd_eebwr, with_crc, eeprom_write}
use kanfei.Vantage.Calibration.{calfix_block_size, cmd_calfix, calfix}

-- Data with its checksum behind it is longer than a line feed.
two_more : (bytes : Bytes) (a b : ℕ) → is_line_feed (bytes ++ a ∷ b ∷ []) ≡ false
two_more [] a b = refl
two_more (x ∷ []) a b = refl
two_more (x ∷ y ∷ bytes) a b = refl

abbrev feeds : Option Bytes → Bool
feeds none = false
feeds (some payload) = is_line_feed payload

with_crc-long :
    (bytes payload : Bytes) → with_crc bytes ≡ some payload → is_line_feed payload ≡ false
unfolding pack_u16_be
with_crc-long bytes payload e = elim (Bool-cases (ltb (crc_calculate bytes) 65536)) [
  | inl small ↦ sym (ap feeds (rw small at e)) ∙ two_more bytes _ _
  | inr large ↦ sym (ap feeds (rw large at e))
]

-- The command, and then the payload once the console has taken the command.
unfoldable pub exchange : Bytes → Option Bytes → Io Bool
exchange command payload =
    flush
    >> (send command
        >> (receive_byte >>= λ answer.
            if is_byte ack answer
            then (send_payload payload
                >> (receive_byte >>= λ confirmation. pure (is_byte ack confirmation)))
            else pure false))

-- A command and its payload, behind what was sent before.
abbrev pub Sent : Bytes → Option Bytes → Port → Port → Type 0
Sent command packed p q =
    (payload : Bytes) × (packed ≡ some payload)
    × (messages q.sent ≡ messages p.sent ++ command ∷ payload ∷ [])

exchange-Sent :
    (command : Bytes) (bytes : Bytes)
    → is_line_feed command ≡ false
    → (p q : Port) → exchange command (with_crc bytes) p ≡ (ok true, q)
    → Sent command (with_crc bytes) p q
unfolding exchange flush send receive_byte receive
exchange-Sent command bytes long p q e =
    elim (Bool-cases (is_byte ack (first? (next_read 1 p.inbox)))) [
      | inl acked ↦ go (with_crc bytes) refl _ refl (rw acked at e)
      | inr refused ↦ absurd (false-ne-true _ q (rw refused at e))
    ]
  where
    go :
        (o : Option Bytes)
        → with_crc bytes ≡ o
        → (p' : Port) → p'.sent ≡ p.sent ++ command ∷ []
        → (send_payload o >> (receive_byte >>= λ confirmation. pure (is_byte ack confirmation))) p'
          ≡ (ok true, q)
        → Sent command (with_crc bytes) p q
    go none packed p' after h = absurd (raised-ne-ok _ p' q true h)
    go (some payload) packed p' after h = (
      payload,
      packed,
      ap (λ (r : Outcome Bool × Port). messages r.1.sent) (sym h)
          ∙ messages-append p'.sent payload (with_crc-long bytes payload packed)
          ∙ ap (λ (l : List Bytes). messages l ++ payload ∷ []) after
          ∙ ap (λ (l : List Bytes). l ++ payload ∷ []) (messages-append p.sent command long)
          ∙ append_assoc (messages p.sent) (command ∷ []) (payload ∷ []),
    )

-- Wakes the console first.
woken-Sent :
    (command : Bytes) (bytes : Bytes)
    → is_line_feed command ≡ false
    → (p q : Port) → (wakeup >> exchange command (with_crc bytes)) p ≡ (ok true, q)
    → Sent command (with_crc bytes) p q
woken-Sent command bytes long p q e =
    let woken = bind_returned wakeup (λ _. exchange command (with_crc bytes)) p q true e in
    let sent = exchange-Sent command bytes long woken.1 q woken.3 in
    (
      sent.0,
      sent.1,
      sent.2
          ∙ ap (λ (l : List Bytes). l ++ command ∷ sent.0 ∷ [])
              (ap (λ (r : Outcome (Unit {0}) × Port). messages r.1.sent) (sym woken.2)
                ∙ wakeup-messages p),
    )

eebwr-long : (address n : ℕ) → is_line_feed (cmd_eebwr address n) ≡ false
unfolding cmd_eebwr
eebwr-long address n = refl

-- A write that is confirmed sent EEBWR with the address and the length, and the data with its checksum.
pub eeprom_write-Sent :
    (address : ℕ) (bytes : Bytes) (p q : Port)
    → eeprom_write address bytes p ≡ (ok true, q)
    → Sent (cmd_eebwr address (length bytes)) (with_crc bytes) p q
unfolding eeprom_write exchange
eeprom_write-Sent address bytes p q e =
    woken-Sent (cmd_eebwr address (length bytes)) bytes (eebwr-long address (length bytes)) p q e

pub calfix-Sent :
    (block : Bytes) (p q : Port)
    → calfix block p ≡ (ok true, q)
    → (length block ≡ calfix_block_size) × Sent cmd_calfix (with_crc block) p q
unfolding calfix exchange
calfix-Sent block p q e = elim (Bool-cases (length block == calfix_block_size)) [
  | inl whole ↦ ((==_iff _ _).0 whole, woken-Sent cmd_calfix block refl p q (rw whole at e))
  | inr other ↦ absurd (raised-ne-ok _ p q true (rw other at e))
]
