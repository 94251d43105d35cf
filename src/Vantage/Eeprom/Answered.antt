-- ===== src/Vantage/Eeprom/Answered.antt =====
-- An EEPROM read that the console answers at the first attempt.
use kanfei.Prelude.{
  ℕ, zero, suc, ◌+◌, ◌≡◌, refl, ap, ◌∙◌, Bool, true, false, Option, some, List, [], ◌∷◌, ◌++◌,
  ltb_ge, length, take, arith, append_assoc,
}
use kanfei.Bytes.{Bytes}
use kanfei.Crc.{crc_validate}
use kanfei.Vantage.Link.{Port, Outcome, ok, ◌>>=◌, send, receive, flush, wakeup}
use kanfei.Vantage.Transfer.{ack}
use kanfei.Vantage.Transfer.Recovery.{port}
use kanfei.Vantage.Transfer.Session.{wakeup_response}
use kanfei.Vantage.Eeprom.{
  cmd_eebrd, read_response, eeprom_read_once, or_retry, eeprom_attempts, eeprom_read,
}

take_all : (k : ℕ) (xs : Bytes) → length xs ≡ k → take k xs ≡ xs
take_all zero [] e = refl
take_all zero (x ∷ xs) e = absurd (omega (arith, e))
take_all (suc k) [] e = absurd (omega (arith, e))
take_all (suc k) (x ∷ xs) e = ap (λ (t : Bytes). x ∷ t) (take_all k xs (omega (arith, e)))

module _ (address n : ℕ) (response : Bytes) (later : List (Bytes × Bool)) (sent : List Bytes)
    (whole : length response ≡ n + 2) (good : crc_validate response ≡ true) where
  response_read :
      read_response n (port ((response, false) ∷ later) sent)
      ≡ (ok (some (take n response)), port later sent)
  unfolding read_response receive
  response_read =
      rw
        (
          take_all (n + 2) response whole,
          ltb_ge (n + 2) (length response) (omega (arith, whole)),
          good,
        )
        refl

-- When the console wakes, takes the command and answers with `n` bytes and a checksum that they pass
-- with, `_eeprom_read` returns those bytes at the first attempt, and has sent the wakeup and one
-- command.
pub eeprom_read_answered :
    (address n : ℕ) (response : Bytes) (later : List (Bytes × Bool)) (sent : List Bytes)
    → length response ≡ n + 2
    → crc_validate response ≡ true
    → eeprom_read address n
        (port ((wakeup_response, false) ∷ (ack ∷ [], false) ∷ (response, false) ∷ later) sent)
      ≡ (ok (some (take n response)), port later (sent ++ (0x0A ∷ []) ∷ cmd_eebrd address n ∷ []))
unfolding eeprom_read eeprom_read_once wakeup send receive flush
eeprom_read_answered address n response later sent whole good =
    let sent' : List Bytes = (sent ++ (0x0A ∷ []) ∷ []) ++ cmd_eebrd address n ∷ [] in
    ap
      (λ (r : Outcome (Option Bytes) × Port).
        ((λ (_ : Port). r) >>= or_retry (eeprom_attempts 2 address n)) (port later sent'))
      (response_read address n response later sent' whole good)
    ∙ ap (λ (lines : List Bytes). (ok (some (take n response)), port later lines))
        (append_assoc sent ((0x0A ∷ []) ∷ []) (cmd_eebrd address n ∷ []))
