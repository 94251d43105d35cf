-- ===== src/Vantage/Eeprom/Checked.antt =====
-- What EEPROM reads of backend/app/protocol/vantage/driver.py give back.
use kanfei.Prelude.{
  ℕ, zero, suc, ◌+◌, ◌≤◌, ◌≡◌, ap, ◌∙◌, subst, sym, ◌⊎◌, lt→ltb, Bool, true, Option, none, some,
  List, [], ◌∷◌, ◌++◌, Each, ltb, length, drop, length-take, length-drop, take-append-drop,
  Bool-cases, inl, inr, arith, if◌then◌else◌,
}
use kanfei.Bytes.{Bytes}
use kanfei.Crc.{crc_validate}
use kanfei.Vantage.Link.{
  Port, Outcome, ok, Io, pure, ◌>>=◌, ◌>>◌, send, receive, receive_byte, flush, is_byte, wakeup,
  next_read,
}
use kanfei.Vantage.Link.Returns.{WhenOk, Anything}
use kanfei.Vantage.Link.Delivered.{
  Delivers, Within, Gives, next_read-Delivers, later_reads-Delivers, bind-Gives, then-Gives,
  Stays-Gives, wakeup-Stays, flush-Stays, send-Stays, receive_byte-Stays,
}
use kanfei.Vantage.Transfer.{ack, max_retries}
use kanfei.Vantage.Eeprom.{
  cmd_eebrd, data_of, read_response, eeprom_read_once, or_retry, eeprom_attempts, eeprom_read,
}

-- `n` bytes that some read gave, with two bytes behind them that make them pass the checksum.
pub record IsChecked (n : ℕ) (inbox : List (Bytes × Bool)) (bytes : Bytes) : Type 0 where
  pub whole : length bytes ≡ n
  pub trailer : Bytes
  pub two : length trailer ≡ 2
  pub passes : crc_validate (bytes ++ trailer) ≡ true
  pub delivered : Delivers (n + 2) inbox (bytes ++ trailer)

data_of-IsChecked :
    (n : ℕ) (inbox : List (Bytes × Bool)) (response : Bytes)
    → length response ≤ n + 2
    → (response ≡ []) ⊎ Delivers (n + 2) inbox response
    → Each (IsChecked n inbox) (data_of n response)
data_of-IsChecked n inbox response most (inl empty) = rw (empty, lt→ltb 0 (n + 2) (omega arith)) tt
data_of-IsChecked n inbox response most (inr given) =
    elim (Bool-cases (ltb (length response) (n + 2))) [
      | inl short ↦ rw short tt
      | inr long ↦ elim (Bool-cases (crc_validate response)) [
        | inr bad ↦ rw (long, bad) tt
        | inl good ↦
            rw (long, good)
              (record {
                whole = length-take n response ∙ ground (arith, long);
                trailer = drop n response;
                two = length-drop n response ∙ ground (arith, long);
                passes = ap crc_validate (take-append-drop n response) ∙ good;
                delivered =
                    subst (Delivers (n + 2) inbox) (sym (take-append-drop n response)) given;
              })
      ]
    ]

pub next_read-le : (n : ℕ) (inbox : List (Bytes × Bool)) → length (next_read n inbox) ≤ n
next_read-le n [] = omega arith
next_read-le n ((bytes, stop) ∷ rest) = omega (arith, length-take n bytes)

pub next_read-given :
    (k : ℕ) (inbox : List (Bytes × Bool)) (p : Port)
    → Within k inbox p
    → (next_read k p.inbox ≡ []) ⊎ Delivers k inbox (next_read k p.inbox)
next_read-given k inbox p w = elim (next_read-Delivers k p.inbox) [
  | inl empty ↦ inl empty
  | inr given ↦ inr (w _ given)
]

-- What a read of the data and its checksum makes of the bytes that come.
pub read-IsChecked :
    (n : ℕ) (inbox : List (Bytes × Bool)) (p : Port)
    → Within (n + 2) inbox p
    → Each (IsChecked n inbox) (data_of n (next_read (n + 2) p.inbox))
read-IsChecked n inbox p w =
    data_of-IsChecked n inbox (next_read (n + 2) p.inbox) (next_read-le (n + 2) p.inbox)
      (next_read-given (n + 2) inbox p w)

module _ (address n : ℕ) (inbox : List (Bytes × Bool)) where
  abbrev Checks : Outcome (Option Bytes) × Port → Type 0
  Checks = Gives (n + 2) inbox (Each (IsChecked n inbox))

  answered : Option ℕ → Io (Option Bytes)
  answered answer = if is_byte ack answer then read_response n else pure none

  response-Checks : (p : Port) → Within (n + 2) inbox p → Checks (read_response n p)
  unfolding read_response receive
  response-Checks p w = (
    read-IsChecked n inbox p w,
    λ message d. w message (later_reads-Delivers (n + 2) p.inbox message d),
  )

  answered-Checks :
      (answer : Option ℕ) (p : Port) → Within (n + 2) inbox p → Checks (answered answer p)
  unfolding answered
  answered-Checks answer p w = elim (Bool-cases (is_byte ack answer)) [
    | inl acked ↦ rw acked (response-Checks p w)
    | inr refused ↦ rw refused (tt, w)
  ]

  once-Checks : (p : Port) → Within (n + 2) inbox p → Checks (eeprom_read_once address n p)
  unfolding eeprom_read_once answered
  once-Checks =
      let reads : Io (Option Bytes) = receive_byte >>= answered in
      then-Gives (n + 2) inbox (Each (IsChecked n inbox)) wakeup
        (flush >> (send (cmd_eebrd address n) >> reads)) (wakeup-Stays (n + 2) inbox)
        (then-Gives (n + 2) inbox (Each (IsChecked n inbox)) flush
          (send (cmd_eebrd address n) >> reads) (flush-Stays (n + 2) inbox)
          (then-Gives (n + 2) inbox (Each (IsChecked n inbox)) (send (cmd_eebrd address n)) reads
            (send-Stays (n + 2) inbox (cmd_eebrd address n))
            (bind-Gives (n + 2) inbox Anything (Each (IsChecked n inbox)) receive_byte answered
              (Stays-Gives (n + 2) inbox receive_byte (receive_byte-Stays (n + 2) inbox))
              λ answer _. answered-Checks answer)))

  retry-Checks :
      (rest : Io (Option Bytes))
      → ((p : Port) → Within (n + 2) inbox p → Checks (rest p))
      → (result : Option Bytes) → Each (IsChecked n inbox) result
      → (p : Port) → Within (n + 2) inbox p
      → Checks (or_retry rest result p)
  retry-Checks rest h none _ p w =
      then-Gives (n + 2) inbox (Each (IsChecked n inbox)) flush rest (flush-Stays (n + 2) inbox) h p
        w
  retry-Checks rest h (some bytes) good p w = (good, w)

  attempts-Checks :
      (k : ℕ) (p : Port) → Within (n + 2) inbox p → Checks (eeprom_attempts k address n p)
  unfolding eeprom_attempts
  attempts-Checks zero p w = (tt, w)
  attempts-Checks (suc k) p w =
      bind-Gives (n + 2) inbox (Each (IsChecked n inbox)) (Each (IsChecked n inbox))
        (eeprom_read_once address n) (or_retry (eeprom_attempts k address n)) once-Checks
        (retry-Checks (eeprom_attempts k address n) (attempts-Checks k)) p w

-- Data that `_eeprom_read` returns has exactly the bytes that were asked for, and some read of the line
-- gave them with two bytes behind them that make them pass the checksum, whatever else the line delivered
-- over the attempts.
pub eeprom_read-IsChecked :
    (address n : ℕ) (p q : Port) (bytes : Bytes)
    → eeprom_read address n p ≡ (ok (some bytes), q)
    → IsChecked n p.inbox bytes
unfolding eeprom_read
eeprom_read-IsChecked address n p q bytes e =
    subst (λ (r : Outcome (Option Bytes) × Port). WhenOk (Each (IsChecked n p.inbox)) r.0) e
      (attempts-Checks address n p.inbox max_retries p (λ message d. d)).0
