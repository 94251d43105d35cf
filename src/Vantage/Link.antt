-- ===== src/Vantage/Link.antt =====
-- The serial link as the Vantage driver uses it: backend/app/protocol/serial_port.py and `_wakeup` of
-- backend/app/protocol/vantage/driver.py. What pyserial answers comes from outside: the inbox lists,
-- for each read to come, the bytes that it would give before its timeout, and whether another thread
-- asked for a stop while it blocked. A flush throws away what arrived before it, so it leaves the
-- answers of later reads alone. The port is open, as `connect` leaves it.
pub mod Returns
pub mod Delivered
pub mod Messages
use kanfei.Prelude.{
  ℕ, zero, suc, Bool, false, ◌&&◌, ◌||◌, Option, none, some, List, [], ◌∷◌, ◌++◌, take, ◌==◌, ◌≡◌,
  ap, if◌then◌else◌,
}
use kanfei.Bytes.{Bytes}

pub record Port : Type 0 where
  pub inbox : List (Bytes × Bool)
  -- every `send` so far, oldest first
  pub sent : List Bytes
  pub stop_requested : Bool

-- The exceptions that leave a method: its own ConnectionError, ValueError and RuntimeError, the
-- `struct.error` of a number that does not fit its field, and the NameError of a variable that was
-- never bound.
pub data Exception : Type 0 where
  connection_error value_error struct_error name_error runtime_error : Exception

pub data Outcome (A : Type 0) : Type 0 where
  ok : A → Outcome A
  raised : Exception → Outcome A

abbrev pub Io : Type 0 → Type 0
Io A = Port → Outcome A × Port

module _ {A : Type 0} where
  abbrev pub pure : A → Io A
  pure a p = (ok a, p)

  abbrev pub raise : Exception → Io A
  raise e p = (raised e, p)

infixl 5 ◌>>=◌ ◌>>◌
abbrev pub ◌>>=◌ : {A B : Type 0} → Io A → (A → Io B) → Io B
◌>>=◌ m f p = let (r, p') = m p in elim r [ ok a ↦ f a p' | raised e ↦ raise e p' ]

abbrev pub ◌>>◌ : {A B : Type 0} → Io A → Io B → Io B
m >> k = m >>= λ _. k

unfoldable pub send : Bytes → Io (Unit {0})
send bytes p = (ok tt, record p { sent = p.sent ++ bytes ∷ [] })

abbrev pub next_read : ℕ → List (Bytes × Bool) → Bytes
next_read n [] = []
next_read n ((bytes, stop) ∷ rest) = take n bytes

abbrev pub later_reads : List (Bytes × Bool) → List (Bytes × Bool)
later_reads [] = []
later_reads (event ∷ rest) = rest

abbrev pub stop_arrives : List (Bytes × Bool) → Bool
stop_arrives [] = false
stop_arrives ((bytes, stop) ∷ rest) = stop

unfoldable pub receive : ℕ → Io Bytes
receive n p = (
  ok (next_read n p.inbox),
  record p {
    inbox = later_reads p.inbox;
    stop_requested = p.stop_requested || stop_arrives p.inbox;
  },
)

abbrev pub first? : Bytes → Option ℕ
first? [] = none
first? (b ∷ bytes) = some b

unfoldable pub receive_byte : Io (Option ℕ)
unfolding receive
receive_byte = do bytes ← receive 1; pure (first? bytes)

unfoldable pub flush : Io (Unit {0})
flush = pure tt

-- `ack != ACK` for the byte or None that `receive_byte` returned
abbrev pub is_byte : ℕ → Option ℕ → Bool
is_byte b none = false
is_byte b (some c) = c == b

abbrev pub is_wakeup_response : Bytes → Bool
is_wakeup_response (a ∷ b ∷ []) = (a == 0x0A) && (b == 0x0D)
is_wakeup_response _ = false

abbrev pub wakeup_max_retries : ℕ
wakeup_max_retries = 3

pub wakeup_attempts : ℕ → Io (Unit {0})
wakeup_attempts zero p = raise connection_error p
wakeup_attempts (suc n) p =
    let attempt = (do
      flush
      send (0x0A ∷ [])
      response ← receive 2
      if is_wakeup_response response then pure tt else wakeup_attempts n) in
    if p.stop_requested then raise connection_error p else attempt p

unfoldable pub wakeup : Io (Unit {0})
unfolding wakeup_attempts flush send receive
wakeup = wakeup_attempts wakeup_max_retries

-- What a block does after a step that returned, or raised.
module _ {A B : Type 0} (m : Io A) (f : A → Io B) (p p' : Port) where
  pub bind-ok : (a : A) → m p ≡ (ok a, p') → (m >>= f) p ≡ f a p'
  bind-ok a e = ap (λ (r : Outcome A × Port). ((λ (_ : Port). r) >>= f) p) e

  pub bind-raised : (x : Exception) → m p ≡ (raised x, p') → (m >>= f) p ≡ (raised x, p')
  bind-raised x e = ap (λ (r : Outcome A × Port). ((λ (_ : Port). r) >>= f) p) e
