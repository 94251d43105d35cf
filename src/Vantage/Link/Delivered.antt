-- ===== src/Vantage/Link/Delivered.antt =====
-- What the reads of backend/app/protocol/serial_port.py take from the line, over the steps of a method.
use kanfei.Prelude.{ℕ, zero, suc, Bool, List, [], ◌∷◌, take, ◌≡◌, refl, Bool-cases, ◌⊎◌, inl, inr}
use kanfei.Bytes.{Bytes}
use kanfei.Vantage.Link.{
  Port, Outcome, ok, raised, Io, ◌>>=◌, ◌>>◌, send, receive, receive_byte, flush, wakeup,
  wakeup_attempts, next_read, later_reads, is_wakeup_response,
}
use kanfei.Vantage.Link.Returns.{WhenOk, Anything}

-- Some read to come gives exactly this message, when it asks for `k` bytes.
abbrev pub Delivers : ℕ → List (Bytes × Bool) → Bytes → Type 0
Delivers k [] message = ⊥
Delivers k ((bytes, stop) ∷ inbox) message = (take k bytes ≡ message) ⊎ Delivers k inbox message

pub next_read-Delivers :
    (k : ℕ) (inbox : List (Bytes × Bool))
    → (next_read k inbox ≡ []) ⊎ Delivers k inbox (next_read k inbox)
next_read-Delivers k [] = inl refl
next_read-Delivers k ((bytes, stop) ∷ inbox) = inr (inl refl)

pub later_reads-Delivers :
    (k : ℕ) (inbox : List (Bytes × Bool)) (message : Bytes)
    → Delivers k (later_reads inbox) message
    → Delivers k inbox message
later_reads-Delivers k [] message d = d
later_reads-Delivers k ((bytes, stop) ∷ inbox) message d = inr d

module _ (k : ℕ) (inbox : List (Bytes × Bool)) where
  -- A port whose reads to come are among those of `inbox`.
  abbrev pub Within : Port → Type 0
  Within p = (message : Bytes) → Delivers k p.inbox message → Delivers k inbox message

  abbrev pub Stays : {A : Type 0} → Io A → Type 0
  Stays m = (p : Port) → Within p → Within (m p).1

  abbrev pub Gives : {A : Type 0} → (A → Type 0) → Outcome A × Port → Type 0
  Gives P r = WhenOk P r.0 × Within r.1

  pub bind-Gives :
      {A B : Type 0} (Q : A → Type 0) (P : B → Type 0) (m : Io A) (f : A → Io B)
      → ((p : Port) → Within p → Gives Q (m p))
      → ((a : A) → Q a → (p : Port) → Within p → Gives P (f a p))
      → (p : Port) → Within p
      → Gives P ((m >>= f) p)
  bind-Gives {A = A} {B = B} Q P m f hm hf p w = go (m p).0 (m p).1 (hm p w)
    where
      go : (o : Outcome A) (q : Port) → Gives Q (o, q) → Gives P (((λ (_ : Port). (o, q)) >>= f) p)
      go (ok a) q h = hf a h.0 q h.1
      go (raised e) q h = (tt, h.1)

  pub Stays-Gives : {A : Type 0} (m : Io A) → Stays m → (p : Port) → Within p → Gives Anything (m p)
  Stays-Gives {A = A} m stays p w = (go (m p).0, stays p w)
    where
      go : (o : Outcome A) → WhenOk Anything o
      go (ok a) = tt
      go (raised e) = tt

  pub then-Gives :
      {A B : Type 0} (P : B → Type 0) (m : Io A) (n : Io B)
      → Stays m
      → ((p : Port) → Within p → Gives P (n p))
      → (p : Port) → Within p
      → Gives P ((m >> n) p)
  then-Gives P m n stays h = bind-Gives Anything P m (λ _. n) (Stays-Gives m stays) (λ a _. h)

  pub flush-Stays : Stays flush
  unfolding flush
  flush-Stays p w = w

  pub send-Stays : (bytes : Bytes) → Stays (send bytes)
  unfolding send
  send-Stays bytes p w = w

  pub receive-Stays : (n : ℕ) → Stays (receive n)
  unfolding receive
  receive-Stays n p w message d = w message (later_reads-Delivers k p.inbox message d)

  pub receive_byte-Stays : Stays receive_byte
  unfolding receive_byte receive
  receive_byte-Stays p w message d = w message (later_reads-Delivers k p.inbox message d)

  wakeup_attempts-Stays : (n : ℕ) → Stays (wakeup_attempts n)
  unfolding wakeup_attempts flush send receive
  wakeup_attempts-Stays zero p w = w
  wakeup_attempts-Stays (suc n) p w = elim (Bool-cases p.stop_requested) [
    | inl e ↦ rw e w
    | inr e ↦ rw e (elim (Bool-cases (is_wakeup_response (next_read 2 p.inbox))) [
      | inl woken ↦ rw woken (λ message d. w message (later_reads-Delivers k p.inbox message d))
      | inr asleep ↦ rw asleep (
          wakeup_attempts-Stays n _
            (λ message d. w message (later_reads-Delivers k p.inbox message d)))
    ])
  ]

  pub wakeup-Stays : Stays wakeup
  unfolding wakeup
  wakeup-Stays = wakeup_attempts-Stays 3
