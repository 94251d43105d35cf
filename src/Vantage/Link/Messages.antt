-- ===== src/Vantage/Link/Messages.antt =====
-- What the methods of backend/app/protocol/vantage/driver.py have sent, the line feeds that wake the
-- console aside, and the steps of a method that returned.
use kanfei.Prelude.{
  zero, suc, ◌≡◌, refl, ap, ◌∙◌, Bool, true, false, List, [], ◌∷◌, ◌++◌, ◌==◌, Bool-cases, inl, inr,
  if◌then◌else◌, ℕ,
}
use kanfei.Bytes.{Bytes}
use kanfei.Vantage.Link.{
  Port, Outcome, ok, raised, Exception, Io, ◌>>=◌, send, receive, flush, wakeup, wakeup_attempts,
  is_wakeup_response, next_read,
}

abbrev pub is_line_feed : Bytes → Bool
is_line_feed (b ∷ []) = b == 0x0A
is_line_feed _ = false

-- What was sent, without the line feeds that wake the console.
abbrev pub messages : List Bytes → List Bytes
messages [] = []
messages (m ∷ sent) = if is_line_feed m then messages sent else m ∷ messages sent

pub messages-append :
    (sent : List Bytes) (m : Bytes)
    → is_line_feed m ≡ false
    → messages (sent ++ m ∷ []) ≡ messages sent ++ m ∷ []
messages-append [] m h = rw h refl
messages-append (x ∷ sent) m h = elim (Bool-cases (is_line_feed x)) [
  | inl e ↦ rw e (messages-append sent m h)
  | inr e ↦ rw e (ap (λ (l : List Bytes). x ∷ l) (messages-append sent m h))
]

messages_woken : (sent : List Bytes) → messages (sent ++ (0x0A ∷ []) ∷ []) ≡ messages sent
messages_woken [] = refl
messages_woken (x ∷ sent) = elim (Bool-cases (is_line_feed x)) [
  | inl e ↦ rw e (messages_woken sent)
  | inr e ↦ rw e (ap (λ (l : List Bytes). x ∷ l) (messages_woken sent))
]

wakeup_attempts-messages :
    (n : ℕ) (p : Port) → messages (wakeup_attempts n p).1.sent ≡ messages p.sent
unfolding wakeup_attempts flush send receive
wakeup_attempts-messages zero p = refl
wakeup_attempts-messages (suc n) p = elim (Bool-cases p.stop_requested) [
  | inl e ↦ rw e refl
  | inr e ↦ rw e (elim (Bool-cases (is_wakeup_response (next_read 2 p.inbox))) [
    | inl woken ↦ rw woken (messages_woken p.sent)
    | inr asleep ↦ rw asleep (wakeup_attempts-messages n _ ∙ messages_woken p.sent)
  ])
]

pub wakeup-messages : (p : Port) → messages (wakeup p).1.sent ≡ messages p.sent
unfolding wakeup
wakeup-messages = wakeup_attempts-messages 3

-- A step that raised did not return.
pub raised-ne-ok :
    {A : Type 0} (x : Exception) (p q : Port) (a : A)
    → ◌≡◌ {A = Outcome A × Port} (raised x, p) (ok a, q)
    → ⊥
raised-ne-ok x p q a e = cc

pub false-ne-true : (p q : Port) → ◌≡◌ {A = Outcome Bool × Port} (ok false, p) (ok true, q) → ⊥
false-ne-true p q e = cc

-- A block that returned had a first step that returned.
pub bind_returned :
    {A B : Type 0} (m : Io A) (f : A → Io B) (p q : Port) (b : B)
    → (m >>= f) p ≡ (ok b, q)
    → (a : A) × (p' : Port) × (m p ≡ (ok a, p')) × (f a p' ≡ (ok b, q))
bind_returned {A = A} {B = B} m f p q b e = go (m p).0 (m p).1 refl e
  where
    go :
        (o : Outcome A) (p' : Port)
        → m p ≡ (o, p')
        → ((λ (_ : Port). (o, p')) >>= f) p ≡ (ok b, q)
        → (a : A) × (p'' : Port) × (m p ≡ (ok a, p'')) × (f a p'' ≡ (ok b, q))
    go (ok a) p' e' h = (a, p', e', h)
    go (raised x) p' e' h = absurd (raised-ne-ok x p' q b h)
