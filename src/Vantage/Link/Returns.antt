-- ===== src/Vantage/Link/Returns.antt =====
-- What a method of backend/app/protocol/vantage/driver.py returns when it does not raise, over its
-- steps.
use kanfei.Vantage.Link.{Port, Outcome, ok, raised, Io, ◌>>=◌, ◌>>◌}

-- A value that is returned satisfies `P`.
abbrev pub WhenOk : {A : Type 0} → (A → Type 0) → Outcome A → Type 0
WhenOk P (ok a) = P a
WhenOk P (raised e) = Unit

abbrev pub Anything : {A : Type 0} → A → Type 0
Anything a = Unit

pub anything : {A : Type 0} (m : Io A) (p : Port) → WhenOk Anything (m p).0
anything m p = go (m p).0
  where
    go : {A : Type 0} (o : Outcome A) → WhenOk Anything o
    go (ok a) = tt
    go (raised e) = tt

module _ {A B : Type 0} (Q : A → Type 0) (P : B → Type 0) (m : Io A) (f : A → Io B) where
  pub when_ok-bind :
      ((p : Port) → WhenOk Q (m p).0)
      → ((a : A) → Q a → (p : Port) → WhenOk P (f a p).0)
      → (p : Port) → WhenOk P ((m >>= f) p).0
  when_ok-bind hm hf p = go (m p).0 (m p).1 (hm p)
    where
      go : (o : Outcome A) (q : Port) → WhenOk Q o → WhenOk P (((λ (_ : Port). (o, q)) >>= f) p).0
      go (ok a) q h = hf a h q
      go (raised e) q h = tt

pub after :
    {A B : Type 0} (P : B → Type 0) (m : Io A) (k : Io B)
    → ((p : Port) → WhenOk P (k p).0)
    → (p : Port) → WhenOk P ((m >> k) p).0
after P m k h = when_ok-bind Anything P m (λ _. k) (anything m) (λ a _. h)
