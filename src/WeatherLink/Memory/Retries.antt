-- ===== src/WeatherLink/Memory/Retries.antt =====
-- The attempts of backend/app/protocol/link_driver.py over a noisy line: every method that sends a
-- command, waits for its ACK and reads an answer tries three times.
use kanfei.Prelude.{
  ℕ, zero, suc, ◌<◌, ◌≡◌, ap, ◌∙◌, Bool, true, false, Option, none, some, List, [], ◌∷◌, ◌++◌,
  arith, All, Each, length, replicate, append_assoc, if◌then◌else◌,
}
use kanfei.Bytes.{Bytes}
use kanfei.Vantage.Link.{Port, Outcome, ok, raised, Io}
use kanfei.Vantage.Link.Delivered.{Within, Gives}
use kanfei.Vantage.Transfer.{ack}
use kanfei.Vantage.Transfer.Recovery.{port}
use kanfei.WeatherLink.Memory.{retried, after_once}

-- What the attempts end with: no exception, and nothing or a good answer.
abbrev pub Settled : {A : Type 0} → (A → Type 0) → Outcome (Option A) → Type 0
Settled Good (ok result) = Each Good result
Settled Good (raised e) = ⊥

-- Attempts over a line of these reads, each of `k` bytes at most.
module _ {A : Type 0} (Good : A → Type 0) (once : Io (Option A)) (k : ℕ)
    (inbox : List (Bytes × Bool))
    (good : (p : Port) → Within k inbox p → Gives k inbox (Each Good) (once p)) where
  after_once-Settled :
      (rest : Io (Option A))
      → ((p : Port) → Within k inbox p → Settled Good (rest p).0)
      → (o : Outcome (Option A)) (q : Port) → Gives k inbox (Each Good) (o, q)
      → Settled Good (after_once rest (o, q)).0
  after_once-Settled rest h (ok (some a)) q g = g.0
  after_once-Settled rest h (ok none) q g = h q g.1
  after_once-Settled rest h (raised e) q g = h q g.1

  if-Settled :
      (b : Bool) (x y : Outcome (Option A) × Port)
      → Settled Good x.0
      → Settled Good y.0
      → Settled Good (if b then x else y).0
  if-Settled true x y hx hy = hx
  if-Settled false x y hx hy = hy

  pub retried-Settled : (n : ℕ) (p : Port) → Within k inbox p → Settled Good (retried once n p).0
  unfolding retried
  retried-Settled zero p w = tt
  retried-Settled (suc n) p w =
      if-Settled p.stop_requested (ok none, p) (after_once (retried once n) (once p)) tt
        (after_once-Settled (retried once n) (retried-Settled n) (once p).0 (once p).1 (good p w))

-- An attempt in vain: something else than an ACK, or an answer that is no good.
pub data Vain : Type 0 where
  unanswered : Bytes → Vain
  spoiled : Bytes → Vain

abbrev pub one_vain : Vain → List (Bytes × Bool) → List (Bytes × Bool)
one_vain (unanswered bytes) rest = (bytes, false) ∷ rest
one_vain (spoiled wire) rest = (ack ∷ [], false) ∷ (wire, false) ∷ rest

abbrev pub in_vain : List Vain → List (Bytes × Bool) → List (Bytes × Bool)
in_vain [] rest = rest
in_vain (v ∷ vs) rest = one_vain v (in_vain vs rest)

module _ {A : Type 0} (once : Io (Option A)) (command : Bytes) (IsVain : Vain → Type 0)
    (vain : (v : Vain) (rest : List (Bytes × Bool)) (sent : List Bytes)
      → IsVain v
      → once (port (one_vain v rest) sent) ≡ (ok none, port rest (sent ++ command ∷ [])))
    (wire : Bytes) (a : A)
    (good : (rest : List (Bytes × Bool)) (sent : List Bytes)
      → once (port ((ack ∷ [], false) ∷ (wire, false) ∷ rest) sent)
        ≡ (ok (some a), port rest (sent ++ command ∷ []))) where
  -- An attempt that gets a good answer ends the loop, when those before it were in vain; the command was
  -- sent once for each.
  pub retried_recovers :
      (k : ℕ) (vs : List Vain) (rest : List (Bytes × Bool)) (sent : List Bytes)
      → length vs < k
      → All IsVain vs
      → retried once k (port (in_vain vs ((ack ∷ [], false) ∷ (wire, false) ∷ rest)) sent)
        ≡ (ok (some a), port rest (sent ++ command ∷ replicate (length vs) command))
  unfolding retried
  retried_recovers zero vs rest sent few h = absurd (omega arith)
  retried_recovers (suc k) [] rest sent few h = ap (after_once (retried once k)) (good rest sent)
  retried_recovers (suc k) (v ∷ vs) rest sent few h =
      ap (after_once (retried once k))
        (vain v (in_vain vs ((ack ∷ [], false) ∷ (wire, false) ∷ rest)) sent h.0)
      ∙ retried_recovers k vs rest (sent ++ command ∷ []) (omega arith) h.1
      ∙ ap (λ (lines : List Bytes). (ok (some a), port rest lines))
          (append_assoc sent (command ∷ []) (replicate (suc (length vs)) command))
