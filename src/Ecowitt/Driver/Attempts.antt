-- ===== src/Ecowitt/Driver/Attempts.antt =====
-- What the attempts of `poll` of backend/app/protocol/ecowitt/driver.py come to.
use kanfei.Prelude.{
  ℕ, zero, suc, ◌+◌, ◌-◌, ◌<◌, ◌≡◌, refl, ap, ap₂, ◌∙◌, Bool, true, false, not, Bool-cases, inl,
  inr, Option, none, some, [], ◌≤◌, arith,
}
use kanfei.Bytes.{Bytes}
use kanfei.Floats.{Float}
use kanfei.Ecowitt.Protocol.{Failure, Result, ok, failed, Gateway, send_command}
use kanfei.Ecowitt.Sensors.{parse_live_data}
use kanfei.Ecowitt.Driver.{
  Readings, raw_to_snapshot, cmd_livedata, live_attempts, is_caught, settled_by, poll_from, poll,
}

module _ (attempt : ℕ → Gateway × Bool) where
  abbrev pub live_data : ℕ → Result Bytes
  live_data i = send_command (attempt i).0 cmd_livedata []

  -- The attempts `i`, …, `i + k - 1` fail in a way that is caught, and no stop is requested in them.
  abbrev pub InVain : ℕ → ℕ → Type 0
  InVain i zero = Unit
  InVain i (suc k) =
      ((e : Failure) × (live_data i ≡ failed e) × (is_caught e ≡ true))
      × ((attempt i).1 ≡ false)
      × InVain (i + 1) k

-- What is held of the connection after `k` attempts in vain.
abbrev pub held : ℕ → Bool → Bool
held zero connected = connected
held (suc k) connected = false

held_again : (k : ℕ) → held k false ≡ false
held_again zero = refl
held_again (suc k) = refl

-- A result that ends the attempts: a payload, or an exception that is not caught.
abbrev pub is_final : Result Bytes → Bool
is_final (ok payload) = true
is_final (failed e) = not (is_caught e)

module _ {F : Type 0} ⦃fl : Float F⦄ where
  abbrev pub outcome : Bool → Result Bytes → Result (Option (Readings F)) × Bool
  outcome connected (ok payload) = (ok (some (raw_to_snapshot (parse_live_data payload))), true)
  outcome connected (failed e) = (failed e, connected)

  settled_by-final :
      (rest : Bool → Result (Option (Readings F)) × Bool) (connected : Bool) (r : Result Bytes)
      → is_final r ≡ true
      → settled_by rest connected r ≡ outcome connected r
  settled_by-final rest connected (ok payload) h = refl
  settled_by-final rest connected (failed e) h = elim (Bool-cases (is_caught e)) [
    | inl caught ↦ absurd (clash (rw caught at h))
    | inr escapes ↦ rw escapes refl
  ]
    where
      clash : false ≡ true → ⊥
      clash e = cc

module _ {F : Type 0} ⦃fl : Float F⦄ (attempt : ℕ → Gateway × Bool) where
  one_in_vain :
      (n i : ℕ) (connected : Bool) (e : Failure)
      → live_data attempt i ≡ failed e
      → is_caught e ≡ true
      → (attempt i).1 ≡ false
      → poll_from {F = F} attempt (suc n) i false connected
        ≡ poll_from attempt n (i + 1) false false
  unfolding poll_from
  one_in_vain n i connected e fails caught runs =
      ap (settled_by (poll_from attempt n (i + 1) (attempt i).1) connected) fails
      ∙ rw caught (ap (λ (stop : Bool). poll_from attempt n (i + 1) stop false) runs)

  poll_from-InVain :
      (k n i : ℕ) (connected : Bool)
      → k ≤ n
      → InVain attempt i k
      → poll_from {F = F} attempt n i false connected
        ≡ poll_from attempt (n - k) (i + k) false (held k connected)
  poll_from-InVain zero n i connected h vain =
      ap₂ (λ (m j : ℕ). poll_from attempt m j false connected) (omega arith) (omega arith)
  poll_from-InVain (suc k) zero i connected h vain = absurd (omega arith)
  poll_from-InVain (suc k) (suc n) i connected h ((e, fails, caught), runs, more) =
      one_in_vain n i connected e fails caught runs
      ∙ poll_from-InVain k n (i + 1) false (omega arith) more
      ∙ ap (λ (b : Bool). poll_from attempt (n - k) (i + 1 + k) false b) (held_again k)
      ∙ ap₂ (λ (m j : ℕ). poll_from attempt m j false false) (omega arith) (omega arith)

  reaches :
      (k : ℕ) (connected : Bool)
      → k < live_attempts
      → InVain attempt 0 k
      → poll {F = F} attempt false connected
        ≡ poll_from attempt (suc (2 - k)) k false (held k connected)
  unfolding poll
  reaches k connected h vain =
      let left : 3 - k ≡ suc (2 - k) = omega arith in
      let at : 0 + k ≡ k = omega arith in
      poll_from-InVain k 3 0 connected (omega arith) vain
      ∙ ap₂ (λ (m j : ℕ). poll_from attempt m j false (held k connected)) left at

  -- With no stop requested, and when the attempts before the `k`-th, one of the three, met exceptions that are
  -- caught: if the `k`-th gets a payload, `poll` returns its snapshot and the driver is connected; if it
  -- meets the IncompleteReadError of a connection that is closed too early, this leaves `poll`, and what
  -- was held of the connection stays.
  pub poll_settles :
      (k : ℕ) (connected : Bool)
      → k < live_attempts
      → InVain attempt 0 k
      → is_final (live_data attempt k) ≡ true
      → poll {F = F} attempt false connected ≡ outcome (held k connected) (live_data attempt k)
  unfolding poll_from
  poll_settles k connected h vain final =
      reaches k connected h vain
      ∙ settled_by-final (poll_from attempt (2 - k) (k + 1) (attempt k).1) (held k connected)
          (live_data attempt k) final

  -- When all three attempts meet exceptions that are caught, and no stop is requested, `poll` returns None.
  poll_gives_up :
      (connected : Bool)
      → InVain attempt 0 live_attempts
      → poll {F = F} attempt false connected ≡ (ok none, false)
  unfolding poll poll_from
  poll_gives_up connected all = poll_from-InVain 3 3 0 connected (omega arith) all
