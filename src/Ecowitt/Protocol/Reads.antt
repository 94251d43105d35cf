-- ===== src/Ecowitt/Protocol/Reads.antt =====
-- Reads of backend/app/protocol/ecowitt/protocol.py one after the other, and what they were given.
use kanfei.Prelude.{
  ℕ, zero, suc, ◌≡◌, refl, sym, ap, ap₂, ◌∙◌, false, Bool-cases, inl, inr, [], ◌∷◌, ◌++◌, length,
  take, drop, ltb, ltb_ge, get_or, arith, length-append, length-take, take-append-drop, take-append,
}
use kanfei.Bytes.{Bytes, byte_at}
use kanfei.Ecowitt.Protocol.{Failure, Result, ok, failed, Wire, ◌>>=◌, readexactly}

drop-append : (xs ys : Bytes) → drop (length xs) (xs ++ ys) ≡ ys
drop-append [] ys = refl
drop-append (x ∷ xs) ys = drop-append xs ys

get_or-append : (xs ys : Bytes) (y d : ℕ) → get_or (xs ++ y ∷ ys) (length xs) d ≡ y
get_or-append [] ys y d = refl
get_or-append (x ∷ xs) ys y d = get_or-append xs ys y d

pub byte_at-append : (xs : Bytes) (y : ℕ) → byte_at (xs ++ y ∷ []) (length xs) ≡ y
unfolding byte_at
byte_at-append xs y = get_or-append xs [] y 0

pub ok-injective :
    {A : Type 0} {a b : A} {s t : Bytes}
    → ◌≡◌ {A = Result (A × Bytes)} (ok (a, s)) (ok (b, t))
    → (a ≡ b) × (s ≡ t)
ok-injective h = (cc, cc)

pub take_whole : (n : ℕ) (s : Bytes) → ltb (length s) n ≡ false → length (take n s) ≡ n
take_whole n s h = length-take n s ∙ ground (arith, h)

module _ (ending : Failure) where
  pub readexactly-append :
      (n : ℕ) (xs ys : Bytes) → length xs ≡ n → readexactly ending n (xs ++ ys) ≡ ok (xs, ys)
  unfolding readexactly
  readexactly-append n xs ys e =
      rw (← e, ltb_ge (length xs) (length (xs ++ ys)) (omega (arith, length-append xs ys)))
        (ap₂ (λ (a b : Bytes). ok (a, b)) (take-append xs ys) (drop-append xs ys))

  -- What a read that succeeds was given.
  pub readexactly-ok :
      (n : ℕ) (s xs ys : Bytes)
      → readexactly ending n s ≡ ok (xs, ys)
      → (length xs ≡ n) × (s ≡ xs ++ ys)
  unfolding readexactly
  readexactly-ok n s xs ys h = elim (Bool-cases (ltb (length s) n)) [
    | inl short ↦ absurd (clash (rw short at h))
    | inr long ↦
        let both = ok-injective (rw long at h) in
        (
          ap length (sym both.0) ∙ take_whole n s long,
          sym (take-append-drop n s) ∙ ap₂ (λ (a b : Bytes). a ++ b) both.0 both.1,
        )
  ]
    where
      clash : {A : Type 0} {a : A} {e : Failure} → failed e ≡ ok a → ⊥
      clash e = cc

pub bind-eq-ok :
    {A B : Type 0} (m : Wire A) (f : A → Wire B) (s : Bytes) (b : B) (t : Bytes)
    → (m >>= f) s ≡ ok (b, t)
    → (a : A) × (s' : Bytes) × (m s ≡ ok (a, s')) × (f a s' ≡ ok (b, t))
bind-eq-ok {A = A} {B = B} m f s b t = go (m s)
  where
    go :
        (r : Result (A × Bytes))
        → ((λ (_ : Bytes). r) >>= f) s ≡ ok (b, t)
        → (a : A) × (s' : Bytes) × (r ≡ ok (a, s')) × (f a s' ≡ ok (b, t))
    go (ok (a, s')) h = (a, s', refl, h)
    go (failed e) h = cc

pub bind-ok :
    {A B : Type 0} (m : Wire A) (f : A → Wire B) (s : Bytes) (a : A) (t : Bytes)
    → m s ≡ ok (a, t)
    → (m >>= f) s ≡ f a t
bind-ok {A = A} m f s a t e = ap (λ (r : Result (A × Bytes)). ((λ (_ : Bytes). r) >>= f) s) e

pub fail-ne-ok : {A : Type 0} {a : A} {e : Failure} → failed e ≡ ok a → ⊥
fail-ne-ok e = cc

-- A list and its last byte.
pub last_byte : (xs : Bytes) (n : ℕ) → length xs ≡ suc n → xs ≡ take n xs ++ byte_at xs n ∷ []
unfolding byte_at
last_byte [] n e = absurd (omega (arith, e))
last_byte (x ∷ []) zero e = refl
last_byte (x ∷ y ∷ xs) zero e = absurd (omega (arith, e))
last_byte (x ∷ xs) (suc n) e = ap (λ (t : Bytes). x ∷ t) (last_byte xs n (omega (arith, e)))
