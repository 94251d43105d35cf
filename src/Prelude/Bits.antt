-- ===== src/Prelude/Bits.antt =====
-- Laws of the exclusive or and of masks at variables, by recursion on the binary digits.
use Prim.Native.Nat.{digits, differ, bit_xor-bitwise}
use Prim.Native.Nat.{ℕ, zero, suc, ◌+◌, ◌*◌, ◌/◌, ◌%◌, ◌^◌, ◌≤◌, ◌<◌, bit_xor}
use mathlib.Core.Path.{◌≡◌, refl, ap, sym, ◌∙◌}
use native.Mathlib.Nat.{pow-suc}
use native.Mathlib.Omega.{arith}

-- The rounds left over do not matter once there are as many as the first number.
module _ (rest : ℕ → ℕ) (digit : ℕ → ℕ → ℕ) (y : ℕ) where
  digits_done : (rounds : ℕ) → digits rest digit rounds 0 y ≡ rest y
  digits_done zero = refl
  digits_done (suc rounds) = refl

module _ (rest : ℕ → ℕ) (digit : ℕ → ℕ → ℕ) where
  pub digits_stable :
      (x y rounds more : ℕ)
      → x ≤ rounds
      → x ≤ more
      → digits rest digit rounds x y ≡ digits rest digit more x y
  digits_stable zero y rounds more enough enough' =
      digits_done rest digit y rounds ∙ sym (digits_done rest digit y more)
  digits_stable (suc x) y (suc rounds) (suc more) enough enough' =
      ap (λ (high : ℕ). high * 2 + digit (suc x % 2) (y % 2))
        (digits_stable (suc x / 2) (y / 2) rounds more (omega arith) (omega arith))
  digits_stable (suc x) y zero more enough enough' = absurd (omega arith)
  digits_stable (suc x) y (suc rounds) zero enough enough' = absurd (omega arith)

-- One binary digit at a time; `parity` is the exclusive or of the two lowest digits.
abbrev parity : ℕ → ℕ → ℕ
parity a b = (a + b) % 2

differ-parity : (a b : ℕ) → a < 2 → b < 2 → differ a b ≡ parity a b
differ-parity zero b p q = omega arith
differ-parity (suc zero) zero p q = refl
differ-parity (suc zero) (suc zero) p q = refl
differ-parity (suc zero) (suc (suc b)) p q = absurd (omega arith)
differ-parity (suc (suc a)) b p q = absurd (omega arith)

pub zero-bit_xor : (b : ℕ) → bit_xor 0 b ≡ b
zero-bit_xor b = bit_xor-bitwise 0 b

xor_of_digits :
    (a b : ℕ) → bit_xor (suc a) b ≡ bit_xor (suc a / 2) (b / 2) * 2 + differ (suc a % 2) (b % 2)
xor_of_digits a b = omega (
  arith,
  bit_xor-bitwise (suc a) b,
  bit_xor-bitwise (suc a / 2) (b / 2),
  digits_stable (λ y. y) differ (suc a / 2) (b / 2) a (suc a / 2) (omega arith) (omega arith),
)

pub bit_xor_step : (a b : ℕ) → bit_xor a b ≡ bit_xor (a / 2) (b / 2) * 2 + (a % 2 + b % 2) % 2
bit_xor_step zero b = omega (arith, zero-bit_xor b, zero-bit_xor (b / 2))
bit_xor_step (suc a) b =
    omega (arith, xor_of_digits a b, differ-parity (suc a % 2) (b % 2) (omega arith) (omega arith))

-- Recursion on a bound that halves with the numbers.
bit_xor_self_below : (n a : ℕ) → a ≤ n → bit_xor a a ≡ 0
bit_xor_self_below n zero h = refl
bit_xor_self_below zero (suc a) h = absurd (omega arith)
bit_xor_self_below (suc n) (suc a) h =
    omega (arith, bit_xor_step (suc a) (suc a), bit_xor_self_below n (suc a / 2) (omega arith))

pub bit_xor_self : (a : ℕ) → bit_xor a a ≡ 0
bit_xor_self a = bit_xor_self_below a a (omega arith)

bit_xor_comm_below : (n a b : ℕ) → a ≤ n → b ≤ n → bit_xor a b ≡ bit_xor b a
bit_xor_comm_below zero zero zero p q = refl
bit_xor_comm_below zero (suc a) b p q = absurd (omega arith)
bit_xor_comm_below zero zero (suc b) p q = absurd (omega arith)
bit_xor_comm_below (suc n) a b p q = omega (
  arith,
  bit_xor_step a b,
  bit_xor_step b a,
  bit_xor_comm_below n (a / 2) (b / 2) (omega arith) (omega arith),
)

pub bit_xor_comm : (a b : ℕ) → bit_xor a b ≡ bit_xor b a
bit_xor_comm a b = bit_xor_comm_below (a + b) a b (omega arith) (omega arith)

pub bit_xor-zero : (a : ℕ) → bit_xor a 0 ≡ a
bit_xor-zero a = bit_xor_comm a 0 ∙ zero-bit_xor a

bit_xor_cancel_below : (n a b c : ℕ) → a ≤ n → bit_xor a b ≡ bit_xor a c → b ≡ c
bit_xor_cancel_below n zero b c h e = sym (zero-bit_xor b) ∙ e ∙ zero-bit_xor c
bit_xor_cancel_below zero (suc a) b c h e = absurd (omega arith)
bit_xor_cancel_below (suc n) (suc a) b c h e = omega (
  arith,
  bit_xor_step (suc a) b,
  bit_xor_step (suc a) c,
  bit_xor_cancel_below n (suc a / 2) (b / 2) (c / 2) (omega arith)
      (omega (arith, bit_xor_step (suc a) b, bit_xor_step (suc a) c)),
)

-- A value that is added by exclusive or can be taken off again.
pub bit_xor_cancel_left : (a b c : ℕ) → bit_xor a b ≡ bit_xor a c → b ≡ c
bit_xor_cancel_left a b c e = bit_xor_cancel_below a a b c (omega arith) e

pub bit_xor_cancel_right : (a b c : ℕ) → bit_xor b a ≡ bit_xor c a → b ≡ c
bit_xor_cancel_right a b c e = bit_xor_cancel_left a b c (bit_xor_comm a b ∙ e ∙ bit_xor_comm c a)

mul-two-pow : (q k : ℕ) → q * 2 ^ suc k ≡ 2 * (q * 2 ^ k)
mul-two-pow q k = omega (arith, ap (λ (t : ℕ). q * t) (pow-suc 2 k))

-- High and low fields are combined separately, and the low field keeps its width.
pub bit_xor_fields :
    (k q r p s : ℕ)
    → r < 2 ^ k
    → s < 2 ^ k
    → (bit_xor (q * 2 ^ k + r) (p * 2 ^ k + s) ≡ bit_xor q p * 2 ^ k + bit_xor r s)
      × (bit_xor r s < 2 ^ k)
bit_xor_fields zero q r p s hr hs =
    let r0 : r ≡ 0 = omega arith in
    let s0 : s ≡ 0 = omega arith in
    rw (r0, s0) (ground (arith, bit_xor-zero 0), omega (arith, bit_xor-zero 0))
bit_xor_fields (suc k) q r p s hr hs =
    let ih =
      bit_xor_fields k q (r / 2) p (s / 2) (omega (arith, pow-suc 2 k))
        (omega (arith, pow-suc 2 k)) in
    (
      ground (
        arith,
        bit_xor_step (q * 2 ^ suc k + r) (p * 2 ^ suc k + s),
        bit_xor_step r s,
        mul-two-pow q k,
        mul-two-pow p k,
        mul-two-pow (bit_xor q p) k,
        ih,
      ),
      omega (arith, bit_xor_step r s, pow-suc 2 k, ih),
    )

bit_xor_assoc_below :
    (n a b c : ℕ) → a ≤ n → b ≤ n → bit_xor (bit_xor a b) c ≡ bit_xor a (bit_xor b c)
bit_xor_assoc_below n zero b c p q =
    ap (λ (t : ℕ). bit_xor t c) (zero-bit_xor b) ∙ sym (zero-bit_xor (bit_xor b c))
bit_xor_assoc_below zero (suc a) b c p q = absurd (omega arith)
bit_xor_assoc_below (suc n) (suc a) b c p q =
    let x = suc a in
    let half : bit_xor (bit_xor x b / 2) (c / 2) ≡ bit_xor (x / 2) (bit_xor b c / 2) =
      ap (λ (t : ℕ). bit_xor t (c / 2)) (omega (arith, bit_xor_step x b))
      ∙ bit_xor_assoc_below n (x / 2) (b / 2) (c / 2) (omega arith) (omega arith)
      ∙ ap (λ (t : ℕ). bit_xor (x / 2) t) (omega (arith, bit_xor_step b c)) in
    omega (
      arith,
      half,
      bit_xor_step (bit_xor x b) c,
      bit_xor_step x (bit_xor b c),
      bit_xor_step x b,
      bit_xor_step b c,
    )

pub bit_xor_assoc : (a b c : ℕ) → bit_xor (bit_xor a b) c ≡ bit_xor a (bit_xor b c)
bit_xor_assoc a b c = bit_xor_assoc_below (a + b) a b c (omega arith) (omega arith)

-- Exclusive or of the quotients and of the remainders by 256 and by 65536.
module _ (a b : ℕ) where
  pub bit_xor-mod_byte : bit_xor a b % 256 ≡ bit_xor (a % 256) (b % 256)
  bit_xor-mod_byte =
      ground (
        arith,
        bit_xor_fields 8 (a / 256) (a % 256) (b / 256) (b % 256) (omega arith) (omega arith),
      )

  pub bit_xor-div_byte : bit_xor a b / 256 ≡ bit_xor (a / 256) (b / 256)
  bit_xor-div_byte =
      ground (
        arith,
        bit_xor_fields 8 (a / 256) (a % 256) (b / 256) (b % 256) (omega arith) (omega arith),
      )

  pub bit_xor-div_half : bit_xor a b / 32768 ≡ bit_xor (a / 32768) (b / 32768)
  bit_xor-div_half = ground (
    arith,
    bit_xor_fields 15 (a / 32768) (a % 32768) (b / 32768) (b % 32768) (omega arith) (omega arith),
  )

  pub bit_xor-mod_word : bit_xor a b % 65536 ≡ bit_xor (a % 65536) (b % 65536)
  bit_xor-mod_word = ground (
    arith,
    bit_xor_fields 16 (a / 65536) (a % 65536) (b / 65536) (b % 65536) (omega arith) (omega arith),
  )

  pub bit_xor-lt_word : a < 65536 → b < 65536 → bit_xor a b < 65536
  bit_xor-lt_word p q = omega (arith, bit_xor_fields 16 0 a 0 b p q)

  pub bit_xor-lt_byte : a < 256 → b < 256 → bit_xor a b < 256
  bit_xor-lt_byte p q = omega (arith, bit_xor_fields 8 0 a 0 b p q)

  pub bit_xor_double : bit_xor (2 * a) (2 * b) ≡ 2 * bit_xor a b
  bit_xor_double = ground (arith, bit_xor_step (2 * a) (2 * b))
