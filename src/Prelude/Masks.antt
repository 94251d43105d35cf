-- ===== src/Prelude/Masks.antt =====
-- A conjunction with k ones is the remainder by 2 ^ k.
use Prim.Native.Nat.{bit_and-bitwise}
use Prim.Native.Nat.{ℕ, zero, suc, ◌+◌, ◌*◌, ◌/◌, ◌%◌, ◌<◌, min, bit_and}
use mathlib.Core.Path.{◌≡◌, refl}
use native.Mathlib.Omega.{arith}
use kanfei.Prelude.Bits.{digits_stable}

bit_and_step :
    (word mask : ℕ)
    → bit_and word mask ≡ bit_and (word / 2) (mask / 2) * 2 + min (word % 2) (mask % 2)
bit_and_step zero mask = omega (arith, bit_and-bitwise 0 (mask / 2), bit_and-bitwise 0 mask)
bit_and_step (suc w) mask =
    let half = suc w / 2 in
    let rounds = digits_stable (λ y. 0) min half (mask / 2) w half (omega arith) (omega arith) in
    omega (arith, rounds, bit_and-bitwise half (mask / 2), bit_and-bitwise (suc w) mask)

-- No bit is left when the mask is used up.
mask0 : (word bound : ℕ) → word < bound → bit_and word 0 ≡ 0
mask0 word zero below = absurd (omega arith)
mask0 zero (suc bound) below = refl
mask0 (suc w) (suc bound) below =
    omega (arith, mask0 (suc w / 2) bound (omega arith), bit_and_step (suc w) 0)

pub mask1 : (a : ℕ) → bit_and a 1 ≡ a % 2
mask1 a = omega (arith, mask0 (a / 2) (suc a) (omega arith), bit_and_step a 1)

mask2 : (a : ℕ) → bit_and a 3 ≡ a % 4
mask2 a = omega (arith, bit_and_step a 3, mask1 (a / 2))

mask3 : (a : ℕ) → bit_and a 7 ≡ a % 8
mask3 a = omega (arith, bit_and_step a 7, mask2 (a / 2))

pub mask4 : (a : ℕ) → bit_and a 0x0F ≡ a % 16
mask4 a = omega (arith, bit_and_step a 0x0F, mask3 (a / 2))

pub mask5 : (a : ℕ) → bit_and a 0x1F ≡ a % 32
mask5 a = omega (arith, bit_and_step a 0x1F, mask4 (a / 2))

mask6 : (a : ℕ) → bit_and a 0x3F ≡ a % 64
mask6 a = omega (arith, bit_and_step a 0x3F, mask5 (a / 2))

pub mask7 : (a : ℕ) → bit_and a 0x7F ≡ a % 128
mask7 a = omega (arith, bit_and_step a 0x7F, mask6 (a / 2))

pub mask8 : (a : ℕ) → bit_and a 0xFF ≡ a % 256
mask8 a = omega (arith, bit_and_step a 0xFF, mask7 (a / 2))

mask12 : (a : ℕ) → bit_and a 0xFFF ≡ a % 4096
mask12 a = omega (
  arith,
  bit_and_step a 0xFFF,
  bit_and_step (a / 2) 0x7FF,
  bit_and_step (a / 2 / 2) 0x3FF,
  bit_and_step (a / 2 / 2 / 2) 0x1FF,
  mask8 (a / 2 / 2 / 2 / 2),
)

pub mask16 : (a : ℕ) → bit_and a 0xFFFF ≡ a % 65536
mask16 a = omega (
  arith,
  bit_and_step a 0xFFFF,
  bit_and_step (a / 2) 0x7FFF,
  bit_and_step (a / 2 / 2) 0x3FFF,
  bit_and_step (a / 2 / 2 / 2) 0x1FFF,
  mask12 (a / 2 / 2 / 2 / 2),
)

-- The test of the highest bit of a word.
pub top_bit : (a : ℕ) → bit_and a 0x8000 ≡ a / 32768 % 2 * 32768
top_bit a = omega (
  arith,
  high12 (a / 2 / 2 / 2),
  bit_and_step a 0x8000,
  bit_and_step (a / 2) 0x4000,
  bit_and_step (a / 2 / 2) 0x2000,
)
  where
    high4 : (x : ℕ) → bit_and x 0x10 ≡ x / 16 % 2 * 16
    high4 x = omega (
      arith,
      bit_and_step x 0x10,
      bit_and_step (x / 2) 0x8,
      bit_and_step (x / 2 / 2) 0x4,
      bit_and_step (x / 2 / 2 / 2) 0x2,
      mask1 (x / 2 / 2 / 2 / 2),
    )

    high8 : (x : ℕ) → bit_and x 0x100 ≡ x / 256 % 2 * 256
    high8 x = omega (
      arith,
      bit_and_step x 0x100,
      bit_and_step (x / 2) 0x80,
      bit_and_step (x / 2 / 2) 0x40,
      bit_and_step (x / 2 / 2 / 2) 0x20,
      high4 (x / 2 / 2 / 2 / 2),
    )

    high12 : (x : ℕ) → bit_and x 0x1000 ≡ x / 4096 % 2 * 4096
    high12 x = omega (
      arith,
      bit_and_step x 0x1000,
      bit_and_step (x / 2) 0x800,
      bit_and_step (x / 2 / 2) 0x400,
      bit_and_step (x / 2 / 2 / 2) 0x200,
      high8 (x / 2 / 2 / 2 / 2),
    )
