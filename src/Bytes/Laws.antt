-- ===== src/Bytes/Laws.antt =====
-- Reads of a prefix, and bounds of the fields.
use kanfei.Prelude.{
  ℕ, zero, suc, ◌+◌, ◌<◌, ◌≡◌, List, [], ◌∷◌, arith, All, take, get_or, ltb, if◌then◌else◌,
}
use kanfei.Bytes.{Bytes, byte_at, u16_at}

get_or-take :
    (n : ℕ) (xs : List ℕ) (i : ℕ) → get_or (take n xs) i 0 ≡ (if ltb i n then get_or xs i 0 else 0)
get_or-take zero xs i = ground arith
get_or-take (suc n) [] i = ground arith
get_or-take (suc n) (x ∷ xs) zero = ground arith
get_or-take (suc n) (x ∷ xs) (suc i) = ground (arith, get_or-take n xs i)

-- The first `n` bytes answer every read below `n`.
pub byte_at-take :
    (n : ℕ) (xs : Bytes) (i : ℕ) → byte_at (take n xs) i ≡ (if ltb i n then byte_at xs i else 0)
unfolding byte_at
byte_at-take n xs i = get_or-take n xs i

pub byte_at-lt : (xs : Bytes) (i : ℕ) → All (λ b. b < 256) xs → byte_at xs i < 256
unfolding byte_at
byte_at-lt [] i h = omega arith
byte_at-lt (x ∷ xs) zero h = h.0
byte_at-lt (x ∷ xs) (suc i) h = byte_at-lt xs i h.1

pub u16_at-lt : (xs : Bytes) (i : ℕ) → All (λ b. b < 256) xs → u16_at xs i < 65536
unfolding u16_at
u16_at-lt xs i h = omega (arith, byte_at-lt xs i h, byte_at-lt xs (i + 1) h)
