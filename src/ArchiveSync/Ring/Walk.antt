-- ===== src/ArchiveSync/Ring/Walk.antt =====
-- The addresses that the ring is read at.
use kanfei.Prelude.{
  ℕ, zero, suc, ◌+◌, ◌-◌, ◌*◌, ◌≤◌, ◌<◌, ◌≡◌, ◌≢◌, refl, ap, ◌∙◌, false, Option, none, some, List,
  [], ◌∷◌, ◌++◌, ltb, ◌==◌, arith, All, All-impl, All-append, get_elem?, Bool-cases, inl, inr,
  if◌then◌else◌, ltb→lt,
}
use kanfei.ArchiveSync.Ring.{sram_max_addr, walk, sweep, iter_archive_addresses}

-- No number twice.
abbrev pub Distinct : List ℕ → Type 0
Distinct [] = Unit
Distinct (x ∷ xs) = All (λ y. x ≢ y) xs × Distinct xs

Distinct-append :
    (xs ys : List ℕ)
    → Distinct xs
    → Distinct ys
    → All (λ x. All (λ y. x ≢ y) ys) xs
    → Distinct (xs ++ ys)
Distinct-append [] ys h h' apart = h'
Distinct-append (x ∷ xs) ys h h' apart =
    (All-append (λ y. x ≢ y) xs ys h.0 apart.0, Distinct-append xs ys h.1 h' apart.1)

-- The address `i` records after the first, as long as that is before the end.
abbrev pub position : ℕ → ℕ → ℕ → ℕ → Option ℕ
position record_size limit addr i =
    if ltb (addr + i * record_size) limit then some (addr + i * record_size) else none

module _ (record_size limit : ℕ) (moves : 0 < record_size) where
  walk-within :
      (rounds addr : ℕ) → All (λ a. (addr ≤ a) × (a < limit)) (walk rounds addr limit record_size)
  unfolding walk
  walk-within zero addr = tt
  walk-within (suc rounds) addr = elim (Bool-cases (ltb addr limit)) [
    | inl e ↦ rw e (
      (omega arith, ltb→lt addr limit e),
      All-impl (λ a. (addr + record_size ≤ a) × (a < limit)) (λ a. (addr ≤ a) × (a < limit))
          (λ a h. (omega (arith, h.0), h.1)) _ (walk-within rounds (addr + record_size)),
    )
    | inr e ↦ rw e tt
  ]

  walk-Distinct : (rounds addr : ℕ) → Distinct (walk rounds addr limit record_size)
  unfolding walk
  walk-Distinct zero addr = tt
  walk-Distinct (suc rounds) addr = elim (Bool-cases (ltb addr limit)) [
    | inl e ↦ rw e (
      All-impl (λ a. (addr + record_size ≤ a) × (a < limit)) (λ a. addr ≢ a)
          (λ a h same. omega (arith, h.0, same, moves)) _ (walk-within rounds (addr + record_size)),
      walk-Distinct rounds (addr + record_size),
    )
    | inr e ↦ rw e tt
  ]

  next_position : (addr i : ℕ) → addr + record_size + i * record_size ≡ addr + suc i * record_size
  next_position addr i = grind arith

  walk-position :
      (rounds addr i : ℕ)
      → limit - addr ≤ rounds
      → get_elem? (walk rounds addr limit record_size) i ≡ position record_size limit addr i
  unfolding walk
  walk-position zero addr i enough = ground (arith, enough)
  walk-position (suc rounds) addr zero enough = ground arith
  walk-position (suc rounds) addr (suc i) enough = elim (Bool-cases (ltb addr limit)) [
    | inl e ↦ rw e (
        walk-position rounds (addr + record_size) i (omega (arith, enough, moves))
        ∙ ap (λ (a : ℕ). if ltb a limit then some a else none) (next_position addr i))
    | inr e ↦ ground (arith, e)
  ]

  walk-same :
      (rounds rounds' addr : ℕ)
      → limit - addr ≤ rounds
      → limit - addr ≤ rounds'
      → walk rounds addr limit record_size ≡ walk rounds' addr limit record_size
  unfolding walk
  walk-same zero zero addr h h' = refl
  walk-same zero (suc rounds') addr h h' = ground (arith, h)
  walk-same (suc rounds) zero addr h h' = ground (arith, h')
  walk-same (suc rounds) (suc rounds') addr h h' =
      ap (λ (rest : List ℕ). if ltb addr limit then addr ∷ rest else [])
        (walk-same rounds rounds' (addr + record_size) (omega (arith, h, moves))
          (omega (arith, h', moves)))

-- For a record size above 0 each loop over the ring ends, within as many rounds as the distance to its
-- end: more rounds give the same addresses, and the `i`-th of them is `i` records after the first, as
-- long as that is before the end.
pub sweep_ends :
    (addr limit record_size rounds i : ℕ)
    → 0 < record_size
    → limit - addr ≤ rounds
    → (walk rounds addr limit record_size ≡ sweep addr limit record_size)
      × (get_elem? (sweep addr limit record_size) i ≡ position record_size limit addr i)
unfolding sweep
sweep_ends addr limit record_size rounds i moves enough = (
  walk-same record_size limit moves rounds (limit - addr) addr enough (omega arith),
  walk-position record_size limit moves (limit - addr) addr i (omega arith),
)

-- Every address that the ring is read at is below the reserved part of the SRAM and none is read twice,
-- wrapped around or not, when the newest pointer is not in that part and the record size is above 0.
pub iter_archive_addresses-Distinct :
    (old_ptr new_ptr record_size : ℕ)
    → 0 < record_size
    → new_ptr ≤ sram_max_addr
    → Distinct (iter_archive_addresses old_ptr new_ptr record_size)
      × All (λ a. a < sram_max_addr) (iter_archive_addresses old_ptr new_ptr record_size)
unfolding iter_archive_addresses sweep
iter_archive_addresses-Distinct old_ptr new_ptr record_size moves inside =
    elim (Bool-cases (old_ptr == new_ptr)) [
      | inl e ↦ rw e (tt, tt)
      | inr e ↦ rw e (elim (Bool-cases (ltb old_ptr new_ptr)) [
        | inl e' ↦ rw e' (
          walk-Distinct record_size new_ptr moves (new_ptr - old_ptr) old_ptr,
          All-impl (λ a. (old_ptr ≤ a) × (a < new_ptr)) (λ a. a < sram_max_addr)
              (λ a h. omega (arith, h.1, inside)) _
              (walk-within record_size new_ptr moves (new_ptr - old_ptr) old_ptr),
        )
        | inr e' ↦ rw e' (wrapped e')
      ])
    ]
  where
    wrapped :
        ltb old_ptr new_ptr ≡ false
        → Distinct (
            walk (sram_max_addr - old_ptr) old_ptr sram_max_addr record_size
            ++ walk (new_ptr - 0) 0 new_ptr record_size)
          × All
              (λ a. a < sram_max_addr)
              (walk (sram_max_addr - old_ptr) old_ptr sram_max_addr record_size
                ++ walk (new_ptr - 0) 0 new_ptr record_size)
    wrapped later =
        let old = walk-within record_size sram_max_addr moves (sram_max_addr - old_ptr) old_ptr in
        let new = walk-within record_size new_ptr moves (new_ptr - 0) 0 in
        (
          Distinct-append _ _
              (walk-Distinct record_size sram_max_addr moves (sram_max_addr - old_ptr) old_ptr)
              (walk-Distinct record_size new_ptr moves (new_ptr - 0) 0)
              (All-impl (λ a. (old_ptr ≤ a) × (a < sram_max_addr)) (λ a. All (λ b. a ≢ b) _)
                (λ a h.
                  All-impl (λ b. (0 ≤ b) × (b < new_ptr)) (λ b. a ≢ b)
                    (λ b h' same. ground (arith, later, h.0, h'.1, same)) _ new)
                _ old),
          All-append (λ a. a < sram_max_addr) _ _
              (All-impl (λ a. (old_ptr ≤ a) × (a < sram_max_addr)) (λ a. a < sram_max_addr)
                (λ a h. h.1) _ old)
              (All-impl (λ a. (0 ≤ a) × (a < new_ptr)) (λ a. a < sram_max_addr)
                (λ a h. omega (arith, h.1, inside)) _ new),
        )
