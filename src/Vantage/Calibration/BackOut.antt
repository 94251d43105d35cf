-- ===== src/Vantage/Calibration/BackOut.antt =====
-- The block that CALFIX sends: `write_calibration` of backend/app/protocol/vantage/driver.py takes the
-- offset in effect off each reading.
use kanfei.Prelude.{
  ℕ, zero, suc, ◌+◌, ◌-◌, ◌*◌, ◌/◌, ◌%◌, ◌<◌, ◌≡◌, ◌≢◌, refl, ap, ap₂, ◌∙◌, false, some, [], ◌∷◌,
  length, set, length-set, get_or, ℤ, pos, negsuc, ◌-ℤ◌, ◌≤ℤ◌, eqb_ℤ, arith,
}
use kanfei.Bytes.{Bytes, byte_at, u16_at, i16_at, signed16, pack_i16_le}
use kanfei.Vantage.Calibration.{put_pair, back_out_temp}

module _ (v : ℕ) where
  get_or-set_self : (xs : Bytes) (i : ℕ) → i < length xs → get_or (set xs i v) i 0 ≡ v
  get_or-set_self [] i h = absurd (omega (arith, h))
  get_or-set_self (x ∷ xs) zero h = refl
  get_or-set_self (x ∷ xs) (suc i) h = get_or-set_self xs i (omega (arith, h))

  get_or-set_other : (xs : Bytes) (i j : ℕ) → i ≢ j → get_or (set xs i v) j 0 ≡ get_or xs j 0
  get_or-set_other [] i j h = refl
  get_or-set_other (x ∷ xs) zero zero h = absurd (h refl)
  get_or-set_other (x ∷ xs) zero (suc j) h = refl
  get_or-set_other (x ∷ xs) (suc i) zero h = refl
  get_or-set_other (x ∷ xs) (suc i) (suc j) h = get_or-set_other xs i j (λ e. h (ap suc e))

-- What a packed number reads back as.
pair_value :
    (d : ℤ)
    → negsuc 32767 ≤ℤ d
    → d ≤ℤ pos 32767
    → (low high : ℕ) × (pack_i16_le d ≡ some (low ∷ high ∷ [])) × (signed16 (low + high * 256) ≡ d)
unfolding pack_i16_le signed16
pair_value (pos n) h h' = (n % 256, n / 256, ground (arith, h'), ground (arith, h'))
pair_value (negsuc n) h h' =
    ((65535 - n) % 256, (65535 - n) / 256, ground (arith, h), ground (arith, h))

module _ (block : Bytes) (off low high : ℕ) (inside : off + 1 < length block) where
  pair_read : u16_at (put_pair block off (low ∷ high ∷ [])) off ≡ low + high * 256
  unfolding put_pair u16_at byte_at
  pair_read =
      ap₂ (λ (a b : ℕ). a + b * 256)
        (get_or-set_other high (set block off low) (off + 1) off (λ e. omega (arith, e))
          ∙ get_or-set_self low block off (omega (arith, inside)))
        (get_or-set_self high (set block off low) (off + 1)
          (omega (arith, inside, length-set block off low)))

  pair_elsewhere :
      (j : ℕ)
      → off ≢ j
      → off + 1 ≢ j
      → byte_at (put_pair block off (low ∷ high ∷ [])) j ≡ byte_at block j
  unfolding put_pair byte_at
  pair_elsewhere j h h' =
      get_or-set_other high (set block off low) (off + 1) j h' ∙ get_or-set_other low block off j h

  pair_length : length (put_pair block off (low ∷ high ∷ [])) ≡ length block
  unfolding put_pair
  pair_length = length-set (set block off low) (off + 1) high ∙ length-set block off low

-- A temperature of the block that is not dashed is replaced by the reading less the offset, when that
-- fits its 16 bits; every other byte of the block stays, and so does its length.
back_out_temp_lem :
    (off : ℕ) (cur : ℤ) (block : Bytes) (j : ℕ)
    → off + 1 < length block
    → eqb_ℤ (i16_at block off) (pos 0x7FFF) ≡ false
    → negsuc 32767 ≤ℤ (i16_at block off -ℤ cur)
    → (i16_at block off -ℤ cur) ≤ℤ pos 32767
    → off ≢ j
    → off + 1 ≢ j
    → (adjusted : Bytes) × (back_out_temp off cur block ≡ some adjusted)
      × (i16_at adjusted off ≡ (i16_at block off -ℤ cur))
      × (byte_at adjusted j ≡ byte_at block j)
      × (length adjusted ≡ length block)
unfolding back_out_temp
back_out_temp_lem off cur block j inside there low_fit high_fit other other' =
    let v = pair_value (i16_at block off -ℤ cur) low_fit high_fit in
    (
      put_pair block off (v.0 ∷ v.1 ∷ []),
      rw (there, v.2) refl,
      (unfold i16_at in (ap signed16 (pair_read block off v.0 v.1 inside) ∙ v.3)),
      pair_elsewhere block off v.0 v.1 inside j other other',
      pair_length block off v.0 v.1 inside,
    )
