-- ===== src/Crc/Detect.antt =====
-- What the checksum of crc.py tells apart: the step is injective in the running value and in the
-- byte, so that an altered message has another checksum.
use kanfei.Prelude.{
  ℕ, ◌*◌, ◌/◌, ◌%◌, ◌<◌, ◌≡◌, ◌≢◌, ◌⊎◌, inl, inr, refl, true, false, List, [], ◌∷◌, ◌++◌, arith,
  bit_xor, ap, sym, ◌∙◌, Bool-cases,
}
use kanfei.Prelude.Bits.{bit_xor-mod_byte, bit_xor-zero, bit_xor_cancel_left, bit_xor_cancel_right}
use kanfei.Crc.{crc_accum, crc_loop, crc_calculate, crc_validate, table_entry}
use kanfei.Crc.Table.{crc_accum-eq, crc_accum-lt, table_entry_low_injective}

-- The table index of a step, and the two bytes of its result.
abbrev index : ℕ → ℕ → ℕ
index c d = bit_xor (c / 256) d % 256

pub crc_accum_low : (c d : ℕ) → crc_accum c d % 256 ≡ table_entry (index c d) % 256
crc_accum_low c d =
    ap (λ (t : ℕ). t % 256) (crc_accum-eq c d)
    ∙ bit_xor-mod_byte (table_entry (index c d)) (c % 256 * 256)
    ∙ ap (λ (t : ℕ). bit_xor (table_entry (index c d) % 256) t) (omega arith)
    ∙ bit_xor-zero (table_entry (index c d) % 256)

-- Equal results come from one table index and one low byte.
pub crc_accum_inversion :
    (c d c' d' : ℕ)
    → crc_accum c d ≡ crc_accum c' d'
    → (index c d ≡ index c' d') × (c % 256 ≡ c' % 256)
crc_accum_inversion c d c' d' e =
    let same : index c d ≡ index c' d' =
      table_entry_low_injective (index c d) (index c' d') (omega arith) (omega arith)
        (sym (crc_accum_low c d) ∙ ap (λ (t : ℕ). t % 256) e ∙ crc_accum_low c' d') in
    let high : c % 256 * 256 ≡ c' % 256 * 256 =
      bit_xor_cancel_left (table_entry (index c d)) (c % 256 * 256) (c' % 256 * 256) (
        sym (crc_accum-eq c d)
        ∙ e
        ∙ crc_accum-eq c' d'
        ∙ ap (λ (t : ℕ). bit_xor (table_entry t) (c' % 256 * 256)) (sym same)) in
    (same, omega arith)

index_injective_byte : (c d d' : ℕ) → d < 256 → d' < 256 → index c d ≡ index c d' → d ≡ d'
index_injective_byte c d d' h h' e =
    bit_xor_cancel_left (c / 256 % 256) d d' (small d h ∙ e ∙ sym (small d' h'))
  where
    small : (x : ℕ) → x < 256 → bit_xor (c / 256 % 256) x ≡ index c x
    small x p =
        ap (λ (t : ℕ). bit_xor (c / 256 % 256) t) (omega arith) ∙ sym (bit_xor-mod_byte (c / 256) x)

index_injective_crc :
    (c c' d : ℕ) → c < 65536 → c' < 65536 → index c d ≡ index c' d → c / 256 ≡ c' / 256
index_injective_crc c c' d h h' e =
    bit_xor_cancel_right (d % 256) (c / 256) (c' / 256) (small c h ∙ e ∙ sym (small c' h'))
  where
    small : (x : ℕ) → x < 65536 → bit_xor (x / 256) (d % 256) ≡ index x d
    small x p =
        ap (λ (t : ℕ). bit_xor t (d % 256)) (omega arith) ∙ sym (bit_xor-mod_byte (x / 256) d)

pub crc_accum_injective_crc :
    (c c' d : ℕ) → c < 65536 → c' < 65536 → crc_accum c d ≡ crc_accum c' d → c ≡ c'
crc_accum_injective_crc c c' d h h' e =
    let parts = crc_accum_inversion c d c' d e in
    omega (arith, index_injective_crc c c' d h h' parts.0, parts.1)

pub crc_accum_injective_byte :
    (c d d' : ℕ) → d < 256 → d' < 256 → crc_accum c d ≡ crc_accum c d' → d ≡ d'
crc_accum_injective_byte c d d' h h' e =
    index_injective_byte c d d' h h' (crc_accum_inversion c d c d' e).0

-- Two bytes in a row are both determined by the value that they lead to.
pub crc_accum_two_injective :
    (c x1 x2 y1 y2 : ℕ)
    → x1 < 256
    → x2 < 256
    → y1 < 256
    → y2 < 256
    → crc_accum (crc_accum c x1) x2 ≡ crc_accum (crc_accum c y1) y2
    → (x1 ≡ y1) × (x2 ≡ y2)
crc_accum_two_injective c x1 x2 y1 y2 hx1 hx2 hy1 hy2 e =
    let low = (crc_accum_inversion (crc_accum c x1) x2 (crc_accum c y1) y2 e).1 in
    let first : x1 ≡ y1 = index_injective_byte c x1 y1 hx1 hy1 (
      table_entry_low_injective (index c x1) (index c y1) (omega arith) (omega arith)
        (sym (crc_accum_low c x1) ∙ low ∙ crc_accum_low c y1)) in
    (
      first,
      crc_accum_injective_byte (crc_accum c x1) x2 y2 hx2 hy2
          (e ∙ ap (λ (t : ℕ). crc_accum (crc_accum c t) y2) (sym first)),
    )

pub crc_loop_append : (c : ℕ) (xs ys : List ℕ) → crc_loop c (xs ++ ys) ≡ crc_loop (crc_loop c xs) ys
unfolding crc_loop
crc_loop_append c [] ys = refl
crc_loop_append c (x ∷ xs) ys = crc_loop_append (crc_accum c x) xs ys

crc_loop_injective :
    (c c' : ℕ) (xs : List ℕ) → c < 65536 → c' < 65536 → crc_loop c xs ≡ crc_loop c' xs → c ≡ c'
unfolding crc_loop
crc_loop_injective c c' [] h h' e = e
crc_loop_injective c c' (x ∷ xs) h h' e = crc_accum_injective_crc c c' x h h' (
    crc_loop_injective (crc_accum c x) (crc_accum c' x) xs (crc_accum-lt c x) (crc_accum-lt c' x) e)

pub crc_validate-eq : (bytes : List ℕ) → crc_validate bytes ≡ true → crc_calculate bytes ≡ 0
unfolding crc_validate
crc_validate-eq bytes h = ground arith

-- If a message passes `crc_validate`, then every message that differs from it in one byte, or in
-- two neighbouring bytes, and nowhere else, fails it.
pub crc_validate_detects_burst :
    (before after : List ℕ) (x1 x2 y1 y2 : ℕ)
    → x1 < 256
    → x2 < 256
    → y1 < 256
    → y2 < 256
    → (x1 ≢ y1) ⊎ (x2 ≢ y2)
    → crc_validate (before ++ x1 ∷ x2 ∷ after) ≡ true
    → crc_validate (before ++ y1 ∷ y2 ∷ after) ≡ false
crc_validate_detects_burst before after x1 x2 y1 y2 hx1 hx2 hy1 hy2 changed good =
    elim (Bool-cases (crc_validate (before ++ y1 ∷ y2 ∷ after))) [
      | inr bad ↦ bad
      | inl also ↦ absurd (clash (same also))
    ]
  where
    c : ℕ
    c = crc_loop 0 before

    value :
        (z1 z2 : ℕ)
        → crc_validate (before ++ z1 ∷ z2 ∷ after) ≡ true
        → crc_loop (crc_accum (crc_accum c z1) z2) after ≡ 0
    value z1 z2 h =
        unfold crc_calculate crc_loop in
        (sym (crc_loop_append 0 before (z1 ∷ z2 ∷ after))
          ∙ crc_validate-eq (before ++ z1 ∷ z2 ∷ after) h)

    same : crc_validate (before ++ y1 ∷ y2 ∷ after) ≡ true → (x1 ≡ y1) × (x2 ≡ y2)
    same also = crc_accum_two_injective c x1 x2 y1 y2 hx1 hx2 hy1 hy2 (
        crc_loop_injective (crc_accum (crc_accum c x1) x2) (crc_accum (crc_accum c y1) y2) after
          (crc_accum-lt _ _) (crc_accum-lt _ _) (value x1 x2 good ∙ sym (value y1 y2 also)))

    clash : (x1 ≡ y1) × (x2 ≡ y2) → ⊥
    clash e = elim changed [ inl d ↦ d e.0 | inr d ↦ d e.1 ]
