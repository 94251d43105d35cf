-- ===== src/Crc/Append.antt =====
-- The checksum that the sender appends, high byte first, and the check of the receiver.
use kanfei.Prelude.{
  ℕ, ◌+◌, ◌*◌, ◌/◌, ◌%◌, ◌<◌, ◌≡◌, ◌↔◌, true, List, [], ◌∷◌, ◌++◌, arith, bit_xor, ap, sym, ◌∙◌,
  ==_iff,
}
use kanfei.Prelude.Bits.{bit_xor-mod_byte, bit_xor_self, zero-bit_xor}
use kanfei.Crc.{crc_accum, crc_loop, crc_calculate, crc_validate, table_entry}
use kanfei.Crc.Table.{crc_accum-eq, crc_accum-lt, table_entry-zero}
use kanfei.Crc.Detect.{crc_loop_append, crc_validate-eq, crc_accum_two_injective}

pub crc_loop-lt : (c : ℕ) (bytes : List ℕ) → c < 65536 → crc_loop c bytes < 65536
unfolding crc_loop
crc_loop-lt c [] h = h
crc_loop-lt c (b ∷ bytes) h = crc_loop-lt (crc_accum c b) bytes (crc_accum-lt c b)

-- A step whose index is zero shifts the low byte up.
crc_accum_aligned : (c : ℕ) → crc_accum c (c / 256 % 256) ≡ c % 256 * 256
crc_accum_aligned c =
    crc_accum-eq c (c / 256 % 256)
    ∙ ap (λ (t : ℕ). bit_xor (table_entry t) (c % 256 * 256))
        (bit_xor-mod_byte (c / 256) (c / 256 % 256)
          ∙ ap (λ (t : ℕ). bit_xor (c / 256 % 256) t) (omega arith)
          ∙ bit_xor_self (c / 256 % 256))
    ∙ ap (λ (t : ℕ). bit_xor t (c % 256 * 256)) table_entry-zero
    ∙ zero-bit_xor (c % 256 * 256)

two_bytes_cancel : (c : ℕ) → c < 65536 → crc_accum (crc_accum c (c / 256)) (c % 256) ≡ 0
two_bytes_cancel c h =
    let first : crc_accum c (c / 256) ≡ c % 256 * 256 =
      ap (crc_accum c) (omega arith) ∙ crc_accum_aligned c in
    ap (λ (t : ℕ). crc_accum t (c % 256)) first
    ∙ ap (crc_accum (c % 256 * 256)) (omega arith)
    ∙ crc_accum_aligned (c % 256 * 256)
    ∙ omega arith

-- Two bytes after a message pass `crc_validate` exactly when they are the message's own checksum,
-- its high byte first.
pub crc_validate_iff_trailer :
    (message : List ℕ) (high low : ℕ)
    → high < 256
    → low < 256
    → (crc_validate (message ++ high ∷ low ∷ []) ≡ true)
      ↔ (crc_calculate message ≡ high * 256 + low)
crc_validate_iff_trailer message high low hh hl = (forth, back)
  where
    c : ℕ
    c = crc_loop 0 message

    c-lt : c < 65536
    c-lt = crc_loop-lt 0 message (omega arith)

    value : crc_calculate (message ++ high ∷ low ∷ []) ≡ crc_accum (crc_accum c high) low
    value = unfold crc_calculate crc_loop in crc_loop_append 0 message (high ∷ low ∷ [])

    forth :
        crc_validate (message ++ high ∷ low ∷ []) ≡ true → crc_calculate message ≡ high * 256 + low
    forth good =
        unfold crc_calculate in
        (let parts =
            crc_accum_two_injective c high low (c / 256) (c % 256) hh hl (omega (arith, c-lt))
              (omega arith) (sym value ∙ crc_validate-eq _ good ∙ sym (two_bytes_cancel c c-lt)) in
          omega (arith, parts.0, parts.1))

    back :
        crc_calculate message ≡ high * 256 + low → crc_validate (message ++ high ∷ low ∷ []) ≡ true
    back e =
        unfold crc_calculate crc_validate in
        (==_iff _ 0).1 (
          value
          ∙ ap (λ (t : ℕ). crc_accum (crc_accum c t) low) (omega (arith, e))
          ∙ ap (λ (t : ℕ). crc_accum (crc_accum c (c / 256)) t) (omega (arith, e))
          ∙ two_bytes_cancel c c-lt)

pub crc_calculate-lt : (bytes : List ℕ) → crc_calculate bytes < 65536
unfolding crc_calculate
crc_calculate-lt bytes = crc_loop-lt 0 bytes (omega arith)
