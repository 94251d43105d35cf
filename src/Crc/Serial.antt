-- ===== src/Crc/Serial.antt =====
-- The table-driven checksum of crc.py against the shift register that the standard describes: one
-- bit of the message at a time, the highest bit of a byte first.
use kanfei.Prelude.{
  ℕ, zero, suc, ◌+◌, ◌*◌, ◌/◌, ◌%◌, ◌<◌, ◌≡◌, refl, List, [], ◌∷◌, arith, All, bit_xor, ap, sym,
  ◌∙◌,
}
use kanfei.Prelude.Bits.{
  bit_xor-mod_word, bit_xor-div_half, bit_xor-zero, zero-bit_xor, bit_xor_comm, bit_xor_assoc,
  bit_xor-lt_word, bit_xor_step, bit_xor-lt_byte, bit_xor_fields,
}
use kanfei.Prelude.Masks.{mask16, top_bit}
use kanfei.Crc.{polynomial, shift_round, rounds, table_entry, crc_accum, crc_loop, crc_calculate}
use kanfei.Crc.Table.{crc_accum-eq, crc_accum-lt}

-- One bit enters a register of 16 bits: what falls out at the top, with the bit that enters, decides
-- whether the polynomial is added.
abbrev pub register_bit : ℕ → ℕ → ℕ
register_bit c bit = bit_xor (c * 2 % 65536) ((c / 32768 + bit) % 2 * polynomial)

abbrev pub bits_of : ℕ → List ℕ
bits_of d =
    d / 128 % 2
    ∷ d / 64 % 2
    ∷ d / 32 % 2
    ∷ d / 16 % 2
    ∷ d / 8 % 2
    ∷ d / 4 % 2
    ∷ d / 2 % 2
    ∷ d % 2
    ∷ []

abbrev pub register_bits : ℕ → List ℕ → ℕ
register_bits c [] = c
register_bits c (b ∷ bits) = register_bits (register_bit c b) bits

abbrev pub register : ℕ → List ℕ → ℕ
register c [] = c
register c (d ∷ message) = register (register_bits c (bits_of d)) message

-- A round over a value with its top bit known.
shift_round_arith :
    (c : ℕ) → c < 65536 → shift_round c ≡ bit_xor (c * 2 % 65536) (c / 32768 % 2 * polynomial)
unfolding shift_round
shift_round_arith c h = ground (
  arith,
  top_bit c,
  mask16 (c * 2),
  mask16 (bit_xor (c * 2) polynomial),
  bit_xor-mod_word (c * 2) polynomial,
  bit_xor-zero (c * 2 % 65536),
)

top_of_xor : (c e : ℕ) → bit_xor c e / 32768 % 2 ≡ (c / 32768 + e / 32768) % 2
top_of_xor c e = omega (arith, bit_xor-div_half c e, bit_xor_step (c / 32768) (e / 32768))

-- A round over a register and the bits that wait above it is one step of the register.
shift_round_xor :
    (c e : ℕ)
    → c < 65536
    → e < 65536
    → shift_round (bit_xor c e) ≡ bit_xor (register_bit c (e / 32768)) (e * 2 % 65536)
shift_round_xor c e hc he =
    let fb : ℕ = (c / 32768 + e / 32768) % 2 * polynomial in
    shift_round_arith (bit_xor c e) (bit_xor-lt_word c e hc he)
    ∙ ap (λ (t : ℕ). bit_xor (bit_xor c e * 2 % 65536) (t * polynomial)) (top_of_xor c e)
    ∙ ap (λ (t : ℕ). bit_xor t fb) (doubled c e)
    ∙ bit_xor_assoc (c * 2 % 65536) (e * 2 % 65536) fb
    ∙ ap (bit_xor (c * 2 % 65536)) (bit_xor_comm (e * 2 % 65536) fb)
    ∙ sym (bit_xor_assoc (c * 2 % 65536) fb (e * 2 % 65536))
  where
    doubled : (x y : ℕ) → bit_xor x y * 2 % 65536 ≡ bit_xor (x * 2 % 65536) (y * 2 % 65536)
    doubled x y =
        ap (λ (t : ℕ). t % 65536) (ground (arith, bit_xor_step (x * 2) (y * 2)))
        ∙ bit_xor-mod_word (x * 2) (y * 2)

register_bit-lt : (c b : ℕ) → b < 2 → register_bit c b < 65536
register_bit-lt c b h =
    bit_xor-lt_word (c * 2 % 65536) ((c / 32768 + b) % 2 * polynomial) (omega arith) (omega arith)

-- The bits at the top of a word, in the order in which they leave it, and what stays behind.
top_bits : ℕ → ℕ → List ℕ
top_bits zero e = []
top_bits (suc n) e = e / 32768 ∷ top_bits n (e * 2 % 65536)

waiting : ℕ → ℕ → ℕ
waiting zero e = e
waiting (suc n) e = waiting n (e * 2 % 65536)

rounds_xor :
    (n c e : ℕ)
    → c < 65536
    → e < 65536
    → rounds n (bit_xor c e) ≡ bit_xor (register_bits c (top_bits n e)) (waiting n e)
unfolding rounds top_bits waiting
rounds_xor zero c e hc he = refl
rounds_xor (suc n) c e hc he =
    ap (rounds n) (shift_round_xor c e hc he)
    ∙ rounds_xor n (register_bit c (e / 32768)) (e * 2 % 65536)
        (register_bit-lt c (e / 32768) (omega arith)) (omega arith)

top_bits_byte : (d : ℕ) → d < 256 → top_bits 8 (d * 256) ≡ bits_of d
unfolding top_bits
top_bits_byte d h = ground arith

waiting_byte : (d : ℕ) → d < 256 → waiting 8 (d * 256) ≡ 0
unfolding waiting
waiting_byte d h = omega arith

-- The eight rounds over a register that had a byte added at its top.
rounds_byte :
    (c d : ℕ) → c < 65536 → d < 256 → rounds 8 (bit_xor c (d * 256)) ≡ register_bits c (bits_of d)
rounds_byte c d hc hd =
    rounds_xor 8 c (d * 256) hc (omega arith)
    ∙ ap (bit_xor (register_bits c (top_bits 8 (d * 256)))) (waiting_byte d hd)
    ∙ bit_xor-zero (register_bits c (top_bits 8 (d * 256)))
    ∙ ap (register_bits c) (top_bits_byte d hd)

top_bits_low : (w : ℕ) → w < 256 → top_bits 8 w ≡ top_bits 8 0
unfolding top_bits
top_bits_low w h = ground arith

waiting_low : (w : ℕ) → w < 256 → waiting 8 w ≡ w * 256
unfolding waiting
waiting_low w h = omega arith

waiting_zero : waiting 8 0 ≡ 0
unfolding waiting
waiting_zero = refl

-- Eight rounds leave a low byte untouched, but for its place.
rounds_low :
    (i w : ℕ)
    → i < 256
    → w < 256
    → rounds 8 (bit_xor (i * 256) w) ≡ bit_xor (table_entry i) (w * 256)
unfolding table_entry
rounds_low i w hi hw =
    rounds_xor 8 (i * 256) w (omega arith) (omega arith)
    ∙ ap (λ (t : List ℕ). bit_xor (register_bits (i * 256) t) (waiting 8 w)) (top_bits_low w hw)
    ∙ ap (bit_xor (register_bits (i * 256) (top_bits 8 0))) (waiting_low w hw)
    ∙ ap (λ (t : ℕ). bit_xor t (w * 256))
        (sym (
          ap (rounds 8) (sym (bit_xor-zero (i * 256)))
          ∙ rounds_xor 8 (i * 256) 0 (omega arith) (omega arith)
          ∙ ap (bit_xor (register_bits (i * 256) (top_bits 8 0))) waiting_zero
          ∙ bit_xor-zero (register_bits (i * 256) (top_bits 8 0))))

add_at_top :
    (c d : ℕ)
    → c < 65536
    → d < 256
    → bit_xor c (d * 256) ≡ bit_xor (bit_xor (c / 256) d % 256 * 256) (c % 256)
add_at_top c d hc hd =
    let i : ℕ = bit_xor (c / 256) d in
    ground (
      arith,
      bit_xor_fields 8 (c / 256) (c % 256) d 0 (omega arith) (omega arith),
      bit_xor_fields 8 i 0 0 (c % 256) (omega arith) (omega arith),
      bit_xor-lt_byte (c / 256) d (omega arith) hd,
      bit_xor-zero i,
      bit_xor-zero (c % 256),
      zero-bit_xor (c % 256),
    )

crc_accum-register : (c d : ℕ) → c < 65536 → d < 256 → crc_accum c d ≡ register_bits c (bits_of d)
crc_accum-register c d hc hd =
    crc_accum-eq c d
    ∙ sym (rounds_low (bit_xor (c / 256) d % 256) (c % 256) (omega arith) (omega arith))
    ∙ ap (rounds 8) (sym (add_at_top c d hc hd))
    ∙ rounds_byte c d hc hd

crc_loop-register :
    (c : ℕ) (message : List ℕ)
    → c < 65536
    → All (λ d. d < 256) message
    → crc_loop c message ≡ register c message
unfolding crc_loop
crc_loop-register c [] hc h = refl
crc_loop-register c (d ∷ message) hc h =
    crc_loop-register (crc_accum c d) message (crc_accum-lt c d) h.1
    ∙ ap (λ (t : ℕ). register t message) (crc_accum-register c d hc h.0)

-- On any sequence of bytes the table-driven `crc_calculate` gives what the 16-bit shift register of
-- the CCITT polynomial gives, started at zero and fed bit by bit, the highest bit of a byte first.
pub crc_calculate-eq-register :
    (message : List ℕ) → All (λ d. d < 256) message → crc_calculate message ≡ register 0 message
unfolding crc_calculate
crc_calculate-eq-register message h = crc_loop-register 0 message (omega arith) h
