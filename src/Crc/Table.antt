-- ===== src/Crc/Table.antt =====
-- The lookup table: what stands at an index, and that its low bytes are all different.
use kanfei.Prelude.{
  ℕ, zero, suc, ◌+◌, ◌*◌, ◌/◌, ◌%◌, ◌<◌, ◌≡◌, refl, true, arith, bit_and, bit_xor, get_or, ◌==◌,
  ==_iff, all_below, all_below_sound, ap, sym, ◌∙◌,
}
use kanfei.Prelude.Bits.{bit_xor-mod_word, bit_xor-lt_word}
use kanfei.Prelude.Masks.{mask8, mask16}
use kanfei.Crc.{
  shift_round, rounds, table_entry, table_from, generate_crc_table, crc_table, crc_accum,
}

get_or-table_from : (n i j : ℕ) → j < n → get_or (table_from n i) j 0 ≡ table_entry (i + j)
unfolding table_from
get_or-table_from zero i j h = absurd (omega arith)
get_or-table_from (suc n) i zero h = ap table_entry (omega arith)
get_or-table_from (suc n) i (suc j) h =
    get_or-table_from n (i + 1) j (omega arith) ∙ ap table_entry (omega arith)

pub shift_round-lt : (c : ℕ) → shift_round c < 65536
unfolding shift_round
shift_round-lt c = ground (arith, mask16 (c * 2), mask16 (bit_xor (c * 2) 0x1021))

pub rounds-lt : (n c : ℕ) → c < 65536 → rounds n c < 65536
unfolding rounds
rounds-lt zero c h = h
rounds-lt (suc n) c h = rounds-lt n (shift_round c) (shift_round-lt c)

pub table_entry-lt : (i : ℕ) → i < 256 → table_entry i < 65536
unfolding table_entry
table_entry-lt i h = rounds-lt 8 (i * 256) (omega arith)

-- The step as arithmetic: the index is the exclusive or of the high byte and the data byte.
pub crc_accum-eq :
    (c d : ℕ) → crc_accum c d ≡ bit_xor (table_entry (bit_xor (c / 256) d % 256)) (c % 256 * 256)
unfolding crc_accum crc_table generate_crc_table
crc_accum-eq c d =
    let i : ℕ = bit_xor (c / 256) d % 256 in
    let at : get_or (table_from 256 0) (bit_and (bit_xor (c / 256) d) 0xFF) 0 ≡ table_entry i =
      ap (λ (k : ℕ). get_or (table_from 256 0) k 0) (mask8 (bit_xor (c / 256) d))
      ∙ get_or-table_from 256 0 i (omega arith)
      ∙ ap table_entry (omega arith) in
    ap (λ (t : ℕ). bit_and (bit_xor t (c * 256)) 0xFFFF) at
    ∙ mask16 (bit_xor (table_entry i) (c * 256))
    ∙ bit_xor-mod_word (table_entry i) (c * 256)
    ∙ ap (λ (t : ℕ). bit_xor t (c * 256 % 65536)) (omega (arith, table_entry-lt i (omega arith)))
    ∙ ap (λ (t : ℕ). bit_xor (table_entry i) t) (omega arith)

pub crc_accum-lt : (c d : ℕ) → crc_accum c d < 65536
crc_accum-lt c d = omega (
  arith,
  crc_accum-eq c d,
  bit_xor-lt_word (table_entry (bit_xor (c / 256) d % 256)) (c % 256 * 256)
      (table_entry-lt _ (omega arith)) (omega arith),
)

pub table_entry-zero : table_entry 0 ≡ 0
unfolding table_entry rounds shift_round
table_entry-zero = refl

-- The index can be read off the low byte of the entry.
index_of_low : ℕ → ℕ
index_of_low l = let x = bit_xor l (l * 32 % 256) in bit_xor x (x / 16)

index_of_low_table : all_below 256 (λ i. index_of_low (table_entry i % 256) == i) ≡ true
unfolding all_below index_of_low table_entry rounds shift_round
index_of_low_table = refl

pub table_entry_low_injective :
    (i j : ℕ) → i < 256 → j < 256 → table_entry i % 256 ≡ table_entry j % 256 → i ≡ j
table_entry_low_injective i j hi hj e =
    sym ((==_iff _ i).0 (all_below_sound 256 _ index_of_low_table i hi))
    ∙ ap index_of_low e
    ∙ (==_iff _ j).0 (all_below_sound 256 _ index_of_low_table j hj)
