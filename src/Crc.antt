-- ===== src/Crc.antt =====
-- backend/app/protocol/crc.py: the CCITT cyclic redundancy check of the Davis protocols.
-- A Python `int` is a natural number here, `<< k` and `>> k` are `* 2 ^ k` and `/ 2 ^ k`, and
-- `bytes` is a list of numbers. The table is the list that the module builds when it is imported.
pub mod Table
pub mod Serial
pub mod Append
pub mod Detect
mod Tests
use kanfei.Prelude.{
  ℕ, zero, suc, ◌+◌, ◌*◌, ◌/◌, Bool, bit_and, bit_xor, List, [], ◌∷◌, get_or, ◌==◌, if◌then◌else◌,
}

abbrev pub polynomial : ℕ
polynomial = 0x1021

-- One round of the inner loop of `_generate_crc_table`.
pub shift_round : ℕ → ℕ
shift_round crc =
    bit_and (if bit_and crc 0x8000 == 0 then crc * 2 else bit_xor (crc * 2) polynomial) 0xFFFF

pub rounds : ℕ → ℕ → ℕ
rounds zero crc = crc
rounds (suc n) crc = rounds n (shift_round crc)

-- The entry at index `i`: the inner loop, from `i << 8`.
pub table_entry : ℕ → ℕ
table_entry i = rounds 8 (i * 256)

-- The outer loop: `n` entries from index `i` on.
pub table_from : ℕ → ℕ → List ℕ
table_from zero i = []
table_from (suc n) i = table_entry i ∷ table_from n (i + 1)

pub generate_crc_table : List ℕ
generate_crc_table = table_from 256 0

pub crc_table : List ℕ
crc_table = generate_crc_table

-- `data` is a byte, so the index is below 256 by its mask and the lookup stays in the table.
pub crc_accum : ℕ → ℕ → ℕ
crc_accum crc byte =
    bit_and (bit_xor (get_or crc_table (bit_and (bit_xor (crc / 256) byte) 0xFF) 0) (crc * 256))
      0xFFFF

-- The loop of `crc_calculate` from the value that it has reached.
pub crc_loop : ℕ → List ℕ → ℕ
crc_loop crc [] = crc
crc_loop crc (byte ∷ rest) = crc_loop (crc_accum crc byte) rest

pub crc_calculate : List ℕ → ℕ
crc_calculate bytes = crc_loop 0 bytes

pub crc_validate : List ℕ → Bool
crc_validate data_with_crc = crc_calculate data_with_crc == 0
