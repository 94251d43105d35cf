-- ===== src/ArchiveSync/Ring.antt =====
-- The ring of record addresses: `_iter_archive_addresses` of backend/app/services/archive_sync.py.
-- Each while loop is a recursion on the distance to its end, which is enough rounds for any size but 0.
pub mod Walk
use kanfei.Prelude.{ℕ, zero, suc, ◌+◌, ◌-◌, List, [], ◌∷◌, ◌++◌, ltb, ◌==◌, if◌then◌else◌}

abbrev pub sram_max_addr : ℕ
sram_max_addr = 0x7F00

unfoldable pub walk : ℕ → ℕ → ℕ → ℕ → List ℕ
walk zero addr limit record_size = []
walk (suc rounds) addr limit record_size =
    let rest = walk rounds (addr + record_size) limit record_size in
    if ltb addr limit then addr ∷ rest else []

unfoldable pub sweep : ℕ → ℕ → ℕ → List ℕ
unfolding walk
sweep addr limit record_size = walk (limit - addr) addr limit record_size

unfoldable pub iter_archive_addresses : ℕ → ℕ → ℕ → List ℕ
unfolding sweep
iter_archive_addresses old_ptr new_ptr record_size =
    if old_ptr == new_ptr
    then []
    else if ltb old_ptr new_ptr
    then sweep old_ptr new_ptr record_size
    else sweep old_ptr sram_max_addr record_size ++ sweep 0 new_ptr record_size
