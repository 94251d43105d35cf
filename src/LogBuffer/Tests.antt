-- ===== src/LogBuffer/Tests.antt =====
-- The buffer at concrete entries.
use kanfei.Prelude.{ℕ, ◌≡◌, Option, none, some, List, [], ◌∷◌, take}
use kanfei.Bytes.{Bytes}
use kanfei.LogBuffer.{Entry, new_handler, select, is_listed, get_entries}
use kanfei.LogBuffer.Recent.{newest_first, emit_all, get_entries-emit_all}

abbrev entry : ℕ → Entry
entry n = record { timestamp = n ∷ []; level = b'W' ∷ []; logger = []; message = [] }

abbrev number : Bytes → ℕ
number name = 30

abbrev attribute : Bytes → Option ℕ
attribute name = none

abbrev records : List (Option Entry)
records = some (entry 1) ∷ none ∷ some (entry 2) ∷ some (entry 3) ∷ []

get_entries-emit_all_example :
    get_entries number attribute none 1 (emit_all records (new_handler 2))
    ≡ take 1 (select (is_listed number attribute none) (take 2 (newest_first records [])))
get_entries-emit_all_example = get_entries-emit_all number attribute none 1 2 records
