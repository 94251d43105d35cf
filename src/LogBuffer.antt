-- ===== src/LogBuffer.antt =====
-- The buffer of recent warnings: `_BufferHandler` of backend/app/services/log_buffer.py. A string is its
-- bytes. How the library formats a record, the number of a level's name and the attributes of its module
-- come from outside.
pub mod Recent
mod Tests
use kanfei.Prelude.{
  ℕ, ◌-◌, Bool, Option, none, some, List, [], ◌∷◌, ◌++◌, length, take, drop, ltb, leb,
  if◌then◌else◌,
}
use mathlib.Core.List.{reverse}
use kanfei.Bytes.{Bytes}

pub record Entry : Type 0 where
  pub timestamp : Bytes
  pub level : Bytes
  pub logger : Bytes
  pub message : Bytes

pub record BufferHandler : Type 0 where
  pub maxlen : ℕ
  pub buf : List Entry

abbrev pub new_handler : ℕ → BufferHandler
new_handler maxlen = record { maxlen = maxlen; buf = [] }

-- `append` of a deque with a maximal length.
unfoldable pub append : ℕ → List Entry → Entry → List Entry
append maxlen buf entry =
    if ltb (length buf) maxlen then buf ++ entry ∷ [] else drop 1 (buf ++ entry ∷ [])

-- The formatted record, or `none` when formatting raised: `handleError` then leaves the buffer alone.
unfoldable pub emit : Option Entry → BufferHandler → BufferHandler
unfolding append
emit none h = h
emit (some entry) h = record h { buf = append h.maxlen h.buf entry }

-- The comprehension over the reversed buffer.
abbrev pub select : (Entry → Bool) → List Entry → List Entry
select test [] = []
select test (e ∷ es) = if test e then e ∷ select test es else select test es

abbrev pub warning : ℕ
warning = 30

module _ (level_number : Bytes → ℕ) (attribute : Bytes → Option ℕ) where
  abbrev pub named : Option ℕ → ℕ
  named none = warning
  named (some n) = n

  -- `level` None or empty asks for warnings.
  abbrev pub min_level : Option Bytes → ℕ
  min_level none = warning
  min_level (some []) = warning
  min_level (some (c ∷ name)) = named (attribute (c ∷ name))

  abbrev pub is_listed : Option Bytes → Entry → Bool
  is_listed level entry = leb (min_level level) (level_number entry.level)

  unfoldable pub get_entries : Option Bytes → ℕ → BufferHandler → List Entry
  get_entries level limit h = take limit (select (is_listed level) (reverse h.buf))
