-- ===== src/Vantage/Reply/Status.antt =====
-- When `_read_status_reply` of backend/app/protocol/vantage/driver.py returns true.
use kanfei.Prelude.{◌≡◌, Bool, true, false, List, [], ◌∷◌, ◌++◌}
use kanfei.Bytes.{Bytes}
use kanfei.Vantage.Reply.{confirms}

-- One read for each byte.
abbrev pub byte_by_byte : Bytes → List (Bytes × Bool)
byte_by_byte [] = []
byte_by_byte (b ∷ bytes) = (b ∷ [], false) ∷ byte_by_byte bytes

-- The reply confirms with its last byte, and not before, when `buf` came first.
abbrev pub Completes : Bytes → Bytes → Type 0
Completes buf [] = ⊥
Completes buf (b ∷ []) = confirms (buf ++ b ∷ []) ≡ true
Completes buf (b ∷ c ∷ bytes) =
    (confirms (buf ++ b ∷ []) ≡ false) × Completes (buf ++ b ∷ []) (c ∷ bytes)
