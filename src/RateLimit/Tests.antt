-- ===== src/RateLimit/Tests.antt =====
-- The limiter at concrete calls.
use kanfei.Prelude.{◌≡◌, false, some, List, [], ◌∷◌, arith}
use kanfei.RateLimit.{Key, RateLimiter, new_limiter, get, is_limited}
use kanfei.RateLimit.Spaced.{Call, run, IsSpaced, accepted-IsSpaced, is_limited_rested}

abbrev current : Key
current = record { source_id = b'1' ∷ []; command = b'c' ∷ [] }

abbrev status : Key
status = record { source_id = b'1' ∷ []; command = b's' ∷ [] }

abbrev calls : List Call
calls =
    (record { key = current; time = 10 })
    ∷ (record { key = current; time = 12 })
    ∷ (record { key = status; time = 13 })
    ∷ []

accepted-IsSpaced_example :
    IsSpaced (record { same_cmd = 5; diff_cmd = 1; timestamps = [] }) (run calls new_limiter [])
accepted-IsSpaced_example =
    accepted-IsSpaced 5 1 calls (omega arith, (omega arith, (omega arith, tt)))

abbrev used : RateLimiter
used = record new_limiter { timestamps = (current, 10) ∷ [] }

is_limited_rested_example :
    ((is_limited current 15 used).0 ≡ false)
    × (get (is_limited current 15 used).1.timestamps current ≡ some 15)
is_limited_rested_example =
    is_limited_rested current 15 used ((omega arith, omega arith), tt) (omega arith)
