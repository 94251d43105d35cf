-- ===== src/RateLimit.antt =====
-- The rate limiter of the bots: `RateLimiter` of backend/app/services/bot_ratelimit.py. A string is its
-- bytes, and a reading of the monotonic clock is a number in any unit, the cooldowns too.
pub mod Spaced
mod Tests
use kanfei.Prelude.{
  ℕ, ◌-◌, Bool, true, false, ◌&&◌, ◌||◌, Option, none, some, List, [], ◌∷◌, ltb, ◌==◌,
  if◌then◌else◌,
}
use kanfei.Bytes.{Bytes}

pub record Key : Type 0 where
  pub source_id : Bytes
  pub command : Bytes

pub record RateLimiter : Type 0 where
  pub same_cmd : ℕ
  pub diff_cmd : ℕ
  -- the dict, in the order of its first insertions
  pub timestamps : List (Key × ℕ)

-- DEFAULT_SAME_CMD and DEFAULT_DIFF_CMD, in seconds.
abbrev pub new_limiter : RateLimiter
new_limiter = record { same_cmd = 5; diff_cmd = 1; timestamps = [] }

unfoldable pub equal : Bytes → Bytes → Bool
equal [] [] = true
equal (x ∷ xs) (y ∷ ys) = (x == y) && equal xs ys
equal _ _ = false

unfoldable pub same_key : Key → Key → Bool
unfolding equal
same_key a b = equal a.source_id b.source_id && equal a.command b.command

-- dict.get
unfoldable pub get : List (Key × ℕ) → Key → Option ℕ
unfolding same_key
get [] key = none
get ((k, t) ∷ ts) key = if same_key k key then some t else get ts key

-- dict[key] = now
unfoldable pub put : List (Key × ℕ) → Key → ℕ → List (Key × ℕ)
unfolding same_key
put [] key now = (key, now) ∷ []
put ((k, t) ∷ ts) key now = if same_key k key then (k, now) ∷ ts else (k, t) ∷ put ts key now

abbrev pub or_zero : Option ℕ → ℕ
or_zero none = 0
or_zero (some t) = t

-- Some command of the source was accepted less than the debounce ago.
unfoldable pub is_debounced : ℕ → Bytes → ℕ → List (Key × ℕ) → Bool
unfolding equal
is_debounced diff_cmd source_id now [] = false
is_debounced diff_cmd source_id now ((k, t) ∷ ts) =
    (equal k.source_id source_id && ltb (now - t) diff_cmd)
    || is_debounced diff_cmd source_id now ts

-- True drops the command.
unfoldable pub is_limited : Key → ℕ → RateLimiter → Bool × RateLimiter
unfolding get put is_debounced
is_limited key now r =
    if ltb (now - or_zero (get r.timestamps key)) r.same_cmd
    then (true, r)
    else if is_debounced r.diff_cmd key.source_id now r.timestamps
    then (true, r)
    else (false, record r { timestamps = put r.timestamps key now })
