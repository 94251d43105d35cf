-- ===== src/RateLimit/Spaced.antt =====
-- How far apart the accepted commands are.
use kanfei.Prelude.{
  ℕ, ◌+◌, ◌-◌, ◌≤◌, ◌≡◌, refl, ap, ap₂, sym, ◌∙◌, Bool, true, false, some, List, [], ◌∷◌, ltb,
  ltb_ge, ◌==◌, ==_iff, All, All-impl, ◌⊎◌, Bool-cases, inl, inr, arith, if◌then◌else◌,
}
use kanfei.Bytes.{Bytes}
use kanfei.RateLimit.{
  Key, RateLimiter, equal, same_key, get, put, or_zero, is_debounced, is_limited,
}

pub record Call : Type 0 where
  pub key : Key
  pub time : ℕ

-- The accepted calls, newest first, as the calls come one by one.
abbrev pub after_call : Call → Bool → List Call → List Call
after_call call true accepted = accepted
after_call call false accepted = call ∷ accepted

abbrev pub run : List Call → RateLimiter → List Call → List Call
run [] r accepted = accepted
run (call ∷ calls) r accepted =
    let (limited, r') = is_limited call.key call.time r in
    run calls r' (after_call call limited accepted)

-- The clock does not go back.
abbrev pub IsMonotone : ℕ → List Call → Type 0
IsMonotone now [] = Unit
IsMonotone now (call ∷ calls) = (now ≤ call.time) × IsMonotone call.time calls

-- `later` is far enough from an earlier call.
abbrev pub IsFar : RateLimiter → Call → Call → Type 0
IsFar r later earlier =
    (equal earlier.key.source_id later.key.source_id ≡ true
      → earlier.time + r.diff_cmd ≤ later.time)
    × (same_key earlier.key later.key ≡ true → earlier.time + r.same_cmd ≤ later.time)

abbrev pub IsSpaced : RateLimiter → List Call → Type 0
IsSpaced r [] = Unit
IsSpaced r (call ∷ calls) = All (IsFar r call) calls × IsSpaced r calls

equal-eq : (a b : Bytes) → equal a b ≡ true → a ≡ b
unfolding equal
equal-eq [] [] h = refl
equal-eq (x ∷ xs) (y ∷ ys) h = elim (Bool-cases (x == y)) [
  | inl e ↦
      ap₂ (λ (z : ℕ) (zs : Bytes). z ∷ zs) ((==_iff x y).0 e)
        (equal-eq xs ys (ground (arith, e, h)))
  | inr e ↦ absurd (ground (arith, e, h))
]
equal-eq [] (y ∷ ys) h = absurd (ground (arith, h))
equal-eq (x ∷ xs) [] h = absurd (ground (arith, h))

equal_refl : (a : Bytes) → equal a a ≡ true
unfolding equal
equal_refl [] = refl
equal_refl (x ∷ xs) = let same : (x == x) ≡ true = ground arith in rw (same, equal_refl xs) refl

same_key-eq : (a b : Key) → same_key a b ≡ true → a ≡ b
unfolding same_key
same_key-eq a b h = elim (Bool-cases (equal a.source_id b.source_id)) [
  | inl e ↦
      ap₂ (λ (s c : Bytes). record { source_id = s; command = c })
        (equal-eq a.source_id b.source_id e) (equal-eq a.command b.command (ground (arith, e, h)))
  | inr e ↦ absurd (ground (arith, e, h))
]

same_key_refl : (a : Key) → same_key a a ≡ true
unfolding same_key
same_key_refl a = rw (equal_refl a.source_id, equal_refl a.command) refl

get-put_self : (d : List (Key × ℕ)) (key : Key) (now : ℕ) → get (put d key now) key ≡ some now
unfolding get put
get-put_self [] key now = rw (same_key_refl key) refl
get-put_self ((k, t) ∷ d) key now = elim (Bool-cases (same_key k key)) [
  | inl e ↦ rw (e, e) refl
  | inr e ↦ rw (e, e) (get-put_self d key now)
]

-- After a write a key that was there has its time, or the new one.
get-put :
    (d : List (Key × ℕ)) (key : Key) (now : ℕ) (k : Key) (t : ℕ)
    → get d k ≡ some t
    → (t' : ℕ) × (get (put d key now) k ≡ some t') × ((t' ≡ t) ⊎ (t' ≡ now))
unfolding get put
get-put [] key now k t h = absurd (ground (arith, h))
get-put ((k0, t0) ∷ d) key now k t h = elim (Bool-cases (same_key k0 key)) [
  | inl e ↦ rw e (elim (Bool-cases (same_key k0 k)) [
    | inl e' ↦ (now, rw e' refl, inr refl)
    | inr e' ↦ (t, rw e' (miss k0 t0 e' h), inl refl)
  ])
  | inr e ↦ rw e (elim (Bool-cases (same_key k0 k)) [
    | inl e' ↦ (t, rw e' (hit e' h), inl refl)
    | inr e' ↦
        let later = get-put d key now k t (miss k0 t0 e' h) in (later.0, rw e' later.1, later.2)
  ])
]
  where
    miss :
        (k0 : Key) (t0 : ℕ)
        → same_key k0 k ≡ false
        → (if same_key k0 k then some t0 else get d k) ≡ some t
        → get d k ≡ some t
    miss k0 t0 e h = ground (arith, e, h)

    hit :
        same_key k0 k ≡ true
        → (if same_key k0 k then some t0 else get d k) ≡ some t
        → some t0 ≡ some t
    hit e h = ground (arith, e, h)

some-injective : (a b : ℕ) → some a ≡ some b → a ≡ b
some-injective a b h = ap or_zero h

-- A source that is not debounced has no recent time in the dict.
debounced-get :
    (diff_cmd : ℕ) (source : Bytes) (now : ℕ) (d : List (Key × ℕ)) (k : Key) (t : ℕ)
    → is_debounced diff_cmd source now d ≡ false
    → get d k ≡ some t
    → equal k.source_id source ≡ true
    → diff_cmd ≤ now - t
unfolding is_debounced get
debounced-get diff_cmd source now [] k t calm h e = absurd (ground (arith, h))
debounced-get diff_cmd source now ((k0, t0) ∷ d) k t calm h e = elim (Bool-cases (same_key k0 k)) [
  | inl same ↦
      found same
        (some-injective t0 t (rw⁻¹ (ap (λ (b : Bool). if b then some t0 else get d k) same) h))
  | inr other ↦
      debounced-get diff_cmd source now d k t (ground (arith, calm))
        (rw⁻¹ (ap (λ (b : Bool). if b then some t0 else get d k) other) h) e
]
  where
    found : same_key k0 k ≡ true → t0 ≡ t → diff_cmd ≤ now - t
    found same e' =
        let here : equal k0.source_id source ≡ true =
          ap (λ (key : Key). equal key.source_id source) (same_key-eq k0 k same) ∙ e in
        ground (arith, calm, here, e')

module _ (same_cmd diff_cmd : ℕ) where
  abbrev limiter : List (Key × ℕ) → RateLimiter
  limiter d = record { same_cmd = same_cmd; diff_cmd = diff_cmd; timestamps = d }

  -- The dict has the key of an accepted call, with a time that is not before it; `now` is not either.
  abbrev IsCovered : List (Key × ℕ) → ℕ → Call → Type 0
  IsCovered d now b = ((t : ℕ) × (get d b.key ≡ some t) × (b.time ≤ t)) × (b.time ≤ now)

  IsCovered-IsFar :
      (d : List (Key × ℕ)) (now : ℕ) (call : Call)
      → now ≤ call.time
      → ltb (call.time - or_zero (get d call.key)) same_cmd ≡ false
      → is_debounced diff_cmd call.key.source_id call.time d ≡ false
      → (b : Call) → IsCovered d now b
      → IsFar (limiter d) call b
  IsCovered-IsFar d now call later waited calm b ((t, there, before), past) = (
    (λ source.
        let gap = debounced-get diff_cmd call.key.source_id call.time d b.key t calm there source in
        omega (arith, gap, before, past, later)),
    (λ same.
        let last : or_zero (get d call.key) ≡ t =
          ap (λ (k : Key). or_zero (get d k)) (sym (same_key-eq b.key call.key same))
          ∙ ap or_zero there in
        let gap : same_cmd ≤ call.time - t = ground (arith, waited, last) in
        omega (arith, gap, before, past, later)),
  )

  put-IsCovered :
      (d : List (Key × ℕ)) (now : ℕ) (call : Call)
      → now ≤ call.time
      → (b : Call) → IsCovered d now b
      → IsCovered (put d call.key call.time) call.time b
  put-IsCovered d now call later b ((t, there, before), past) =
      let kept = get-put d call.key call.time b.key t there in
      (
        (
          kept.0,
          kept.1,
          elim kept.2 [ inl e ↦ omega (arith, e, before) | inr e ↦ omega (arith, e, past, later) ],
        ),
        omega (arith, past, later),
      )

  later-IsCovered :
      (d : List (Key × ℕ)) (now now' : ℕ)
      → now ≤ now'
      → (b : Call) → IsCovered d now b
      → IsCovered d now' b
  later-IsCovered d now now' later b (there, past) = (there, omega (arith, past, later))

  run-IsSpaced :
      (calls : List Call) (d : List (Key × ℕ)) (now : ℕ) (accepted : List Call)
      → IsMonotone now calls
      → All (IsCovered d now) accepted
      → IsSpaced (limiter []) accepted
      → IsSpaced (limiter []) (run calls (limiter d) accepted)
  unfolding is_limited
  run-IsSpaced [] d now accepted forward covered spaced = spaced
  run-IsSpaced (call ∷ calls) d now accepted (later, forward) covered spaced =
      let waits =
        All-impl (IsCovered d now) (IsCovered d call.time) (later-IsCovered d now call.time later)
          accepted covered in
      let dropped = run-IsSpaced calls d call.time accepted forward waits spaced in
      let taken = λ (far : All (IsFar (limiter []) call) accepted).
        run-IsSpaced calls (put d call.key call.time) call.time (call ∷ accepted) forward
          (
            ((call.time, get-put_self d call.key call.time, omega arith), omega arith),
            All-impl (IsCovered d now) (IsCovered (put d call.key call.time) call.time)
                (put-IsCovered d now call later) accepted covered,
          )
          (far, spaced) in
      elim (Bool-cases (ltb (call.time - or_zero (get d call.key)) same_cmd)) [
        | inl e ↦ rw e dropped
        | inr e ↦ rw e (elim (Bool-cases (is_debounced diff_cmd call.key.source_id call.time d)) [
          | inl e' ↦ rw e' dropped
          | inr e' ↦ rw e' (
              taken (
                All-impl (IsCovered d now) (IsFar (limiter []) call)
                  (IsCovered-IsFar d now call later e e') accepted covered))
        ])
      ]

  -- On a clock that does not go back, the calls that a new limiter accepts are apart: two of one source
  -- by the debounce at least, and two of one source and command by the cooldown.
  pub accepted-IsSpaced :
      (calls : List Call) → IsMonotone 0 calls → IsSpaced (limiter []) (run calls (limiter []) [])
  accepted-IsSpaced calls forward = run-IsSpaced calls [] 0 [] forward tt tt

-- A time of the dict that both cooldowns have passed since.
abbrev pub IsOver : RateLimiter → ℕ → Key × ℕ → Type 0
IsOver r now (k, t) = (t + r.same_cmd ≤ now) × (t + r.diff_cmd ≤ now)

over-calm :
    (r : RateLimiter) (source : Bytes) (now : ℕ) (d : List (Key × ℕ))
    → All (IsOver r now) d
    → is_debounced r.diff_cmd source now d ≡ false
unfolding is_debounced
over-calm r source now [] over = refl
over-calm r source now ((k, t) ∷ d) ((same, diff), over) =
    let rest = over-calm r source now d over in ground (arith, rest, diff)

over-waited :
    (r : RateLimiter) (key : Key) (now : ℕ) (d : List (Key × ℕ))
    → All (IsOver r now) d
    → r.same_cmd ≤ now
    → r.same_cmd ≤ now - or_zero (get d key)
unfolding get
over-waited r key now [] over started = omega (arith, started)
over-waited r key now ((k, t) ∷ d) ((same, diff), over) started =
    elim (Bool-cases (same_key k key)) [
      | inl e ↦ rw e (omega (arith, same))
      | inr e ↦ rw e (over-waited r key now d over started)
    ]

-- A call is accepted, and its time is what the dict then has for it, when both cooldowns have passed
-- since every time of the dict, and the clock itself shows at least the cooldown of a command.
pub is_limited_rested :
    (key : Key) (now : ℕ) (r : RateLimiter)
    → All (IsOver r now) r.timestamps
    → r.same_cmd ≤ now
    → ((is_limited key now r).0 ≡ false) × (get (is_limited key now r).1.timestamps key ≡ some now)
unfolding is_limited
is_limited_rested key now r over started =
    let waited : ltb (now - or_zero (get r.timestamps key)) r.same_cmd ≡ false =
      ltb_ge _ _ (over-waited r key now r.timestamps over started) in
    rw (waited, over-calm r key.source_id now r.timestamps over)
      (refl, get-put_self r.timestamps key now)
