-- ===== src/Spray/Window.antt =====
-- What `find_optimal_window` of backend/app/services/spray_engine.py finds.
use kanfei.Prelude.{
  ℕ, zero, suc, ◌+◌, ◌-◌, ◌≤◌, ◌<◌, min, ◌≡◌, refl, Bool, false, ◌⊎◌, inl, inr, Option, none, some,
  List, [], ◌∷◌, length, get_elem?, get_or, ltb, ltb_ge, arith,
}
use kanfei.Floats.{Float, Comparable}
use kanfei.Spray.{
  ProductConstraints, Hourly, no_run, ok_hours, longest_run, hour_ok, Found, resolved,
  find_optimal_window,
}
use kanfei.Spray.Scan.{IsLongest, Best, scanned_all, none_fine}

get_or-there {ℓ} :
    {A : Type ℓ} (xs : List A) (i : ℕ) (d : A)
    → i < length xs
    → get_elem? xs i ≡ some (get_or xs i d)
get_or-there [] i d h = elim h [ ]
get_or-there (x ∷ xs) zero d h = refl
get_or-there (x ∷ xs) (suc i) d h = get_or-there xs i d (omega arith)

-- What is found of hours that are fine at `ok`, among the first `top`.
abbrev pub Outcome :
    {T : Type 0} → (ℕ → Bool) → (T × T → T × T) → List T → ℕ → Option (Found T) → Type 0
Outcome {T} ok to_local times top found =
    (((i : ℕ) → i < top → ok i ≡ false) × (found ≡ none))
    ⊎ ((s : ℕ) × (n : ℕ) × (first : T) × (last : T) × (1 ≤ n)
        × IsLongest ok top s n
        × (get_elem? times s ≡ some first)
        × (get_elem? times (s + n - 1) ≡ some last)
        × (found
            ≡ some (record {
              start = (to_local (first, last)).0;
              end = (to_local (first, last)).1;
              duration_hours = n;
            })))

resolved-Outcome :
    {T : Type 0} (ok : ℕ → Bool) (to_local : T × T → T × T) (times : List T) (top : ℕ)
    (bs : Option ℕ) (bn : ℕ)
    → top ≤ length times
    → Best ok top bs bn
    → Outcome ok to_local times top (resolved to_local times bs bn)
resolved-Outcome ok to_local [] top bs bn short best = inl (λ i below. absurd (omega arith), refl)
resolved-Outcome ok to_local (t ∷ times) top none bn short best =
    inl (none_fine ok top (refl, best.1), refl)
resolved-Outcome ok to_local (t ∷ times) top (some s) bn short (some_hours, best) = inr (
  s,
  bn,
  get_or (t ∷ times) s t,
  get_or (t ∷ times) (s + bn - 1) t,
  some_hours,
  best,
  get_or-there (t ∷ times) s t (omega (arith, best.within, short)),
  get_or-there (t ∷ times) (s + bn - 1) t (omega (arith, best.within, short)),
  rw (last_index, one_or_more) refl,
)
  where
    last_index : min (s + bn - 1) (length (t ∷ times) - 1) ≡ s + bn - 1
    last_index = omega (arith, best.within, short, some_hours)

    one_or_more : ltb bn 1 ≡ false
    one_or_more = ltb_ge 1 bn some_hours

module _ {F T : Type 0} ⦃fl : Float F⦄ ⦃c : Comparable F⦄ where
  -- With `limit` the number of hours asked for, or of those in the forecast if that is less: either no
  -- hour before `limit` meets all constraints and none_fine is found, or the window found is the first of
  -- the longest runs of hours before `limit` that meet them, with its first and its last hour, both
  -- converted to local time, and its length.
  pub find_optimal_window-Outcome :
      (to_local : T × T → T × T) (constraints : ProductConstraints F) (hourly : Hourly F T)
      (search_hours : ℕ)
      → Outcome
          (hour_ok constraints hourly)
          to_local
          hourly.time
          (min search_hours (length hourly.time))
          (find_optimal_window to_local constraints hourly search_hours)
  unfolding find_optimal_window
  find_optimal_window-Outcome to_local constraints hourly search_hours =
      let top = min search_hours (length hourly.time) in
      let ok = hour_ok constraints hourly in
      resolved-Outcome ok to_local hourly.time top
        (longest_run 0 (ok_hours ok 0 top) no_run).best_start
        (longest_run 0 (ok_hours ok 0 top) no_run).best_len (omega arith) (scanned_all ok top)
