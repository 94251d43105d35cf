-- ===== src/Spray/Scan.antt =====
-- The scan for the longest run in `find_optimal_window` of backend/app/services/spray_engine.py.
use kanfei.Prelude.{
  ℕ, zero, suc, ◌+◌, ◌≤◌, ◌<◌, ◌≡◌, refl, subst, ◌∙◌, ap, Bool, true, false, Bool-cases, ◌⊎◌, inl,
  inr, Option, none, some, ltb, ltb→lt, arith,
}
use native.Mathlib.Decide.{dec_lt}
use kanfei.Spray.{Runs, extended, after_hour, no_run, ok_hours, longest_run}

-- Every hour of `s`, …, `s + n - 1` is fine.
abbrev pub RunOk : (ℕ → Bool) → ℕ → ℕ → Type 0
RunOk ok s n = (i : ℕ) → s ≤ i → i < s + n → ok i ≡ true

-- The first of the longest runs before `top`.
pub record IsLongest (ok : ℕ → Bool) (top s n : ℕ) : Type 0 where
  pub within : s + n ≤ top
  pub fine : RunOk ok s n
  pub longest : (s' n' : ℕ) → s' + n' ≤ top → RunOk ok s' n' → n' ≤ n
  pub first : (s' : ℕ) → s' + n ≤ top → RunOk ok s' n → s ≤ s'

ltb-false : (a b : ℕ) → ltb a b ≡ false → b ≤ a
ltb-false a b h = ground arith

suc_later : (i n : ℕ) → i + suc n ≡ i + 1 + n
suc_later i n = omega arith

zero_plus : (n : ℕ) → 0 + n ≡ n
zero_plus n = omega arith

plus_zero : (i : ℕ) → i + 0 ≡ i
plus_zero i = omega arith

module _ (ok : ℕ → Bool) where
  -- What `best_start` and `best_len` are after the hours before `i`.
  abbrev pub Best : ℕ → Option ℕ → ℕ → Type 0
  Best i none n = (n ≡ 0) × ((s' n' : ℕ) → s' + n' ≤ i → RunOk ok s' n' → n' ≤ 0)
  Best i (some s) n = (1 ≤ n) × IsLongest ok i s n

  -- What `run_start` and `run_len` are: the longest run that ends at `i`.
  abbrev Current : ℕ → Option ℕ → ℕ → Type 0
  Current i none n = (n ≡ 0) × ((s' n' : ℕ) → s' + n' ≡ i → RunOk ok s' n' → n' ≤ 0)
  Current i (some s) n =
      (1 ≤ n) × (s + n ≡ i) × RunOk ok s n × ((s' n' : ℕ) → s' + n' ≡ i → RunOk ok s' n' → n' ≤ n)

  abbrev Scanned : ℕ → Runs → Type 0
  Scanned i r = Best i r.best_start r.best_len × Current i r.run_start r.run_len

  -- A run without its last hour, and with one more.
  shorter : (s n : ℕ) → RunOk ok s (suc n) → RunOk ok s n
  shorter s n run i above below = run i above (omega (arith, below))

  longer : (s n i : ℕ) → RunOk ok s n → s + n ≡ i → ok i ≡ true → RunOk ok s (n + 1)
  longer s n i run e h j above below = elim (dec_lt j (s + n)) [
    | yes before ↦ run j above before
    | no last ↦ let at : j ≡ i = omega arith in ap ok at ∙ h
  ]

  by_end : (a i : ℕ) → a ≤ i + 1 → (a ≤ i) ⊎ (a ≡ i + 1)
  by_end a i h = elim (dec_lt a (i + 1)) [
    | yes before ↦ inl (omega arith)
    | no last ↦ inr (omega arith)
  ]

  extend :
      (i : ℕ) (rs : Option ℕ) (n : ℕ)
      → Current i rs n
      → ok i ≡ true
      → Current (i + 1) (some (extended i rs n).0) (extended i rs n).1
  extend i none n (e, none_ends) h = (
    omega arith,
    refl,
    λ j above below. let at : j ≡ i = omega (arith, above, below) in ap ok at ∙ h,
    longest,
  )
    where
      longest : (s' n' : ℕ) → s' + n' ≡ i + 1 → RunOk ok s' n' → n' ≤ 1
      longest s' zero e' run = omega arith
      longest s' (suc n') e' run =
          omega (arith, none_ends s' n' (omega (arith, e')) (shorter s' n' run))
  extend i (some s) n (some_hours, e, run, ends) h =
      (omega arith, omega (arith, e), longer s n i run e h, longest)
    where
      longest : (s' n' : ℕ) → s' + n' ≡ i + 1 → RunOk ok s' n' → n' ≤ n + 1
      longest s' zero e' run' = omega arith
      longest s' (suc n') e' run' =
          omega (arith, ends s' n' (omega (arith, e')) (shorter s' n' run'))

  stop : (i : ℕ) → ok i ≡ false → Current (i + 1) none 0
  stop i h = (refl, none_ends)
    where
      none_ends : (s' n' : ℕ) → s' + n' ≡ i + 1 → RunOk ok s' n' → n' ≤ 0
      none_ends s' zero e run = omega arith
      none_ends s' (suc n') e run =
          let fine : ok i ≡ true = run i (omega (arith, e)) (omega (arith, e)) in cc

  bounded :
      (i : ℕ) (bs : Option ℕ) (bn : ℕ)
      → Best i bs bn
      → (s' n' : ℕ) → s' + n' ≤ i
      → RunOk ok s' n'
      → n' ≤ bn
  bounded i none bn (e, all) s' n' within run = omega (arith, all s' n' within run)
  bounded i (some s) bn (some_hours, best) s' n' within run = best.longest s' n' within run

  -- The run that is going on overtakes the best one.
  overtake :
      (i : ℕ) (bs : Option ℕ) (bn s n : ℕ)
      → Best i bs bn
      → Current (i + 1) (some s) n
      → bn < n
      → Best (i + 1) (some s) n
  overtake i bs bn s n best (some_hours, e, run, ends) more = (
    some_hours,
    record {
      within = omega (arith, e);
      fine = run;
      longest = λ s' n' within run'. elim (by_end (s' + n') i within) [
        | inl before ↦ omega (arith, more, bounded i bs bn best s' n' before run')
        | inr now ↦ ends s' n' now run'
      ];
      first = λ s' within run'. elim (by_end (s' + n) i within) [
        | inl before ↦ absurd (omega (arith, more, bounded i bs bn best s' n before run'))
        | inr now ↦ omega (arith, e, now)
      ];
    },
  )

  keep :
      (i : ℕ) (bs : Option ℕ) (bn : ℕ)
      → Best i bs bn
      → ((s' n' : ℕ) → s' + n' ≡ i + 1 → RunOk ok s' n' → n' ≤ bn)
      → Best (i + 1) bs bn
  keep i none bn (e, all) ends = (
    e,
    λ s' n' within run. elim (by_end (s' + n') i within) [
      | inl before ↦ all s' n' before run
      | inr now ↦ omega (arith, e, ends s' n' now run)
    ],
  )
  keep i (some s) bn (some_hours, best) ends = (
    some_hours,
    record {
      within = omega (arith, best.within);
      fine = best.fine;
      longest = λ s' n' within run. elim (by_end (s' + n') i within) [
        | inl before ↦ best.longest s' n' before run
        | inr now ↦ ends s' n' now run
      ];
      first = λ s' within run. elim (by_end (s' + bn) i within) [
        | inl before ↦ best.first s' before run
        | inr now ↦ omega (arith, now, best.within)
      ];
    },
  )

  after_hour-Scanned : (i : ℕ) (r : Runs) → Scanned i r → Scanned (i + 1) (after_hour i (ok i) r)
  after_hour-Scanned i r (best, current) = elim (Bool-cases (ok i)) [
    | inl fine ↦
        let now = extend i r.run_start r.run_len current fine in
        elim (Bool-cases (ltb r.best_len (extended i r.run_start r.run_len).1)) [
          | inl more ↦
              rw (fine, more)
                (
                  overtake i r.best_start r.best_len (extended i r.run_start r.run_len).0
                      (extended i r.run_start r.run_len).1 best now (ltb→lt _ _ more),
                  now,
                )
          | inr less ↦
              rw (fine, less)
                (
                  keep i r.best_start r.best_len best
                      (λ s' n' e run. omega (arith, now.3 s' n' e run, ltb-false _ _ less)),
                  now,
                )
        ]
    | inr bad ↦ rw bad (
      keep i r.best_start r.best_len best
          (λ s' n' e run. omega (arith, (stop i bad).1 s' n' e run)),
      stop i bad,
    )
  ]

  longest_run-Scanned :
      (n i : ℕ) (r : Runs) → Scanned i r → Scanned (i + n) (longest_run i (ok_hours ok i n) r)
  unfolding longest_run
  longest_run-Scanned zero i r scanned = rw (plus_zero i) scanned
  longest_run-Scanned (suc n) i r scanned =
      rw (suc_later i n)
        (longest_run-Scanned n (i + 1) (after_hour i (ok i) r) (after_hour-Scanned i r scanned))

  pub none_fine : (top : ℕ) → Best top none 0 → (i : ℕ) → i < top → ok i ≡ false
  none_fine top (e, all) i below = elim (Bool-cases (ok i)) [
    | inl fine ↦ absurd (omega (arith, all i 1 (omega (arith, below)) (alone i fine)))
    | inr bad ↦ bad
  ]
    where
      alone : (i : ℕ) → ok i ≡ true → RunOk ok i 1
      alone i fine j above below = let at : j ≡ i = omega arith in ap ok at ∙ fine

  pub scanned_all :
      (n : ℕ)
      → Best n
          (longest_run 0 (ok_hours ok 0 n) no_run).best_start
          (longest_run 0 (ok_hours ok 0 n) no_run).best_len
  scanned_all n =
      let r = longest_run 0 (ok_hours ok 0 n) no_run in
      subst (λ (m : ℕ). Best m r.best_start r.best_len) (zero_plus n)
        (longest_run-Scanned n 0 no_run
          ((refl, λ s' n' within run. omega arith), (refl, λ s' n' e run. omega arith))).0
