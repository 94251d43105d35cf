-- ===== src/Alerts/Sets.antt =====
-- Membership in the sets of backend/app/services/alerts.py.
use Prim.Native.String.{String}
use text.Mathlib.Text.{◌==◌}
use text.Mathlib.TextEquality.{eq_iff}
use kanfei.Prelude.{
  ◌≡◌, refl, sym, ap, ◌∙◌, Bool, true, false, not, ◌&&◌, ◌||◌, List, [], ◌∷◌, Bool-cases, inl, inr,
}
use kanfei.Alerts.{has, add, discard, intersection}

pub ==_refl : (k : String) → (k == k) ≡ true
==_refl k = (eq_iff k k).1 refl

pub ==_sound : (k j : String) → (k == j) ≡ true → k ≡ j
==_sound k j e = (eq_iff k j).0 e

pub has-add : (m k : String) (s : List String) → has m (add k s) ≡ ((m == k) || has m s)
unfolding has add
has-add m k s = elim (Bool-cases (has k s)) [
  | inr new ↦ rw new refl
  | inl old ↦ rw old (elim (Bool-cases (m == k)) [
    | inr other ↦ rw other refl
    | inl same ↦ rw same (ap (λ (x : String). has x s) (==_sound m k same) ∙ old)
  ])
]

absorbed : (b h : Bool) → (not b && h) ≡ (not b && (b || h))
absorbed true h = refl
absorbed false h = refl

pub has-discard : (m k : String) (s : List String) → has m (discard k s) ≡ (not (m == k) && has m s)
unfolding has discard
has-discard m k [] = elim (Bool-cases (m == k)) [ inl e ↦ rw e refl | inr e ↦ rw e refl ]
has-discard m k (j ∷ s) = elim (Bool-cases (k == j)) [
  | inl hit ↦
      let same : (m == j) ≡ (m == k) = ap (λ (x : String). m == x) (sym (==_sound k j hit)) in
      rw (hit, same, has-discard m k s) (absorbed (m == k) (has m s))
  | inr miss ↦
      rw (miss, has-discard m k s)
        (elim (Bool-cases (m == k)) [
          | inr other ↦ rw other refl
          | inl same ↦ rw (same, ap (λ (x : String). x == j) (==_sound m k same) ∙ miss) refl
        ])
]

pub has-intersection :
    (m : String) (s t : List String) → has m (intersection s t) ≡ true → has m t ≡ true
unfolding has intersection
has-intersection m [] t h = absurd (clash h)
  where
    clash : false ≡ true → ⊥
    clash e = cc
has-intersection m (j ∷ s) t h = elim (Bool-cases (has j t)) [
  | inr out ↦ has-intersection m s t (rw out at h)
  | inl inside ↦ elim (Bool-cases (m == j)) [
    | inl same ↦ ap (λ (x : String). has x t) (==_sound m j same) ∙ inside
    | inr other ↦ has-intersection m s t (rw (inside, other) at h)
  ]
]
