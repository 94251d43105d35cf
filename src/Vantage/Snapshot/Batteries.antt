-- ===== src/Vantage/Snapshot/Batteries.antt =====
-- The list of transmitters with a low battery in `loop_to_snapshot` of
-- backend/app/protocol/vantage/loop_packet.py.
use kanfei.Prelude.{
  ℕ, ◌+◌, ◌/◌, ◌%◌, ◌^◌, ◌<◌, ◌≡◌, refl, Bool, true, false, ◌||◌, List, [], ◌∷◌, ◌==◌, all_below,
  all_below_sound, arith,
}
use kanfei.Vantage.Snapshot.{low_transmitters}

abbrev pub member : ℕ → List ℕ → Bool
member x [] = false
member x (y ∷ ys) = (x == y) || member x ys

abbrev same : Bool → Bool → Bool
same true b = b
same false true = false
same false false = true

same_sound : (a b : Bool) → same a b ≡ true → a ≡ b
same_sound true b h = ground (arith, h)
same_sound false true h = ground (arith, h)
same_sound false false h = refl

listed_table :
    all_below 256 (λ status.
      all_below 8
        (λ n. same (member (n + 1) (low_transmitters 8 0 status)) (status / 2 ^ n % 2 == 1)))
    ≡ true
unfolding all_below low_transmitters
listed_table = refl

-- For the byte that the console sends, transmitter `n + 1` is in the list of low batteries exactly
-- when bit `n` of the byte is set, for the eight transmitters.
pub low_transmitters_listed :
    (status n : ℕ)
    → status < 256
    → n < 8
    → member (n + 1) (low_transmitters 8 0 status) ≡ (status / 2 ^ n % 2 == 1)
low_transmitters_listed status n byte few = same_sound _ _ (
    all_below_sound 8
      (λ n. same (member (n + 1) (low_transmitters 8 0 status)) (status / 2 ^ n % 2 == 1))
      (all_below_sound 256 _ listed_table status byte) n few)
