-- ===== src/Ecowitt/Sensors/Items.antt =====
-- What `parse_live_data` of backend/app/protocol/ecowitt/sensors.py reads off a payload.
use kanfei.Prelude.{
  ℕ, zero, suc, ◌≤◌, ◌<◌, ◌≡◌, ◌⊎◌, refl, sym, ap, ◌∙◌, true, Bool-cases, inl, inr, Option, none,
  some, List, [], ◌∷◌, ◌++◌, length, take, drop, ltb, All, arith, length-drop, take-append-drop,
  append_assoc,
}
use kanfei.Bytes.{Bytes}
use kanfei.Ecowitt.Protocol.Reads.{take_whole}
use kanfei.Ecowitt.Sensors.{
  marker_size, decoded, Dict, put, after_marker, parse_from, parse_live_data,
}

-- A marker with as many bytes as the table gives it.
pub record Item : Type 0 where
  pub marker : ℕ
  pub size : ℕ
  pub bytes : Bytes

pub record IsItem (i : Item) : Type 0 where
  pub listed : marker_size i.marker ≡ some i.size
  pub whole : length i.bytes ≡ i.size

abbrev pub written : List Item → Bytes
written [] = []
written (i ∷ items) = i.marker ∷ (i.bytes ++ written items)

-- Later values of a marker replace earlier ones.
abbrev pub stored : List Item → Dict → Dict
stored [] result = result
stored (i ∷ items) result = stored items (put i.marker (decoded i.marker i.size i.bytes) result)

-- Nothing, an unknown marker, or a marker with too few bytes behind it.
abbrev pub Ends : Bytes → Type 0
Ends [] = Unit {0}
Ends (marker ∷ bytes) =
    (marker_size marker ≡ none)
    ⊎ ((size : ℕ) × (marker_size marker ≡ some size) × (length bytes < size))

abbrev pub Parsed : Bytes → Dict → Dict → Type 0
Parsed payload before result =
    (items : List Item) × (tail : Bytes) × (payload ≡ written items ++ tail)
    × All IsItem items
    × Ends tail
    × (result ≡ stored items before)

short_lt : (a b : ℕ) → ltb a b ≡ true → a < b
short_lt a b h = ground arith

parse_from-Parsed :
    (fuel : ℕ) (payload : Bytes) (before : Dict)
    → length payload ≤ fuel
    → Parsed payload before (parse_from fuel payload before)
unfolding parse_from
parse_from-Parsed zero [] before h = ([], [], refl, tt, tt, refl)
parse_from-Parsed zero (marker ∷ bytes) before h = absurd (omega arith)
parse_from-Parsed (suc fuel) [] before h = ([], [], refl, tt, tt, refl)
parse_from-Parsed (suc fuel) (marker ∷ bytes) before h = step (marker_size marker) refl (λ size.
    parse_from-Parsed fuel (drop size bytes)
      (put marker (decoded marker size (take size bytes)) before)
      (omega (arith, length-drop size bytes)))
  where
    after : ℕ → Dict
    after size = put marker (decoded marker size (take size bytes)) before

    step :
        (o : Option ℕ)
        → marker_size marker ≡ o
        → ((size : ℕ)
            → Parsed
                (drop size bytes)
                (after size)
                (parse_from fuel (drop size bytes) (after size)))
        → Parsed (marker ∷ bytes) before (after_marker (parse_from fuel) marker bytes before o)
    step none unknown rest = ([], marker ∷ bytes, refl, tt, inl unknown, refl)
    step (some size) listed rest = elim (Bool-cases (ltb (length bytes) size)) [
      | inl short ↦ rw short (
        [],
        marker ∷ bytes,
        refl,
        tt,
        inr (size, listed, short_lt (length bytes) size short),
        refl,
      )
      | inr enough ↦
          let (items, tail, e, all, ends, f) = rest size in
          let item : Item = record { marker = marker; size = size; bytes = take size bytes } in
          rw enough (
            item ∷ items,
            tail,
            ap (λ (t : Bytes). marker ∷ t)
                (sym (take-append-drop size bytes)
                  ∙ ap (λ (t : Bytes). take size bytes ++ t) e
                  ∙ sym (append_assoc (take size bytes) (written items) tail)),
            (record { listed = listed; whole = take_whole size bytes enough }, all),
            ends,
            f,
          )
    ]

-- Any payload is a row of items, each a marker of the table with all its bytes, and then nothing, an unknown
-- marker, or a marker with too few bytes; `parse_live_data` gives the values of these items, the last
-- one where a marker comes again.
pub parse_live_data-Parsed : (payload : Bytes) → Parsed payload [] (parse_live_data payload)
unfolding parse_live_data
parse_live_data-Parsed payload = parse_from-Parsed (length payload) payload [] (omega arith)
