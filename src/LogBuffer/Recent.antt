-- ===== src/LogBuffer/Recent.antt =====
-- The buffer as the last entries of everything that was logged.
use kanfei.Prelude.{
  ℕ, zero, suc, ◌≤◌, ◌<◌, ◌≡◌, refl, ap, sym, ◌∙◌, Option, none, some, List, [], ◌∷◌, ◌++◌, length,
  length-append, length-take, take_all, take-append, take, drop, ltb, Bool-cases, inl, inr, ltb→lt,
  arith,
}
use mathlib.Core.List.{reverse, reverse-append, reverse-cons}
use kanfei.Bytes.{Bytes}
use kanfei.LogBuffer.{
  Entry, BufferHandler, new_handler, append, emit, select, is_listed, get_entries,
}

-- What was formatted, newest first.
abbrev pub newest_first : List (Option Entry) → List Entry → List Entry
newest_first [] seen = seen
newest_first (none ∷ records) seen = newest_first records seen
newest_first (some entry ∷ records) seen = newest_first records (entry ∷ seen)

abbrev pub emit_all : List (Option Entry) → BufferHandler → BufferHandler
emit_all [] h = h
emit_all (r ∷ records) h = emit_all records (emit r h)

module _ {A : Type 0} where
  take-take-suc : (n : ℕ) (xs : List A) → take n (take (suc n) xs) ≡ take n xs
  take-take-suc zero xs = refl
  take-take-suc (suc n) [] = refl
  take-take-suc (suc n) (x ∷ xs) = ap (λ l. x ∷ l) (take-take-suc n xs)

  length-reverse : (xs : List A) → length (reverse xs) ≡ length xs
  length-reverse [] = refl
  length-reverse (x ∷ xs) =
      ap (λ (l : List A). length l) (reverse-cons x xs)
      ∙ omega (arith, length-append (reverse xs) (x ∷ []), length-reverse xs)

  -- A prefix that ends before its length is the whole.
  take-short : (n : ℕ) (xs : List A) → length (take (suc n) xs) ≤ n → take (suc n) xs ≡ take n xs
  take-short n xs h = sym (take_all n (take (suc n) xs) h) ∙ take-take-suc n xs

append-newest :
    (maxlen : ℕ) (buf seen : List Entry) (entry : Entry)
    → reverse buf ≡ take maxlen seen
    → reverse (append maxlen buf entry) ≡ take maxlen (entry ∷ seen)
unfolding append
append-newest maxlen buf seen entry h = elim (Bool-cases (ltb (length buf) maxlen)) [
  | inl e ↦ rw e (room maxlen (ltb→lt _ _ e) h)
  | inr e ↦ rw e (full maxlen buf (ground (arith, e)) h)
]
  where
    room :
        (m : ℕ)
        → length buf < m
        → reverse buf ≡ take m seen
        → reverse (buf ++ entry ∷ []) ≡ take m (entry ∷ seen)
    room zero fits h = absurd (omega (arith, fits))
    room (suc n) fits h =
        reverse-append buf (entry ∷ [])
        ∙ ap (λ l. entry ∷ l)
            (h
              ∙ take-short n seen
                  (omega (arith, fits, length-reverse buf, ap (λ (l : List Entry). length l) h)))

    full :
        (m : ℕ) (b : List Entry)
        → m ≤ length b
        → reverse b ≡ take m seen
        → reverse (drop 1 (b ++ entry ∷ [])) ≡ take m (entry ∷ seen)
    full zero [] over h = refl
    full zero (x ∷ xs) over h =
        absurd (omega (arith, length-reverse (x ∷ xs), ap (λ (l : List Entry). length l) h))
    full (suc n) [] over h = absurd (omega (arith, over))
    full (suc n) (x ∷ xs) over h =
        let same_length : length (reverse xs) ≡ n = omega (
          arith,
          over,
          length-reverse xs,
          length-reverse (x ∷ xs),
          length-take (suc n) seen,
          ap (λ (l : List Entry). length l) h,
        ) in
        reverse-append xs (entry ∷ [])
        ∙ ap (λ l. entry ∷ l)
            (sym (take-append (reverse xs) (x ∷ []))
              ∙ ap (λ (l : List Entry). take (length (reverse xs)) l) (sym (reverse-cons x xs) ∙ h)
              ∙ ap (λ (k : ℕ). take k (take (suc n) seen)) same_length
              ∙ take-take-suc n seen)

emit-newest :
    (h : BufferHandler) (seen : List Entry) (r : Option Entry)
    → reverse h.buf ≡ take h.maxlen seen
    → reverse (emit r h).buf ≡ take h.maxlen (newest_first (r ∷ []) seen)
unfolding emit
emit-newest h seen none same = same
emit-newest h seen (some entry) same = append-newest h.maxlen h.buf seen entry same

newest :
    (records : List (Option Entry)) (h : BufferHandler) (seen : List Entry)
    → reverse h.buf ≡ take h.maxlen seen
    → reverse (emit_all records h).buf ≡ take h.maxlen (newest_first records seen)
unfolding emit
newest [] h seen same = same
newest (none ∷ records) h seen same = newest records h seen same
newest (some entry ∷ records) h seen same =
    newest records (emit (some entry) h) (entry ∷ seen) (emit-newest h seen (some entry) same)

-- After any records were emitted to a new handler, `get_entries` gives, of the last `maxlen` records
-- that could be formatted, those at or above the asked level, newest first, at most `limit` of them.
pub get_entries-emit_all :
    (level_number : Bytes → ℕ) (attribute : Bytes → Option ℕ) (level : Option Bytes)
    (limit maxlen : ℕ) (records : List (Option Entry))
    → get_entries level_number attribute level limit (emit_all records (new_handler maxlen))
      ≡ take limit
          (select (is_listed level_number attribute level) (take maxlen (newest_first records [])))
unfolding get_entries
get_entries-emit_all level_number attribute level limit maxlen records =
    ap (λ (l : List Entry). take limit (select (is_listed level_number attribute level) l))
      (newest records (new_handler maxlen) [] (nothing maxlen))
  where
    nothing : (m : ℕ) → reverse (new_handler m).buf ≡ take m []
    nothing zero = refl
    nothing (suc m) = refl
