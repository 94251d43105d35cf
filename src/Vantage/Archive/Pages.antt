-- ===== src/Vantage/Archive/Pages.antt =====
-- The five records of an archive page.
use kanfei.Prelude.{
  ℕ, zero, suc, ◌+◌, ◌*◌, ◌≤◌, ◌≡◌, refl, true, List, [], ◌∷◌, ◌++◌, length, take, drop, ltb_ge,
  arith, ap, sym, ◌∙◌, length-take, length-drop, take-append-drop, append_assoc,
}
use kanfei.Bytes.{Bytes}
use kanfei.Crc.{crc_validate}
use kanfei.Vantage.Archive.{page_records, parse_archive_page}

take-nil : (n : ℕ) → take {A = ℕ} n [] ≡ []
take-nil zero = refl
take-nil (suc n) = refl

drop-nil : (n : ℕ) → drop {A = ℕ} n [] ≡ []
drop-nil zero = refl
drop-nil (suc n) = refl

-- A suffix is its first `n` bytes and the suffix behind them.
drop_split : (k n m : ℕ) (xs : Bytes) → k + n ≡ m → drop k xs ≡ take n (drop k xs) ++ drop m xs
drop_split zero n m xs e =
    sym (take-append-drop n xs) ∙ ap (λ (j : ℕ). take n xs ++ drop j xs) (omega arith)
drop_split (suc k) n m [] e = rw (take-nil n, drop-nil m)
drop_split (suc k) n zero (x ∷ xs) e = absurd (omega arith)
drop_split (suc k) n (suc m) (x ∷ xs) e = drop_split k n m xs (omega arith)

-- The bytes of the records, one after the other.
abbrev pub bodies : List (ℕ × Bytes) → Bytes
bodies [] = []
bodies ((i, body) ∷ records) = body ++ bodies records

abbrev pub numbers : List (ℕ × Bytes) → List ℕ
numbers [] = []
numbers ((i, body) ∷ records) = i ∷ numbers records

abbrev pub AllSized : List (ℕ × Bytes) → Type 0
AllSized [] = Unit
AllSized ((i, body) ∷ records) = (length body ≡ 52) × AllSized records

page_records-AllSized :
    (n i : ℕ) (page : Bytes) → 1 + (i + n) * 52 ≤ length page → AllSized (page_records n i page)
unfolding page_records
page_records-AllSized zero i page h = tt
page_records-AllSized (suc n) i page h = (
  omega (arith, length-take 52 (drop (1 + i * 52) page), length-drop (1 + i * 52) page),
  page_records-AllSized n (i + 1) page (omega arith),
)

page_records_tile :
    (n i end : ℕ) (page : Bytes)
    → 1 + (i + n) * 52 ≡ end
    → drop (1 + i * 52) page ≡ bodies (page_records n i page) ++ drop end page
unfolding page_records
page_records_tile zero i end page e = ap (λ (k : ℕ). drop k page) (omega arith)
page_records_tile (suc n) i end page e =
    drop_split (1 + i * 52) 52 (1 + (i + 1) * 52) page (omega arith)
    ∙ ap (λ (t : Bytes). take 52 (drop (1 + i * 52) page) ++ t)
        (page_records_tile n (i + 1) end page (omega arith))
    ∙ sym (
        append_assoc (take 52 (drop (1 + i * 52) page)) (bodies (page_records n (i + 1) page))
          (drop end page))

-- A page that has its 267 bytes and passes the checksum gives five records of 52 bytes, numbered
-- from 0. With the leading sequence byte before them and what follows byte 261 behind them, they
-- are the page.
pub parse_archive_page_tiles :
    (page : Bytes)
    → 267 ≤ length page
    → crc_validate (take 267 page) ≡ true
    → let records = parse_archive_page page in
      (numbers records ≡ 0 ∷ 1 ∷ 2 ∷ 3 ∷ 4 ∷ [])
      × AllSized records
      × (take 1 page ++ (bodies records ++ drop 261 page) ≡ page)
parse_archive_page_tiles page long good =
    let parsed : parse_archive_page page ≡ page_records 5 0 page =
      unfold parse_archive_page in rw (ltb_ge 267 (length page) long, good) in
    rw parsed (
      unfold page_records in refl,
      page_records-AllSized 5 0 page (omega arith),
      ap (λ (t : Bytes). take 1 page ++ t) (sym (page_records_tile 5 0 261 page refl))
          ∙ take-append-drop 1 page,
    )
