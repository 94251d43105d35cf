-- ===== src/Vantage/Transfer/Abort.antt =====
-- How a transfer ends early: attempts that run out, and a stop that another thread requests.
use kanfei.Prelude.{
  ℕ, zero, suc, ◌+◌, ◌≡◌, refl, Bool, true, false, Option, none, some, List, [], ◌∷◌, ◌++◌, arith,
  All, ltb, length, take, Bool-cases, inl, inr, ap, sym, ◌∙◌, append_assoc, append-nil,
}
use kanfei.Bytes.{Bytes}
use kanfei.Floats.{Float}
use kanfei.Calendar.{DateTime}
use kanfei.Vantage.Archive.{ArchiveRecord}
use kanfei.Vantage.Link.{Port, ok, raised, send, receive, connection_error, bind-ok}
use kanfei.Vantage.Transfer.{take_page, read_page, read_pages, max_retries, nak, esc}
use kanfei.Vantage.Transfer.Recovery.{port, page_arrives, quiet, naks, read_page_bad}

read_page_gives_up :
    (n : ℕ) (bad : List Bytes) (rest : List (Bytes × Bool)) (sent : List Bytes)
    → length bad ≡ n
    → All (λ b. page_arrives b ≡ false) bad
    → read_page n (port (quiet bad ++ rest) sent) ≡ (ok none, port rest (sent ++ naks bad))
unfolding read_page
read_page_gives_up zero [] rest sent h hb =
    ap (λ (t : List Bytes). (ok none, port rest t)) (sym (append-nil sent))
read_page_gives_up zero (b ∷ bad) rest sent h hb = absurd (omega arith)
read_page_gives_up (suc n) [] rest sent h hb = absurd (omega arith)
read_page_gives_up (suc n) (b ∷ bad) rest sent h hb =
    read_page_bad b n (quiet bad ++ rest) sent hb.0
    ∙ read_page_gives_up n bad rest (sent ++ (nak ∷ []) ∷ []) (omega arith) hb.1
    ∙ ap (λ (t : List Bytes). (ok none, port rest t))
        (append_assoc sent ((nak ∷ []) ∷ []) (naks bad))

-- The port once a stop is requested.
abbrev pub stopped : List (Bytes × Bool) → List Bytes → Port
stopped inbox sent = record { inbox = inbox; sent = sent; stop_requested = true }

read_page_interrupted :
    (n : ℕ) (wire : Bytes) (rest : List (Bytes × Bool)) (sent : List Bytes)
    → page_arrives wire ≡ true
    → read_page (suc n) (port ((wire, true) ∷ rest) sent)
      ≡ (ok (some (take 267 wire)), stopped rest sent)
unfolding read_page receive
read_page_interrupted n wire rest sent good = elim (Bool-cases (ltb (length (take 267 wire)) 267)) [
  | inl short ↦ absurd (clash (rw short at good))
  | inr whole ↦ rw (whole, (rw whole at good))
]
  where
    clash : false ≡ true → ⊥
    clash e = cc

module _ {F : Type 0} ⦃fl : Float F⦄ (click : F) (n page_num first_offset : ℕ)
    (after : Option DateTime) (records : List (ArchiveRecord F)) (rest : List (Bytes × Bool))
    (sent : List Bytes) where
  -- After three reads of a page in vain the page loop has sent three NAKs and an ESC, raises a
  -- ConnectionError, and reads no more.
  read_pages_gives_up :
      (bad : List Bytes)
      → length bad ≡ max_retries
      → All (λ b. page_arrives b ≡ false) bad
      → read_pages click (suc n) page_num first_offset after records (port (quiet bad ++ rest) sent)
        ≡ (raised connection_error, port rest ((sent ++ naks bad) ++ (esc ∷ []) ∷ []))
  unfolding read_pages send
  read_pages_gives_up bad h hb =
      bind-ok (read_page max_retries)
        (take_page click page_num first_offset after records
          (read_pages click n (page_num + 1) first_offset after))
        (port (quiet bad ++ rest) sent) (port rest (sent ++ naks bad)) none
        (read_page_gives_up max_retries bad rest sent h hb)

  -- A stop that was requested before a page is read ends the page loop with the records kept so far
  -- and one ESC; one that arrives while a good page is being read ends it with the same records, and
  -- with nothing sent at all: neither the ACK of the page nor an ESC.
  read_pages_stop :
      (wire : Bytes)
      → page_arrives wire ≡ true
      → (read_pages click (suc n) page_num first_offset after records (stopped rest sent)
          ≡ (ok records, stopped rest (sent ++ (esc ∷ []) ∷ [])))
        × (read_pages click
              (suc n)
              page_num
              first_offset
              after
              records
              (port ((wire, true) ∷ rest) sent)
            ≡ (ok records, stopped rest sent))
  unfolding read_pages send
  read_pages_stop wire good = (
    unfold read_page in refl,
    bind-ok (read_page max_retries)
        (take_page click page_num first_offset after records
          (read_pages click n (page_num + 1) first_offset after))
        (port ((wire, true) ∷ rest) sent) (stopped rest sent) (some (take 267 wire))
        (read_page_interrupted 2 wire rest sent good),
  )
