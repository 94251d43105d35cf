-- ===== src/Vantage/Transfer/Recovery.antt =====
-- A transfer over a noisy line: bad pages are asked for again, and the records are those of a quiet
-- line.
use kanfei.Prelude.{
  ℕ, zero, suc, ◌+◌, ◌<◌, ◌≡◌, Bool, true, false, Option, some, List, [], ◌∷◌, ◌++◌, arith, All,
  ltb, length, take, Bool-cases, inl, inr, if◌then◌else◌, ap, sym, ◌∙◌, append_assoc, append-nil,
  ap₂,
}
use kanfei.Bytes.{Bytes}
use kanfei.Floats.{Float}
use kanfei.Calendar.{DateTime}
use kanfei.Crc.{crc_validate}
use kanfei.Vantage.Archive.{ArchiveRecord, parse_archive_page}
use kanfei.Vantage.Link.{Port, ok, send, receive, bind-ok}
use kanfei.Vantage.Transfer.{keep_records, take_page, read_page, read_pages, max_retries, ack, nak}

-- The port while no stop is requested.
abbrev pub port : List (Bytes × Bool) → List Bytes → Port
port inbox sent = record { inbox = inbox; sent = sent; stop_requested = false }

-- What one read of a page makes of the bytes on the wire.
abbrev pub page_arrives : Bytes → Bool
page_arrives wire = if ltb (length (take 267 wire)) 267 then false else crc_validate (take 267 wire)

module _ (wire : Bytes) (n : ℕ) (rest : List (Bytes × Bool)) (sent : List Bytes) where
  read_page_good :
      page_arrives wire ≡ true
      → read_page (suc n) (port ((wire, false) ∷ rest) sent)
        ≡ (ok (some (take 267 wire)), port rest sent)
  unfolding read_page receive
  read_page_good good = elim (Bool-cases (ltb (length (take 267 wire)) 267)) [
    | inl short ↦ absurd (clash (rw short at good))
    | inr whole ↦ rw (whole, (rw whole at good))
  ]
    where
      clash : false ≡ true → ⊥
      clash e = cc

  pub read_page_bad :
      page_arrives wire ≡ false
      → read_page (suc n) (port ((wire, false) ∷ rest) sent)
        ≡ read_page n (port rest (sent ++ (nak ∷ []) ∷ []))
  unfolding read_page receive send
  read_page_bad bad = elim (Bool-cases (ltb (length (take 267 wire)) 267)) [
    | inl short ↦ rw short
    | inr whole ↦ rw (whole, (rw whole at bad))
  ]

-- Reads of which none asks for a stop.
abbrev pub quiet : List Bytes → List (Bytes × Bool)
quiet [] = []
quiet (wire ∷ wires) = (wire, false) ∷ quiet wires

abbrev pub naks : List Bytes → List Bytes
naks [] = []
naks (wire ∷ wires) = (nak ∷ []) ∷ naks wires

read_page_recovers :
    (n : ℕ) (bad : List Bytes) (wire : Bytes) (rest : List (Bytes × Bool)) (sent : List Bytes)
    → length bad < n
    → All (λ b. page_arrives b ≡ false) bad
    → page_arrives wire ≡ true
    → read_page n (port (quiet bad ++ (wire, false) ∷ rest) sent)
      ≡ (ok (some (take 267 wire)), port rest (sent ++ naks bad))
read_page_recovers zero bad wire rest sent h hb hw = absurd (omega arith)
read_page_recovers (suc n) [] wire rest sent h hb hw =
    read_page_good wire n rest sent hw
    ∙ ap (λ (t : List Bytes). (ok (some (take 267 wire)), port rest t)) (sym (append-nil sent))
read_page_recovers (suc n) (b ∷ bad) wire rest sent h hb hw =
    read_page_bad b n (quiet bad ++ (wire, false) ∷ rest) sent hb.0
    ∙ read_page_recovers n bad wire rest (sent ++ (nak ∷ []) ∷ []) (omega arith) hb.1 hw
    ∙ ap (λ (t : List Bytes). (ok (some (take 267 wire)), port rest t))
        (append_assoc sent ((nak ∷ []) ∷ []) (naks bad))

-- One page as it comes over the line: what came in vain, and the page itself.
pub record Delivery : Type 0 where
  pub bad : List Bytes
  pub wire : Bytes

-- At most two reads in vain, which the three attempts at a page make good.
pub record IsTolerable (d : Delivery) : Type 0 where
  pub few : length d.bad < max_retries
  pub refused : All (λ b. page_arrives b ≡ false) d.bad
  pub arrives : page_arrives d.wire ≡ true

abbrev pub on_the_line : List Delivery → List (Bytes × Bool)
on_the_line [] = []
on_the_line (d ∷ ds) = quiet d.bad ++ (d.wire, false) ∷ on_the_line ds

-- The answers of the driver: a NAK for each read in vain, an ACK for each page.
abbrev pub answers : List Delivery → List Bytes
answers [] = []
answers (d ∷ ds) = naks d.bad ++ (ack ∷ []) ∷ answers ds

module _ {F : Type 0} ⦃fl : Float F⦄ (click : F) (first_offset : ℕ) (after : Option DateTime) where
  -- The records of the pages alone.
  abbrev pub records_of : ℕ → List Delivery → List (ArchiveRecord F)
  records_of page_num [] = []
  records_of page_num (d ∷ ds) =
      keep_records click page_num first_offset after (parse_archive_page (take 267 d.wire))
      ++ records_of (page_num + 1) ds

  -- Over a line on which every page comes after at most two reads in vain, the page loop returns the
  -- records of the pages in their order, after what it had, has sent a NAK for each read in vain and
  -- an ACK for each page, and has read nothing beyond the last page.
  pub read_pages_recovers :
      (page_num : ℕ) (records : List (ArchiveRecord F)) (ds : List Delivery)
      (later : List (Bytes × Bool)) (sent : List Bytes)
      → All IsTolerable ds
      → read_pages click
          (length ds)
          page_num
          first_offset
          after
          records
          (port (on_the_line ds ++ later) sent)
        ≡ (ok (records ++ records_of page_num ds), port later (sent ++ answers ds))
  unfolding read_pages send
  read_pages_recovers page_num records [] later sent h = rw (append-nil records, append-nil sent)
  read_pages_recovers page_num records (d ∷ ds) later sent h =
      let kept : List (ArchiveRecord F) =
        records
        ++ keep_records click page_num first_offset after (parse_archive_page (take 267 d.wire)) in
      let loop = read_pages click (length ds) (page_num + 1) first_offset after in
      let inbox = on_the_line ds ++ later in
      ap
        (λ (t : List (Bytes × Bool)).
          read_pages click (suc (length ds)) page_num first_offset after records (port t sent))
        (append_assoc (quiet d.bad) ((d.wire, false) ∷ on_the_line ds) later)
      ∙ bind-ok (read_page max_retries) (take_page click page_num first_offset after records loop)
          (port (quiet d.bad ++ (d.wire, false) ∷ inbox) sent) (port inbox (sent ++ naks d.bad))
          (some (take 267 d.wire))
          (read_page_recovers max_retries d.bad d.wire inbox sent h.0.few h.0.refused h.0.arrives)
      ∙ read_pages_recovers (page_num + 1) kept ds later ((sent ++ naks d.bad) ++ (ack ∷ []) ∷ [])
          h.1
      ∙ ap₂ (λ (r : List (ArchiveRecord F)) (t : List Bytes). (ok r, port later t))
          (append_assoc records _ _)
          (append_assoc (sent ++ naks d.bad) ((ack ∷ []) ∷ []) (answers ds)
            ∙ append_assoc sent (naks d.bad) ((ack ∷ []) ∷ answers ds))
