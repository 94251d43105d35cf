-- ===== src/Vantage/Transfer.antt =====
-- The paged archive transfer of backend/app/protocol/vantage/driver.py: `_read_archive_pages`, `dmp`
-- and `dmpaft`. A loop of the source is a recursion on the rounds that are left.
pub mod Recovery
pub mod Cutoff
pub mod Session
pub mod Abort
use kanfei.Prelude.{
  ℕ, zero, suc, ◌+◌, Bool, true, false, ◌&&◌, Option, none, some, List, [], ◌∷◌, ◌++◌, length, ltb,
  not, ◌==◌, if◌then◌else◌,
}
use kanfei.Bytes.{Bytes, u16_at}
use kanfei.Floats.{Float}
use kanfei.Calendar.{DateTime, before_or_at}
use kanfei.Crc.{crc_validate}
use kanfei.Vantage.Stamp.{build_dmpaft_timestamp}
use kanfei.Vantage.Archive.{
  ArchiveRecord, archive_page_size, parse_archive_record, parse_archive_page,
}
use kanfei.Vantage.Link.{
  Port, Outcome, Exception, connection_error, struct_error, Io, pure, raise, ◌>>=◌, ◌>>◌, send,
  receive, receive_byte, flush, is_byte, wakeup,
}

abbrev pub ack : ℕ
ack = 0x06

abbrev pub nak : ℕ
nak = 0x21

abbrev pub esc : ℕ
esc = 0x1B

abbrev pub max_retries : ℕ
max_retries = 3

-- The inner loop over the attempts at one page. A page that came in is returned; `none` means that
-- the attempts ran out or a stop was requested.
unfoldable pub read_page : ℕ → Io (Option Bytes)
read_page zero p = pure none p
read_page (suc n) p =
    let again = send (nak ∷ []) >> read_page n in
    let attempt = (do
      chunk ← receive archive_page_size
      if ltb (length chunk) archive_page_size
          then again
          else if crc_validate chunk
          then pure (some chunk)
          else again) in
    if p.stop_requested then (send (esc ∷ []) >> pure none) p else attempt p

module _ {F : Type 0} ⦃fl : Float F⦄ (click : F) where
  -- `after is not None and record.timestamp <= after`
  abbrev pub too_old : Option DateTime → DateTime → Bool
  too_old none t = false
  too_old (some cutoff) t = before_or_at t cutoff

  -- The body of the loop over the records of a page.
  unfoldable pub keep_record : ℕ → ℕ → Option DateTime → ℕ × Bytes → List (ArchiveRecord F)
  keep_record page_num first_offset after (offset, bytes) =
      if (page_num == 0) && ltb offset first_offset
      then []
      else elim (parse_archive_record bytes click) [
        | none ↦ []
        | some rec ↦ if too_old after rec.timestamp then [] else rec ∷ []
      ]

  unfoldable pub keep_records : ℕ → ℕ → Option DateTime → List (ℕ × Bytes) → List (ArchiveRecord F)
  keep_records page_num first_offset after [] = []
  keep_records page_num first_offset after (r ∷ records) =
      keep_record page_num first_offset after r ++ keep_records page_num first_offset after records

  -- What follows a page that was read, or not: the stop test, the error, or the acknowledgement and
  -- the records of the page; `rest` is the loop over the later pages.
  abbrev pub take_page :
      ℕ
      → ℕ
      → Option DateTime
      → List (ArchiveRecord F)
      → (List (ArchiveRecord F) → Io (List (ArchiveRecord F)))
      → Option Bytes
      → Io (List (ArchiveRecord F))
  take_page page_num first_offset after records rest none p =
      if p.stop_requested then pure records p else (send (esc ∷ []) >> raise connection_error) p
  take_page page_num first_offset after records rest (some chunk) p =
      if p.stop_requested
      then pure records p
      else (send (ack ∷ [])
            >> rest
                (records ++ keep_records page_num first_offset after (parse_archive_page chunk)))
          p

  -- The loop over the pages, with `n` pages left and the records kept so far.
  unfoldable pub read_pages :
      ℕ → ℕ → ℕ → Option DateTime → List (ArchiveRecord F) → Io (List (ArchiveRecord F))
  read_pages zero page_num first_offset after records p = pure records p
  read_pages (suc n) page_num first_offset after records p =
      (read_page max_retries
          >>= take_page page_num first_offset after records
              (read_pages n (page_num + 1) first_offset after))
        p

  unfoldable pub read_archive_pages : ℕ → ℕ → Option DateTime → Io (List (ArchiveRecord F))
  unfolding read_pages
  read_archive_pages page_count first_offset after = read_pages page_count 0 first_offset after []

-- b"DMP\n" and b"DMPAFT\n"
abbrev pub cmd_dmp : Bytes
cmd_dmp = b'D' ∷ b'M' ∷ b'P' ∷ 0x0A ∷ []

abbrev pub cmd_dmpaft : Bytes
cmd_dmpaft = b'D' ∷ b'M' ∷ b'P' ∷ b'A' ∷ b'F' ∷ b'T' ∷ 0x0A ∷ []

abbrev pub archive_total_pages : ℕ
archive_total_pages = 512

-- `if ack != ACK: raise ConnectionError`
unfoldable pub expect_ack : Io (Unit {0})
unfolding receive_byte
expect_ack = do
  answer ← receive_byte
  if is_byte ack answer then pure tt else raise connection_error

abbrev pub send_payload : Option Bytes → Io (Unit {0})
send_payload none = raise struct_error
send_payload (some payload) = send payload

module _ {F : Type 0} ⦃fl : Float F⦄ (click : F) where
  unfoldable pub dmp : Io (List (ArchiveRecord F))
  unfolding expect_ack
  dmp = do
    wakeup
    flush
    send cmd_dmp
    expect_ack
    read_archive_pages click archive_total_pages 0 none

  -- The transfer from the header on. A short header and a bad checksum both raise, the second after
  -- an ESC; no page is asked for if the console has none.
  unfoldable pub dmpaft_pages : DateTime → Io (List (ArchiveRecord F))
  dmpaft_pages after = do
    header ← receive 6
    if ltb (length header) 6
        then raise connection_error
        else if crc_validate header
        then (if u16_at header 0 == 0
            then pure []
            else (send (ack ∷ [])
                >> read_archive_pages click (u16_at header 0) (u16_at header 2) (some after)))
        else (send (esc ∷ []) >> raise connection_error)

  unfoldable pub dmpaft : DateTime → Io (List (ArchiveRecord F))
  unfolding expect_ack dmpaft_pages
  dmpaft after = do
    wakeup
    flush
    send cmd_dmpaft
    expect_ack
    send_payload (build_dmpaft_timestamp after)
    expect_ack
    dmpaft_pages after
