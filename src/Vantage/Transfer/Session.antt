-- ===== src/Vantage/Transfer/Session.antt =====
-- The whole DMPAFT call, from the wake-up to the last page.
use kanfei.Prelude.{
  ℕ, ◌≡◌, ◌≢◌, Bool, true, false, some, List, [], ◌∷◌, ◌++◌, arith, All, ltb, ltb_ge, ==_false,
  length-take, length, take, ap, ◌∙◌, append_assoc,
}
use kanfei.Bytes.{Bytes, u16_at}
use kanfei.Floats.{Float}
use kanfei.Calendar.{DateTime}
use kanfei.Crc.{crc_validate}
use kanfei.Vantage.Stamp.{build_dmpaft_timestamp}
use kanfei.Vantage.Link.{ok, send, receive, flush, wakeup}
use kanfei.Vantage.Transfer.{
  send_payload, read_archive_pages, dmpaft_pages, dmpaft, cmd_dmpaft, ack,
}
use kanfei.Vantage.Transfer.Recovery.{
  port, Delivery, IsTolerable, on_the_line, answers, records_of, read_pages_recovers,
}

abbrev pub wakeup_response : Bytes
wakeup_response = 0x0A ∷ 0x0D ∷ []

-- What the console answers to the command: it wakes, takes the command and the stamp, and announces
-- its pages.
abbrev pub greeting : Bytes → List (Bytes × Bool) → List (Bytes × Bool)
greeting header inbox =
    (wakeup_response, false) ∷ (ack ∷ [], false) ∷ (ack ∷ [], false) ∷ (header, false) ∷ inbox

module _ {F : Type 0} ⦃fl : Float F⦄ (click : F) (after : DateTime) (payload header : Bytes) where
  opening :
      (inbox : List (Bytes × Bool)) (sent : List Bytes)
      → build_dmpaft_timestamp after ≡ some payload
      → dmpaft click after (port (greeting header inbox) sent)
        ≡ dmpaft_pages click after (
            port
              ((header, false) ∷ inbox)
              (((sent ++ (0x0A ∷ []) ∷ []) ++ cmd_dmpaft ∷ []) ++ payload ∷ []))
  unfolding dmpaft wakeup send receive flush
  opening inbox sent stamp = rw (stamp, send_payload)

  -- What the driver sends before the pages.
  abbrev pub opening_lines : List Bytes
  opening_lines = (0x0A ∷ []) ∷ cmd_dmpaft ∷ payload ∷ (ack ∷ []) ∷ []

  announced :
      (inbox : List (Bytes × Bool)) (sent : List Bytes)
      → length header ≡ 6
      → crc_validate (take 6 header) ≡ true
      → u16_at (take 6 header) 0 ≢ 0
      → dmpaft_pages click after (port ((header, false) ∷ inbox) sent)
        ≡ read_archive_pages click
            (u16_at (take 6 header) 0)
            (u16_at (take 6 header) 2)
            (some after)
            (port inbox (sent ++ (ack ∷ []) ∷ []))
  unfolding dmpaft_pages receive send
  announced inbox sent six good some_pages =
      rw (whole, good, (==_false (u16_at (take 6 header) 0) 0 some_pages))
    where
      whole : ltb (length (take 6 header)) 6 ≡ false
      whole = ltb_ge 6 (length (take 6 header)) (omega (arith, length-take 6 header))

  pages_recover :
      (ds : List Delivery) (later : List (Bytes × Bool)) (first_offset : ℕ) (sent : List Bytes)
      → All IsTolerable ds
      → read_archive_pages click
          (length ds)
          first_offset
          (some after)
          (port (on_the_line ds ++ later) sent)
        ≡ (ok (records_of click first_offset (some after) 0 ds), port later (sent ++ answers ds))
  unfolding read_archive_pages
  pages_recover ds later first_offset sent tolerable =
      read_pages_recovers click first_offset (some after) 0 [] ds later sent tolerable

  -- When the console wakes, takes the command and the stamp, announces as many pages as it then
  -- delivers, at least one, in a header that passes its checksum, and delivers each page after at
  -- most two reads in vain, then `dmpaft` returns the records that `keep_records` keeps of those
  -- pages, in their order, and has sent the wakeup, the command, the stamp, an ACK for the header, a
  -- NAK for each read in vain and an ACK for each page, and has read nothing beyond the last page.
  pub dmpaft_recovers :
      (ds : List Delivery) (later : List (Bytes × Bool)) (sent : List Bytes)
      → build_dmpaft_timestamp after ≡ some payload
      → length header ≡ 6
      → crc_validate (take 6 header) ≡ true
      → u16_at (take 6 header) 0 ≡ length ds
      → length ds ≢ 0
      → All IsTolerable ds
      → dmpaft click after (port (greeting header (on_the_line ds ++ later)) sent) ≡ (
        ok (records_of click (u16_at (take 6 header) 2) (some after) 0 ds),
        port later ((sent ++ opening_lines) ++ answers ds),
      )
  dmpaft_recovers ds later sent stamp six good count some_pages tolerable =
      let inbox = on_the_line ds ++ later in
      let opened : List Bytes = ((sent ++ (0x0A ∷ []) ∷ []) ++ cmd_dmpaft ∷ []) ++ payload ∷ [] in
      let first_offset = u16_at (take 6 header) 2 in
      opening inbox sent stamp
      ∙ announced inbox opened six good (rw count some_pages)
      ∙ ap
          (λ (n : ℕ).
            read_archive_pages click n first_offset (some after)
              (port inbox (opened ++ (ack ∷ []) ∷ [])))
          count
      ∙ pages_recover ds later first_offset (opened ++ (ack ∷ []) ∷ []) tolerable
      ∙ ap
          (λ (t : List Bytes).
            (ok (records_of click first_offset (some after) 0 ds), port later (t ++ answers ds)))
          (append_assoc _ (payload ∷ []) ((ack ∷ []) ∷ [])
            ∙ append_assoc _ (cmd_dmpaft ∷ []) (payload ∷ (ack ∷ []) ∷ [])
            ∙ append_assoc sent ((0x0A ∷ []) ∷ []) (cmd_dmpaft ∷ payload ∷ (ack ∷ []) ∷ []))
