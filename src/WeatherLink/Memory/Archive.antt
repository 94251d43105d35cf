-- ===== src/WeatherLink/Memory/Archive.antt =====
-- What `read_archive` of backend/app/protocol/link_driver.py gives back, over a quiet and over a noisy line.
use kanfei.Prelude.{
  ℕ, ◌+◌, ◌<◌, ◌≡◌, ap, ◌∙◌, Bool, true, false, Option, none, some, List, [], ◌∷◌, ◌++◌, All, Each,
  length, take, replicate,
}
use kanfei.Bytes.{Bytes}
use kanfei.Vantage.Link.{
  Port, Outcome, ok, ◌>>=◌, ◌>>◌, send, receive, receive_byte, flush, is_byte, first?,
}
use kanfei.Vantage.Transfer.{ack, send_payload}
use kanfei.Vantage.Transfer.Recovery.{port}
use kanfei.Vantage.Eeprom.{data_of}
use kanfei.Vantage.Eeprom.Checked.{IsChecked, read-IsChecked}
use kanfei.Vantage.Link.Delivered.{Within, Gives, later_reads-Delivers}
use kanfei.WeatherLink.Commands.{build_srd_command}
use kanfei.WeatherLink.Memory.Retries.{
  Vain, unanswered, spoiled, one_vain, in_vain, Settled, retried-Settled, retried_recovers,
}
use kanfei.WeatherLink.Memory.{
  attempts, wait_for_ack, when_acked, read_checked, read_archive_once, read_archive,
}

-- What a read over this line may end with: no exception, and nothing or checked data.
abbrev pub Sound : ℕ → List (Bytes × Bool) → Outcome (Option Bytes) → Type 0
Sound n inbox = Settled (IsChecked n inbox)

module _ (n : ℕ) (inbox : List (Bytes × Bool)) where
  -- An attempt may also raise.
  abbrev Checks : Outcome (Option Bytes) × Port → Type 0
  Checks = Gives (n + 2) inbox (Each (IsChecked n inbox))

  checked_read :
      (acked : Bool) (p : Port)
      → Within (n + 2) inbox p
      → Checks (when_acked (read_checked n) acked p)
  unfolding read_checked receive
  checked_read false p w = (tt, w)
  checked_read true p w = (
    read-IsChecked n inbox p w,
    λ message d. w message (later_reads-Delivers (n + 2) p.inbox message d),
  )

  built-Checks :
      (command : Option Bytes) (p : Port)
      → Within (n + 2) inbox p
      → Checks ((flush >> send_payload command >> wait_for_ack >>= when_acked (read_checked n)) p)
  unfolding flush send wait_for_ack receive_byte receive
  built-Checks none p w = (tt, w)
  built-Checks (some command) p w =
      checked_read _ _ (λ message d. w message (later_reads-Delivers (n + 2) p.inbox message d))

  once-Checks :
      (address : ℕ) (p : Port) → Within (n + 2) inbox p → Checks (read_archive_once address n p)
  unfolding read_archive_once
  once-Checks address p = built-Checks (build_srd_command address n) p

-- Whatever the line delivers, and for any address and count, `read_archive` raises nothing: it returns
-- None, or exactly the bytes that were asked for, which some read of the line gave with two more behind
-- them that make them pass the checksum.
pub read_archive-Sound : (address n : ℕ) (p : Port) → Sound n p.inbox (read_archive address n p).0
unfolding read_archive
read_archive-Sound address n p =
    retried-Settled (IsChecked n p.inbox) (read_archive_once address n) (n + 2) p.inbox
      (once-Checks n p.inbox address) attempts p (λ message d. d)

-- An attempt in vain got something else than an ACK, or data that is short or damaged.
abbrev pub IsVain : ℕ → Vain → Type 0
IsVain n (unanswered bytes) = is_byte ack (first? (take 1 bytes)) ≡ false
IsVain n (spoiled wire) = data_of n (take (n + 2) wire) ≡ none

module _ (address n : ℕ) (command : Bytes)
    (built : build_srd_command address n ≡ some command) where
  after_command :
      (inbox : List (Bytes × Bool)) (sent : List Bytes)
      → read_archive_once address n (port inbox sent)
        ≡ (wait_for_ack >>= when_acked (read_checked n)) (port inbox (sent ++ command ∷ []))
  unfolding read_archive_once flush send
  after_command inbox sent =
      ap
        (λ (o : Option Bytes).
          (flush >> send_payload o >> wait_for_ack >>= when_acked (read_checked n))
            (port inbox sent))
        built

  once_good :
      (wire bytes : Bytes) (rest : List (Bytes × Bool)) (sent : List Bytes)
      → data_of n (take (n + 2) wire) ≡ some bytes
      → read_archive_once address n (port ((ack ∷ [], false) ∷ (wire, false) ∷ rest) sent)
        ≡ (ok (some bytes), port rest (sent ++ command ∷ []))
  unfolding wait_for_ack receive_byte receive read_checked
  once_good wire bytes rest sent arrives =
      after_command ((ack ∷ [], false) ∷ (wire, false) ∷ rest) sent
      ∙ ap (λ (o : Option Bytes). (ok o, port rest (sent ++ command ∷ []))) arrives

  once_vain :
      (v : Vain) (rest : List (Bytes × Bool)) (sent : List Bytes)
      → IsVain n v
      → read_archive_once address n (port (one_vain v rest) sent)
        ≡ (ok none, port rest (sent ++ command ∷ []))
  unfolding wait_for_ack receive_byte receive read_checked
  once_vain (unanswered bytes) rest sent h =
      after_command ((bytes, false) ∷ rest) sent
      ∙ ap (λ (b : Bool). when_acked (read_checked n) b (port rest (sent ++ command ∷ []))) h
  once_vain (spoiled wire) rest sent h =
      after_command ((ack ∷ [], false) ∷ (wire, false) ∷ rest) sent
      ∙ ap (λ (o : Option Bytes). (ok o, port rest (sent ++ command ∷ []))) h

  -- With no stop requested: after at most two attempts in vain, each of which got no ACK or data that is
  -- short or damaged, an attempt that is acknowledged and gets good data ends the read with that data; the
  -- command was sent once for each attempt.
  pub read_archive_recovers :
      (vs : List Vain) (wire bytes : Bytes) (rest : List (Bytes × Bool)) (sent : List Bytes)
      → length vs < attempts
      → All (IsVain n) vs
      → data_of n (take (n + 2) wire) ≡ some bytes
      → read_archive address n (port (in_vain vs ((ack ∷ [], false) ∷ (wire, false) ∷ rest)) sent)
        ≡ (ok (some bytes), port rest (sent ++ command ∷ replicate (length vs) command))
  unfolding read_archive
  read_archive_recovers vs wire bytes rest sent few vain arrives =
      retried_recovers (read_archive_once address n) command (IsVain n) once_vain wire bytes
        (λ rest sent. once_good wire bytes rest sent arrives) attempts vs rest sent few vain
