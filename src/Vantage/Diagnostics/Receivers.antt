-- ===== src/Vantage/Diagnostics/Receivers.antt =====
-- The answer to RECEIVERS in backend/app/protocol/vantage/driver.py.
use kanfei.Prelude.{
  ℕ, ◌+◌, ◌/◌, ◌%◌, ◌^◌, ◌<◌, ◌≡◌, refl, ap, ◌∙◌, Bool, false, ◌||◌, Option, none, some, List, [],
  ◌∷◌, ◌++◌, ◌==◌, append_assoc, Bool-cases, inl, inr, if◌then◌else◌,
}
use kanfei.Bytes.{Bytes}
use kanfei.Vantage.Link.{ok, send, receive, flush, wakeup}
use kanfei.Vantage.Transfer.Recovery.{port}
use kanfei.Vantage.Transfer.Session.{wakeup_response}
use kanfei.Vantage.Text.{starts_with}
use kanfei.Vantage.Snapshot.{low_transmitters}
use kanfei.Vantage.Snapshot.Batteries.{member, low_transmitters_listed}
use kanfei.Vantage.Diagnostics.{cmd_receivers, after_ok, strip_line_ends, heard_after, receivers}

-- "\n\rOK\n\r" and the bitmask
abbrev pub receivers_reply : ℕ → Bytes
receivers_reply bitmask = 0x0A ∷ 0x0D ∷ b'O' ∷ b'K' ∷ 0x0A ∷ 0x0D ∷ bitmask ∷ []

-- The bitmask of transmitters 2 and 4, and that of 1, 3 and 4, are the codes of LF and CR.
abbrev pub is_line_end : ℕ → Bool
is_line_end bitmask = (bitmask == 0x0A) || (bitmask == 0x0D)

heard_reply :
    (bitmask : ℕ)
    → heard_after (after_ok (receivers_reply bitmask))
      ≡ (if is_line_end bitmask then none else some (low_transmitters 8 0 bitmask))
unfolding after_ok strip_line_ends starts_with
heard_reply bitmask = elim (Bool-cases (is_line_end bitmask)) [
  | inl e ↦ rw e refl
  | inr e ↦ rw e refl
]

-- When the console wakes and answers RECEIVERS in one read, `receivers` returns the transmitters whose
-- bits are set in the byte after the OK, except that it returns None, as for no answer, when that byte
-- is 0x0A or 0x0D.
pub receivers_heard :
    (bitmask n : ℕ) (later : List (Bytes × Bool)) (sent : List Bytes)
    → bitmask < 256
    → n < 8
    → (receivers (port ((wakeup_response, false) ∷ (receivers_reply bitmask, false) ∷ later) sent)
        ≡ (
          ok (if is_line_end bitmask then none else some (low_transmitters 8 0 bitmask)),
          port later (sent ++ (0x0A ∷ []) ∷ cmd_receivers ∷ []),
        ))
      × (member (n + 1) (low_transmitters 8 0 bitmask) ≡ (bitmask / 2 ^ n % 2 == 1))
unfolding receivers wakeup send receive flush
receivers_heard bitmask n later sent byte few = (
  ap
        (λ (o : Option (List ℕ)).
          (ok o, port later ((sent ++ (0x0A ∷ []) ∷ []) ++ cmd_receivers ∷ [])))
        (heard_reply bitmask)
      ∙ ap
          (λ (lines : List Bytes). (
            ok (if is_line_end bitmask then none else some (low_transmitters 8 0 bitmask)),
            port later lines,
          ))
          (append_assoc sent ((0x0A ∷ []) ∷ []) (cmd_receivers ∷ [])),
  low_transmitters_listed bitmask n byte few,
)
