-- ===== src/Vantage/Diagnostics/Tests.antt =====
-- RECEIVERS at concrete bytes.
use kanfei.Prelude.{
  ◌/◌, ◌%◌, ◌^◌, ◌≡◌, none, some, [], ◌∷◌, ◌++◌, ◌==◌, false, arith, if◌then◌else◌,
}
use kanfei.Vantage.Link.{ok}
use kanfei.Vantage.Transfer.Recovery.{port}
use kanfei.Vantage.Transfer.Session.{wakeup_response}
use kanfei.Vantage.Snapshot.{low_transmitters}
use kanfei.Vantage.Snapshot.Batteries.{member}
use kanfei.Vantage.Diagnostics.{cmd_receivers, receivers}
use kanfei.Vantage.Diagnostics.Receivers.{receivers_reply, is_line_end, receivers_heard}

-- Transmitters 2 and 4.
receivers_heard_example :
    (receivers (port ((wakeup_response, false) ∷ (receivers_reply 10, false) ∷ []) []) ≡ (
      ok (if is_line_end 10 then none else some (low_transmitters 8 0 10)),
      port [] ([] ++ (0x0A ∷ []) ∷ cmd_receivers ∷ []),
    ))
    × (member 2 (low_transmitters 8 0 10) ≡ (10 / 2 ^ 1 % 2 == 1))
receivers_heard_example = receivers_heard 10 1 [] [] (omega arith) (omega arith)
