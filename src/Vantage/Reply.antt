-- ===== src/Vantage/Reply.antt =====
-- `_read_status_reply` of backend/app/protocol/vantage/driver.py, and the commands whose whole answer
-- it reads.
pub mod Status
use kanfei.Prelude.{ℕ, zero, suc, Bool, true, false, ◌||◌, List, [], ◌∷◌, ◌++◌, if◌then◌else◌}
use kanfei.Bytes.{Bytes}
use kanfei.Vantage.Link.{Io, pure, ◌>>=◌, ◌>>◌, send, receive, flush, wakeup}
use kanfei.Vantage.Transfer.{ack}
use kanfei.Vantage.Text.{contains}

-- `ACK in buf or b"OK" in buf or b"DONE" in buf`
unfoldable pub confirms : Bytes → Bool
unfolding contains
confirms buf =
    contains (ack ∷ []) buf
    || contains (b'O' ∷ b'K' ∷ []) buf
    || contains (b'D' ∷ b'O' ∷ b'N' ∷ b'E' ∷ []) buf

-- What follows a read of one byte: `again` is the loop over the reads that are left.
unfoldable pub after_chunk : (Bytes → Io Bool) → Bytes → Bytes → Io Bool
unfolding confirms receive
after_chunk again [] [] = again []
after_chunk again (b ∷ buf) [] = pure false
after_chunk again buf (c ∷ chunk) =
    let longer = buf ++ c ∷ chunk in
    if confirms longer then (receive 4 >> pure true) else again longer

unfoldable pub status_loop : ℕ → Bytes → Io Bool
unfolding after_chunk receive
status_loop zero buf p = pure false p
status_loop (suc n) buf p = (receive 1 >>= after_chunk (status_loop n) buf) p

abbrev pub timeout_reads : ℕ
timeout_reads = 24

unfoldable pub read_status_reply : Io Bool
unfolding status_loop
read_status_reply = status_loop timeout_reads []

-- Wake the console, send a command, and read its status.
unfoldable pub status_command : Bytes → Io Bool
unfolding read_status_reply
status_command command = do wakeup; flush; send command; read_status_reply
