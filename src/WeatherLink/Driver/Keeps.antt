-- ===== src/WeatherLink/Driver/Keeps.antt =====
-- Steps of the legacy driver that leave a station polled.
use kanfei.Prelude.{
  ℕ, zero, suc, Bool, true, false, ◌&&◌, Option, none, some, List, [], ◌∷◌, ◌++◌, ◌==◌, ◌≡◌, refl,
  ap, ◌∙◌, if◌then◌else◌, sub_ℕ, pos,
}
use kanfei.Bytes.{Bytes, pack_u16_le}
use kanfei.Vantage.Link.{
  Port, Exception, Outcome, ok, raised, Io, pure, ◌>>=◌, ◌>>◌, send, receive, receive_byte, flush,
  raise,
}
use kanfei.Vantage.Transfer.{send_payload}
use kanfei.Vantage.Diagnostics.{build_wrd_command}
use kanfei.WeatherLink.Commands.{
  build_wwr_command, build_rrd_command, srd, cr, build_srd_command, build_stop_command,
  build_start_command,
}
use kanfei.WeatherLink.Memory.{
  wait_for_ack, retried, after_once, when_acked, read_nibbles, read_station_once,
  read_station_memory, read_link_once, read_link_memory, read_checked, read_archive_once,
  read_archive, write_station_once, write_station_memory, done, succeeded,
}
use kanfei.WeatherLink.Registers.{
  while_stopped, start_polling, stop_polling, long_enough, when_there,
}

abbrev pub same_bytes : Bytes → Bytes → Bool
same_bytes [] [] = true
same_bytes [] (b ∷ bs) = false
same_bytes (a ∷ as') [] = false
same_bytes (a ∷ as') (b ∷ bs) = (a == b) && same_bytes as' bs

-- Whether the WeatherLink polls its station after it was sent these commands: the last STOP or START says.
abbrev pub polled_after : Bool → Bytes → Bool
polled_after on command =
    if same_bytes command build_stop_command
    then false
    else if same_bytes command build_start_command
    then true
    else on

abbrev pub is_polled : Bool → List Bytes → Bool
is_polled on [] = on
is_polled on (command ∷ commands) = is_polled (polled_after on command) commands

pub is_polled-append :
    (on : Bool) (xs : List Bytes) (command : Bytes)
    → is_polled on (xs ++ command ∷ []) ≡ polled_after (is_polled on xs) command
is_polled-append on [] command = refl
is_polled-append on (x ∷ xs) command = is_polled-append (polled_after on x) xs command

abbrev pub Polled : Port → Type 0
Polled p = is_polled true p.sent ≡ true

-- A step that leaves a station polled that was polled.
abbrev pub Keeps : {A : Type 0} → Io A → Type 0
Keeps m = (p : Port) → Polled p → Polled (m p).1

module _ {A B : Type 0} (m : Io A) (f : A → Io B) where
  pub bind-Keeps : Keeps m → ((a : A) → Keeps (f a)) → Keeps (m >>= f)
  bind-Keeps km kf p on = go (m p).0 (m p).1 (km p on)
    where
      go : (o : Outcome A) (q : Port) → Polled q → Polled (((λ (_ : Port). (o, q)) >>= f) p).1
      go (ok a) q h = kf a q h
      go (raised e) q h = h

pub then-Keeps : {A B : Type 0} (m : Io A) (k : Io B) → Keeps m → Keeps k → Keeps (m >> k)
then-Keeps m k km kk = bind-Keeps m (λ _. k) km (λ _. kk)

pub pure-Keeps : {A : Type 0} (a : A) → Keeps (pure a)
pure-Keeps a p on = on

pub send-Keeps :
    (command : Bytes) → same_bytes command build_stop_command ≡ false → Keeps (send command)
unfolding send
send-Keeps command other p on =
    is_polled-append true p.sent command
    ∙ ap (λ (b : Bool). polled_after b command) on
    ∙ rw other (either (same_bytes command build_start_command))
  where
    either : (b : Bool) → (if b then true else true) ≡ true
    either true = refl
    either false = refl

pub receive-Keeps : (n : ℕ) → Keeps (receive n)
unfolding receive
receive-Keeps n p on = on

pub wait_for_ack-Keeps : Keeps wait_for_ack
unfolding wait_for_ack receive_byte receive
wait_for_ack-Keeps p on = on

pub flush-Keeps : Keeps flush
unfolding flush
flush-Keeps p on = on

pub after_once-Keeps :
    {A : Type 0} (rest : Io (Option A))
    → Keeps rest
    → (o : Outcome (Option A)) (q : Port) → Polled q
    → Polled (after_once rest (o, q)).1
after_once-Keeps rest keeps (ok (some a)) q on = on
after_once-Keeps rest keeps (ok none) q on = keeps q on
after_once-Keeps rest keeps (raised e) q on = keeps q on

pub if-Polled :
    {A : Type 0} (b : Bool) (x y : Outcome A × Port)
    → Polled x.1
    → Polled y.1
    → Polled (if b then x else y).1
if-Polled true x y hx hy = hx
if-Polled false x y hx hy = hy

pub retried-Keeps :
    {A : Type 0} (once : Io (Option A)) (n : ℕ) → Keeps once → Keeps (retried once n)
unfolding retried
retried-Keeps once zero keeps p on = on
retried-Keeps once (suc n) keeps p on =
    if-Polled p.stop_requested (ok none, p) (after_once (retried once n) (once p)) on
      (after_once-Keeps (retried once n) (retried-Keeps once n keeps) (once p).0 (once p).1
        (keeps p on))

-- One command, and what follows its acknowledgement.
pub command-Keeps :
    {A : Type 0} (command : Bytes) (f : Bool → Io A)
    → same_bytes command build_stop_command ≡ false
    → ((acked : Bool) → Keeps (f acked))
    → Keeps (send command >> wait_for_ack >>= f)
command-Keeps command f other kf =
    bind-Keeps (send command >> wait_for_ack) f
      (then-Keeps (send command) wait_for_ack (send-Keeps command other) wait_for_ack-Keeps) kf

pub when_acked-Keeps :
    {A : Type 0} (m : Io (Option A)) → Keeps m → (acked : Bool) → Keeps (when_acked m acked)
when_acked-Keeps m km false p on = on
when_acked-Keeps m km true p on = km p on

pub read_nibbles-Keeps : (n : ℕ) → Keeps (read_nibbles n)
unfolding read_nibbles receive
read_nibbles-Keeps n p on = on

pub read_checked-Keeps : (n : ℕ) → Keeps (read_checked n)
unfolding read_checked receive
read_checked-Keeps n p on = on

pub read_station_memory-Keeps : (bank address n : ℕ) → Keeps (read_station_memory bank address n)
unfolding read_station_memory read_station_once build_wrd_command
read_station_memory-Keeps bank address n = retried-Keeps (read_station_once bank address n) 3 (
    command-Keeps (build_wrd_command n bank address) (when_acked (read_nibbles n)) refl
      (when_acked-Keeps (read_nibbles n) (read_nibbles-Keeps n)))

pub read_link_memory-Keeps : (bank address n : ℕ) → Keeps (read_link_memory bank address n)
unfolding read_link_memory read_link_once build_rrd_command
read_link_memory-Keeps bank address n = retried-Keeps (read_link_once bank address n) 3 (
    command-Keeps (build_rrd_command bank address n) (when_acked (read_nibbles n)) refl
      (when_acked-Keeps (read_nibbles n) (read_nibbles-Keeps n)))

pub write_station_memory-Keeps :
    (bank address n : ℕ) (payload : Bytes) → Keeps (write_station_memory bank address n payload)
unfolding write_station_memory write_station_once build_wwr_command
write_station_memory-Keeps bank address n payload =
    bind-Keeps (retried (write_station_once bank address n payload) 3)
      (λ written. pure (succeeded written))
      (retried-Keeps (write_station_once bank address n payload) 3 (
        command-Keeps (build_wwr_command n bank address payload) (λ acked. pure (done acked)) refl
          (λ acked. pure-Keeps (done acked))))
      (λ written. pure-Keeps (succeeded written))

pub when_there-Keeps :
    {A : Type 0} (f : Bytes → Io (Option A)) (found : Option Bytes)
    → ((bytes : Bytes) → Keeps (f bytes))
    → Keeps (when_there f found)
when_there-Keeps f none kf p on = on
when_there-Keeps f (some bytes) kf p on = kf bytes p on

-- A register that is read and decoded.
pub decoded-Keeps :
    {A : Type 0} (m : Io (Option Bytes)) (n : ℕ) (f : Bytes → Io (Option A))
    → Keeps m
    → ((bytes : Bytes) → Keeps (f bytes))
    → Keeps (m >>= λ found. when_there f (long_enough n found))
decoded-Keeps m n f km kf =
    bind-Keeps m (λ found. when_there f (long_enough n found)) km
      (λ found. when_there-Keeps f (long_enough n found) kf)

-- A command that is sent once, after a test of its argument.
pub setting-Keeps :
    (test : Bool) (e : Exception) (command : Bytes)
    → same_bytes command build_stop_command ≡ false
    → Keeps (if test then flush >> send command >> wait_for_ack else raise e)
setting-Keeps false e command other p on = on
setting-Keeps true e command other p on =
    then-Keeps (flush >> send command) wait_for_ack
      (then-Keeps flush (send command) flush-Keeps (send-Keeps command other)) wait_for_ack-Keeps p
      on

-- Whatever happens in between, the START is sent.
pub while_stopped-Keeps : {A : Type 0} (body : Io A) → Keeps (while_stopped body)
unfolding while_stopped stop_polling start_polling send wait_for_ack receive_byte receive
while_stopped-Keeps body p on =
    is_polled-append true ((body (stop_polling p).1).1).sent build_start_command

pub srd-Keeps : (a n : Option Bytes) → Keeps (send_payload (srd a n))
srd-Keeps none n p on = on
srd-Keeps (some a) none p on = on
srd-Keeps (some a) (some n) p on =
    send-Keeps ((b'S' ∷ b'R' ∷ b'D' ∷ []) ++ a ++ n ++ cr ∷ []) refl p on

pub archive-Keeps : (address n : ℕ) → Keeps (read_archive address n)
unfolding read_archive read_archive_once
archive-Keeps address n = retried-Keeps (read_archive_once address n) 3 (
    bind-Keeps (flush >> send_payload (build_srd_command address n) >> wait_for_ack)
      (when_acked (read_checked n))
      (then-Keeps (flush >> send_payload (build_srd_command address n)) wait_for_ack
        (then-Keeps flush (send_payload (build_srd_command address n)) flush-Keeps sends)
        wait_for_ack-Keeps)
      (when_acked-Keeps (read_checked n) (read_checked-Keeps n)))
  where
    sends : Keeps (send_payload (build_srd_command address n))
    sends = srd-Keeps (pack_u16_le (pos address)) (pack_u16_le (sub_ℕ n 1))
