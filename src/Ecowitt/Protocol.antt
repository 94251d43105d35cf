-- ===== src/Ecowitt/Protocol.antt =====
-- The frames of the Ecowitt protocol: backend/app/protocol/ecowitt/protocol.py. What the gateway sends over
-- one connection comes from outside, as its bytes and the exception that a read beyond them meets: the
-- IncompleteReadError of a connection that was closed, or the TimeoutError of one that fell silent.
pub mod Reads
pub mod Frames
use kanfei.Prelude.{
  ℕ, ◌+◌, ◌-◌, ◌*◌, Bool, true, false, ◌||◌, Option, none, some, List, [], ◌∷◌, ◌++◌, length, take,
  drop, ltb, ◌==◌, bit_and, if◌then◌else◌,
}
use kanfei.Bytes.{Bytes, byte_at}

pub data Failure : Type 0 where
  connection_error timeout_error incomplete_read protocol_error value_error : Failure

pub data Result (A : Type 0) : Type 0 where
  ok : A → Result A
  failed : Failure → Result A

-- A step that takes bytes off the connection.
abbrev pub Wire : Type 0 → Type 0
Wire A = Bytes → Result (A × Bytes)

infixl 5 ◌>>=◌
abbrev pub ◌>>=◌ : {A B : Type 0} → Wire A → (A → Wire B) → Wire B
◌>>=◌ m f s = elim (m s) [ ok (a, s') ↦ f a s' | failed e ↦ failed e ]

abbrev pub pure : {A : Type 0} → A → Wire A
pure a s = ok (a, s)

abbrev pub fail : {A : Type 0} → Failure → Wire A
fail e s = failed e

unfoldable pub readexactly : Failure → ℕ → Wire Bytes
readexactly ending n s = if ltb (length s) n then failed ending else ok (take n s, drop n s)

abbrev pub total : Bytes → ℕ
total [] = 0
total (b ∷ bytes) = b + total bytes

unfoldable pub calc_checksum : Bytes → ℕ
calc_checksum bytes = bit_and (total bytes) 0xFF

-- `none` is the ValueError of a size above 255.
unfoldable pub build_request : ℕ → Bytes → Option Bytes
unfolding calc_checksum
build_request cmd payload =
    let size = 3 + length payload in
    let body = cmd ∷ size ∷ payload in
    if ltb size 256 then some (0xFF ∷ 0xFF ∷ (body ++ calc_checksum body ∷ [])) else none

-- LONG_SIZE_COMMANDS
abbrev pub is_long : ℕ → Bool
is_long cmd = (cmd == 0x27) || (cmd == 0x57) || (cmd == 0x3C)

abbrev pub size_width : ℕ → ℕ
size_width cmd = if is_long cmd then 2 else 1

-- The number that bytes stand for, highest first.
abbrev pub big_endian : ℕ → Bytes → ℕ
big_endian high [] = high
big_endian high (b ∷ bytes) = big_endian (high * 256 + b) bytes

abbrev pub is_header : Bytes → Bool
is_header (a ∷ b ∷ []) = if a == 0xFF then b == 0xFF else false
is_header _ = false

module _ (ending : Failure) where
  abbrev pub checked_tail : ℕ → Bytes → ℕ → Bytes → Wire Bytes
  checked_tail cmd size_bytes remaining tail =
      let resp_payload = take (remaining - 1) tail in
      if calc_checksum (cmd ∷ (size_bytes ++ resp_payload)) == byte_at tail (remaining - 1)
      then pure resp_payload
      else fail protocol_error

  -- The rest of a frame, its payload and its checksum, is `remaining` bytes.
  abbrev pub read_tail : ℕ → Bytes → ℕ → Wire Bytes
  read_tail cmd size_bytes remaining =
      if ltb remaining 1
      then fail protocol_error
      else (readexactly ending remaining >>= checked_tail cmd size_bytes remaining)

  abbrev pub after_size : ℕ → Bytes → Wire Bytes
  after_size cmd size_bytes =
      read_tail cmd size_bytes (big_endian 0 size_bytes - (size_width cmd + 1))

  abbrev pub after_echo : Bytes → Wire Bytes
  after_echo echo = readexactly ending (size_width (byte_at echo 0)) >>= after_size (byte_at echo 0)

  abbrev pub after_header : Bytes → Wire Bytes
  after_header header =
      if is_header header then (readexactly ending 1 >>= after_echo) else fail protocol_error

  unfoldable pub read_response : Wire Bytes
  unfolding readexactly calc_checksum byte_at
  read_response = readexactly ending 2 >>= after_header

pub record Gateway : Type 0 where
  -- the exception of a connection that cannot be opened
  pub refused : Option Failure
  pub answer : Bytes → Bytes
  pub ending : Failure

abbrev pub payload_of : Result (Bytes × Bytes) → Result Bytes
payload_of (ok (payload, rest)) = ok payload
payload_of (failed e) = failed e

abbrev pub exchange : Gateway → Option Failure → Bytes → Result Bytes
exchange g none request = payload_of (read_response g.ending (g.answer request))
exchange g (some e) request = failed e

abbrev pub requested : Gateway → Option Bytes → Result Bytes
requested g none = failed value_error
requested g (some request) = exchange g g.refused request

unfoldable pub send_command : Gateway → ℕ → Bytes → Result Bytes
unfolding build_request read_response
send_command g cmd payload = requested g (build_request cmd payload)
