-- ===== src/Bytes.antt =====
-- Reading and writing little-endian fields of a byte string: `struct.unpack_from`, `struct.pack` and
-- the helpers `_unpack_*` of backend/app/protocol/loop_packet.py.
-- A read past the end gives 0 here and raises in Python; every parser tests the length first, and
-- the theorems on `take` say that its reads stay inside.
pub mod Laws
use kanfei.Prelude.{
  ℕ, ◌+◌, ◌-◌, ◌*◌, ◌/◌, ◌%◌, Bool, Option, none, some, List, [], ◌∷◌, bit_or, get_or, ltb, ℤ, pos,
  negsuc, if◌then◌else◌,
}

abbrev pub Bytes : Type 0
Bytes = List ℕ

-- data[offset]
unfoldable pub byte_at : Bytes → ℕ → ℕ
byte_at bytes offset = get_or bytes offset 0

-- "<H"
unfoldable pub u16_at : Bytes → ℕ → ℕ
u16_at bytes offset = byte_at bytes offset + byte_at bytes (offset + 1) * 256

-- The number that an 8-bit or a 16-bit pattern stands for.
unfoldable pub signed8 : ℕ → ℤ
signed8 w = if ltb w 128 then pos w else negsuc (255 - w)

unfoldable pub signed16 : ℕ → ℤ
signed16 w = if ltb w 32768 then pos w else negsuc (65535 - w)

-- "<b" and "<h"
unfoldable pub i8_at : Bytes → ℕ → ℤ
i8_at bytes offset = signed8 (byte_at bytes offset)

unfoldable pub i16_at : Bytes → ℕ → ℤ
i16_at bytes offset = signed16 (u16_at bytes offset)

-- Three bytes, lowest first.
unfoldable pub u24_at : Bytes → ℕ → ℕ
u24_at bytes offset =
    bit_or (bit_or (byte_at bytes offset) (byte_at bytes (offset + 1) * 256))
      (byte_at bytes (offset + 2) * 65536)

-- struct.pack("<H", v) and struct.pack(">H", v): `none` is the `struct.error` of a value that does
-- not fit 16 bits.
unfoldable pub pack_u16_le : ℤ → Option Bytes
pack_u16_le (pos v) = if ltb v 65536 then some (v % 256 ∷ v / 256 ∷ []) else none
pack_u16_le (negsuc v) = none

unfoldable pub pack_u16_be : ℕ → Option Bytes
pack_u16_be v = if ltb v 65536 then some (v / 256 ∷ v % 256 ∷ []) else none

-- struct.pack("<h", v) and struct.pack("b", v): two's complement, and `none` is the `struct.error`.
unfoldable pub pack_i16_le : ℤ → Option Bytes
pack_i16_le (pos v) = if ltb v 32768 then some (v % 256 ∷ v / 256 ∷ []) else none
pack_i16_le (negsuc v) =
    if ltb v 32768 then some ((65535 - v) % 256 ∷ (65535 - v) / 256 ∷ []) else none

unfoldable pub pack_i8 : ℤ → Option Bytes
pack_i8 (pos v) = if ltb v 128 then some (v ∷ []) else none
pack_i8 (negsuc v) = if ltb v 128 then some ((255 - v) ∷ []) else none

-- v & 0xFF of a number that may be negative.
unfoldable pub low_byte : ℤ → ℕ
low_byte (pos v) = v % 256
low_byte (negsuc v) = 255 - v % 256
