-- ===== src/Io.antt =====
-- core/io.go: fixed-width numbers on a byte stream, and the two colour expansions.
-- An `io.Reader` over bytes in memory is the list of the bytes not yet read. A read returns Go's
-- (value, error) pair and what is left; callers often drop the error and go on. A writer is the
-- list of bytes that a call adds. `StartReadBytes` (a goroutine round `ReadBytes`) is not modelled.
pub mod Colour
pub mod Laws
use grdp.Prelude.{ℕ, zero, suc, ◌+◌, ◌*◌, ◌/◌, ◌%◌, ◌^◌, bit_and, List, [], ◌∷◌, Option, none, some}

-- What `io.ReadFull` reports: no byte at all, or some but not enough.
pub data Error : Type 0 where
  eof unexpected_eof : Error

abbrev pub Read {ℓ} : Type ℓ → Type ℓ
Read A = A × Option Error × List ℕ

-- The error of a read that has one more byte in hand.
abbrev pub cut_short : Option Error → Option Error
cut_short none = none
cut_short (some e) = some unexpected_eof

-- `io.ReadFull` into a buffer of n bytes.
unfoldable pub read_full : ℕ → List ℕ → Read (List ℕ)
read_full zero r = ([], none, r)
read_full (suc n) [] = ([], some eof, [])
read_full (suc n) (b ∷ r) = let (bs, e, rest) = read_full n r in (b ∷ bs, cut_short e, rest)

-- The bytes that arrived, `b[:length]`.
unfoldable pub read_bytes : ℕ → List ℕ → Read (List ℕ)
unfolding read_full
read_bytes n r = read_full n r

-- The value of `buf` after the read; it is zeroed where no byte arrived.
abbrev byte_of : Read (List ℕ) → Read ℕ
byte_of (b ∷ bs, e, rest) = (b, e, rest)
byte_of ([], e, rest) = (0, e, rest)

unfoldable pub read_uint8 : List ℕ → Read ℕ
unfolding read_full
read_uint8 r = byte_of (read_full 1 r)

unfoldable pub read_byte : List ℕ → Read ℕ
unfolding read_full
read_byte r = byte_of (read_full 1 r)

-- `binary.LittleEndian` and `binary.BigEndian` on the bytes of a full buffer.
abbrev pub little_endian : List ℕ → ℕ
little_endian [] = 0
little_endian (b ∷ bs) = b + 256 * little_endian bs

abbrev pub big_endian_from : ℕ → List ℕ → ℕ
big_endian_from acc [] = acc
big_endian_from acc (b ∷ bs) = big_endian_from (acc * 256 + b) bs

abbrev or_zero : (List ℕ → ℕ) → Read (List ℕ) → Read ℕ
or_zero decode (bs, none, rest) = (decode bs, none, rest)
or_zero decode (bs, some e, rest) = (0, some e, rest)

unfoldable pub read_uint16_le : List ℕ → Read ℕ
unfolding read_full
read_uint16_le r = or_zero little_endian (read_full 2 r)

unfoldable pub read_uint16_be : List ℕ → Read ℕ
unfolding read_full
read_uint16_be r = or_zero (big_endian_from 0) (read_full 2 r)

unfoldable pub read_uint32_le : List ℕ → Read ℕ
unfolding read_full
read_uint32_le r = or_zero little_endian (read_full 4 r)

unfoldable pub read_uint32_be : List ℕ → Read ℕ
unfolding read_full
read_uint32_be r = or_zero (big_endian_from 0) (read_full 4 r)

unfoldable pub write_byte : ℕ → List ℕ
write_byte n = n ∷ []

unfoldable pub write_bytes : List ℕ → List ℕ
write_bytes bs = bs

unfoldable pub write_uint8 : ℕ → List ℕ
write_uint8 n = n ∷ []

unfoldable pub write_uint16_be : ℕ → List ℕ
write_uint16_be n = (n / 256 % 256) ∷ (n % 256) ∷ []

unfoldable pub write_uint16_le : ℕ → List ℕ
write_uint16_le n = (n % 256) ∷ (n / 256 % 256) ∷ []

unfoldable pub write_uint32_le : ℕ → List ℕ
write_uint32_le n = (n % 256) ∷ (n / 256 % 256) ∷ (n / 65536 % 256) ∷ (n / 16777216 % 256) ∷ []

unfoldable pub write_uint32_be : ℕ → List ℕ
write_uint32_be n = (n / 16777216 % 256) ∷ (n / 65536 % 256) ∷ (n / 256 % 256) ∷ (n % 256) ∷ []

unfoldable pub put_uint16_be : ℕ → ℕ × ℕ
put_uint16_be n = (n / 256 % 256, n % 256)

unfoldable pub uint16_be : ℕ → ℕ → ℕ
uint16_be d0 d1 = (d0 * 256 + d1) % 65536

unfoldable pub rgb565_to_rgb : ℕ → ℕ × ℕ × ℕ
rgb565_to_rgb d =
    (bit_and d 0xF800 / 2 ^ 8 % 256, bit_and d 0x07E0 / 2 ^ 3 % 256, bit_and d 0x001F * 2 ^ 3 % 256)

unfoldable pub rgb555_to_rgb : ℕ → ℕ × ℕ × ℕ
rgb555_to_rgb d =
    (bit_and d 0x7C00 / 2 ^ 7 % 256, bit_and d 0x03E0 / 2 ^ 2 % 256, bit_and d 0x001F * 2 ^ 3 % 256)
