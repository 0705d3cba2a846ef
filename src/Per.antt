-- ===== src/Per.antt =====
-- protocol/t125/per/per.go: the aligned PER forms that MCS and GCC use.
-- A Go `int` is a natural number: lengths, and the constants that the callers pass. A string is the
-- list of its bytes. Reads drop their errors as the source does; a failed read yields 0.
pub mod RoundTrip
pub mod Identifier
use grdp.Prelude.{
  ℕ, zero, suc, ◌+◌, ◌-◌, ◌*◌, ◌/◌, ◌%◌, ◌^◌, bit_and, bit_or, List, [], ◌∷◌, ◌++◌, Option, none,
  some, Bool, true, false, ltb, leb, ◌==◌, if◌then◌else◌, length, replicate, min, get_or,
}
use grdp.Prelude.Bits.{bit_clear}
use grdp.Io.{
  Read, read_uint8, read_byte, read_uint16_be, read_uint32_be, write_byte, write_uint8,
  write_uint16_be, write_uint32_be,
}

unfoldable pub read_enumerates : List ℕ → Read ℕ
unfolding read_uint8
read_enumerates r = read_uint8 r

-- `uint16(value|0x8000)` where a short form does not fit.
unfoldable pub write_length : ℕ → List ℕ
unfolding write_uint8 write_uint16_be
write_length value =
    if ltb 0x7f value
    then write_uint16_be (bit_or value 0x8000 % 65536)
    else write_uint8 (value % 256)

unfoldable pub write_integer : ℕ → List ℕ
unfolding write_length write_uint8 write_uint16_be write_uint32_be
write_integer n =
    if leb n 0xff
    then write_length 1 ++ write_uint8 (n % 256)
    else if leb n 0xffff
    then write_length 2 ++ write_uint16_be (n % 65536)
    else write_length 4 ++ write_uint32_be (n % 2 ^ 32)

unfoldable pub read_integer16 : List ℕ → Read ℕ
unfolding read_uint16_be
read_integer16 r = read_uint16_be r

unfoldable pub write_integer16 : ℕ → List ℕ
unfolding write_uint16_be
write_integer16 value = write_uint16_be value

unfoldable pub write_choice : ℕ → List ℕ
unfolding write_uint8
write_choice choice = write_uint8 choice

-- The second byte of the long form, whose error is dropped.
long_length : ℕ → List ℕ → Read ℕ
unfolding read_uint8
long_length b r =
    let (left, e, rest) = read_uint8 r in
    ((bit_clear b 0x80 * 2 ^ 8 % 65536 + left) % 65536, none, rest)

-- A missing first byte gives length 0 and no error.
unfoldable pub read_length : List ℕ → Read ℕ
unfolding read_uint8 long_length
read_length r =
    let (b, e, rest) = read_uint8 r in
    let long = long_length b rest in
    elim e [
      | some _ ↦ (0, none, rest)
      | none ↦ if ltb 0 (bit_and b 0x80) then long else (b, none, rest)
    ]

-- The first byte is `(oid[0]<<4)&(oid[1]&0x0f)`, a byte.
unfoldable pub write_object_identifier : (o0 o1 o2 o3 o4 o5 : ℕ) → List ℕ
unfolding write_uint8 write_byte
write_object_identifier o0 o1 o2 o3 o4 o5 =
    write_uint8 5
    ++ write_byte (bit_and (o0 * 2 ^ 4 % 256) (bit_and o1 0x0f))
    ++ write_byte o2
    ++ write_byte o3
    ++ write_byte o4
    ++ write_byte o5

unfoldable pub write_selection : ℕ → List ℕ
unfolding write_uint8
write_selection selection = write_uint8 selection

-- `(c - 0x30) % 10` as a byte: Go's remainder of a negative number is negative, and `uint8` of the
-- pair below reads it in two's complement.
digit : ℕ → ℕ
digit c = if ltb c 0x30 then (256 - (0x30 - c) % 10) % 256 else (c - 0x30) % 10

-- `uint8((c1 << 4) | c2)` for the pairs of `s[i]` and `s[i+1]`, the last filled up with '0'.
digit_pairs : List ℕ → List ℕ
unfolding digit
digit_pairs [] = []
digit_pairs (c ∷ []) = bit_or (digit c * 2 ^ 4 % 256) (digit 0x30) ∷ []
digit_pairs (c ∷ d ∷ s) = bit_or (digit c * 2 ^ 4 % 256) (digit d) ∷ digit_pairs s

-- `length - minValue` where that is not negative, else `minValue`.
unfoldable pub excess : ℕ → ℕ → ℕ
excess length min_value = if leb min_value length then length - min_value else min_value

unfoldable pub write_numeric_string : List ℕ → ℕ → List ℕ
unfolding excess digit_pairs
write_numeric_string s min_value = write_length (excess (length s) min_value) ++ digit_pairs s

-- One round writes at most 256 zeros; `fuel` rounds serve for `256 * fuel` of them.
padding_loop : ℕ → ℕ → List ℕ
padding_loop zero length = []
padding_loop (suc fuel) length =
    let n = min length 256 in
    let rest = padding_loop fuel (length - n) in if ltb 0 length then replicate n 0 ++ rest else []

unfoldable pub write_padding : ℕ → List ℕ
unfolding padding_loop
write_padding length = padding_loop (length / 256 + 1) length

unfoldable pub write_number_of_set : ℕ → List ℕ
unfolding write_uint8
write_number_of_set n = write_uint8 (n % 256)

unfoldable pub write_octet_stream : List ℕ → ℕ → List ℕ
write_octet_stream s min_value = write_length (excess (length s) min_value) ++ s

unfoldable pub read_choice : List ℕ → ℕ × List ℕ
unfolding read_uint8
read_choice r = let (choice, e, rest) = read_uint8 r in (choice, rest)

unfoldable pub read_number_of_set : List ℕ → ℕ × List ℕ
unfolding read_uint8
read_number_of_set r = let (choice, e, rest) = read_uint8 r in (choice, rest)

drop_error : Read ℕ → ℕ × List ℕ
drop_error (n, e, rest) = (n, rest)

unfoldable pub read_integer : List ℕ → ℕ × List ℕ
unfolding read_length read_uint8 read_uint16_be read_uint32_be drop_error
read_integer r =
    let (size, e, rest) = read_length r in
    if size == 1
    then drop_error (read_uint8 rest)
    else if size == 2
    then drop_error (read_uint16_be rest)
    else if size == 4
    then drop_error (read_uint32_be rest)
    else (0, rest)

-- `for i := range oid { if oid[i] != a_oid[i] { return false } }` over six bytes.
matches : List ℕ → List ℕ → Bool
matches [] read = true
matches (o ∷ oid) [] = false
matches (o ∷ oid) (a ∷ read) = if o == a then matches oid read else false

unfoldable pub read_object_identifier : List ℕ → List ℕ → Bool × List ℕ
unfolding read_length read_byte matches
read_object_identifier r oid =
    let (size, e, r0) = read_length r in
    let (t12, e0, r1) = read_byte r0 in
    let (a2, e1, r2) = read_byte r1 in
    let (a3, e2, r3) = read_byte r2 in
    let (a4, e3, r4) = read_byte r3 in
    let (a5, e4, r5) = read_byte r4 in
    if size == 5
    then (matches oid (t12 / 2 ^ 4 ∷ bit_and t12 0x0f ∷ a2 ∷ a3 ∷ a4 ∷ a5 ∷ []), r5)
    else (false, r0)

-- Byte by byte against `s`: what was read up to the first difference is gone.
unfoldable pub compare_bytes : List ℕ → List ℕ → Bool × List ℕ
unfolding read_byte
compare_bytes [] r = (true, r)
compare_bytes (c ∷ s) r =
    let (b, e, rest) = read_byte r in
    let more = compare_bytes s rest in if b == c then more else (false, rest)

unfoldable pub read_octet_stream : List ℕ → List ℕ → ℕ → Bool × List ℕ
read_octet_stream r s min_value =
    let (ln, e, rest) = read_length r in
    if (ln + min_value) == length s then compare_bytes s rest else (false, rest)
