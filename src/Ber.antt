-- ===== src/Ber.antt =====
-- protocol/t125/ber/ber.go: the BER forms of the MCS connect messages.
-- A Go `int` is a natural number here; error texts are one value for each place that raises one.
pub mod RoundTrip
use grdp.Prelude.{
  ℕ, zero, suc, ◌+◌, ◌-◌, ◌*◌, ◌/◌, ◌%◌, ◌^◌, bit_and, bit_or, List, [], ◌∷◌, ◌++◌, Option, none,
  some, Bool, true, false, ltb, leb, ◌==◌, if◌then◌else◌, length, not,
}
use grdp.Prelude.Bits.{bit_clear}
use grdp.Io.{
  Error, Read, read_uint8, read_uint16_be, read_uint32_be, write_uint8, write_uint16_be,
  write_uint32_be,
}

pub data Failure : Type 0 where
  invalid_tag enumerate_size length_size bad_integer_tag wrong_size bad_application_tag : Failure
  io : Error → Failure

-- Go's (value, error) pair with what is left of the reader.
abbrev pub Parse : Type 0
Parse = ℕ × Option Failure × List ℕ

abbrev of_io : Read ℕ → Parse
of_io (n, none, r) = (n, none, r)
of_io (n, some e, r) = (n, some (io e), r)

-- The value is dropped where a read fails.
abbrev or_fail : Read ℕ → Parse
or_fail (n, none, r) = (n, none, r)
or_fail (n, some e, r) = (0, some (io e), r)

-- The error is dropped.
abbrev or_ignore : Read ℕ → Parse
or_ignore (n, e, r) = (n, none, r)

abbrev class_mask : ℕ
class_mask = 0xC0

abbrev class_univ : ℕ
class_univ = 0x00

abbrev class_appl : ℕ
class_appl = 0x40

abbrev tag_mask : ℕ
tag_mask = 0x1F

abbrev pc_construct : ℕ
pc_construct = 0x20

abbrev pub tag_boolean : ℕ
tag_boolean = 0x01

abbrev pub tag_integer : ℕ
tag_integer = 0x02

abbrev pub tag_octet_string : ℕ
tag_octet_string = 0x04

abbrev pub tag_enumerated : ℕ
tag_enumerated = 0x0A

abbrev pub tag_sequence : ℕ
tag_sequence = 0x10

unfoldable pub ber_pc : Bool → ℕ
ber_pc pc = if pc then pc_construct else 0

unfoldable pub universal_tag : ℕ → Bool → ℕ
unfolding ber_pc
universal_tag tag pc = bit_or (bit_or class_univ (ber_pc pc)) (bit_and tag_mask tag)

unfoldable pub read_universal_tag : ℕ → Bool → List ℕ → Bool × List ℕ
unfolding read_uint8
read_universal_tag tag pc r = let (bb, e, rest) = read_uint8 r in (bb == universal_tag tag pc, rest)

unfoldable pub write_universal_tag : ℕ → Bool → List ℕ
unfolding write_uint8
write_universal_tag tag pc = write_uint8 (universal_tag tag pc)

unfoldable pub read_length : List ℕ → Parse
unfolding read_uint8 read_uint16_be
read_length r =
    let (first, e, rest) = read_uint8 r in
    let size = bit_clear first 0x80 in
    if ltb 0 (bit_and first 0x80)
    then (if size == 1
        then or_fail (read_uint8 rest)
        else if size == 2
        then or_fail (read_uint16_be rest)
        else (0, some length_size, rest))
    else (first, none, rest)

unfoldable pub write_length : ℕ → List ℕ
unfolding write_uint8 write_uint16_be
write_length size =
    if ltb 0x7f size
    then write_uint8 0x82 ++ write_uint16_be (size % 65536)
    else write_uint8 (size % 256)

unfoldable pub read_enumerated : List ℕ → Parse
unfolding read_universal_tag read_length
read_enumerated r =
    let (tagged, r0) = read_universal_tag tag_enumerated false r in
    let (length, e, rest) = read_length r0 in
    if tagged
    then elim e [
      | some f ↦ (0, some f, rest)
      | none ↦ if length == 1 then of_io (read_uint8 rest) else (0, some enumerate_size, rest)
    ]
    else (0, some invalid_tag, r0)

three_bytes : List ℕ → Parse
unfolding read_uint8 read_uint16_be
three_bytes r =
    let (integer1, e1, r1) = read_uint8 r in
    let (integer2, e2, r2) = read_uint16_be r1 in (integer2 + integer1 * 2 ^ 16 % 2 ^ 32, none, r2)

unfoldable pub read_integer : List ℕ → Parse
unfolding read_universal_tag read_length read_uint8 read_uint16_be read_uint32_be three_bytes
read_integer r =
    let (tagged, r0) = read_universal_tag tag_integer false r in
    let (size, e, rest) = read_length r0 in
    if tagged
    then (if size == 1
        then or_ignore (read_uint8 rest)
        else if size == 2
        then or_ignore (read_uint16_be rest)
        else if size == 3
        then three_bytes rest
        else if size == 4
        then or_ignore (read_uint32_be rest)
        else (0, some wrong_size, rest))
    else (0, some bad_integer_tag, r0)

unfoldable pub write_integer : ℕ → List ℕ
unfolding write_universal_tag write_length write_uint8 write_uint16_be write_uint32_be
write_integer n =
    write_universal_tag tag_integer false
    ++ (if leb n 0xff
        then write_length 1 ++ write_uint8 (n % 256)
        else if leb n 0xffff
        then write_length 2 ++ write_uint16_be (n % 65536)
        else write_length 4 ++ write_uint32_be (n % 2 ^ 32))

unfoldable pub write_octetstring : List ℕ → List ℕ
write_octetstring str =
    write_universal_tag tag_octet_string false ++ write_length (length str) ++ str

unfoldable pub write_boolean : Bool → List ℕ
unfolding write_universal_tag write_length write_uint8
write_boolean b =
    write_universal_tag tag_boolean false ++ write_length 1 ++ write_uint8 (if b then 0xff else 0)

unfoldable pub read_application_tag : ℕ → List ℕ → Parse
unfolding read_uint8
read_application_tag tag r =
    let (bb, e, r0) = read_uint8 r in
    let (bb', e', r1) = read_uint8 r0 in
    if ltb 30 tag
    then (if not (bb == bit_or (bit_or class_appl pc_construct) tag_mask)
        then (0, some bad_application_tag, r0)
        else if not (bb' == tag)
        then (0, some bad_application_tag, r1)
        else read_length r1)
    else if not (bb == bit_or (bit_or class_appl pc_construct) (bit_and tag_mask tag))
    then (0, some bad_application_tag, r0)
    else read_length r0

unfoldable pub write_application_tag : ℕ → ℕ → List ℕ
unfolding write_uint8
write_application_tag tag size =
    if ltb 30 tag
    then write_uint8 (bit_or (bit_or class_appl pc_construct) tag_mask)
      ++ write_uint8 tag
      ++ write_length size
    else write_uint8 (bit_or (bit_or class_appl pc_construct) (bit_and tag_mask tag))
      ++ write_length size

unfoldable pub write_encoded_domain_params : List ℕ → List ℕ
write_encoded_domain_params bytes =
    write_universal_tag tag_sequence true ++ write_length (length bytes) ++ bytes
