-- ===== src/Drdynvc/Header.antt =====
-- The header of a PDU and the channel id behind it, read back.
use Prim.Native.Nat.{bit_or}
use grdp.Prelude.{
  ℕ, ◌+◌, ◌*◌, ◌/◌, ◌%◌, ◌^◌, ◌<◌, ◌≡◌, refl, bit_and, List, ◌++◌, ◌==◌, if◌then◌else◌, arith,
}
use grdp.Prelude.Bits.{agree_below, agree_below→eq}
use grdp.Io.{
  read_uint8, read_uint16_le, read_uint32_le, write_uint8, write_uint16_le, write_uint32_le,
}
use grdp.Drdynvc.{
  DvcClient, DvcHeader, header_of, header_byte, read_header, write_dvc_id, read_dvc_id, serialize,
  process, dispatch,
}

joined_fields :
    (i : ℕ) → i < 256 → bit_or (bit_or (i / 16 * 16 % 256) (i / 4 % 4 * 4 % 256)) (i % 4) ≡ i
unfolding agree_below
joined_fields = agree_below→eq _ _ 256 refl

high_nibble : (i : ℕ) → i < 256 → bit_and i 0xf0 / 2 ^ 4 ≡ i / 16
unfolding agree_below
high_nibble = agree_below→eq _ _ 256 refl

middle_bits : (i : ℕ) → i < 256 → bit_and i 0x0c / 2 ^ 2 ≡ i / 4 % 4
unfolding agree_below
middle_bits = agree_below→eq _ _ 256 refl

low_bits : (i : ℕ) → i < 256 → bit_and i 0x03 ≡ i % 4
unfolding agree_below
low_bits = agree_below→eq _ _ 256 refl

-- A header whose fields have four, two and two bits.
pub record IsHeader (h : DvcHeader) : Type 0 where
  pub cmd : h.cmd < 16
  pub sp : h.sp < 4
  pub cb_ch_id : h.cb_ch_id < 4

header_byte_lem : (h : DvcHeader) → IsHeader h → header_byte h ≡ h.cmd * 16 + h.sp * 4 + h.cb_ch_id
unfolding header_byte
header_byte_lem h v =
    let i : ℕ = h.cmd * 16 + h.sp * 4 + h.cb_ch_id in
    let a : i / 16 * 16 % 256 ≡ h.cmd * 16 % 256 = omega (arith, v) in
    let b : i / 4 % 4 * 4 % 256 ≡ h.sp * 4 % 256 = omega (arith, v) in
    let d : i % 4 ≡ h.cb_ch_id = omega (arith, v) in
    rw (a, b, d) at (joined_fields i (omega (arith, v)))

-- A header whose fields fit four, two and two bits is read back from the byte that it is written as.
pub header_of-header_byte : (h : DvcHeader) → IsHeader h → header_of (header_byte h) ≡ h
unfolding header_of
header_of-header_byte h v =
    let i : ℕ = h.cmd * 16 + h.sp * 4 + h.cb_ch_id in
    let small : i < 256 = omega (arith, v) in
    rw (header_byte_lem h v, high_nibble i small, middle_bits i small, low_bits i small)
      (ground arith)

-- An id, or a length, that its width holds.
abbrev pub FitsId : ℕ → ℕ → Type 0
FitsId cb id = id < (if cb == 0 then 256 else if cb == 1 then 65536 else 2 ^ 32)

pub FitsId-lt : (cb id : ℕ) → FitsId cb id → id < 2 ^ 32
FitsId-lt cb id h = ground arith

pub read_dvc_id-write :
    (cb id : ℕ) (rest : List ℕ)
    → FitsId cb id
    → read_dvc_id cb (write_dvc_id cb id ++ rest) ≡ (id, rest)
unfolding read_dvc_id write_dvc_id read_uint8 read_uint16_le read_uint32_le write_uint8
    write_uint16_le write_uint32_le
read_dvc_id-write cb id rest h = ground arith

-- `Process` on a PDU with a written header runs the handler of its command on that header.
pub process-serialize :
    (c : DvcClient) (h : DvcHeader) (id : ℕ) (body : List ℕ)
    → IsHeader h
    → process c (serialize h id ++ body) ≡ dispatch c h (write_dvc_id h.cb_ch_id id ++ body)
unfolding process serialize read_header write_uint8 read_uint8
process-serialize c h id body v = rw (header_of-header_byte h v)
