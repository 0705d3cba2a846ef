-- ===== src/Pdu/FastPath/Compression.antt =====
-- protocol/pdu/pdu.go: the compression bits of an update's header.
use grdp.Prelude.{ℕ, ◌*◌, ◌/◌, ◌<◌, ◌≡◌, refl, List, false, bit_and, ◌==◌, arith}
use grdp.Prelude.Bits.{agree_below, agree_below→eq}
use grdp.Pdu.FastPath.{read_flags, read_payload, read_update}

top_two : (h : ℕ) → h < 256 → bit_and h 0xC0 ≡ h / 64 * 64
unfolding agree_below
top_two = agree_below→eq _ _ 256 refl

-- The compression bits are compared with a value they never have, so that the compression flags of
-- an update are never read and its size is taken from the byte after the header.
pub read_update-ignored :
    (header : ℕ) (r : List ℕ) → header < 256 → read_update header r ≡ read_payload header 0 r
unfolding read_update read_flags
read_update-ignored header r h =
    let e : (bit_and header 0xC0 == 2) ≡ false = ground (arith, top_two header h) in
    rw (e, read_update, read_flags)
