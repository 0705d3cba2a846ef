-- ===== src/Mppc.antt =====
-- core/mppc.go: the bulk decompressor of the RDP connection and its bit reader.
-- The history is a function from indices, of which those below 65536 matter; `& (mppcHistorySize - 1)`
-- is the remainder, also for a negative int, to which two rings are added first.
pub mod History
pub mod Total
use grdp.Prelude.{
  ℕ, zero, suc, ◌+◌, ◌-◌, ◌*◌, ◌/◌, ◌%◌, ◌^◌, bit_and, bit_or, List, [], ◌∷◌, ◌++◌, Option, none,
  some, Bool, true, false, ltb, leb, ◌==◌, if◌then◌else◌, length, get_or,
}

abbrev pub mppc_history_size : ℕ
mppc_history_size = 65536

abbrev pub mppc_compressed : ℕ
mppc_compressed = 0x20

abbrev pub mppc_reset : ℕ
mppc_reset = 0x40

abbrev pub mppc_flushed : ℕ
mppc_flushed = 0x80

pub record MppcDecompressor : Type 0 where
  pub history : ℕ → ℕ
  pub offset : ℕ

pub record MppcBitReader : Type 0 where
  pub bytes : List ℕ
  pub byte_idx : ℕ
  pub mask : ℕ
  pub bits_left : ℕ

unfoldable pub new_mppc_decompressor : MppcDecompressor
new_mppc_decompressor = record { history = λ i. 0; offset = 0 }

unfoldable pub new_mppc_bit_reader : List ℕ → MppcBitReader
new_mppc_bit_reader bytes = record {
  bytes = bytes;
  byte_idx = 0;
  mask = 0x80;
  bits_left = length bytes * 8;
}

-- `d.history[d.offset] = b; d.offset = (d.offset + 1) & (mppcHistorySize - 1)`
unfoldable pub push : MppcDecompressor → ℕ → MppcDecompressor
push d b = record {
  history = λ i. if i == d.offset then b else d.history i;
  offset = (d.offset + 1) % mppc_history_size;
}

unfoldable pub push_all : MppcDecompressor → List ℕ → MppcDecompressor
push_all d [] = d
push_all d (b ∷ bs) = push_all (push d b) bs

unfoldable pub read_bit : MppcBitReader → ℕ × MppcBitReader
read_bit r =
    let bit : ℕ = if bit_and (get_or r.bytes r.byte_idx 0) r.mask == 0 then 0 else 1 in
    let mask = r.mask / 2 in
    if r.bits_left == 0
    then (0, r)
    else if mask == 0
    then (bit, record r { byte_idx = r.byte_idx + 1; mask = 0x80; bits_left = r.bits_left - 1 })
    else (bit, record r { mask = mask; bits_left = r.bits_left - 1 })

-- The loop of `readBits`, with what was read so far; the low bit of `result << 1` is 0, so the `|`
-- with a bit is a sum. At most 16 bits are read.
unfoldable pub read_bits_from : ℕ → ℕ → MppcBitReader → ℕ × MppcBitReader
read_bits_from zero result r = (result, r)
read_bits_from (suc n) result r =
    let (bit, r') = read_bit r in read_bits_from n (result * 2 + bit) r'

unfoldable pub read_bits : MppcBitReader → ℕ → ℕ × MppcBitReader
read_bits r n = read_bits_from n 0 r

-- How many bits a selector's offset takes, and where its offsets begin.
unfoldable pub offset_bits : ℕ → ℕ
offset_bits sel = if sel == 0 then 6 else if sel == 1 then 8 else if sel == 2 then 13 else 16

unfoldable pub offset_base : ℕ → ℕ
offset_base sel = if sel == 0 then 0 else if sel == 1 then 64 else if sel == 2 then 320 else 8192

-- `for br.bitsLeft > 0 { if br.readBit() == 0 { break }; copyLength++ }`; `none` is no outcome of the
-- program: the model's fuel ran out.
unfoldable pub read_length : ℕ → ℕ → MppcBitReader → Option (ℕ × MppcBitReader)
read_length zero copy_length r = none
read_length (suc fuel) copy_length r =
    let (bit, r') = read_bit r in
    let more = read_length fuel (copy_length + 1) r' in
    if r.bits_left == 0
    then some (copy_length, r)
    else if bit == 0
    then some (copy_length, r')
    else more

-- `for i := 0; i < copyLength; i++ { … }`, from `i` on, with `rounds` left.
unfoldable pub copy_loop : ℕ → ℕ → ℕ → MppcDecompressor → List ℕ → MppcDecompressor × List ℕ
copy_loop zero src i d output = (d, output)
copy_loop (suc rounds) src i d output =
    let b = d.history ((src + i) % mppc_history_size) in
    copy_loop rounds src (i + 1) (push d b) (output ++ b ∷ [])

unfoldable pub copy_source : ℕ → ℕ → ℕ
copy_source offset copy_offset =
    (offset + 3 * mppc_history_size - copy_offset - 1) % mppc_history_size

abbrev pub State : Type 0
State = MppcDecompressor × MppcBitReader × List ℕ

pub data Round : Type 0 where
  continue : State → Round
  break : MppcDecompressor → List ℕ → Round
  starved : Round

-- The copy, once its length is read.
abbrev pub with_length : MppcDecompressor → List ℕ → ℕ → Option (ℕ × MppcBitReader) → Round
with_length d output src none = starved
with_length d output src (some (copy_length, r)) =
    let copied = copy_loop copy_length src 0 d output in continue (copied.0, r, copied.1)

unfoldable pub copy_round : MppcDecompressor → MppcBitReader → List ℕ → Round
copy_round d r output =
    let (hi, r1) = read_bit r in
    let (lo, r2) = read_bit r1 in
    let sel = hi * 2 + lo in
    let (value, r3) = read_bits r2 (offset_bits sel) in
    let src = copy_source d.offset (offset_base sel + value) in
    if ltb r2.bits_left (offset_bits sel)
    then break d output
    else with_length d output src (read_length (r3.bits_left + 1) 3 r3)

unfoldable pub round : State → Round
round (d, r, output) =
    let (disc, r1) = read_bit r in
    let (b, r2) = read_bits r1 8 in
    if ltb r.bits_left 9
    then break d output
    else if disc == 0
    then continue (push d (b % 256), r2, output ++ (b % 256) ∷ [])
    else copy_round d r1 output

-- `none` is no outcome of the program: the model's fuel ran out.
unfoldable pub decompress_loop : ℕ → State → Option (MppcDecompressor × List ℕ)
decompress_loop zero s = none
decompress_loop (suc fuel) s = elim (round s) [
  | continue s' ↦ decompress_loop fuel s'
  | break d output ↦ some (d, output)
  | starved ↦ none
]

unfoldable pub prepare : MppcDecompressor → ℕ → MppcDecompressor
prepare d flags =
    if bit_and flags mppc_flushed == 0
    then (if bit_and flags mppc_reset == 0 then d else record d { offset = 0 })
    else record { history = λ i. 0; offset = 0 }

-- Each round takes a bit at least.
unfoldable pub decompress : MppcDecompressor → ℕ → List ℕ → Option (MppcDecompressor × List ℕ)
decompress d flags bytes =
    let d' = prepare d flags in
    if bit_and flags mppc_compressed == 0
    then some (push_all d' bytes, bytes)
    else decompress_loop (length bytes * 8 + 1) (d', new_mppc_bit_reader bytes, [])
