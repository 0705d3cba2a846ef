-- ===== src/Zgfx/Reader.antt =====
-- plugin/rdpgfx/zgfx.go: `bitReader`, bits from the most significant one on. `bitsRemaining` is a
-- uint32, and what is taken off it wraps.
pub mod Progress
use grdp.Prelude.{
  ℕ, zero, suc, ◌+◌, ◌-◌, ◌*◌, ◌/◌, ◌%◌, ◌^◌, List, Bool, true, false, ltb, leb, ◌==◌, ◌&&◌,
  if◌then◌else◌, length, take, get_or, min,
}

pub record BitReader : Type 0 where
  pub bytes : List ℕ
  pub byte_pos : ℕ
  pub bit_pos : ℕ
  pub bits_remaining : ℕ

-- What a loop of the code yields, or that the model's fuel ran out.
pub data Outcome {ℓ} (A : Type ℓ) : Type ℓ where
  done : A → Outcome A
  panic : Outcome A
  out_of_fuel : Outcome A

abbrev pub u32_mod : ℕ
u32_mod = 2 ^ 32

-- `bitsRemaining -= n`
abbrev pub sub32 : ℕ → ℕ → ℕ
sub32 a n = (a + u32_mod - n) % u32_mod

unfoldable pub new_bit_reader : List ℕ → BitReader
new_bit_reader bytes = record {
  bytes = bytes;
  byte_pos = 0;
  bit_pos = if length bytes == 0 then 0 else 8;
  bits_remaining = 0;
}

-- The last byte is the number of padding bits.
unfoldable pub new_bit_reader_with_count : List ℕ → BitReader
new_bit_reader_with_count bytes =
    let padding_bits = get_or bytes (length bytes - 1) 0 in
    let total_bits = (length bytes - 1) * 8 % u32_mod in
    if ltb (length bytes) 2
    then record { bytes = bytes; byte_pos = 0; bit_pos = 0; bits_remaining = 0 }
    else record {
      bytes = take (length bytes - 1) bytes;
      byte_pos = 0;
      bit_pos = 8;
      bits_remaining = if ltb total_bits padding_bits then 0 else total_bits - padding_bits;
    }

unfoldable pub has_bits_remaining : BitReader → Bool
has_bits_remaining br = ltb 0 br.bits_remaining

-- The byte under the reader; the code asks for it only within the data.
abbrev pub current : BitReader → ℕ
current br = get_or br.bytes br.byte_pos 0

-- `for avail < 9 && idx < len(br.data)`: at most two more bytes. The low bits of `bits << 8` are
-- zero, so the `|` with a byte is a sum.
unfoldable pub gather : ℕ → List ℕ → ℕ → ℕ → ℕ → ℕ × ℕ
gather zero bytes bits avail idx = (bits, avail)
gather (suc fuel) bytes bits avail idx =
    let rest = gather fuel bytes (bits * 2 ^ 8 + get_or bytes idx 0) (avail + 8) (idx + 1) in
    if ltb avail 9 && ltb idx (length bytes) then rest else (bits, avail)

-- Nine bits, high bits first, and how many of them count.
unfoldable pub peek9 : BitReader → ℕ × ℕ
peek9 br =
    let (bits, avail) =
      gather 2 br.bytes (current br % 2 ^ br.bit_pos) br.bit_pos (br.byte_pos + 1) in
    if leb (length br.bytes) br.byte_pos
    then (0, 0)
    else if leb 9 avail
    then (bits / 2 ^ (avail - 9) % 512, min 9 br.bits_remaining)
    else (bits * 2 ^ (9 - avail), min avail br.bits_remaining)

-- `bytePos++; bitPos = 8` where the byte is used up.
abbrev pub settle : BitReader → BitReader
settle br = if br.bit_pos == 0 then record br { byte_pos = br.byte_pos + 1; bit_pos = 8 } else br

-- `for n >= br.bitPos { … }`, and the rest of the bits.
unfoldable pub skip_bits : ℕ → ℕ → BitReader → Outcome BitReader
skip_bits zero n br = out_of_fuel
skip_bits (suc fuel) n br =
    let next =
      skip_bits fuel (n - br.bit_pos) (record br { byte_pos = br.byte_pos + 1; bit_pos = 8 }) in
    if leb br.bit_pos n then next else done (record br { bit_pos = br.bit_pos - n })

abbrev settled : Outcome BitReader → Outcome BitReader
settled (done br) = done (settle br)
settled panic = panic
settled out_of_fuel = out_of_fuel

unfoldable pub consume_bits : BitReader → ℕ → Outcome BitReader
consume_bits br n =
    let m = min n br.bits_remaining in
    settled (skip_bits (m + 1) m (record br { bits_remaining = br.bits_remaining - m }))

-- A byte shifted by the bits below `bitPos`, and the reader there.
unfoldable pub get_bit : BitReader → ℕ × BitReader
get_bit br =
    if leb (length br.bytes) br.byte_pos
    then (0, br)
    else (current br / 2 ^ (br.bit_pos - 1) % 2, settle (record br { bit_pos = br.bit_pos - 1 }))

-- The slow path of `getBits`, whose every round takes a bit at least; the low bits of `result << take` are zero, so the `|` is a sum.
unfoldable pub get_bits_loop : ℕ → ℕ → ℕ → BitReader → Outcome (ℕ × BitReader)
get_bits_loop zero rem result br = out_of_fuel
get_bits_loop (suc fuel) rem result br =
    let take' = min rem br.bit_pos in
    let chunk = current br / 2 ^ (br.bit_pos - take') % 2 ^ take' in
    let next =
      get_bits_loop fuel (rem - take') ((result * 2 ^ take' + chunk) % u32_mod)
        (settle (record br { bit_pos = br.bit_pos - take' })) in
    if rem == 0
    then done (result, br)
    else if leb (length br.bytes) br.byte_pos
    then done (result * 2 ^ rem % u32_mod, br)
    else next

unfoldable pub get_bits : BitReader → ℕ → Outcome (ℕ × BitReader)
get_bits br n =
    if n == 0
    then done (0, br)
    else if leb n br.bit_pos && ltb br.byte_pos (length br.bytes)
    then done
        (current br / 2 ^ (br.bit_pos - n) % 2 ^ n, settle (record br { bit_pos = br.bit_pos - n }))
    else get_bits_loop (n + 1) n 0 br
