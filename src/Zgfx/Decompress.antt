-- ===== src/Zgfx/Decompress.antt =====
-- plugin/rdpgfx/zgfx.go: `decodeToken`, `decodeMatchCount` and the loop of `Decompress`.
-- The capacity of the output buffer (`buf`, `estSize`) only spares allocations. `count` is a 64-bit int:
-- it is kept as its bit pattern, and a pattern from 2 ^ 63 on is negative.
pub mod Count
pub mod Total
pub mod Sound
use grdp.Prelude.{
  ℕ, zero, suc, ◌+◌, ◌-◌, ◌*◌, ◌%◌, ◌^◌, List, [], ◌∷◌, ◌++◌, Option, none, some, Bool, true, false,
  ltb, leb, ◌==◌, ◌||◌, if◌then◌else◌, length, take, drop,
}
use grdp.Zgfx.Ring.{ZgfxContext, history_write, output_literal, output_match}
use grdp.Zgfx.Token.{TokenType, literal, match, TokenLutEntry, zgfx_token_lut}
use grdp.Zgfx.Reader.{
  BitReader, sub32, new_bit_reader_with_count, has_bits_remaining, peek9, consume_bits, get_bit,
  get_bits, Outcome, done, panic, out_of_fuel,
}

-- The token, once its prefix is consumed.
abbrev pub with_prefix :
    TokenLutEntry → Outcome BitReader → Outcome (Option (TokenLutEntry × BitReader))
with_prefix e (done br) = done (some (e, br))
with_prefix e panic = panic
with_prefix e out_of_fuel = out_of_fuel

unfoldable pub decode_token : BitReader → Outcome (Option (TokenLutEntry × BitReader))
decode_token br =
    let (val, avail) = peek9 br in
    let e = zgfx_token_lut val in
    if avail == 0
    then done none
    else if (e.prefix_len == 0) || ltb avail e.prefix_len
    then done none
    else with_prefix e (consume_bits br e.prefix_len)

-- `bit := br.getBit(); br.bitsRemaining--`
unfoldable pub counted_bit : BitReader → ℕ × BitReader
counted_bit br =
    let (bit, br') = get_bit br in (bit, record br' { bits_remaining = sub32 br'.bits_remaining 1 })

-- `value := br.getBits(n); br.bitsRemaining -= n`
abbrev pub less_remaining : ℕ → Outcome (ℕ × BitReader) → Outcome (ℕ × BitReader)
less_remaining n (done (value, br)) =
    done (value, record br { bits_remaining = sub32 br.bits_remaining n })
less_remaining n panic = panic
less_remaining n out_of_fuel = out_of_fuel

unfoldable pub counted_bits : BitReader → ℕ → Outcome (ℕ × BitReader)
counted_bits br n = less_remaining n (get_bits br n)

-- `for bit == 1 { count <<= 1; extra++; … }`; `extra` is a uint8.
unfoldable pub leading_ones : ℕ → ℕ → ℕ → ℕ → BitReader → Outcome (ℕ × ℕ × BitReader)
leading_ones zero bit count extra br = out_of_fuel
leading_ones (suc fuel) bit count extra br =
    let (bit', br') = counted_bit br in
    let next = leading_ones fuel bit' (count * 2 % 2 ^ 64) ((extra + 1) % 256) br' in
    if bit == 1 then next else done (count, extra, br)

-- The bits that the value of a match count takes, if so many remain.
abbrev pub add_count : ℕ → Outcome (ℕ × BitReader) → Outcome (ℕ × BitReader)
add_count count (done (value, br)) = done ((count + value) % 2 ^ 64, br)
add_count count panic = panic
add_count count out_of_fuel = out_of_fuel

unfoldable pub extra_bits : Outcome (ℕ × ℕ × BitReader) → Outcome (ℕ × BitReader)
extra_bits (done (count, extra, br)) =
    if ltb br.bits_remaining extra
    then done (count, br)
    else add_count count (counted_bits br extra)
extra_bits panic = panic
extra_bits out_of_fuel = out_of_fuel

unfoldable pub decode_match_count : BitReader → Outcome (ℕ × BitReader)
decode_match_count br =
    let (bit, br1) = counted_bit br in
    let (bit', br2) = counted_bit br1 in
    let ones = leading_ones (length br.bytes * 8 + 2) bit' 4 2 br2 in
    if bit == 0 then done (3, br1) else extra_bits ones

-- The state of the loop: the context, the reader and the output.
abbrev pub State : Type 0
State = ZgfxContext × BitReader × List ℕ

-- One round: the loop goes on, breaks with the output so far, or panics.
pub data Round : Type 0 where
  continue : State → Round
  break : ZgfxContext → List ℕ → Round
  panics : Round
  starved : Round

-- `count` is negative from 2 ^ 63 on, and nothing is copied.
unfoldable pub match_round : ZgfxContext → List ℕ → ℕ → Outcome (ℕ × BitReader) → Round
match_round z out distance (done (count, br)) =
    if leb (2 ^ 63) count then continue (z, br, out) else elim (output_match z distance count out) [
      | none ↦ panics
      | some (z', out') ↦ continue (z', br, out')
    ]
match_round z out distance panic = panics
match_round z out distance out_of_fuel = starved

-- `if br.bitPos < 8 { … }`
unfoldable pub align : BitReader → BitReader
align br =
    if ltb br.bit_pos 8
    then record br {
      bits_remaining = sub32 br.bits_remaining br.bit_pos;
      byte_pos = br.byte_pos + 1;
      bit_pos = 8;
    }
    else br

-- What follows on a value that was read.
abbrev pub with_value : (ℕ → BitReader → Round) → Outcome (ℕ × BitReader) → Round
with_value next (done (value, br)) = next value br
with_value next panic = panics
with_value next out_of_fuel = starved

-- The bytes of an unencoded run, behind their number.
unfoldable pub raw_block : ZgfxContext → List ℕ → ℕ → BitReader → Round
raw_block z out raw_count br1 =
    let br2 = align br1 in
    let raw_bytes = take raw_count (drop br2.byte_pos br2.bytes) in
    if ltb (length br2.bytes) (br2.byte_pos + raw_count)
      || ltb br2.bits_remaining (raw_count * 8 % 2 ^ 32)
    then break z out
    else continue (
      history_write z raw_bytes,
      record br2 {
        byte_pos = br2.byte_pos + raw_count;
        bits_remaining = sub32 br2.bits_remaining (raw_count * 8 % 2 ^ 32);
      },
      out ++ raw_bytes,
    )

unfoldable pub raw_round : ZgfxContext → List ℕ → BitReader → Round
raw_round z out br =
    if ltb br.bits_remaining 15
    then break z out
    else with_value (raw_block z out) (counted_bits br 15)

-- A literal, or a match or an unencoded run, by the value behind the prefix.
unfoldable pub value_round : ZgfxContext → List ℕ → TokenLutEntry → ℕ → BitReader → Round
value_round z out e value br =
    let sum = (e.value_base + value) % 2 ^ 32 in
    let (z', out') = output_literal z (sum % 256) out in
    elim e.token_type [
      | literal ↦ continue (z', br, out')
      | match ↦
          if sum == 0 then raw_round z out br else match_round z out sum (decode_match_count br)
    ]

-- A token, its prefix consumed.
unfoldable pub token_round : ZgfxContext → List ℕ → TokenLutEntry → BitReader → Round
token_round z out e br =
    if ltb br.bits_remaining e.value_bits
    then break z out
    else with_value (value_round z out e) (counted_bits br e.value_bits)

abbrev pub with_token : ZgfxContext → List ℕ → Outcome (Option (TokenLutEntry × BitReader)) → Round
with_token z out (done none) = break z out
with_token z out (done (some (e, br))) = token_round z out e br
with_token z out panic = panics
with_token z out out_of_fuel = starved

unfoldable pub round : State → Round
round (z, br, out) =
    if has_bits_remaining br then with_token z out (decode_token br) else break z out

unfoldable pub decompress_loop : ℕ → State → Outcome (ZgfxContext × List ℕ)
decompress_loop zero s = out_of_fuel
decompress_loop (suc fuel) s = elim (round s) [
  | continue s' ↦ decompress_loop fuel s'
  | break z out ↦ done (z, out)
  | panics ↦ panic
  | starved ↦ out_of_fuel
]

-- Every round that goes on takes a bit of the data at least.
unfoldable pub decompress : ZgfxContext → List ℕ → Outcome (ZgfxContext × List ℕ)
decompress z bytes =
    if ltb (length bytes) 2
    then done (z, [])
    else decompress_loop (length bytes * 8 + 1) (z, new_bit_reader_with_count bytes, [])
