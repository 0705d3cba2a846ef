-- ===== src/Zgfx/Decompress/Total.antt =====
-- The loops of the decompressor end on every input.
use grdp.Prelude.{
  ℕ, zero, suc, ◌+◌, ◌-◌, ◌*◌, ◌%◌, ◌^◌, ◌≤◌, ◌<◌, ◌≡◌, ◌≢◌, refl, List, [], ◌++◌, Option, none,
  some, Bool, true, false, ltb, leb, ◌==◌, ◌||◌, if◌then◌else◌, length, take, drop, arith, lt-or-le,
  lt→ltb, le→ltb_false, inl, inr, ◌⊎◌, Bool-cases, length-take, ap, min,
}
use grdp.Zgfx.Ring.{ZgfxContext, history_write, output_literal, output_match}
use grdp.Zgfx.Token.{TokenType, literal, match, TokenLutEntry, zgfx_token_lut}
use grdp.Zgfx.Reader.{
  BitReader, sub32, new_bit_reader_with_count, has_bits_remaining, peek9, consume_bits, Outcome,
  done, panic, out_of_fuel,
}
use grdp.Zgfx.Reader.Progress.{
  position, IsPlaced, Moves, Moves-trans, Skips, Counts, consume_bits-Skips,
}
use grdp.Zgfx.Decompress.{
  decode_token, counted_bits, decode_match_count, with_prefix, with_value, with_token, raw_block,
  value_round, State, Round, continue, break, panics, starved, match_round, align, raw_round,
  token_round, round, decompress_loop, decompress,
}
use grdp.Zgfx.Decompress.Count.{size, counted_bits-Counts, decode_match_count-total}

-- A round that goes on stands no further back, and none is short of fuel.
abbrev Rounds : BitReader → Round → Type 0
Rounds br (continue (z, br', out)) = Moves 0 br br'
Rounds br (break z out) = Unit
Rounds br panics = Unit
Rounds br starved = ⊥

output-Rounds :
    (br br' : BitReader) (r : Option (ZgfxContext × List ℕ))
    → Moves 0 br br'
    → Rounds br (elim r [ none ↦ panics | some (z', out') ↦ continue (z', br', out') ])
output-Rounds br br' none m = tt
output-Rounds br br' (some (z', out')) m = m

match_round-total :
    (br : BitReader) (z : ZgfxContext) (out : List ℕ) (distance : ℕ) (o : Outcome (ℕ × BitReader))
    → Counts br o
    → Rounds br (match_round z out distance o)
unfolding match_round
match_round-total br z out distance (done (count, br')) h = elim (Bool-cases (leb (2 ^ 63) count)) [
  | inl negative ↦ rw negative h
  | inr positive ↦ rw positive (output-Rounds br br' (output_match z distance count out) h)
]
match_round-total br z out distance panic h = tt
match_round-total br z out distance out_of_fuel h = h

Rounds-if :
    (br : BitReader) (b : Bool) (r r' : Round)
    → Rounds br r
    → Rounds br r'
    → Rounds br (if b then r else r')
Rounds-if br true r r' h h' = h
Rounds-if br false r r' h h' = h'

align-Moves : (br : BitReader) → IsPlaced br → Moves 0 br (align br)
unfolding align
align-Moves br p = ground arith

Rounds-trans : (a b : BitReader) (r : Round) → Moves 0 a b → Rounds b r → Rounds a r
Rounds-trans a b (continue (z, br', out)) m h = Moves-trans 0 0 a b br' m h
Rounds-trans a b (break z out) m h = tt
Rounds-trans a b panics m h = tt
Rounds-trans a b starved m h = h

with_value-total :
    (br : BitReader) (next : ℕ → BitReader → Round) (o : Outcome (ℕ × BitReader))
    → Counts br o
    → ((value : ℕ) (br' : BitReader) → Moves 0 br br' → Rounds br' (next value br'))
    → Rounds br (with_value next o)
with_value-total br next (done (value, br')) m h =
    Rounds-trans br br' (next value br') m (h value br' m)
with_value-total br next panic m h = tt
with_value-total br next out_of_fuel m h = m

raw_block-total :
    (br : BitReader) (z : ZgfxContext) (out : List ℕ) (raw_count : ℕ)
    → IsPlaced br
    → Rounds br (raw_block z out raw_count br)
unfolding raw_block
raw_block-total br z out raw_count p =
    let m2 : Moves 0 br (align br) = align-Moves br p in
    let br2 : BitReader = align br in
    let raw_bytes : List ℕ = take raw_count (drop br2.byte_pos br2.bytes) in
    let br3 : BitReader = record br2 {
      byte_pos = br2.byte_pos + raw_count;
      bits_remaining = sub32 br2.bits_remaining (raw_count * 8 % 2 ^ 32);
    } in
    let m3 : Moves 0 br br3 = record {
      same = m2.same;
      placed = m2.placed;
      forward = omega (arith, m2.forward, m2.placed);
    } in
    let short : Bool =
      ltb (length br2.bytes) (br2.byte_pos + raw_count)
      || ltb br2.bits_remaining (raw_count * 8 % 2 ^ 32) in
    let goes : Round = continue (history_write z raw_bytes, br3, out ++ raw_bytes) in
    Rounds-if br short (break z out) goes tt m3

raw_round-total :
    (br : BitReader) (z : ZgfxContext) (out : List ℕ) → IsPlaced br → Rounds br (raw_round z out br)
unfolding raw_round
raw_round-total br z out p =
    Rounds-if br (ltb br.bits_remaining 15) (break z out)
      (with_value (raw_block z out) (counted_bits br 15)) tt
      (with_value-total br (raw_block z out) (counted_bits br 15) (counted_bits-Counts br 15 p)
        (λ n br' m. raw_block-total br' z out n m.placed))

by_type-total :
    (br : BitReader) (t : TokenType) (r r' : Round)
    → Rounds br r
    → Rounds br r'
    → Rounds br (elim t [ literal ↦ r | match ↦ r' ])
by_type-total br literal r r' h h' = h
by_type-total br match r r' h h' = h'

value_round-total :
    (br : BitReader) (z : ZgfxContext) (out : List ℕ) (e : TokenLutEntry) (value : ℕ)
    → IsPlaced br
    → Rounds br (value_round z out e value br)
unfolding value_round
value_round-total br z out e value p =
    let sum : ℕ = (e.value_base + value) % 2 ^ 32 in
    let (z', out') = output_literal z (sum % 256) out in
    let raw : Round = raw_round z out br in
    let copy : Round = match_round z out sum (decode_match_count br) in
    let matched : Round = if sum == 0 then raw else copy in
    let here : Moves 0 br br = record { same = refl; placed = p; forward = omega arith } in
    by_type-total br e.token_type (continue (z', br, out')) matched here (
      Rounds-if br (sum == 0) raw copy (raw_round-total br z out p)
        (match_round-total br z out sum (decode_match_count br) (decode_match_count-total br p)))

token_round-total :
    (br : BitReader) (z : ZgfxContext) (out : List ℕ) (e : TokenLutEntry)
    → IsPlaced br
    → Rounds br (token_round z out e br)
unfolding token_round
token_round-total br z out e p =
    Rounds-if br (ltb br.bits_remaining e.value_bits) (break z out)
      (with_value (value_round z out e) (counted_bits br e.value_bits)) tt
      (with_value-total br (value_round z out e) (counted_bits br e.value_bits)
        (counted_bits-Counts br e.value_bits p)
        (λ n br' m. value_round-total br' z out e n m.placed))

peek9-inside : (br : BitReader) → IsPlaced br → (peek9 br).1 ≢ 0 → position br < size br
unfolding peek9
peek9-inside br p h = ground arith

peek9-le-bits_remaining : (br : BitReader) → (peek9 br).1 ≤ br.bits_remaining
unfolding peek9
peek9-le-bits_remaining br = ground arith

-- A token takes a bit of the data at least.
abbrev TokenMoves : BitReader → Outcome (Option (TokenLutEntry × BitReader)) → Type 0
TokenMoves br (done none) = Unit
TokenMoves br (done (some (e, br'))) = Moves 1 br br' × (position br < size br)
TokenMoves br panic = Unit
TokenMoves br out_of_fuel = ⊥

prefix-TokenMoves :
    (br : BitReader) (e : TokenLutEntry) (n : ℕ) (o : Outcome BitReader)
    → Skips n br o
    → 0 < n
    → position br < size br
    → TokenMoves br (with_prefix e o)
prefix-TokenMoves br e n (done br') m h inside =
    (record { same = m.same; placed = m.placed; forward = omega (arith, m.forward, h) }, inside)
prefix-TokenMoves br e n panic m h inside = tt
prefix-TokenMoves br e n out_of_fuel m h inside = m

decode_token-TokenMoves : (br : BitReader) → IsPlaced br → TokenMoves br (decode_token br)
unfolding decode_token
decode_token-TokenMoves br p =
    let (val, avail) = peek9 br in
    let e : TokenLutEntry = zgfx_token_lut val in
    elim (Bool-cases (avail == 0)) [
      | inl none_left ↦ rw none_left tt
      | inr some_left ↦ elim (Bool-cases ((e.prefix_len == 0) || ltb avail e.prefix_len)) [
        | inl unknown ↦ rw (some_left, unknown) tt
        | inr known ↦
            let n : ℕ = min e.prefix_len br.bits_remaining in
            let few : avail ≤ br.bits_remaining = peek9-le-bits_remaining br in
            let long : 0 < n = ground (arith, known, few) in
            rw (some_left, known)
              (prefix-TokenMoves br e n (consume_bits br e.prefix_len)
                (consume_bits-Skips br e.prefix_len p) long
                (peek9-inside br p (ground (arith, some_left))))
      ]
    ]

-- How a round leads on: one bit further, and from within the data.
abbrev Steps : BitReader → Round → Type 0
Steps br (continue (z, br', out)) = Moves 1 br br' × (position br < size br)
Steps br (break z out) = Unit
Steps br panics = Unit
Steps br starved = ⊥

Steps-token :
    (a b : BitReader) (r : Round) → Moves 1 a b × (position a < size a) → Rounds b r → Steps a r
Steps-token a b (continue (z, br', out)) (m, inside) h = (Moves-trans 1 0 a b br' m h, inside)
Steps-token a b (break z out) m h = tt
Steps-token a b panics m h = tt
Steps-token a b starved m h = h

with_token-total :
    (z : ZgfxContext) (br : BitReader) (out : List ℕ)
    (o : Outcome (Option (TokenLutEntry × BitReader)))
    → TokenMoves br o
    → Steps br (with_token z out o)
with_token-total z br out (done none) m = tt
with_token-total z br out (done (some (e, br'))) m =
    Steps-token br br' (token_round z out e br') m (token_round-total br' z out e m.0.placed)
with_token-total z br out panic m = tt
with_token-total z br out out_of_fuel m = m

round-total :
    (z : ZgfxContext) (br : BitReader) (out : List ℕ) → IsPlaced br → Steps br (round (z, br, out))
unfolding round
round-total z br out p = elim (Bool-cases (has_bits_remaining br)) [
  | inr over ↦ rw over tt
  | inl some' ↦
      rw some' (with_token-total z br out (decode_token br) (decode_token-TokenMoves br p))
]

Round-cases :
    (r : Round)
    → ((s : State) × (r ≡ continue s))
      ⊎ ((z : ZgfxContext) × (out : List ℕ) × (r ≡ break z out))
      ⊎ (r ≡ panics)
      ⊎ (r ≡ starved)
Round-cases (continue s) = inl (s, refl)
Round-cases (break z out) = inr (inl (z, out, refl))
Round-cases panics = inr (inr (inl refl))
Round-cases starved = inr (inr (inr refl))

decompress_loop-total :
    (fuel : ℕ) (z : ZgfxContext) (br : BitReader) (out : List ℕ)
    → IsPlaced br
    → size br - position br < fuel
    → decompress_loop fuel (z, br, out) ≢ out_of_fuel
unfolding decompress_loop
decompress_loop-total zero z br out p h = absurd (omega arith)
decompress_loop-total (suc fuel) z br out p h =
    let steps : Steps br (round (z, br, out)) = round-total z br out p in
    elim (Round-cases (round (z, br, out))) [
      | inl ((z', br', out'), e) ↦
          let (m, inside) = rw e at steps in
          let same : size br' ≡ size br = ap (λ (b : List ℕ). length b * 8) m.same in
          rw (e, decompress_loop)
            (decompress_loop-total fuel z' br' out' m.placed (omega (arith, m.forward, same)))
      | inr (inl (z', out', e)) ↦ rw (e, decompress_loop) (λ q. cc)
      | inr (inr (inl e)) ↦ rw (e, decompress_loop) (λ q. cc)
      | inr (inr (inr e)) ↦ absurd (rw e at steps)
    ]

-- `Decompress` ends on every input, well formed or not, from every context: its loop needs no more
-- rounds than one for each bit and one more, the loop over the leading ones of a match count two more than
-- bits, and the loops that skip a prefix and that read a value one more than the bits they take.
pub decompress-ne-out_of_fuel :
    (z : ZgfxContext) (bytes : List ℕ) → decompress z bytes ≢ out_of_fuel
unfolding decompress new_bit_reader_with_count
decompress-ne-out_of_fuel z bytes = elim (lt-or-le (length bytes) 2) [
  | inl short ↦ rw (lt→ltb (length bytes) 2 short) (λ q. cc)
  | inr long ↦ rw (le→ltb_false (length bytes) 2 long) (
      decompress_loop-total (length bytes * 8 + 1) z _ [] (omega arith)
        (omega (arith, length-take (length bytes - 1) bytes)))
]
