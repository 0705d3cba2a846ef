-- ===== src/Zgfx/Decompress/Count.antt =====
-- The bits of a match count: the loop over its leading ones ends, and the reader stands no further back.
use grdp.Prelude.{
  ℕ, zero, suc, ◌+◌, ◌-◌, ◌*◌, ◌%◌, ◌^◌, ◌≤◌, ◌<◌, ◌≡◌, ◌≢◌, List, true, false, ltb, ◌==◌, length,
  arith, lt-or-le, inl, inr, Bool-cases, ap,
}
use grdp.Zgfx.Reader.{BitReader, get_bits, Outcome, done, panic, out_of_fuel}
use grdp.Zgfx.Reader.Progress.{
  position, IsPlaced, Moves, Moves-trans, get_bit-Moves, get_bits-Counts, Counts, Counts-trans,
  get_bit-inside, get_bit-outside,
}
use grdp.Zgfx.Decompress.{
  counted_bit, counted_bits, leading_ones, extra_bits, less_remaining, add_count,
  decode_match_count,
}

-- The reader's data, in bits.
abbrev pub size : BitReader → ℕ
size br = length br.bytes * 8

counted_bit-Moves : (br : BitReader) → IsPlaced br → Moves 0 br (counted_bit br).1
unfolding counted_bit
counted_bit-Moves br p = ground (arith, get_bit-Moves br p)

less_remaining-Counts :
    (br : BitReader) (n : ℕ) (o : Outcome (ℕ × BitReader))
    → Counts br o
    → Counts br (less_remaining n o)
less_remaining-Counts br n (done (value, br')) m = ground (arith, m)
less_remaining-Counts br n panic m = tt
less_remaining-Counts br n out_of_fuel m = m

pub counted_bits-Counts : (br : BitReader) (n : ℕ) → IsPlaced br → Counts br (counted_bits br n)
unfolding counted_bits
counted_bits-Counts br n p = less_remaining-Counts br n (get_bits br n) (get_bits-Counts br n p)

counted_bit-inside :
    (br : BitReader) → IsPlaced br → position br < size br → Moves 1 br (counted_bit br).1
unfolding counted_bit
counted_bit-inside br p h = ground (arith, get_bit-inside br p h)

counted_bit-outside :
    (br : BitReader) → IsPlaced br → size br ≤ position br → (counted_bit br).0 ≡ 0
unfolding counted_bit
counted_bit-outside br p h = ground (arith, get_bit-outside br p h)

-- A result whose reader stands no further back, and that is not for want of fuel.
abbrev Ones : BitReader → Outcome (ℕ × ℕ × BitReader) → Type 0
Ones br (done (count, extra, br')) = Moves 0 br br'
Ones br panic = Unit
Ones br out_of_fuel = ⊥

Ones-trans : (a b : BitReader) (o : Outcome (ℕ × ℕ × BitReader)) → Moves 0 a b → Ones b o → Ones a o
Ones-trans a b (done (count, extra, br')) m h = Moves-trans 0 0 a b br' m h
Ones-trans a b panic m h = tt
Ones-trans a b out_of_fuel m h = h

leading_ones-stop :
    (fuel bit count extra : ℕ) (br : BitReader)
    → bit ≢ 1
    → IsPlaced br
    → Ones br (leading_ones (suc fuel) bit count extra br)
unfolding leading_ones
leading_ones-stop fuel bit count extra br h p =
    let off : (bit == 1) ≡ false = ground (arith, h) in rw off (ground arith)

leading_ones-go :
    (fuel bit count extra : ℕ) (br : BitReader)
    → (bit == 1) ≡ true
    → leading_ones (suc fuel) bit count extra br
      ≡ leading_ones fuel
          (counted_bit br).0
          (count * 2 % 2 ^ 64)
          ((extra + 1) % 256)
          (counted_bit br).1
unfolding leading_ones
leading_ones-go fuel bit count extra br h = rw (h, leading_ones)

leading_ones-total :
    (fuel bit count extra : ℕ) (br : BitReader)
    → IsPlaced br
    → 2 + (size br - position br) ≤ fuel
    → Ones br (leading_ones fuel bit count extra br)
leading_ones-total zero bit count extra br p h = absurd (omega arith)
leading_ones-total (suc zero) bit count extra br p h = absurd (omega arith)
leading_ones-total (suc (suc fuel)) bit count extra br p h =
    let br' : BitReader = (counted_bit br).1 in
    elim (Bool-cases (bit == 1)) [
      | inr stop ↦ leading_ones-stop (suc fuel) bit count extra br (ground (arith, stop)) p
      | inl go ↦
          rw (leading_ones-go (suc fuel) bit count extra br go)
            (elim (lt-or-le (position br) (size br)) [
              | inl inside ↦
                  let m : Moves 1 br br' = counted_bit-inside br p inside in
                  let same : size br' ≡ size br = ap (λ (b : List ℕ). length b * 8) m.same in
                  Ones-trans br br' _ (counted_bit-Moves br p) (
                    leading_ones-total (suc fuel) (counted_bit br).0 _ _ br' m.placed
                      (omega (arith, m.forward, same)))
              | inr outside ↦
                  let m : Moves 0 br br' = counted_bit-Moves br p in
                  let off : (counted_bit br).0 ≢ 1 =
                    ground (arith, counted_bit-outside br p outside) in
                  Ones-trans br br' _ m
                    (leading_ones-stop fuel (counted_bit br).0 _ _ br' off m.placed)
            ])
    ]

add_count-Counts :
    (br : BitReader) (count : ℕ) (o : Outcome (ℕ × BitReader))
    → Counts br o
    → Counts br (add_count count o)
add_count-Counts br count (done (value, br')) m = m
add_count-Counts br count panic m = tt
add_count-Counts br count out_of_fuel m = m

extra_bits-total :
    (br : BitReader) (o : Outcome (ℕ × ℕ × BitReader)) → Ones br o → Counts br (extra_bits o)
unfolding extra_bits
extra_bits-total br (done (count, extra, br')) h =
    elim (Bool-cases (ltb br'.bits_remaining extra)) [
      | inl few ↦ rw few h
      | inr enough ↦ rw enough (
          Counts-trans 0 br br' (add_count count (counted_bits br' extra)) h (
            add_count-Counts br' count (counted_bits br' extra)
              (counted_bits-Counts br' extra h.placed)))
    ]
extra_bits-total br panic h = tt
extra_bits-total br out_of_fuel h = h

pub decode_match_count-total : (br : BitReader) → IsPlaced br → Counts br (decode_match_count br)
unfolding decode_match_count
decode_match_count-total br p =
    let br1 : BitReader = (counted_bit br).1 in
    let br2 : BitReader = (counted_bit br1).1 in
    let m1 : Moves 0 br br1 = counted_bit-Moves br p in
    let m2 : Moves 0 br br2 = Moves-trans 0 0 br br1 br2 m1 (counted_bit-Moves br1 m1.placed) in
    let same : size br2 ≡ size br = ap (λ (b : List ℕ). length b * 8) m2.same in
    elim (Bool-cases ((counted_bit br).0 == 0)) [
      | inl three ↦ rw three m1
      | inr more ↦ rw more (
          extra_bits-total br _ (
            Ones-trans br br2 _ m2 (
              leading_ones-total (length br.bytes * 8 + 2) (counted_bit br1).0 4 2 br2 m2.placed
                (omega (arith, same)))))
    ]
