-- ===== src/Zgfx/Reader/Progress.antt =====
-- Where the reader stands, and that it only moves forward.
use grdp.Prelude.{
  ℕ, zero, suc, ◌+◌, ◌-◌, ◌*◌, ◌≤◌, ◌<◌, ◌≡◌, false, leb, ltb, ◌==◌, ◌&&◌, length, min, arith,
  lt-or-le, inl, inr, Bool-cases, ◌/◌, ◌%◌, ◌^◌, ◌∙◌, lt→leb_false, le→leb,
}
use grdp.Zgfx.Reader.{
  BitReader, settle, skip_bits, consume_bits, get_bit, get_bits_loop, get_bits, current, u32_mod,
  Outcome, done, panic, out_of_fuel, settled,
}

-- The bits that lie behind the reader.
abbrev pub position : BitReader → ℕ
position br = br.byte_pos * 8 + 8 - br.bit_pos

-- Between one and eight bits of the current byte are unread.
abbrev pub IsPlaced : BitReader → Type 0
IsPlaced br = (0 < br.bit_pos) × (br.bit_pos ≤ 8)

-- A move keeps the data and the place in the byte, and gets `n` bits further.
pub record Moves (n : ℕ) (br br' : BitReader) : Type 0 where
  pub same : br'.bytes ≡ br.bytes
  pub placed : IsPlaced br'
  pub forward : position br + n ≤ position br'

settle-Moves :
    (br : BitReader) (n : ℕ)
    → n ≤ br.bit_pos
    → br.bit_pos ≤ 8
    → Moves n br (settle (record br { bit_pos = br.bit_pos - n }))
settle-Moves br n h k = ground arith

-- Moves one after the other.
pub Moves-trans : (n m : ℕ) (a b c : BitReader) → Moves n a b → Moves m b c → Moves (n + m) a c
Moves-trans n m a b c p q = record {
  same = q.same ∙ p.same;
  placed = q.placed;
  forward = omega (arith, p.forward, q.forward);
}

-- A reader, or a value and a reader, at least `n` bits further, and not for want of fuel.
abbrev pub Skips : ℕ → BitReader → Outcome BitReader → Type 0
Skips n br (done br') = Moves n br br'
Skips n br panic = Unit
Skips n br out_of_fuel = ⊥

abbrev pub Counts : BitReader → Outcome (ℕ × BitReader) → Type 0
Counts br (done (value, br')) = Moves 0 br br'
Counts br panic = Unit
Counts br out_of_fuel = ⊥

pub Counts-trans :
    (n : ℕ) (a b : BitReader) (o : Outcome (ℕ × BitReader)) → Moves n a b → Counts b o → Counts a o
Counts-trans n a b (done (value, br')) m h = record {
  same = h.same ∙ m.same;
  placed = h.placed;
  forward = omega (arith, m.forward, h.forward);
}
Counts-trans n a b panic m h = tt
Counts-trans n a b out_of_fuel m h = h

-- The rest of a skip, from the next byte on.
skip_byte :
    (n : ℕ) (br : BitReader) (o : Outcome BitReader)
    → IsPlaced br
    → br.bit_pos ≤ n
    → Skips (n - br.bit_pos) (record br { byte_pos = br.byte_pos + 1; bit_pos = 8 }) o
    → Skips n br o
skip_byte n br (done br') p more m = ground (arith, m)
skip_byte n br panic p more m = tt
skip_byte n br out_of_fuel p more m = m

skip_bits-Skips :
    (fuel n : ℕ) (br : BitReader) → n < fuel → IsPlaced br → Skips n br (skip_bits fuel n br)
unfolding skip_bits
skip_bits-Skips zero n br h p = absurd (omega arith)
skip_bits-Skips (suc fuel) n br h p =
    let next : BitReader = record br { byte_pos = br.byte_pos + 1; bit_pos = 8 } in
    elim (lt-or-le n br.bit_pos) [
      | inl last ↦ rw (lt→leb_false br.bit_pos n last) (ground arith)
      | inr more ↦ rw (le→leb br.bit_pos n more) (
          skip_byte n br (skip_bits fuel (n - br.bit_pos) next) p more
            (skip_bits-Skips fuel (n - br.bit_pos) next (omega arith) (omega arith)))
    ]

settled-Skips :
    (n m : ℕ) (br : BitReader) (o : Outcome BitReader)
    → Skips n (record br { bits_remaining = m }) o
    → Skips n br (settled o)
settled-Skips n m br (done br') h = ground (arith, h)
settled-Skips n m br panic h = tt
settled-Skips n m br out_of_fuel h = h

-- Every kind of read moves forward: a prefix by its length, as far as bits remain, the others
-- at least not backward.
pub consume_bits-Skips :
    (br : BitReader) (n : ℕ) → IsPlaced br → Skips (min n br.bits_remaining) br (consume_bits br n)
unfolding consume_bits
consume_bits-Skips br n p =
    let m : ℕ = min n br.bits_remaining in
    let br0 : BitReader = record br { bits_remaining = br.bits_remaining - m } in
    settled-Skips m (br.bits_remaining - m) br (skip_bits (m + 1) m br0)
      (skip_bits-Skips (m + 1) m br0 (omega arith) p)

pub get_bit-Moves : (br : BitReader) → IsPlaced br → Moves 0 br (get_bit br).1
unfolding get_bit
get_bit-Moves br p = ground arith

get_bits_loop-Counts :
    (fuel rem result : ℕ) (br : BitReader)
    → rem < fuel
    → IsPlaced br
    → Counts br (get_bits_loop fuel rem result br)
unfolding get_bits_loop
get_bits_loop-Counts zero rem result br h p = absurd (omega arith)
get_bits_loop-Counts (suc fuel) rem result br h p =
    let t : ℕ = min rem br.bit_pos in
    let br' : BitReader = settle (record br { bit_pos = br.bit_pos - t }) in
    let chunk : ℕ = current br / 2 ^ (br.bit_pos - t) % 2 ^ t in
    let result' : ℕ = (result * 2 ^ t + chunk) % u32_mod in
    let moved : Moves t br br' = settle-Moves br t (omega arith) p.1 in
    elim (Bool-cases (rem == 0)) [
      | inl done' ↦ rw done' (ground arith)
      | inr more ↦ elim (Bool-cases (leb (length br.bytes) br.byte_pos)) [
        | inl end ↦ rw (more, end) (ground arith)
        | inr inside ↦
            let some_bits : 0 < rem = ground (arith, more) in
            rw (more, inside)
              (Counts-trans t br br' (get_bits_loop fuel (rem - t) result' br') moved (
                get_bits_loop-Counts fuel (rem - t) result' br' (omega (arith, some_bits))
                  moved.placed))
      ]
    ]

pub get_bits-Counts : (br : BitReader) (n : ℕ) → IsPlaced br → Counts br (get_bits br n)
unfolding get_bits
get_bits-Counts br n p = elim (Bool-cases (n == 0)) [
  | inl nothing ↦ rw nothing (ground arith)
  | inr more ↦ elim (Bool-cases (leb n br.bit_pos && ltb br.byte_pos (length br.bytes))) [
    | inl fast ↦ rw (more, fast) (ground arith)
    | inr slow ↦ rw (more, slow) (get_bits_loop-Counts (n + 1) n 0 br (omega arith) p)
  ]
]

-- Within the data a bit takes the reader one further; behind it the bit is 0.
pub get_bit-inside :
    (br : BitReader) → IsPlaced br → position br < length br.bytes * 8 → Moves 1 br (get_bit br).1
unfolding get_bit
get_bit-inside br p h =
    let inside : leb (length br.bytes) br.byte_pos ≡ false = ground arith in
    rw inside (settle-Moves br 1 (omega arith) p.1)

pub get_bit-outside :
    (br : BitReader) → IsPlaced br → length br.bytes * 8 ≤ position br → (get_bit br).0 ≡ 0
unfolding get_bit
get_bit-outside br p h = ground arith
