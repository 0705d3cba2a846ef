-- ===== src/Gcc/Settings.antt =====
-- The blocks of the server's response: the loop over them ends, and reads what a server writes.
use grdp.Prelude.{
  ℕ, zero, suc, ◌+◌, ◌-◌, ◌%◌, ◌^◌, ◌≤◌, ◌<◌, ◌≡◌, ◌≢◌, refl, ◌∙◌, List, [], ◌∷◌, ◌++◌, none, Bool,
  true, false, ltb, ◌==◌, if◌then◌else◌, length, Option, some, arith, Bool-cases, lt-or-le,
  le→ltb_false, inl, inr, length-append, append_assoc, All,
}
use grdp.Io.{read_full, read_bytes, read_uint16_le, write_uint16_le}
use grdp.Io.Laws.{length-read_full_le, read_full-append, read_uint16_le-write}
use grdp.Gcc.{Struc, ScData, Blocks, blocks, panic, out_of_fuel, prepend, unpack_block, read_blocks}

length-read_uint16_le : (r : List ℕ) → length (read_uint16_le r).2 ≤ length r - 2
unfolding read_uint16_le read_full
length-read_uint16_le [] = omega arith
length-read_uint16_le (a ∷ []) = omega arith
length-read_uint16_le (a ∷ b ∷ r) = omega arith

-- A nonzero length has both its bytes in the reader.
read_uint16_le-zero : (r : List ℕ) → length r < 2 → (read_uint16_le r).0 ≡ 0
unfolding read_uint16_le read_full
read_uint16_le-zero [] h = refl
read_uint16_le-zero (a ∷ []) h = refl
read_uint16_le-zero (a ∷ b ∷ r) h = absurd (omega arith)

length-read_bytes : (n : ℕ) (r : List ℕ) → length (read_bytes n r).2 ≤ length r
unfolding read_bytes
length-read_bytes n r = length-read_full_le n r

-- A block of at least four bytes leaves less of the reader.
block_shorter :
    (n : ℕ) (r : List ℕ) (fuel : ℕ)
    → length r < suc fuel
    → ltb (read_uint16_le (read_uint16_le r).2).0 4 ≡ false
    → length (read_bytes n (read_uint16_le (read_uint16_le r).2).2).2 < fuel
block_shorter n r fuel h long =
    let r1 : List ℕ = (read_uint16_le r).2 in
    elim (lt-or-le (length r1) 2) [
      | inl few ↦ absurd (ground (arith, read_uint16_le-zero r1 few))
      | inr enough ↦ omega (
        arith,
        length-read_uint16_le r,
        length-read_uint16_le r1,
        length-read_bytes n (read_uint16_le r1).2,
      )
    ]

prepend-ne : (ds : Option (List ScData)) (b : Blocks) → b ≢ out_of_fuel → prepend ds b ≢ out_of_fuel
prepend-ne none b h = λ e. cc
prepend-ne (some ds) (blocks ds') h = λ e. cc
prepend-ne (some ds) panic h = λ e. cc
prepend-ne (some ds) out_of_fuel h = absurd (h refl)

-- With fuel above the number of bytes left the loop ends.
pub read_blocks-ne-out_of_fuel :
    (struc : Struc) (fuel ln : ℕ) (r : List ℕ)
    → length r < fuel
    → read_blocks struc fuel ln r ≢ out_of_fuel
unfolding read_blocks
read_blocks-ne-out_of_fuel struc zero ln r h = absurd (omega arith)
read_blocks-ne-out_of_fuel struc (suc fuel) ln r h =
    let (t, e, r1) = read_uint16_le r in
    let (l, e1, r2) = read_uint16_le r1 in
    let (bytes, e2, r3) = read_bytes (l - 4) r2 in
    elim (Bool-cases (ln == 0)) [
      | inl none_left ↦ rw none_left (λ q. cc)
      | inr some_left ↦ elim (Bool-cases (ltb l 4)) [
        | inl short ↦ rw (some_left, short) (λ q. cc)
        | inr long ↦
            rw (some_left, long)
              (prepend-ne _ _ (
                read_blocks-ne-out_of_fuel struc fuel ((ln + 2 ^ 16 - l) % 2 ^ 16) r3
                  (block_shorter (l - 4) r fuel h long)))
      ]
    ]

-- A block as the server writes it.
pub record Block : Type 0 where
  pub kind : ℕ
  pub payload : List ℕ

abbrev pub Fits : Block → Type 0
Fits b = (b.kind < 65536) × (length b.payload + 4 < 65536)

abbrev pub write_block : Block → List ℕ
write_block b = write_uint16_le b.kind ++ write_uint16_le (length b.payload + 4) ++ b.payload

abbrev pub write_blocks : List Block → List ℕ
write_blocks [] = []
write_blocks (b ∷ bs) = write_block b ++ write_blocks bs

-- What the blocks say, one after another, or a panic at the first one that does.
abbrev pub unpack_all : Struc → List Block → Blocks
unpack_all struc [] = blocks []
unpack_all struc (b ∷ bs) = prepend (unpack_block struc b.kind b.payload) (unpack_all struc bs)

read_bytes-append :
    (n : ℕ) (bs rest : List ℕ) → n ≡ length bs → read_bytes n (bs ++ rest) ≡ (bs, none, rest)
unfolding read_bytes
read_bytes-append n bs rest h = rw h (read_full-append bs rest)

pos→==_false : (n : ℕ) → 0 < n → (n == 0) ≡ false
pos→==_false n h = ground arith

read_blocks-write_block :
    (struc : Struc) (fuel ln : ℕ) (b : Block) (rest : List ℕ)
    → Fits b
    → 0 < ln
    → read_blocks struc (suc fuel) ln (write_block b ++ rest)
      ≡ prepend
          (unpack_block struc b.kind b.payload)
          (read_blocks struc fuel ((ln + 2 ^ 16 - (length b.payload + 4)) % 2 ^ 16) rest)
unfolding read_blocks
read_blocks-write_block struc fuel ln b rest (k, n) h =
    let size : ℕ = length b.payload + 4 in
    let kind : List ℕ = write_uint16_le b.kind in
    let tail : List ℕ = b.payload ++ rest in
    let split : write_block b ++ rest ≡ kind ++ (write_uint16_le size ++ tail) =
      append_assoc (kind ++ write_uint16_le size) b.payload rest
      ∙ append_assoc kind (write_uint16_le size) tail in
    let taken : read_bytes (size - 4) tail ≡ (b.payload, none, rest) =
      read_bytes-append (size - 4) b.payload rest (omega arith) in
    rw (
      split,
      read_uint16_le-write b.kind (write_uint16_le size ++ tail) k,
      read_uint16_le-write size tail n,
      taken,
      pos→==_false ln h,
      le→ltb_false size 4 (omega arith),
    )

pub read_blocks-write_blocks :
    (struc : Struc) (bs : List Block) (fuel : ℕ) (rest : List ℕ)
    → All Fits bs
    → length (write_blocks bs) < 65536
    → length bs < fuel
    → read_blocks struc fuel (length (write_blocks bs)) (write_blocks bs ++ rest)
      ≡ unpack_all struc bs
unfolding write_uint16_le
read_blocks-write_blocks struc bs zero rest fits small h = absurd (omega arith)
read_blocks-write_blocks struc [] (suc fuel) rest fits small h = unfold read_blocks in refl
read_blocks-write_blocks struc (b ∷ bs) (suc fuel) rest (fit, fits) small h =
    let whole : length (write_block b ++ write_blocks bs)
        ≡ length b.payload + 4 + length (write_blocks bs) =
      omega (
        arith,
        length-append (write_block b) (write_blocks bs),
        length-append (write_uint16_le b.kind ++ write_uint16_le (length b.payload + 4)) b.payload,
      ) in
    let left : (length (write_block b ++ write_blocks bs) + 2 ^ 16 - (length b.payload + 4))
          % 2 ^ 16
        ≡ length (write_blocks bs) =
      omega (arith, whole, small) in
    rw (
      append_assoc (write_block b) (write_blocks bs) rest,
      read_blocks-write_block struc fuel (length (write_block b ++ write_blocks bs)) b
          (write_blocks bs ++ rest) fit (omega (arith, whole)),
      left,
      read_blocks-write_blocks struc bs fuel rest fits (omega (arith, whole, small))
          (omega (arith, h)),
    )

-- A block takes at least a byte.
pub length-write_blocks : (bs : List Block) → length bs ≤ length (write_blocks bs)
unfolding write_uint16_le
length-write_blocks [] = omega arith
length-write_blocks (b ∷ bs) = omega (
  arith,
  length-write_blocks bs,
  length-append (write_block b) (write_blocks bs),
  length-append (write_uint16_le b.kind ++ write_uint16_le (length b.payload + 4)) b.payload,
)

pub ends-if :
    (a b : Bool) (x : Blocks)
    → x ≢ out_of_fuel
    → (if a then (if b then x else blocks []) else blocks []) ≢ out_of_fuel
ends-if true true x h = h
ends-if true false x h = λ e. cc
ends-if false b x h = λ e. cc
