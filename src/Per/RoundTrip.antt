-- ===== src/Per/RoundTrip.antt =====
-- What the PER readers make of what the PER writers wrote.
use grdp.Prelude.{
  ℕ, zero, suc, ◌+◌, ◌-◌, ◌*◌, ◌/◌, ◌%◌, ◌^◌, ◌≤◌, ◌<◌, ◌≡◌, refl, List, [], ◌∷◌, ◌++◌, none, true,
  ◌==◌, length, replicate, min, arith, ap, inl, inr, lt-or-le, append_assoc, replicate-append,
  lt→ltb, le→leb, ==_iff,
}
use grdp.Prelude.Bits.{top_bit, set_top_bit}
use grdp.Io.Laws.{read_uint16_be-write}
use grdp.Per.{
  write_length, read_length, write_integer, read_integer, padding_loop, write_padding, excess,
  write_octet_stream, read_octet_stream, compare_bytes, read_enumerates, read_integer16,
  write_integer16,
}

-- The two forms of a length, read.
read_length_short : (b : ℕ) (rest : List ℕ) → b < 128 → read_length (b ∷ rest) ≡ (b, none, rest)
unfolding read_length
read_length_short b rest h = ground (arith, top_bit b)

read_length_long :
    (b c : ℕ) (rest : List ℕ)
    → b < 128
    → c < 256
    → read_length ((b + 128) ∷ c ∷ rest) ≡ (b * 256 + c, none, rest)
unfolding read_length
read_length_long b c rest h k = ground (arith, top_bit (b + 128))

write_length_short : (n : ℕ) → n < 128 → write_length n ≡ n ∷ []
unfolding write_length
write_length_short n h = ground arith

write_length_long :
    (n : ℕ) → 127 < n → n < 0x8000 → write_length n ≡ (n / 256 + 128) ∷ (n % 256) ∷ []
unfolding write_length
write_length_long n h k = ground (arith, set_top_bit n)

-- `ReadLength` reads back every length that fits 15 bits, and leaves what follows.
pub read_length-write_length :
    (n : ℕ) (rest : List ℕ) → n < 0x8000 → read_length (write_length n ++ rest) ≡ (n, none, rest)
read_length-write_length n rest h = elim (lt-or-le 0x7f n) [
  | inl long ↦
      rw
        (
          write_length_long n long h,
          read_length_long (n / 256) (n % 256) rest (omega arith) (omega arith),
        )
        (ap (λ (k : ℕ). (k, none, rest)) (omega arith))
  | inr short ↦ rw (write_length_short n (omega arith)) (read_length_short n rest (omega arith))
]

-- `ReadInteger` reads back every number of 32 bits that `WriteInteger` wrote, in each of its three
-- sizes, and leaves what follows.
pub read_integer-write_integer :
    (n : ℕ) (rest : List ℕ) → n < 2 ^ 32 → read_integer (write_integer n ++ rest) ≡ (n, rest)
unfolding read_integer write_integer
read_integer-write_integer n rest h = ground arith

padding_loop_lem : (fuel n : ℕ) → n ≤ 256 * fuel → padding_loop fuel n ≡ replicate n 0
unfolding padding_loop
padding_loop_lem zero n h = let e : n ≡ 0 = omega arith in rw e
padding_loop_lem (suc fuel) n h = elim (lt-or-le 0 n) [
  | inl more ↦
      rw (lt→ltb 0 n more, padding_loop_lem fuel (n - min n 256) (omega arith), replicate-append)
        (ap (λ (k : ℕ). replicate k 0) (omega arith))
  | inr done ↦ let e : n ≡ 0 = omega arith in rw e
]

-- `WritePadding` writes that many zeros, in rounds of at most 256.
pub write_padding-eq-replicate : (n : ℕ) → write_padding n ≡ replicate n 0
unfolding write_padding
write_padding-eq-replicate n = padding_loop_lem (n / 256 + 1) n (omega arith)

compare_bytes-append : (s rest : List ℕ) → compare_bytes s (s ++ rest) ≡ (true, rest)
unfolding compare_bytes
compare_bytes-append [] rest = refl
compare_bytes-append (b ∷ s) rest = ground (arith, compare_bytes-append s rest)

-- `ReadOctetStream` accepts what `WriteOctetStream` wrote for the same string and minimum, where the
-- string is no shorter than the minimum and its excess fits 15 bits.
pub read_octet_stream-write :
    (s rest : List ℕ) (m : ℕ)
    → m ≤ length s
    → length s - m < 0x8000
    → read_octet_stream (write_octet_stream s m ++ rest) s m ≡ (true, rest)
unfolding read_octet_stream write_octet_stream
read_octet_stream-write s rest m h k =
    let e : excess (length s) m ≡ length s - m = unfold excess in rw (le→leb m (length s) h) in
    let t : (length s - m + m == length s) ≡ true = (==_iff _ _).1 (omega arith) in
    rw (e, append_assoc, read_length-write_length (length s - m) (s ++ rest) k, t)
      (compare_bytes-append s rest)

-- The forms of one and of two bytes.
pub read_enumerates-byte : (b : ℕ) (rest : List ℕ) → read_enumerates (b ∷ rest) ≡ (b, none, rest)
unfolding read_enumerates
read_enumerates-byte b rest = refl

pub read_integer16-write :
    (n : ℕ) (rest : List ℕ)
    → n < 65536
    → read_integer16 (write_integer16 n ++ rest) ≡ (n, none, rest)
unfolding read_integer16 write_integer16
read_integer16-write n rest h = read_uint16_be-write n rest h
