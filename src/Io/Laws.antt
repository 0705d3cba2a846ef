-- ===== src/Io/Laws.antt =====
-- What a read makes of the bytes that the matching write produced, and of a short stream.
use grdp.Prelude.{
  ℕ, zero, suc, ◌+◌, ◌*◌, ◌/◌, ◌%◌, ◌≤◌, ◌<◌, ◌≡◌, refl, ap, List, [], ◌∷◌, ◌++◌, none, arith,
  length,
}
use grdp.Io.{
  Read, cut_short, read_full, read_bytes, read_uint16_le, read_uint16_be, read_uint32_le,
  read_uint32_be, write_uint16_be, write_uint16_le, write_uint32_le, write_uint32_be, put_uint16_be,
  uint16_be,
}

pub read_full-append : (bs rest : List ℕ) → read_full (length bs) (bs ++ rest) ≡ (bs, none, rest)
unfolding read_full
read_full-append [] rest = refl
read_full-append (b ∷ bs) rest =
    ap (λ (t : Read (List ℕ)). (b ∷ t.0, cut_short t.1, t.2)) (read_full-append bs rest)

-- A read past the end takes what there is, and says so.
pub read_full_short :
    (n : ℕ) (r : List ℕ) → length r < n → ((read_full n r).0 ≡ r) × ((read_full n r).2 ≡ [])
unfolding read_full
read_full_short zero r h = absurd (omega arith)
read_full_short (suc n) [] h = (refl, refl)
read_full_short (suc n) (b ∷ r) h =
    let (p, q) = read_full_short n r (omega arith) in (ap (λ t. b ∷ t) p, q)

-- `ReadBytes(r.Len(), r)`.
pub read_bytes_all : (r : List ℕ) → read_bytes (length r) r ≡ (r, none, [])
unfolding read_bytes
read_bytes_all [] = refl
read_bytes_all (b ∷ r) =
    ap (λ (t : Read (List ℕ)). (b ∷ t.0, cut_short t.1, t.2)) (read_bytes_all r)

pub read_uint16_be-write :
    (n : ℕ) (rest : List ℕ)
    → n < 65536
    → read_uint16_be (write_uint16_be n ++ rest) ≡ (n, none, rest)
unfolding read_uint16_be write_uint16_be
read_uint16_be-write n rest h =
    let e : n / 256 % 256 * 256 + n % 256 ≡ n = omega arith in
    ap (λ (k : ℕ). (k, none, rest)) (omega arith)

pub read_uint16_le-write :
    (n : ℕ) (rest : List ℕ)
    → n < 65536
    → read_uint16_le (write_uint16_le n ++ rest) ≡ (n, none, rest)
unfolding read_uint16_le write_uint16_le
read_uint16_le-write n rest h = ap (λ (k : ℕ). (k, none, rest)) (omega arith)

pub read_uint32_le-write :
    (n : ℕ) (rest : List ℕ)
    → n < 4294967296
    → read_uint32_le (write_uint32_le n ++ rest) ≡ (n, none, rest)
unfolding read_uint32_le write_uint32_le
read_uint32_le-write n rest h = ap (λ (k : ℕ). (k, none, rest)) (omega arith)

pub read_uint32_be-write :
    (n : ℕ) (rest : List ℕ)
    → n < 4294967296
    → read_uint32_be (write_uint32_be n ++ rest) ≡ (n, none, rest)
unfolding read_uint32_be write_uint32_be
read_uint32_be-write n rest h = ap (λ (k : ℕ). (k, none, rest)) (omega arith)

-- A full read takes exactly that many bytes off the stream.
pub length-read_full :
    (n : ℕ) (r : List ℕ) → (read_full n r).1 ≡ none → length (read_full n r).2 + n ≡ length r
unfolding read_full
length-read_full zero r h = omega arith
length-read_full (suc n) [] h = cc
length-read_full (suc n) (b ∷ r) h = ground (arith, length-read_full n r)

-- `Uint16BE` puts together what `PutUint16BE` took apart.
pub uint16_be-put_uint16_be :
    (n : ℕ) → n < 65536 → uint16_be (put_uint16_be n).0 (put_uint16_be n).1 ≡ n
unfolding uint16_be put_uint16_be
uint16_be-put_uint16_be n h = omega arith

-- A read leaves no more than there was.
pub length-read_full_le : (n : ℕ) (r : List ℕ) → length (read_full n r).2 ≤ length r
unfolding read_full
length-read_full_le zero r = omega arith
length-read_full_le (suc n) [] = omega arith
length-read_full_le (suc n) (b ∷ r) = omega (arith, length-read_full_le n r)
