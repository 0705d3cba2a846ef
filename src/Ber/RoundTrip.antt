-- ===== src/Ber/RoundTrip.antt =====
-- What the BER readers make of what the BER writers wrote.
use grdp.Prelude.{ℕ, ◌^◌, ◌<◌, ◌≡◌, List, ◌++◌, Bool, none, true, arith}
use grdp.Prelude.Bits.{top_bit}
use grdp.Ber.{
  write_length, read_length, write_integer, read_integer, read_universal_tag, write_universal_tag,
  write_application_tag, read_application_tag,
}

-- `ReadLength` reads back every length of 16 bits, and leaves what follows.
pub read_length-write :
    (n : ℕ) (rest : List ℕ) → n < 65536 → read_length (write_length n ++ rest) ≡ (n, none, rest)
unfolding read_length write_length
read_length-write n rest h = ground (arith, top_bit n)

-- A universal tag is recognised again, and what follows it is left.
pub read_universal_tag-write :
    (tag : ℕ) (pc : Bool) (rest : List ℕ)
    → read_universal_tag tag pc (write_universal_tag tag pc ++ rest) ≡ (true, rest)
unfolding read_universal_tag write_universal_tag
read_universal_tag-write tag pc rest = ground arith

-- `ReadInteger` reads back every number of 32 bits that `WriteInteger` wrote, in each of its three
-- sizes, and leaves what follows.
pub read_integer-write :
    (n : ℕ) (rest : List ℕ) → n < 2 ^ 32 → read_integer (write_integer n ++ rest) ≡ (n, none, rest)
unfolding read_integer write_integer
read_integer-write n rest h = ground arith

-- `ReadApplicationTag` takes the header that `WriteApplicationTag` wrote for the same tag, in its
-- short and its long form, and returns the size.
pub read_application_tag-write :
    (tag size : ℕ) (rest : List ℕ)
    → size < 65536
    → read_application_tag tag (write_application_tag tag size ++ rest) ≡ (size, none, rest)
unfolding read_application_tag write_application_tag
read_application_tag-write tag size rest h = ground (arith, read_length-write size rest)
