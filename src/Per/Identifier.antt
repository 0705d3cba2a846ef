-- ===== src/Per/Identifier.antt =====
-- The object identifier: what the writer's first byte is, and when the reader accepts it.
use grdp.Prelude.{
  ℕ, ◌+◌, ◌*◌, ◌/◌, ◌%◌, ◌^◌, ◌<◌, ◌≡◌, refl, bit_and, List, [], ◌∷◌, ◌++◌, ◌==◌, ◌&&◌, arith,
  IsByte,
}
use grdp.Prelude.Bits.{agree_below, agree_below→eq, low_nibble}
use grdp.Per.{write_object_identifier, read_object_identifier}

nibbles_apart : (i : ℕ) → i < 256 → bit_and (i / 16 * 16) (i % 16) ≡ 0
unfolding agree_below
nibbles_apart = agree_below→eq _ _ 256 refl

nibbles_disjoint : (a b : ℕ) → a < 16 → b < 16 → bit_and (a * 16) b ≡ 0
nibbles_disjoint a b h k =
    let e : (a * 16 + b) / 16 * 16 ≡ a * 16 = omega arith in
    let f : (a * 16 + b) % 16 ≡ b = omega arith in
    rw (e, f) at (nibbles_apart (a * 16 + b) (omega arith))

first_byte : (o0 o1 : ℕ) → IsByte o1 → bit_and (o0 * 2 ^ 4 % 256) (bit_and o1 0x0f) ≡ 0
first_byte o0 o1 h =
    let e : o0 * 2 ^ 4 % 256 ≡ o0 % 16 * 16 = omega arith in
    rw (low_nibble o1 h, e) (nibbles_disjoint (o0 % 16) (o1 % 16) (omega arith) (omega arith))

-- The bytes that `WriteObjectIdentifier` writes do not depend on the first two arcs: their byte is
-- always 0, since the source joins the nibbles by `&`.
pub write_object_identifier_arcs :
    (o0 o1 o2 o3 o4 o5 : ℕ)
    → IsByte o1
    → write_object_identifier o0 o1 o2 o3 o4 o5 ≡ 5 ∷ 0 ∷ o2 ∷ o3 ∷ o4 ∷ o5 ∷ []
unfolding write_object_identifier
write_object_identifier_arcs o0 o1 o2 o3 o4 o5 h = rw (first_byte o0 o1 h)

-- `ReadObjectIdentifier` accepts what `WriteObjectIdentifier` wrote for the same identifier, whose
-- second arc is a byte, exactly where its first two arcs are both 0; in either case it takes the whole identifier off the stream.
pub read_object_identifier-write :
    (o0 o1 o2 o3 o4 o5 : ℕ) (rest : List ℕ)
    → IsByte o1
    → read_object_identifier
        (write_object_identifier o0 o1 o2 o3 o4 o5 ++ rest)
        (o0 ∷ o1 ∷ o2 ∷ o3 ∷ o4 ∷ o5 ∷ [])
      ≡ ((o0 == 0) && (o1 == 0), rest)
unfolding read_object_identifier
read_object_identifier-write o0 o1 o2 o3 o4 o5 rest h =
    rw (write_object_identifier_arcs o0 o1 o2 o3 o4 o5 h) (ground arith)
