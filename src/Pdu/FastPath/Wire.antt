-- ===== src/Pdu/FastPath/Wire.antt =====
-- protocol/pdu/pdu.go: messages on the wire, whole or in fragments, and the read of one update.
use grdp.Prelude.{
  ℕ, ◌+◌, ◌*◌, ◌/◌, ◌%◌, ◌<◌, ◌≡◌, refl, ap, ◌∙◌, List, [], ◌∷◌, ◌++◌, bit_and, length, none, some,
  arith, All,
}
use grdp.Prelude.Bits.{agree_below, agree_below→eq}
use grdp.Io.{read_uint16_le, read_bytes, write_uint16_le}
use grdp.Io.Laws.{read_full-append, read_uint16_le-write}
use grdp.Pdu.FastPath.{Client, Header, with_size, with_payload, read_payload, read_update}
use grdp.Pdu.FastPath.Compression.{read_update-ignored}

-- An update on the wire, with no compression, before the bytes of what follows.
abbrev pub update_bytes : ℕ → ℕ → List ℕ → List ℕ → List ℕ
update_bytes code fragmentation payload rest =
    (code + fragmentation)
    ∷ (length payload % 256)
    ∷ (length payload / 256 % 256)
    ∷ (payload ++ rest)

-- A message: its code and its pieces, one or more.
pub record Message : Type 0 where
  pub code : ℕ
  pub first : List ℕ
  pub more : List (List ℕ)

-- The pieces after the first: NEXT, and LAST for the last one.
abbrev pub tail_bytes : ℕ → List ℕ → List (List ℕ) → List ℕ → List ℕ
tail_bytes code p [] rest = update_bytes code 0x10 p rest
tail_bytes code p (q ∷ ps) rest = update_bytes code 0x30 p (tail_bytes code q ps rest)

-- A message of one piece is SINGLE, and of several begins with FIRST.
abbrev pub pieces_bytes : ℕ → List ℕ → List (List ℕ) → List ℕ → List ℕ
pieces_bytes code first [] rest = update_bytes code 0x00 first rest
pieces_bytes code first (p ∷ ps) rest = update_bytes code 0x20 first (tail_bytes code p ps rest)

abbrev pub stream_of : List Message → List ℕ
stream_of [] = []
stream_of (m ∷ ms) = pieces_bytes m.code m.first m.more (stream_of ms)

-- The pieces put together.
abbrev pub joined : List ℕ → List (List ℕ) → List ℕ
joined p [] = p
joined p (q ∷ ps) = joined (p ++ q) ps

abbrev pub buff_after : Client → List ℕ → List (List ℕ) → List ℕ
buff_after c first [] = c.buff
buff_after c first (p ∷ ps) = joined first (p ∷ ps)

abbrev pub IsPiece : List ℕ → Type 0
IsPiece p = length p < 65536

abbrev pub IsMessage : Message → Type 0
IsMessage m = (m.code < 16) × IsPiece m.first × All IsPiece m.more

fragment_bits : (h : ℕ) → h < 256 → bit_and h 0x30 ≡ h / 16 % 4 * 16
unfolding agree_below
fragment_bits = agree_below→eq _ _ 256 refl

code_bits : (h : ℕ) → h < 256 → bit_and h 0x0f ≡ h % 16
unfolding agree_below
code_bits = agree_below→eq _ _ 256 refl

abbrev pub header_of : ℕ → ℕ → Header
header_of code fragmentation = record {
  update_code = code;
  fragmentation = fragmentation;
  compression_flags = 0;
}

-- `payload ++ rest` behind its length is read back.
payload_back :
    (header : ℕ) (p rest : List ℕ)
    → IsPiece p
    → read_payload header 0 ((length p % 256) ∷ (length p / 256 % 256) ∷ (p ++ rest))
      ≡ some (
        record {
          update_code = bit_and header 0x0f;
          fragmentation = bit_and header 0x30;
          compression_flags = 0;
        },
        p,
        rest,
      )
unfolding read_payload write_uint16_le read_bytes
payload_back header p rest h =
    let e : read_uint16_le ((length p % 256) ∷ (length p / 256 % 256) ∷ (p ++ rest))
        ≡ (length p, none, p ++ rest) =
      read_uint16_le-write (length p) (p ++ rest) h in
    ap (with_size header 0) e ∙ ap (with_payload header 0) (read_full-append p rest)

pub update_back :
    (code k : ℕ) (p rest : List ℕ)
    → code < 16
    → k < 4
    → IsPiece p
    → read_update (code + k * 16) ((length p % 256) ∷ (length p / 256 % 256) ∷ (p ++ rest))
      ≡ some (header_of code (k * 16), p, rest)
update_back code k p rest hc hk hp =
    let c : bit_and (code + k * 16) 0x0f ≡ code =
      code_bits (code + k * 16) (omega arith) ∙ omega arith in
    let f : bit_and (code + k * 16) 0x30 ≡ k * 16 =
      fragment_bits (code + k * 16) (omega arith) ∙ omega arith in
    read_update-ignored (code + k * 16) _ (omega arith)
    ∙ (rw (c, f) at (payload_back (code + k * 16) p rest hp))
