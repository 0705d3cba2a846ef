-- ===== src/Pdu/Reads.antt =====
-- protocol/pdu: reads that drop the error, `v, _ := core.ReadUInt8(r)`, and words of 32 bits.
-- A reader is the list of the bytes not yet read; an `int32` is its two's complement word.
use grdp.Prelude.{ℕ, ◌+◌, ◌-◌, ◌^◌, List, Bool, true, false, bit_and, ltb, ◌==◌, if◌then◌else◌, not}
use grdp.Io.{read_uint8, read_uint16_le, read_uint32_le, read_bytes}

-- What a call does to the reader it is given.
abbrev pub Reads {ℓ} : Type ℓ → Type ℓ
Reads A = List ℕ → A × List ℕ

module _ {ℓ κ} {A : Type ℓ} {B : Type κ} where
  infixl 10 ◌>>=◌
  unfoldable pub ◌>>=◌ : Reads A → (A → Reads B) → Reads B
  (m >>= f) r = let (a, r') = m r in f a r'

module _ {ℓ} {A : Type ℓ} where
  unfoldable pub done : A → Reads A
  done a r = (a, r)

  -- `if … { field = read(r) }`
  unfoldable pub when : Bool → A → Reads A → Reads A
  when true old m = m
  when false old m = done old

unfoldable pub uint8 : Reads ℕ
uint8 r = let (v, e, r') = read_uint8 r in (v, r')

unfoldable pub uint16 : Reads ℕ
uint16 r = let (v, e, r') = read_uint16_le r in (v, r')

unfoldable pub uint32 : Reads ℕ
uint32 r = let (v, e, r') = read_uint32_le r in (v, r')

unfoldable pub some_bytes : ℕ → Reads (List ℕ)
some_bytes n r = let (v, e, r') = read_bytes n r in (v, r')

-- `x&mask != 0`
abbrev pub has : ℕ → ℕ → Bool
has x mask = not (bit_and x mask == 0)

-- `int32(int8(b))` and `int32(int16(w))`.
unfoldable pub sign8 : ℕ → ℕ
sign8 b = if ltb b 128 then b else b + (2 ^ 32 - 256)

unfoldable pub sign16 : ℕ → ℕ
sign16 w = if ltb w 32768 then w else w + (2 ^ 32 - 65536)
