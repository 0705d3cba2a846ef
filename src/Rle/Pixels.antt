-- ===== src/Rle/Pixels.antt =====
-- core/rle.go: `CVAL`, `CVAL2`, `CVAL3`, and what the three depths of the decoder differ in.
-- `none` is a panic, an index beyond the input.
use grdp.Prelude.{
  ℕ, ◌+◌, ◌*◌, ◌^◌, ◌/◌, ◌%◌, List, [], ◌∷◌, Option, none, some, Bool, true, false, bit_xor,
}

unfoldable pub cval : List ℕ → Option (ℕ × List ℕ)
cval [] = none
cval (b ∷ r) = some (b, r)

-- The bytes in the machine's order, which is little-endian.
unfoldable pub cval2 : List ℕ → Option (ℕ × List ℕ)
cval2 (a ∷ b ∷ r) = some (a + b * 2 ^ 8, r)
cval2 (a ∷ []) = none
cval2 [] = none

abbrev pub Rgb : Type 0
Rgb = ℕ × ℕ × ℕ

unfoldable pub cval3 : List ℕ → Option (Rgb × List ℕ)
cval3 (a ∷ b ∷ c ∷ r) = some ((a, b, c), r)
cval3 (a ∷ b ∷ []) = none
cval3 (a ∷ []) = none
cval3 [] = none

-- The values of a depth. `first_written` tells that a run of one colour is made from a first pixel that
-- is written by itself, so that an empty run is a panic.
pub record Pixel (P : Type 0) : Type 0 where
  pub black : P
  pub white : P
  pub xor : P → P → P
  pub take_pixel : List ℕ → Option (P × List ℕ)
  pub first_written : Bool

abbrev pub pixel8 : Pixel ℕ
pixel8 = record { black = 0; white = 0xff; xor = bit_xor; take_pixel = cval; first_written = false }

abbrev pub pixel16 : Pixel ℕ
pixel16 = record {
  black = 0;
  white = 0xffff;
  xor = bit_xor;
  take_pixel = cval2;
  first_written = false;
}

abbrev pub xor3 : Rgb → Rgb → Rgb
xor3 (a, b, c) (a', b', c') = (bit_xor a a', bit_xor b b', bit_xor c c')

abbrev pub pixel24 : Pixel Rgb
pixel24 = record {
  black = (0, 0, 0);
  white = (0xff, 0xff, 0xff);
  xor = xor3;
  take_pixel = cval3;
  first_written = true;
}

-- The bytes of an output.
unfoldable pub bytes24 : List Rgb → List ℕ
bytes24 [] = []
bytes24 ((a, b, c) ∷ ps) = a ∷ b ∷ c ∷ bytes24 ps

-- `byte(v >> 8)`, then `byte(v)`.
unfoldable pub bytes16 : List ℕ → List ℕ
bytes16 [] = []
bytes16 (v ∷ vs) = (v / 2 ^ 8 % 256) ∷ (v % 256) ∷ bytes16 vs
