-- ===== src/Rle.antt =====
-- core/rle.go: the decoders of compressed bitmaps. The argument `size`, which no decoder reads, is left
-- out.
pub mod Pixels
pub mod State
pub mod Orders
pub mod Draw
pub mod Rounds
pub mod Planar
pub mod Safe
pub mod Bounds
pub mod Masks
pub mod Copies
use grdp.Prelude.{
  ℕ, zero, suc, ◌+◌, ◌*◌, ◌/◌, ◌%◌, ◌^◌, List, [], ◌∷◌, Option, none, some, Bool, true, false, leb,
  ◌==◌, if◌then◌else◌, length, replicate, take,
}
use Pixels.{pixel8, pixel16, pixel24, Rgb, bytes16, bytes24, cval}
use State.{
  State as Variables, Result, ok, stop, refused, exhausted, outside, stuck, ◌>>=◌, or_exhausted,
  or_outside, put,
}
use Rounds.{decode}
use Planar.{process_plane}

-- What a decoder returns, with its output.
abbrev pub Answer : Type 0
Answer = Result ℕ (Bool × List ℕ)

-- `finished` and `given_up` say what becomes of the pixels.
abbrev pub answer :
    {P : Type 0} → (List P → Answer) → (List P → Answer) → Result P (Variables P) → Answer
answer finished given_up (ok st) = finished st.out
answer finished given_up (stop (refused out)) = given_up out
answer finished given_up (stop exhausted) = stop exhausted
answer finished given_up (stop outside) = stop outside
answer finished given_up (stop stuck) = stop stuck

unfoldable pub decompress1 : List ℕ → ℕ → ℕ → List ℕ → Answer
unfolding decode
decompress1 output width height input =
    answer (λ out. ok (true, out)) (λ out. ok (false, out))
      (decode pixel8 width height output input)

-- The buffer that `decompress2` works on: one from the pool where it is large enough.
unfoldable pub pooled : Option (List ℕ) → ℕ → List ℕ
pooled none needed = replicate needed 0
pooled (some v) needed = if leb needed (length v) then take needed v else replicate needed 0

unfoldable pub decompress2 : Option (List ℕ) → List ℕ → ℕ → ℕ → List ℕ → Answer
unfolding decode pooled bytes16 put
decompress2 pool output width height input =
    answer (λ out. or_outside (put 0 (bytes16 out) output) >>= (λ bytes. ok (true, bytes)))
      (λ out. ok (false, output)) (decode pixel16 width height (pooled pool (width * height)) input)

-- The pixels of an output, whose length is a multiple of 3.
unfoldable pub pixels24 : List ℕ → List Rgb
pixels24 (a ∷ b ∷ c ∷ r) = (a, b, c) ∷ pixels24 r
pixels24 (a ∷ b ∷ []) = []
pixels24 (a ∷ []) = []
pixels24 [] = []

unfoldable pub decompress3 : List ℕ → ℕ → ℕ → List ℕ → Answer
unfolding decode pixels24 bytes24
decompress3 output width height input =
    answer (λ out. ok (true, bytes24 out)) (λ out. ok (false, bytes24 out))
      (decode pixel24 width height (pixels24 output) input)

-- 0xFF in every fourth byte, from the one at `3 - i` on.
unfoldable pub opaque_from : ℕ → List ℕ → List ℕ
opaque_from i [] = []
opaque_from zero (b ∷ r) = 0xFF ∷ opaque_from 3 r
opaque_from (suc i) (b ∷ r) = b ∷ opaque_from i r

unfoldable pub decompress4 : List ℕ → ℕ → ℕ → List ℕ → Answer
unfolding cval opaque_from process_plane
decompress4 output width height input = do
  (code, r) ← or_exhausted (cval input)
  if (code / 2 ^ 4 % 2) == 0 then ok (false, output) else (do
    io3 ←
        if (code / 2 ^ 5 % 2) == 1
        then ok (opaque_from 3 output, r)
        else process_plane width height 3 (output, r)
    io2 ← process_plane width height 2 io3
    io1 ← process_plane width height 1 io2
    io0 ← process_plane width height 0 io1
    ok (true, io0.0))

-- `dst[:size]` where the capacity serves; `dst` is here what is up to its capacity.
unfoldable pub sized : List ℕ → ℕ → List ℕ
sized dst size = if leb size (length dst) then take size dst else replicate size 0

-- The answer's Boolean is dropped, and another `bpp` leaves the output as it is.
unfoldable pub decompress_into : Option (List ℕ) → List ℕ → List ℕ → ℕ → ℕ → ℕ → Answer
unfolding sized decompress1 decompress2 decompress3 decompress4
decompress_into pool input dst width height bpp =
    let out = sized dst (width * height * bpp) in
    if bpp == 1
    then decompress1 out width height input
    else if bpp == 2
    then decompress2 pool out width height input
    else if bpp == 3
    then decompress3 out width height input
    else if bpp == 4
    then decompress4 out width height input
    else ok (false, out)

unfoldable pub decompress : Option (List ℕ) → List ℕ → ℕ → ℕ → ℕ → Answer
unfolding decompress_into
decompress pool input width height bpp = decompress_into pool input [] width height bpp
