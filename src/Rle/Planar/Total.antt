-- ===== src/Rle/Planar/Total.antt =====
-- core/rle.go: `processPlane`, and `decompress4` with it, comes to an end on every input.
use grdp.Prelude.{
  ◌==◌, ◌/◌, ◌%◌, ◌^◌, ℕ, zero, suc, ◌+◌, ◌≤◌, ◌<◌, ◌≢◌, List, [], ◌∷◌, Option, none, some, Bool,
  true, false, ltb, length, arith, if◌then◌else◌, get_elem?,
}
use grdp.Rle.Pixels.{cval}
use grdp.Rle.State.{
  Result, ok, stop, refused, exhausted, outside, stuck, ◌>>=◌, or_exhausted, or_outside, put,
}
use grdp.Rle.{decompress4, opaque_from}
use grdp.Rle.Planar.{
  Plane, lengths, predicted, color_of, plane_pixel, raw_pixels, run_pixels, segment, plane_row,
  plane_rows, process_plane,
}

-- `Q` of a result, or a panic.
abbrev Ends : {A : Type 0} → (A → Type 0) → Result ℕ A → Type 0
Ends Q (ok a) = Q a
Ends Q (stop (refused out)) = Unit
Ends Q (stop exhausted) = Unit
Ends Q (stop outside) = Unit
Ends Q (stop stuck) = ⊥

Ends-bind :
    {A B : Type 0} (Q : A → Type 0) (R : B → Type 0) (r : Result ℕ A) (f : A → Result ℕ B)
    → Ends Q r
    → ((a : A) → Q a → Ends R (f a))
    → Ends R (r >>= f)
Ends-bind Q R (ok a) f h k = k a h
Ends-bind Q R (stop (refused out)) f h k = tt
Ends-bind Q R (stop exhausted) f h k = tt
Ends-bind Q R (stop outside) f h k = tt
Ends-bind Q R (stop stuck) f h k = absurd h

Ends-map :
    {A : Type 0} (Q R : A → Type 0) (r : Result ℕ A) → Ends Q r → ((a : A) → Q a → R a) → Ends R r
Ends-map Q R (ok a) h k = k a h
Ends-map Q R (stop (refused out)) h k = tt
Ends-map Q R (stop exhausted) h k = tt
Ends-map Q R (stop outside) h k = tt
Ends-map Q R (stop stuck) h k = absurd h

Ends-if :
    {A : Type 0} (Q : A → Type 0) (b : Bool) (r s : Result ℕ A)
    → Ends Q r
    → Ends Q s
    → Ends Q (if b then r else s)
Ends-if Q true r s h k = h
Ends-if Q false r s h k = k

Any : {A : Type 0} → A → Type 0
Any a = Unit

or_outside-Ends : {A : Type 0} (o : Option A) → Ends Any (or_outside o)
unfolding Any
or_outside-Ends none = tt
or_outside-Ends (some a) = tt

-- A byte less, where there is one.
cval-Ends : (input : List ℕ) → Ends (λ c. length c.1 < length input) (or_exhausted (cval input))
unfolding cval
cval-Ends [] = tt
cval-Ends (b ∷ r) = omega arith

-- No more input than before, and less.
Keeps : Plane → Plane → Type 0
Keeps pl pl' = length pl'.input ≤ length pl.input

Takes : Plane → Plane → Type 0
Takes pl pl' = length pl'.input < length pl.input

module _ (above : Option ℕ) where
  predicted-Ends : (pl : Plane) → (o : Option ℕ) → Ends Any (predicted o pl)
  unfolding Any
  predicted-Ends pl none = tt
  predicted-Ends pl (some d) =
      Ends-bind Any Any (or_outside (get_elem? pl.out (pl.i + d))) _
        (or_outside-Ends (get_elem? pl.out (pl.i + d))) (λ x u. tt)

  plane_pixel-Keeps : (pl : Plane) → Ends (Keeps pl) (plane_pixel above pl)
  unfolding plane_pixel Keeps
  plane_pixel-Keeps pl =
      Ends-bind Any (Keeps pl) (predicted above pl) _ (predicted-Ends pl above) (λ x u.
        Ends-bind Any (Keeps pl) (or_outside (put pl.i (x ∷ []) pl.out)) _
          (or_outside-Ends (put pl.i (x ∷ []) pl.out)) (λ out v. omega arith))

  raw_pixels-Keeps : (collen : ℕ) (pl : Plane) → Ends (Keeps pl) (raw_pixels above collen pl)
  unfolding raw_pixels Keeps
  raw_pixels-Keeps zero pl = omega arith
  raw_pixels-Keeps (suc collen) pl =
      Ends-bind (λ c. length c.1 < length pl.input) (Keeps pl) (or_exhausted (cval pl.input)) _
        (cval-Ends pl.input)
        (λ (code, r) h.
          let b : Plane = record pl { input = r; color = color_of above code } in
          Ends-bind (Keeps b) (Keeps pl) (plane_pixel above b) _ (plane_pixel-Keeps b) (λ c k.
            Ends-map (Keeps c) (Keeps pl) (raw_pixels above collen c) (raw_pixels-Keeps collen c)
              (λ d k'. omega arith)))

  run_pixels-Keeps : (replen : ℕ) (pl : Plane) → Ends (Keeps pl) (run_pixels above replen pl)
  unfolding run_pixels Keeps
  run_pixels-Keeps zero pl = omega arith
  run_pixels-Keeps (suc replen) pl =
      Ends-bind (Keeps pl) (Keeps pl) (plane_pixel above pl) (run_pixels above replen)
        (plane_pixel-Keeps pl)
        (λ c k.
          Ends-map (Keeps c) (Keeps pl) (run_pixels above replen c) (run_pixels-Keeps replen c)
            (λ d k'. omega arith))

  segment-Takes : (pl : Plane) → Ends (Takes pl) (segment above pl)
  unfolding segment Keeps Takes
  segment-Takes pl =
      Ends-bind (λ c. length c.1 < length pl.input) (Takes pl) (or_exhausted (cval pl.input)) _
        (cval-Ends pl.input)
        (λ (code, r) h.
          let b : Plane = record pl { input = r } in
          Ends-bind (Keeps b) (Takes pl) (raw_pixels above (lengths code).0 b) _
            (raw_pixels-Keeps (lengths code).0 b)
            (λ c k.
              Ends-map (Keeps c) (Takes pl) (run_pixels above (lengths code).1 c)
                (run_pixels-Keeps (lengths code).1 c) (λ d k'. omega arith)))

  plane_row-Ends :
      (fuel width : ℕ) (pl : Plane)
      → length pl.input < fuel
      → Ends Any (plane_row above fuel width pl)
  unfolding plane_row Takes Any
  plane_row-Ends zero width pl h = absurd (omega arith)
  plane_row-Ends (suc fuel) width pl h =
      Ends-if Any (ltb pl.indexw width) _ _
        (Ends-bind (Takes pl) Any (segment above pl) (plane_row above fuel width) (segment-Takes pl)
          (λ c k. plane_row-Ends fuel width c (omega arith)))
        tt

plane_rows-Ends :
    (left width height j indexh lastline : ℕ) (io : List ℕ × List ℕ)
    → Ends Any (plane_rows left width height j indexh lastline io)
unfolding plane_rows Any
plane_rows-Ends zero width height j indexh lastline io = tt
plane_rows-Ends (suc left) width height j indexh lastline (out, input) =
    Ends-bind Any Any (plane_row _ (length input + 1) width _) _
      (plane_row-Ends _ (length input + 1) width _ (omega arith))
      (λ pl u. plane_rows-Ends left width height j (indexh + 1) _ (pl.out, pl.input))

Ends-ne : {A : Type 0} (Q : A → Type 0) (r : Result ℕ A) → Ends Q r → r ≢ stop stuck
Ends-ne Q (ok a) h = λ e. cc
Ends-ne Q (stop (refused out)) h = λ e. cc
Ends-ne Q (stop exhausted) h = λ e. cc
Ends-ne Q (stop outside) h = λ e. cc
Ends-ne Q (stop stuck) h = absurd h

process_plane-Ends :
    (width height j : ℕ) (io : List ℕ × List ℕ) → Ends Any (process_plane width height j io)
unfolding process_plane
process_plane-Ends width height j io = plane_rows-Ends height width height j 0 0 io

-- The three colour planes, after what is done for the fourth.
planes-Ends :
    (width height : ℕ) (r : Result ℕ (List ℕ × List ℕ))
    → Ends Any r
    → Ends {A = Bool × List ℕ} Any (
        r >>= (λ io3. process_plane width height 2 io3 >>= (λ io2.
          process_plane width height 1 io2
          >>= (λ io1. process_plane width height 0 io1 >>= (λ io0. ok (true, io0.0))))))
unfolding Any
planes-Ends width height r h = Ends-bind Any Any r _ h (λ io3 u.
    Ends-bind Any Any (process_plane width height 2 io3) _ (process_plane-Ends width height 2 io3)
      (λ io2 u2.
        Ends-bind Any Any (process_plane width height 1 io2) _
          (process_plane-Ends width height 1 io2)
          (λ io1 u1.
            Ends-bind Any Any (process_plane width height 0 io1) _
              (process_plane-Ends width height 0 io1) (λ io0 u0. tt))))

-- The decoder of 32 bits a pixel ends on every input and output: each row of a plane takes its segments
-- from the input until it is full or the call panics, although a segment may bring no pixel.
pub decompress4-ne-stuck :
    (output : List ℕ) (width height : ℕ) (input : List ℕ)
    → decompress4 output width height input ≢ stop stuck
unfolding decompress4 Any
decompress4-ne-stuck output width height input =
    Ends-ne Any (decompress4 output width height input) (
      Ends-bind (λ c. length c.1 < length input) Any (or_exhausted (cval input)) _ (cval-Ends input)
        (λ (code, r) h. Ends-if Any ((code / 2 ^ 4 % 2) == 0) _ _ tt (
          planes-Ends width height
            (if (code / 2 ^ 5 % 2) == 1
              then ok (opaque_from 3 output, r)
              else process_plane width height 3 (output, r))
            (Ends-if Any ((code / 2 ^ 5 % 2) == 1) _ _ tt
              (process_plane-Ends width height 3 (output, r))))))
