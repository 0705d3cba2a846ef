-- ===== src/Rle/Planar.antt =====
-- core/rle.go: `processPlane`, one colour plane of a bitmap of 32 bits a pixel.
pub mod Total
use grdp.Prelude.{
  ℕ, zero, suc, ◌+◌, ◌-◌, ◌*◌, ◌/◌, ◌%◌, ◌^◌, List, [], ◌∷◌, Option, none, some, leb, ltb, ◌==◌,
  ◌&&◌, if◌then◌else◌, length, get_elem?,
}
use grdp.Rle.Pixels.{cval}
use grdp.Rle.State.{Result, ok, stop, stuck, ◌>>=◌, or_exhausted, or_outside, put}

-- The output, the input, `i`, `indexw` and `color`.
pub record Plane : Type 0 where
  pub out : List ℕ
  pub input : List ℕ
  pub i : ℕ
  pub indexw : ℕ
  pub color : ℕ

-- A delta, with its sign in the least bit.
unfoldable pub delta : ℕ → ℕ
delta x = if (x % 2) == 1 then (2 ^ 8 - (x / 2 + 1)) % 2 ^ 8 else x / 2

-- `collen` and `replen`.
unfoldable pub lengths : ℕ → ℕ × ℕ
lengths code =
    let replen = code % 2 ^ 4 in
    let collen = code / 2 ^ 4 % 2 ^ 4 in
    let revcode = replen * 2 ^ 4 + collen in
    if leb revcode 47 && leb 16 revcode then (0, revcode) else (collen, replen)

-- `above` is the distance to the row above, or `none` in the first row.
abbrev pub predicted : Option ℕ → Plane → Result ℕ ℕ
predicted none pl = ok pl.color
predicted (some above) pl =
    or_outside (get_elem? pl.out (pl.i + above)) >>= (λ x. ok ((x + pl.color) % 2 ^ 8))

abbrev pub color_of : Option ℕ → ℕ → ℕ
color_of none code = code
color_of (some above) code = delta code

module _ (above : Option ℕ) where
  unfoldable pub plane_pixel : Plane → Result ℕ Plane
  unfolding put
  plane_pixel pl = do
    x ← predicted above pl
    out ← or_outside (put pl.i (x ∷ []) pl.out)
    ok (record pl { out = out; i = pl.i + 4; indexw = pl.indexw + 1 })

  unfoldable pub raw_pixels : ℕ → Plane → Result ℕ Plane
  unfolding plane_pixel cval delta
  raw_pixels zero pl = ok pl
  raw_pixels (suc collen) pl = do
    (code, r) ← or_exhausted (cval pl.input)
    pl' ← plane_pixel (record pl { input = r; color = color_of above code })
    raw_pixels collen pl'

  unfoldable pub run_pixels : ℕ → Plane → Result ℕ Plane
  unfolding plane_pixel
  run_pixels zero pl = ok pl
  run_pixels (suc replen) pl = plane_pixel pl >>= run_pixels replen

  unfoldable pub segment : Plane → Result ℕ Plane
  unfolding cval lengths raw_pixels run_pixels
  segment pl = do
    (code, r) ← or_exhausted (cval pl.input)
    pl' ← raw_pixels (lengths code).0 (record pl { input = r })
    run_pixels (lengths code).1 pl'

  -- A segment takes a byte at least, so that `fuel` need only be beyond the input's length.
  unfoldable pub plane_row : ℕ → ℕ → Plane → Result ℕ Plane
  unfolding segment
  plane_row zero width pl = stop stuck
  plane_row (suc fuel) width pl =
      if ltb pl.indexw width then segment pl >>= plane_row fuel width else ok pl

-- The rows from `indexh` on, `left` of them; `lastline` is 0 before the first.
unfoldable pub plane_rows : ℕ → ℕ → ℕ → ℕ → ℕ → ℕ → List ℕ × List ℕ → Result ℕ (List ℕ × List ℕ)
unfolding plane_row
plane_rows zero width height j indexh lastline (out, input) = ok (out, input)
plane_rows (suc left) width height j indexh lastline (out, input) =
    let thisline = j + width * height * 4 - (indexh + 1) * width * 4 in
    let above = if lastline == 0 then none else some (lastline - thisline) in
    let row : Plane = record { out = out; input = input; i = thisline; indexw = 0; color = 0 } in
    plane_row above (length input + 1) width row
    >>= (λ pl. plane_rows left width height j (indexh + 1) thisline (pl.out, pl.input))

-- The output and the rest of the input; the count of bytes that the source returns is the difference.
unfoldable pub process_plane : ℕ → ℕ → ℕ → List ℕ × List ℕ → Result ℕ (List ℕ × List ℕ)
unfolding plane_rows
process_plane width height j io = plane_rows height width height j 0 0 io
