-- ===== src/Pdu/Orders/Brushes.antt =====
-- protocol/pdu/orders.go: the brush of a cache-brush order, and the decompression of its pixels.
-- A panic of Go (an index or a slice out of range, a negative length) is `none`.
use grdp.Prelude.{
  ℕ, zero, suc, ◌+◌, ◌-◌, ◌*◌, ◌/◌, ◌^◌, List, [], ◌∷◌, ◌++◌, bit_and, ◌==◌, if◌then◌else◌, Option,
  none, some, length, take, drop, ltb, get_elem?, ◌&&◌,
}
use grdp.Pdu.Reads.{uint8, some_bytes}

module _ {ℓ κ} {A : Type ℓ} {B : Type κ} where
  infixl 10 ◌>>=◌
  unfoldable pub ◌>>=◌ : Option A → (A → Option B) → Option B
  none >>= f = none
  some a >>= f = f a

-- `pal[from:]` up to n bytes, each of them indexed.
unfoldable pub palette_entry : List ℕ → ℕ → ℕ → Option (List ℕ)
palette_entry pal from zero = some []
palette_entry pal from (suc n) = do
  v ← get_elem? pal from
  vs ← palette_entry pal (from + 1) n
  some (v ∷ vs)

-- The four pixels of a byte, from its top two bits down.
unfoldable pub brush_byte : List ℕ → ℕ → ℕ → Option (List ℕ)
unfolding palette_entry
brush_byte pal bpp b = do
  p6 ← palette_entry pal (bit_and (b / 2 ^ 6) 3 * bpp) bpp
  p4 ← palette_entry pal (bit_and (b / 2 ^ 4) 3 * bpp) bpp
  p2 ← palette_entry pal (bit_and (b / 2 ^ 2) 3 * bpp) bpp
  p0 ← palette_entry pal (bit_and b 3 * bpp) bpp
  some (p6 ++ p4 ++ p2 ++ p0)

-- Two bytes a row, bottom up: `below` holds the rows that are written already.
unfoldable pub brush_rows : List ℕ → ℕ → List ℕ → List ℕ → Option (List ℕ)
unfolding brush_byte
brush_rows pal bpp (left ∷ right ∷ rest) below = do
  l ← brush_byte pal bpp left
  r ← brush_byte pal bpp right
  brush_rows pal bpp rest (l ++ r ++ below)
brush_rows pal bpp (left ∷ []) below = none
brush_rows pal bpp [] below = some below

unfoldable pub update_decompress_brush : List ℕ → ℕ → Option (List ℕ)
unfolding brush_rows
update_decompress_brush input bpp =
    if ltb (length input) 16 then none else brush_rows (drop 16 input) bpp (take 16 input) []

pub record CacheBrushOrder : Type 0 where
  pub index : ℕ
  pub bpp : ℕ
  pub cx : ℕ
  pub cy : ℕ
  pub style : ℕ
  pub length : ℕ
  pub bytes : List ℕ

-- The pixels of an 8 by 8 brush. With one bit a pixel `cb.data[7]` is out of range, since nothing
-- has made the slice. For `bpp` 0 the length below is negative, or `in[16:]` is out of range.
unfoldable brush_pixels : CacheBrushOrder → List ℕ → Option (List ℕ)
unfolding some_bytes update_decompress_brush
brush_pixels cb r =
    if ltb cb.bpp 2
    then none
    else if cb.length == 16 + 4 * (cb.bpp - 2)
    then update_decompress_brush (some_bytes cb.length r).0 (cb.bpp - 2)
    else some (some_bytes (8 * 8 * (cb.bpp - 2)) r).0

unfoldable pub update_cache_brush_order : List ℕ → Option CacheBrushOrder
unfolding uint8 brush_pixels
update_cache_brush_order r =
    let (index, r1) = uint8 r in
    let (bpp, r2) = uint8 r1 in
    let (cx, r3) = uint8 r2 in
    let (cy, r4) = uint8 r3 in
    let (style, r5) = uint8 r4 in
    let (length, r6) = uint8 r5 in
    let cb : CacheBrushOrder = record {
      index = index;
      bpp = bpp;
      cx = cx;
      cy = cy;
      style = style;
      length = length;
      bytes = [];
    } in
    if (cx == 8) && (cy == 8)
    then brush_pixels cb r6 >>= (λ bytes. some (record cb { bytes = bytes }))
    else some cb
