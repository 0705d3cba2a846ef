-- ===== src/Pdu/Orders/Stream.antt =====
-- protocol/pdu/orders.go: the orders of an update, one after another. A panic of Go is `none`.
use grdp.Prelude.{
  ℕ, zero, suc, ◌+◌, ◌-◌, ◌/◌, ◌^◌, List, [], ◌∷◌, Bool, ◌==◌, if◌then◌else◌, Option, none, some,
  length, not, ◌||◌,
}
use mathlib.Core.Option.{map as map_option}
use grdp.Pdu.Reads.{Reads, ◌>>=◌, done, when, uint8, uint16, uint32, some_bytes, has}
use grdp.Pdu.Orders.Brushes.{CacheBrushOrder, update_cache_brush_order}
use grdp.Pdu.Orders.ColorTable.{CacheColorTableOrder, update_cache_color_table_order}
use grdp.Pdu.Orders.Secondary.{
  CacheBitmapOrder, update_cache_bitmap_order, CacheBitmapV2Order, update_cache_bitmap_v2_order,
  CacheBitmapV3Order, update_cache_bitmap_v3_order,
}
use grdp.Pdu.Orders.Glyphs.{CacheGlyphOrder, update_cache_glyph_order}
use grdp.Pdu.Orders.Process.{Globals, Primary, process_primary_order, ts_bounds}

abbrev ts_standard : ℕ
ts_standard = 0x01

abbrev ts_secondary : ℕ
ts_secondary = 0x02

-- Only a frame marker has bytes of its own here.
unfoldable process_altsec_order : ℕ → Reads (Unit {0})
unfolding uint32
process_altsec_order control = when (control / 2 ^ 2 == 0x0D) tt (uint32 >>= (λ _. done tt))

-- What a secondary order reads into its cache entry.
pub data Secondary : Type 0 where
  bitmap : CacheBitmapOrder → Secondary
  bitmap_v2 : CacheBitmapV2Order → Secondary
  bitmap_v3 : CacheBitmapV3Order → Secondary
  color_table : CacheColorTableOrder → Secondary
  glyphs : CacheGlyphOrder → Secondary
  brush : CacheBrushOrder → Secondary
  unsupported : Secondary

unfoldable update_cache : ℕ → ℕ → List ℕ → Option Secondary
unfolding update_cache_bitmap_order update_cache_bitmap_v2_order update_cache_bitmap_v3_order
    update_cache_color_table_order update_cache_glyph_order update_cache_brush_order
update_cache order_type flags r =
    if (order_type == 0x00) || (order_type == 0x02)
    then some (bitmap (update_cache_bitmap_order (order_type == 0x02) flags r).0)
    else if (order_type == 0x04) || (order_type == 0x05)
    then some (bitmap_v2 (update_cache_bitmap_v2_order (order_type == 0x05) flags r).0)
    else if order_type == 0x08
    then some (bitmap_v3 (update_cache_bitmap_v3_order flags r).0)
    else if order_type == 0x01
    then map_option color_table (update_cache_color_table_order r)
    else if order_type == 0x03
    then some (glyphs (update_cache_glyph_order r).0)
    else if order_type == 0x07
    then map_option brush (update_cache_brush_order r)
    else some unsupported

-- The block of the order is read as a whole, so that what follows it does not depend on its type.
unfoldable process_secondary_order : List ℕ → Option (Secondary × List ℕ)
unfolding uint8 uint16 some_bytes update_cache
process_secondary_order r =
    let (length, r1) = uint16 r in
    let (flags, r2) = uint16 r1 in
    let (order_type, r3) = uint8 r2 in
    let (block, r4) = some_bytes (length + 13 - 6) r3 in
    map_option (λ s. (s, r4)) (update_cache order_type flags block)

-- `Altsec` and `Secondary` stay nil in Go; the value carries what the order's reads found.
pub data OrderData : Type 0 where
  altsec : OrderData
  secondary : Secondary → OrderData
  primary : Primary → OrderData

pub record OrderPdu : Type 0 where
  pub control_flags : ℕ
  pub order : OrderData

unfoldable has_bounds : OrderPdu → Bool
has_bounds o = has o.control_flags ts_bounds

-- One round of the loop.
unfoldable pub read_order : Globals → List ℕ → Option (Globals × OrderPdu × List ℕ)
unfolding uint8 process_altsec_order process_secondary_order process_primary_order
read_order g r =
    let (control, r1) = uint8 r in
    if not (has control ts_standard)
    then some
        (g, record { control_flags = control; order = altsec }, (process_altsec_order control r1).1)
    else if has control ts_secondary
    then map_option
        (λ (s, rest). (g, record { control_flags = control; order = secondary s }, rest))
        (process_secondary_order r1)
    else let ((g', p), rest) = process_primary_order control g r1 in
      some (g', record { control_flags = control; order = primary p }, rest)

unfoldable pub read_orders : ℕ → Globals → List ℕ → Option (Globals × List OrderPdu × List ℕ)
unfolding read_order
read_orders zero g r = some (g, [], r)
read_orders (suc n) g r = elim (read_order g r) [
  | none ↦ none
  | some (g', o, r') ↦ map_option (λ (g'', os, rest). (g'', o ∷ os, rest)) (read_orders n g' r')
]

-- `FastPathOrdersPDU.Unpack`: the variables, `OrderPdus`, and what is left. `NumberOrders` is their number.
unfoldable pub unpack_orders : Globals → List ℕ → Option (Globals × List OrderPdu × List ℕ)
unfolding uint16 read_orders
unpack_orders g r = let (number_orders, r') = uint16 r in read_orders number_orders g r'
