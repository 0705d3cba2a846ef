-- ===== src/Pdu/Orders/Process.antt =====
-- protocol/pdu/orders.go: a primary order, from its control flags to its fields.
-- The package's variables `orderType`, `bounds` and `d` are passed on from order to order.
use grdp.Prelude.{
  ℕ, zero, suc, ◌+◌, ◌-◌, ◌*◌, ◌%◌, ◌^◌, [], Bool, bit_or, ◌==◌, if◌then◌else◌, Option, none, some,
  not, ◌||◌,
}
use grdp.Pdu.Reads.{Reads, ◌>>=◌, done, when, uint8, has}
use grdp.Pdu.Orders.Fields.{Bounds, update_bounds, no_colour, Brush, Pen}
use grdp.Pdu.Orders.Primary.{
  Dstblt, unpack_dstblt, Patblt, unpack_patblt, Scrblt, unpack_scrblt, LineTo, unpack_line_to,
  OpaqueRect, unpack_opaque_rect, SaveBitmap, unpack_save_bitmap,
}
use grdp.Pdu.Orders.Memory.{Memblt, unpack_memblt, Mem3blt, unpack_mem3blt}
use grdp.Pdu.Orders.Polygon.{PolygonSc, unpack_polygon_sc}

-- The types that implement `PrimaryOrder`.
pub data PrimaryOrder : Type 0 where
  dstblt : Dstblt → PrimaryOrder
  patblt : Patblt → PrimaryOrder
  scrblt : Scrblt → PrimaryOrder
  line_to : LineTo → PrimaryOrder
  opaque_rect : OpaqueRect → PrimaryOrder
  save_bitmap : SaveBitmap → PrimaryOrder
  memblt : Memblt → PrimaryOrder
  mem3blt : Mem3blt → PrimaryOrder
  polygon_sc : PolygonSc → PrimaryOrder
  polygon_cb polyline ellipse_sc ellipse_cb glyph_index : PrimaryOrder

pub record Globals : Type 0 where
  pub order_type : ℕ
  pub bounds : Bounds
  pub d : Scrblt

pub record Primary : Type 0 where
  pub bounds : Bounds
  pub order : Option PrimaryOrder

abbrev pub no_bounds : Bounds
no_bounds = record { left = 0; top = 0; right = 0; bottom = 0 }

abbrev no_brush : Brush
no_brush = record { x = 0; y = 0; style = 0; hatch = 0; bytes = [] }

abbrev no_pen : Pen
no_pen = record { style = 0; width = 0; colour = no_colour }

abbrev pub ts_bounds : ℕ
ts_bounds = 0x04

abbrev ts_type_change : ℕ
ts_type_change = 0x08

abbrev ts_delta_coordinates : ℕ
ts_delta_coordinates = 0x10

abbrev ts_zero_bounds_deltas : ℕ
ts_zero_bounds_deltas = 0x20

abbrev ts_zero_field_byte_bit0 : ℕ
ts_zero_field_byte_bit0 = 0x40

abbrev ts_zero_field_byte_bit1 : ℕ
ts_zero_field_byte_bit1 = 0x80

-- How many bytes of field flags the type of order has.
unfoldable pub full_size : ℕ → ℕ
full_size order_type =
    if (order_type == 0x0E) || (order_type == 0x1B)
    then 3
    else if (order_type == 0x01)
        || (order_type == 0x0D)
        || (order_type == 0x09)
        || (order_type == 0x15)
        || (order_type == 0x1A)
    then 2
    else 1

-- How many of them the control flags leave; `-` stops at 0 where the code tests for less than 2.
unfoldable pub field_bytes : ℕ → ℕ → ℕ
unfolding full_size
field_bytes control order_type =
    let size =
      if has control ts_zero_field_byte_bit0
      then full_size order_type - 1
      else full_size order_type in
    if has control ts_zero_field_byte_bit1 then size - 2 else size

-- The loop from byte i on, with as many bytes as are left.
unfoldable pub present_loop : ℕ → ℕ → ℕ → Reads ℕ
unfolding uint8
present_loop zero i present = done present
present_loop (suc left) i present =
    uint8 >>= (λ bits. present_loop left (i + 1) (bit_or present (bits * 2 ^ (i * 8) % 2 ^ 32)))

unfoldable pub read_bounds : ℕ → Globals → Reads (Globals × Bounds)
unfolding update_bounds
read_bounds control g =
    when (has control ts_bounds) (g, no_bounds)
      (do
        b ← when (not (has control ts_zero_bounds_deltas)) g.bounds (update_bounds g.bounds)
        done (record g { bounds = b }, b))

abbrev lift :
    {A : Type 0} → Globals → (A → PrimaryOrder) → Reads A → Reads (Globals × Option PrimaryOrder)
lift g con m = m >>= (λ a. done (g, some (con a)))

-- The order's `Unpack` on a fresh value; `none` for a type that is not supported.
unfoldable pub unpack_order : ℕ → Bool → Globals → Reads (Globals × Option PrimaryOrder)
unfolding unpack_dstblt unpack_patblt unpack_scrblt unpack_line_to unpack_opaque_rect
    unpack_save_bitmap unpack_memblt unpack_mem3blt unpack_polygon_sc
unpack_order present delta g =
    let t = g.order_type in
    if t == 0x00
    then lift g dstblt
        (unpack_dstblt present delta (record { x = 0; y = 0; cx = 0; cy = 0; opcode = 0 }))
    else if t == 0x01
    then lift g patblt (
        unpack_patblt present delta (record {
          x = 0;
          y = 0;
          cx = 0;
          cy = 0;
          opcode = 0;
          bgcolour = no_colour;
          fgcolour = no_colour;
          brush = no_brush;
        }))
    else if t == 0x02
    then unpack_scrblt present delta g.d >>= (λ d. done (record g { d = d }, some (scrblt d)))
    else if t == 0x09
    then lift g line_to (
        unpack_line_to present delta (record {
          mixmode = 0;
          startx = 0;
          starty = 0;
          endx = 0;
          endy = 0;
          bgcolour = no_colour;
          opcode = 0;
          pen = no_pen;
        }))
    else if t == 0x0A
    then lift g opaque_rect (
        unpack_opaque_rect present delta
          (record { x = 0; y = 0; cx = 0; cy = 0; colour = no_colour }))
    else if t == 0x0B
    then lift g save_bitmap (
        unpack_save_bitmap present delta
          (record { offset = 0; left = 0; top = 0; right = 0; bottom = 0; action = 0 }))
    else if t == 0x0D
    then lift g memblt (
        unpack_memblt present delta (record {
          colour_table = 0;
          cache_id = 0;
          x = 0;
          y = 0;
          cx = 0;
          cy = 0;
          opcode = 0;
          srcx = 0;
          srcy = 0;
          cache_idx = 0;
        }))
    else if t == 0x0E
    then lift g mem3blt (
        unpack_mem3blt present delta (record {
          colour_table = 0;
          cache_id = 0;
          x = 0;
          y = 0;
          cx = 0;
          cy = 0;
          opcode = 0;
          srcx = 0;
          srcy = 0;
          bgcolour = no_colour;
          fgcolour = no_colour;
          brush = no_brush;
          cache_idx = 0;
        }))
    else if t == 0x14
    then lift g polygon_sc (
        unpack_polygon_sc present delta (record {
          x = 0;
          y = 0;
          opcode = 0;
          fillmode = 0;
          fgcolour = no_colour;
          npoints = 0;
          points = [];
        }))
    else if t == 0x15
    then done (g, some polygon_cb)
    else if t == 0x16
    then done (g, some polyline)
    else if t == 0x19
    then done (g, some ellipse_sc)
    else if t == 0x1A
    then done (g, some ellipse_cb)
    else if t == 0x1B
    then done (g, some glyph_index)
    else done (g, none)

-- The caller drops the error of a type that is not supported; the order then has no data.
unfoldable pub process_primary_order : ℕ → Globals → Reads (Globals × Primary)
unfolding uint8 field_bytes present_loop read_bounds unpack_order
process_primary_order control g = do
  order_type ← when (has control ts_type_change) g.order_type uint8
  present ← present_loop (field_bytes control order_type) 0 0
  (g', bounds) ← read_bounds control (record g { order_type = order_type })
  (g'', order) ← unpack_order present (has control ts_delta_coordinates) g'
  done (g'', record { bounds = bounds; order = order })
