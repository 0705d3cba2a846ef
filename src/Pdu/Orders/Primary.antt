-- ===== src/Pdu/Orders/Primary.antt =====
-- protocol/pdu/orders.go: the primary drawing orders and what each reads.
-- `present` is the field flags and `delta` the flag TS_DELTA_COORDINATES. Fields are numbers of Go's
-- widths; `int32` fields are two's complement words. The orders with an empty `Unpack` have no data.
use grdp.Prelude.{ℕ, ◌/◌, ◌^◌, Bool}
use grdp.Pdu.Reads.{Reads, ◌>>=◌, done, when, uint8, uint16, uint32, has}
use grdp.Pdu.Orders.Fields.{
  coord_field, byte_field, word_field, Colour, colour_field, Brush, update_brush, Pen, update_pen,
  read_order_coord, update_read_color_ref,
}

pub record Dstblt : Type 0 where
  pub x : ℕ
  pub y : ℕ
  pub cx : ℕ
  pub cy : ℕ
  pub opcode : ℕ

unfoldable pub unpack_dstblt : ℕ → Bool → Dstblt → Reads Dstblt
unfolding read_order_coord uint8
unpack_dstblt present delta d = do
  x ← coord_field present delta 0x01 d.x
  y ← coord_field present delta 0x02 d.y
  cx ← coord_field present delta 0x04 d.cx
  cy ← coord_field present delta 0x08 d.cy
  opcode ← byte_field present 0x10 d.opcode
  done (record { x = x; y = y; cx = cx; cy = cy; opcode = opcode })

pub record Patblt : Type 0 where
  pub x : ℕ
  pub y : ℕ
  pub cx : ℕ
  pub cy : ℕ
  pub opcode : ℕ
  pub bgcolour : Colour
  pub fgcolour : Colour
  pub brush : Brush

unfoldable pub unpack_patblt : ℕ → Bool → Patblt → Reads Patblt
unfolding read_order_coord uint8 update_read_color_ref update_brush
unpack_patblt present delta d = do
  x ← coord_field present delta 0x01 d.x
  y ← coord_field present delta 0x02 d.y
  cx ← coord_field present delta 0x04 d.cx
  cy ← coord_field present delta 0x08 d.cy
  opcode ← byte_field present 0x10 d.opcode
  bgcolour ← colour_field present 0x20 d.bgcolour
  fgcolour ← colour_field present 0x40 d.fgcolour
  brush ← update_brush (present / 2 ^ 7) d.brush
  done (record {
    x = x;
    y = y;
    cx = cx;
    cy = cy;
    opcode = opcode;
    bgcolour = bgcolour;
    fgcolour = fgcolour;
    brush = brush;
  })

pub record Scrblt : Type 0 where
  pub x : ℕ
  pub y : ℕ
  pub cx : ℕ
  pub cy : ℕ
  pub opcode : ℕ
  pub srcx : ℕ
  pub srcy : ℕ

-- The argument is the package's variable `d`; the result is its new value, which the order copies.
unfoldable pub unpack_scrblt : ℕ → Bool → Scrblt → Reads Scrblt
unfolding read_order_coord uint8
unpack_scrblt present delta d = do
  x ← coord_field present delta 0x01 d.x
  y ← coord_field present delta 0x02 d.y
  cx ← coord_field present delta 0x04 d.cx
  cy ← coord_field present delta 0x08 d.cy
  opcode ← byte_field present 0x10 d.opcode
  srcx ← coord_field present delta 0x20 d.srcx
  srcy ← coord_field present delta 0x40 d.srcy
  done (record { x = x; y = y; cx = cx; cy = cy; opcode = opcode; srcx = srcx; srcy = srcy })

pub record LineTo : Type 0 where
  pub mixmode : ℕ
  pub startx : ℕ
  pub starty : ℕ
  pub endx : ℕ
  pub endy : ℕ
  pub bgcolour : Colour
  pub opcode : ℕ
  pub pen : Pen

unfoldable pub unpack_line_to : ℕ → Bool → LineTo → Reads LineTo
unfolding read_order_coord uint8 uint16 update_read_color_ref update_pen
unpack_line_to present delta d = do
  mixmode ← word_field present 0x01 d.mixmode
  startx ← coord_field present delta 0x02 d.startx
  starty ← coord_field present delta 0x04 d.starty
  endx ← coord_field present delta 0x08 d.endx
  endy ← coord_field present delta 0x10 d.endy
  bgcolour ← colour_field present 0x20 d.bgcolour
  opcode ← byte_field present 0x40 d.opcode
  pen ← update_pen (present / 2 ^ 7) d.pen
  done (record {
    mixmode = mixmode;
    startx = startx;
    starty = starty;
    endx = endx;
    endy = endy;
    bgcolour = bgcolour;
    opcode = opcode;
    pen = pen;
  })

pub record OpaqueRect : Type 0 where
  pub x : ℕ
  pub y : ℕ
  pub cx : ℕ
  pub cy : ℕ
  pub colour : Colour

-- Three bytes of the colour; the fourth stays.
unfoldable pub unpack_opaque_rect : ℕ → Bool → OpaqueRect → Reads OpaqueRect
unfolding read_order_coord uint8
unpack_opaque_rect present delta d = do
  x ← coord_field present delta 0x01 d.x
  y ← coord_field present delta 0x02 d.y
  cx ← coord_field present delta 0x04 d.cx
  cy ← coord_field present delta 0x08 d.cy
  c0 ← byte_field present 0x10 d.colour.0
  c1 ← byte_field present 0x20 d.colour.1
  c2 ← byte_field present 0x40 d.colour.2
  done (record { x = x; y = y; cx = cx; cy = cy; colour = (c0, c1, c2, d.colour.3) })

pub record SaveBitmap : Type 0 where
  pub offset : ℕ
  pub left : ℕ
  pub top : ℕ
  pub right : ℕ
  pub bottom : ℕ
  pub action : ℕ

unfoldable pub unpack_save_bitmap : ℕ → Bool → SaveBitmap → Reads SaveBitmap
unfolding read_order_coord uint8 uint32
unpack_save_bitmap present delta d = do
  offset ← when (has present 0x01) d.offset uint32
  left ← coord_field present delta 0x02 d.left
  top ← coord_field present delta 0x04 d.top
  right ← coord_field present delta 0x08 d.right
  bottom ← coord_field present delta 0x10 d.bottom
  action ← byte_field present 0x20 d.action
  done (record {
    offset = offset;
    left = left;
    top = top;
    right = right;
    bottom = bottom;
    action = action;
  })
