-- ===== src/Pdu/Orders/Memory.antt =====
-- protocol/pdu/orders.go: the primary orders that draw from a bitmap cache.
use grdp.Prelude.{ℕ, ◌/◌, ◌^◌, Bool}
use grdp.Pdu.Reads.{Reads, ◌>>=◌, done, when, uint8, uint16, has}
use grdp.Pdu.Orders.Fields.{
  coord_field, byte_field, word_field, Colour, colour_field, Brush, update_brush, read_order_coord,
  update_read_color_ref,
}

-- The cache's identity and the colour table, read together.
unfoldable cache_fields : ℕ × ℕ → ℕ → Reads (ℕ × ℕ)
unfolding uint8
cache_fields old present =
    when (has present 0x01) old (uint8 >>= (λ id. uint8 >>= (λ table. done (id, table))))

pub record Memblt : Type 0 where
  pub colour_table : ℕ
  pub cache_id : ℕ
  pub x : ℕ
  pub y : ℕ
  pub cx : ℕ
  pub cy : ℕ
  pub opcode : ℕ
  pub srcx : ℕ
  pub srcy : ℕ
  pub cache_idx : ℕ

unfoldable pub unpack_memblt : ℕ → Bool → Memblt → Reads Memblt
unfolding read_order_coord uint8 uint16 cache_fields
unpack_memblt present delta d = do
  (cache_id, colour_table) ← cache_fields (d.cache_id, d.colour_table) present
  x ← coord_field present delta 0x02 d.x
  y ← coord_field present delta 0x04 d.y
  cx ← coord_field present delta 0x08 d.cx
  cy ← coord_field present delta 0x10 d.cy
  opcode ← byte_field present 0x20 d.opcode
  srcx ← coord_field present delta 0x40 d.srcx
  srcy ← coord_field present delta 0x80 d.srcy
  cache_idx ← word_field present 0x100 d.cache_idx
  done (record {
    colour_table = colour_table;
    cache_id = cache_id;
    x = x;
    y = y;
    cx = cx;
    cy = cy;
    opcode = opcode;
    srcx = srcx;
    srcy = srcy;
    cache_idx = cache_idx;
  })

pub record Mem3blt : Type 0 where
  pub colour_table : ℕ
  pub cache_id : ℕ
  pub x : ℕ
  pub y : ℕ
  pub cx : ℕ
  pub cy : ℕ
  pub opcode : ℕ
  pub srcx : ℕ
  pub srcy : ℕ
  pub bgcolour : Colour
  pub fgcolour : Colour
  pub brush : Brush
  pub cache_idx : ℕ

-- The last word is read and dropped.
unfoldable pub unpack_mem3blt : ℕ → Bool → Mem3blt → Reads Mem3blt
unfolding read_order_coord uint8 uint16 cache_fields update_read_color_ref update_brush
unpack_mem3blt present delta d = do
  (cache_id, colour_table) ← cache_fields (d.cache_id, d.colour_table) present
  x ← coord_field present delta 0x02 d.x
  y ← coord_field present delta 0x04 d.y
  cx ← coord_field present delta 0x08 d.cx
  cy ← coord_field present delta 0x10 d.cy
  opcode ← byte_field present 0x20 d.opcode
  srcx ← coord_field present delta 0x40 d.srcx
  srcy ← coord_field present delta 0x80 d.srcy
  bgcolour ← colour_field present 0x100 d.bgcolour
  fgcolour ← colour_field present 0x200 d.fgcolour
  brush ← update_brush (present / 2 ^ 10) d.brush
  cache_idx ← word_field present 0x8000 d.cache_idx
  _ ← word_field present 0x10000 0
  done (record {
    colour_table = colour_table;
    cache_id = cache_id;
    x = x;
    y = y;
    cx = cx;
    cy = cy;
    opcode = opcode;
    srcx = srcx;
    srcy = srcy;
    bgcolour = bgcolour;
    fgcolour = fgcolour;
    brush = brush;
    cache_idx = cache_idx;
  })
