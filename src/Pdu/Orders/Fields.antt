-- ===== src/Pdu/Orders/Fields.antt =====
-- protocol/pdu/orders.go: the fields that drawing orders are made of.
use grdp.Prelude.{
  ℕ, ◌+◌, ◌-◌, ◌*◌, ◌%◌, ◌^◌, List, ◌∷◌, Bool, true, false, bit_and, bit_or, if◌then◌else◌,
}
use grdp.Pdu.Reads.{Reads, ◌>>=◌, done, when, uint8, uint16, some_bytes, has, sign8, sign16}

-- The new value of the coordinate.
unfoldable pub read_order_coord : Bool → ℕ → Reads ℕ
unfolding uint8 uint16 sign8 sign16
read_order_coord true coord = uint8 >>= (λ change. done ((coord + sign8 change) % 2 ^ 32))
read_order_coord false coord = uint16 >>= (λ change. done (sign16 change))

-- `if present&mask != 0 { readOrderCoord(r, &coord, delta) }`
abbrev pub coord_field : ℕ → Bool → ℕ → ℕ → Reads ℕ
coord_field present delta mask coord = when (has present mask) coord (read_order_coord delta coord)

-- `if present&mask != 0 { field, _ = core.ReadUInt8(r) }`
abbrev pub byte_field : ℕ → ℕ → ℕ → Reads ℕ
byte_field present mask field = when (has present mask) field uint8

-- `if present&mask != 0 { field, _ = core.ReadUint16LE(r) }`
abbrev pub word_field : ℕ → ℕ → ℕ → Reads ℕ
word_field present mask field = when (has present mask) field uint16

pub record Bounds : Type 0 where
  pub left : ℕ
  pub top : ℕ
  pub right : ℕ
  pub bottom : ℕ

-- One side: an absolute coordinate if the first bit is set, else a change if the second is.
unfoldable side : ℕ → ℕ → ℕ → ℕ → Reads ℕ
unfolding read_order_coord
side present absolute relative coord =
    if has present absolute
    then read_order_coord false coord
    else when (has present relative) coord (read_order_coord true coord)

unfoldable pub update_bounds : Bounds → Reads Bounds
unfolding uint8 side
update_bounds b = do
  present ← uint8
  left ← side present 1 16 b.left
  top ← side present 2 32 b.top
  right ← side present 4 64 b.right
  bottom ← side present 8 128 b.bottom
  done (record { left = left; top = top; right = right; bottom = bottom })

-- The four bytes of a `[4]uint8` colour.
abbrev pub Colour : Type 0
Colour = ℕ × ℕ × ℕ × ℕ

abbrev pub no_colour : Colour
no_colour = (0, 0, 0, 0)

unfoldable pub update_read_color_ref : Reads Colour
unfolding uint8
update_read_color_ref = do
  blue ← uint8
  green ← uint8
  red ← uint8
  _ ← uint8
  done (blue, green, red, 255)

abbrev pub colour_field : ℕ → ℕ → Colour → Reads Colour
colour_field present mask colour = when (has present mask) colour update_read_color_ref

pub record Brush : Type 0 where
  pub x : ℕ
  pub y : ℕ
  pub style : ℕ
  pub hatch : ℕ
  pub bytes : List ℕ

-- Seven more bytes after the hatch.
unfoldable brush_data : ℕ → Reads (List ℕ)
unfolding some_bytes
brush_data hatch = some_bytes 7 >>= (λ bytes. done (hatch ∷ bytes))

unfoldable pub update_brush : ℕ → Brush → Reads Brush
unfolding uint8 brush_data
update_brush present b = do
  x ← byte_field present 1 b.x
  y ← byte_field present 2 b.y
  style ← byte_field present 4 b.style
  hatch ← byte_field present 8 b.hatch
  bytes ← when (has present 16) b.bytes (brush_data hatch)
  done (record { x = x; y = y; style = style; hatch = hatch; bytes = bytes })

pub record Pen : Type 0 where
  pub style : ℕ
  pub width : ℕ
  pub colour : Colour

unfoldable pub update_pen : ℕ → Pen → Reads Pen
unfolding uint8 update_read_color_ref
update_pen present p = do
  style ← byte_field present 1 p.style
  width ← byte_field present 2 p.width
  colour ← colour_field present 4 p.colour
  done (record { style = style; width = width; colour = colour })

-- `int32(b) | (^0x3F)` keeps the low six bits below an all-ones word.
unfoldable pub delta_start : ℕ → ℕ
delta_start b = if has b 0x40 then bit_or b (2 ^ 32 - 64) else bit_and b 0x3F

unfoldable pub parse_delta : Reads ℕ
unfolding uint8 delta_start
parse_delta = do
  b ← uint8
  when (has b 0x80) (delta_start b)
      (uint8 >>= (λ low. done (bit_or (delta_start b * 2 ^ 8 % 2 ^ 32) low)))
