-- ===== src/Pdu/Orders/Polygon.antt =====
-- protocol/pdu/orders.go: the solid polygon order, with its list of encoded deltas.
use grdp.Prelude.{ℕ, zero, suc, ◌+◌, ◌-◌, ◌*◌, ◌%◌, List, [], ◌∷◌, ◌++◌, Bool, ◌==◌}
use grdp.Pdu.Reads.{Reads, ◌>>=◌, done, when, uint8, some_bytes, has}
use grdp.Pdu.Orders.Fields.{
  coord_field, byte_field, Colour, colour_field, parse_delta, read_order_coord,
  update_read_color_ref,
}

pub record Point : Type 0 where
  pub x : ℕ
  pub y : ℕ

pub record PolygonSc : Type 0 where
  pub x : ℕ
  pub y : ℕ
  pub opcode : ℕ
  pub fillmode : ℕ
  pub fgcolour : Colour
  pub npoints : ℕ
  pub points : List Point

-- One round of the loop: the point `p`, and the flags shifted for the next round. A clear bit means
-- that the coordinate is there.
unfoldable polygon_point : ℕ → ℕ → Reads (Point × ℕ)
unfolding uint8 parse_delta
polygon_point i old = do
  flags ← when ((i - 1) % 4 == 0) old uint8
  x ← when (has (255 - flags) 0x80) 0 parse_delta
  y ← when (has (255 - flags) 0x40) 0 parse_delta
  done (record { x = x; y = y }, flags * 4 % 256)

-- The loop from round i, with as many rounds as are left: the points it reads.
unfoldable polygon_points : ℕ → ℕ → ℕ → Reads (List Point)
unfolding polygon_point
polygon_points zero i flags = done []
polygon_points (suc left) i flags = do
  (p, flags') ← polygon_point i flags
  ps ← polygon_points left (i + 1) flags'
  done (p ∷ ps)

-- The loop runs over the block of `size` bytes. Its points are not appended.
unfoldable polygon_list : ℕ → List Point → Point → Reads (List Point)
unfolding uint8 some_bytes polygon_points
polygon_list npoints points first = do
  size ← uint8
  bytes ← some_bytes size
  let (_, _) = polygon_points npoints 1 0 bytes in done (points ++ (first ∷ []))

-- The number of points, and the slice made for them.
unfoldable polygon_count : ℕ → PolygonSc → Reads (ℕ × List Point)
unfolding uint8
polygon_count present d =
    when (has present 0x20) (d.npoints, d.points) (uint8 >>= (λ n. done (n, [])))

unfoldable pub unpack_polygon_sc : ℕ → Bool → PolygonSc → Reads PolygonSc
unfolding read_order_coord uint8 update_read_color_ref polygon_count polygon_list
unpack_polygon_sc present delta d = do
  x ← coord_field present delta 0x01 d.x
  y ← coord_field present delta 0x02 d.y
  opcode ← byte_field present 0x04 d.opcode
  fillmode ← byte_field present 0x08 d.fillmode
  fgcolour ← colour_field present 0x10 d.fgcolour
  (npoints, made) ← polygon_count present d
  points ← when (has present 0x40) made (polygon_list npoints made (record { x = x; y = y }))
  done (record {
    x = x;
    y = y;
    opcode = opcode;
    fillmode = fillmode;
    fgcolour = fgcolour;
    npoints = npoints;
    points = points;
  })
