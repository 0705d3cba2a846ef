-- ===== src/Pdu/Surface/Commands.antt =====
-- protocol/pdu/data.go: the surface commands of an update, and the bitmap of one of them.
-- The hook `DecodeRemoteFX`, which may be nil, and the pool of buffers are parameters.
use grdp.Prelude.{
  ℕ, zero, suc, ◌+◌, ◌-◌, ◌*◌, ◌/◌, ◌%◌, ◌^◌, List, [], ◌∷◌, Bool, true, false, leb, ◌==◌,
  if◌then◌else◌, Option, none, some, length, take, drop, ◌||◌,
}
use grdp.Io.{read_uint16_le, read_bytes}
use grdp.Pdu.Reads.{uint8, uint16, uint32, some_bytes, has}
use grdp.Pdu.Bitmaps.{BitmapData}
use grdp.Pdu.Surface.Nrle.{splice}
use grdp.Pdu.Surface.NsCodec.{pixels, nothing, crash, decode_ns_codec}

-- The two rows change places; `none` where an index is out of range.
unfoldable swap_rows : ℕ → ℕ → ℕ → List ℕ → Option (List ℕ)
swap_rows stride top bot p =
    if leb (bot + stride) (length p)
    then some (splice (splice p top (take stride (drop bot p))) bot (take stride (drop top p)))
    else none

-- The loop from row y on, with as many rounds as are left.
unfoldable flip_loop : ℕ → ℕ → ℕ → ℕ → List ℕ → Option (List ℕ)
unfolding swap_rows
flip_loop zero y h stride p = some p
flip_loop (suc left) y h stride p = elim (swap_rows stride (y * stride) ((h - 1 - y) * stride) p) [
  | none ↦ none
  | some p' ↦ flip_loop left (y + 1) h stride p'
]

unfoldable flip : ℕ → ℕ → List ℕ → Option (List ℕ)
unfolding flip_loop
flip h stride p = flip_loop (h / 2) 0 h stride p

-- The bytes of a command, without its type.
pub record SurfaceBits : Type 0 where
  pub dest_left : ℕ
  pub dest_top : ℕ
  pub dest_right : ℕ
  pub dest_bottom : ℕ
  pub bpp : ℕ
  pub codec_id : ℕ
  pub width : ℕ
  pub height : ℕ
  pub bitmap : List ℕ

-- `none` for an error: no bytes at all, or fewer than announced. The length includes the 24 bytes of
-- the extended header, which is taken off in 32 bits.
unfoldable read_surface_bits : List ℕ → Option (SurfaceBits × List ℕ)
unfolding uint8 uint16 uint32 some_bytes
read_surface_bits r =
    let (left, e, r1) = read_uint16_le r in
    let (top, r2) = uint16 r1 in
    let (right, r3) = uint16 r2 in
    let (bottom, r4) = uint16 r3 in
    let (bpp, r5) = uint8 r4 in
    let (flags, r6) = uint8 r5 in
    let (_, r7) = uint8 r6 in
    let (codec, r8) = uint8 r7 in
    let (width, r9) = uint16 r8 in
    let (height, r10) = uint16 r9 in
    let (announced, r11) = uint32 r10 in
    let extended = has flags 0x01 in
    let len = if extended then (announced + (2 ^ 32 - 24)) % 2 ^ 32 else announced in
    let r12 = if extended then (some_bytes 24 r11).1 else r11 in
    let (bitmap, e', r13) = read_bytes len r12 in
    let bits : SurfaceBits = record {
      dest_left = left;
      dest_top = top;
      dest_right = right;
      dest_bottom = bottom;
      bpp = bpp;
      codec_id = codec;
      width = width;
      height = height;
      bitmap = bitmap;
    } in
    elim e [ some _ ↦ none | none ↦ elim e' [ some _ ↦ none | none ↦ some (bits, r13) ] ]

-- What the handler of one command returns.
pub data Command : Type 0 where
  rect : BitmapData → Command
  no_rect crashed : Command

abbrev bitmap_no_processing : ℕ
bitmap_no_processing = 0x8000

abbrev bitmap_of : SurfaceBits → ℕ → List ℕ → Command
bitmap_of s out_bpp p = rect (record {
  dest_left = s.dest_left;
  dest_top = s.dest_top;
  dest_right = s.dest_right;
  dest_bottom = s.dest_bottom;
  width = s.width;
  height = s.height;
  bits_per_pixel = out_bpp;
  flags = bitmap_no_processing;
  bitmap_length = 0;
  bitmap_compr_hdr = none;
  bitmap_data_stream = p;
})

unfoldable flipped : SurfaceBits → ℕ → List ℕ → Command
unfolding flip
flipped s out_bpp p = elim (flip s.height (s.width * out_bpp / 8) p) [
  | none ↦ crashed
  | some p' ↦ bitmap_of s out_bpp p'
]

module _ (decode_remote_fx : Option (List ℕ → ℕ → ℕ → Option (List ℕ)))
    (pool : ℕ → ℕ → List ℕ) where
  -- RemoteFX, whose pixels are top-down already.
  unfoldable remote_fx : SurfaceBits → Command
  remote_fx s = elim decode_remote_fx [
    | none ↦ no_rect
    | some decode ↦ elim (decode s.bitmap s.width s.height) [
      | none ↦ no_rect
      | some p ↦ bitmap_of s 32 p
    ]
  ]

  unfoldable ns_codec : SurfaceBits → Command
  unfolding decode_ns_codec flipped
  ns_codec s = elim (decode_ns_codec pool s.bitmap s.width s.height) [
    | nothing ↦ no_rect
    | crash ↦ crashed
    | pixels p ↦ flipped s 32 p
  ]

  unfoldable decode_bits : SurfaceBits → Command
  unfolding flipped ns_codec remote_fx
  decode_bits s =
      if s.codec_id == 0
      then flipped s s.bpp s.bitmap
      else if s.codec_id == 1
      then ns_codec s
      else if s.codec_id == 3
      then remote_fx s
      else no_rect

  -- The rectangles and the frame identifiers to acknowledge, or `none` for a panic.
  abbrev pub SurfaceCommandsResult : Type 0
  SurfaceCommandsResult = Option (List BitmapData × List ℕ)

  abbrev add_rect : Command → SurfaceCommandsResult → SurfaceCommandsResult
  add_rect crashed result = none
  add_rect no_rect result = result
  add_rect (rect b) none = none
  add_rect (rect b) (some (rects, ids)) = some (b ∷ rects, ids)

  abbrev add_id : Bool → ℕ → SurfaceCommandsResult → SurfaceCommandsResult
  add_id false id result = result
  add_id true id none = none
  add_id true id (some (rects, ids)) = some (rects, id ∷ ids)

  -- The loop over the commands, with fuel for one command a byte.
  unfoldable pub commands : ℕ → List ℕ → SurfaceCommandsResult
  unfolding read_surface_bits decode_bits uint16 uint32
  commands zero r = some ([], [])
  commands (suc fuel) [] = some ([], [])
  commands (suc fuel) (b ∷ bs) =
      let (cmd, e, r1) = read_uint16_le (b ∷ bs) in
      let (action, r2) = uint16 r1 in
      let (id, r3) = uint32 r2 in
      let marked = add_id (action == 1) id (commands fuel r3) in
      let drawn : SurfaceCommandsResult = elim (read_surface_bits r1) [
        | none ↦ some ([], [])
        | some (s, rest) ↦ add_rect (decode_bits s) (commands fuel rest)
      ] in
      elim e [
        | some _ ↦ some ([], [])
        | none ↦
            if (cmd == 0x0001) || (cmd == 0x0006)
            then drawn
            else if cmd == 0x0004
            then marked
            else some ([], [])
      ]

  unfoldable pub parse_surface_commands : List ℕ → SurfaceCommandsResult
  unfolding commands
  parse_surface_commands bytes = commands (length bytes) bytes
