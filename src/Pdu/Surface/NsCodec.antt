-- ===== src/Pdu/Surface/NsCodec.antt =====
-- protocol/pdu/data.go: decodeNSCodec. The buffers that the pool hands out, by their number in the
-- call and their size, are a parameter, for they hold what an earlier call left there.
use grdp.Prelude.{
  ℕ, zero, suc, ◌+◌, ◌-◌, ◌*◌, ◌/◌, ◌%◌, ◌^◌, List, [], ◌++◌, Bool, true, false, ltb, leb, ◌==◌,
  if◌then◌else◌, Option, none, some, length, get_or, take, drop,
}
use grdp.Prelude.Bits.{bit_clear}
use grdp.Pdu.Reads.{uint8, uint32}
use grdp.Pdu.Surface.Nrle.{nsc_decompress_plane_into}
use grdp.Pdu.Surface.Colors.{chroma, bgra, yco_cg_to_bgra_no_sub}

-- What a decoder returns: pixels, nil, or a panic.
pub data Decoded : Type 0 where
  pixels : List ℕ → Decoded
  nothing crash : Decoded

pub record Header : Type 0 where
  pub luma_len : ℕ
  pub orange_len : ℕ
  pub green_len : ℕ
  pub alpha_len : ℕ
  pub color_loss_level : ℕ
  pub chroma_subsampling_level : ℕ

unfoldable pub read_header : List ℕ → Header
unfolding uint8 uint32
read_header r =
    let (luma, r1) = uint32 r in
    let (orange, r2) = uint32 r1 in
    let (green, r3) = uint32 r2 in
    let (alpha, r4) = uint32 r3 in
    let (loss, r5) = uint8 r4 in
    let (sub, r6) = uint8 r5 in
    record {
      luma_len = luma;
      orange_len = orange;
      green_len = green;
      alpha_len = alpha;
      color_loss_level = if ltb loss 1 then 1 else loss;
      chroma_subsampling_level = sub;
    }

-- The sum is taken in 32 bits.
unfoldable total_plane_len : Header → ℕ
total_plane_len h = (h.luma_len + h.orange_len + h.green_len + h.alpha_len) % 2 ^ 32

abbrev temp_width : ℕ → ℕ
temp_width width = bit_clear (width + 7) 7

abbrev temp_height : ℕ → ℕ
temp_height height = bit_clear (height + 1) 1

unfoldable luma_size : Bool → ℕ → ℕ → ℕ
luma_size sub width height = if sub then temp_width width * height else width * height

unfoldable chroma_size : Bool → ℕ → ℕ → ℕ
chroma_size sub width height =
    if sub then temp_width width / 2 * (temp_height height / 2) else width * height

pub record Planes : Type 0 where
  pub y : List ℕ
  pub co : List ℕ
  pub cg : List ℕ
  pub alpha : Option (List ℕ)

-- `remaining[:n]` into a plane, and `remaining[n:]`; `none` where they are out of range.
unfoldable next_plane : List ℕ → ℕ → List ℕ → Option (List ℕ × List ℕ)
unfolding nsc_decompress_plane_into
next_plane remaining n buffer =
    let plane = nsc_decompress_plane_into (take n remaining) n buffer in
    if leb n (length remaining)
    then elim plane [ none ↦ none | some p ↦ some (p, drop n remaining) ]
    else none

unfoldable alpha_plane : List ℕ → ℕ → List ℕ → Option (Option (List ℕ))
unfolding next_plane
alpha_plane remaining n buffer =
    if n == 0
    then some none
    else elim (next_plane remaining n buffer) [ none ↦ none | some (p, _) ↦ some (some p) ]

-- The alpha of a pixel.
abbrev alpha_at : Option (List ℕ) → ℕ → ℕ
alpha_at none i = 0xFF
alpha_at (some plane) i = get_or plane i 0xFF

module _ (p : Planes) (shift : ℕ) where
  -- One pixel, from its index in each plane; a plane that is too short counts as zero.
  unfoldable pixel_at : ℕ → ℕ → ℕ → List ℕ
  unfolding chroma bgra
  pixel_at y_idx c_idx out_idx =
      bgra (get_or p.y y_idx 0) (chroma shift (get_or p.co c_idx 0))
        (chroma shift (get_or p.cg c_idx 0)) (alpha_at p.alpha out_idx)

  -- The rest of a row with one chroma sample for two pixels.
  unfoldable sub_row : ℕ → ℕ → ℕ → ℕ → List ℕ
  unfolding pixel_at
  sub_row zero y_idx c_idx out_idx = []
  sub_row (suc zero) y_idx c_idx out_idx = pixel_at y_idx c_idx out_idx
  sub_row (suc (suc left)) y_idx c_idx out_idx =
      pixel_at y_idx c_idx out_idx
      ++ pixel_at (y_idx + 1) c_idx (out_idx + 1)
      ++ sub_row left (y_idx + 2) (c_idx + 1) (out_idx + 2)

  unfoldable full_row : ℕ → ℕ → ℕ → ℕ → List ℕ
  unfolding pixel_at
  full_row zero y_idx c_idx out_idx = []
  full_row (suc left) y_idx c_idx out_idx =
      pixel_at y_idx c_idx out_idx ++ full_row left (y_idx + 1) (c_idx + 1) (out_idx + 1)

  -- The rows from py on, with as many as are left.
  unfoldable sub_rows : ℕ → ℕ → ℕ → List ℕ
  unfolding sub_row
  sub_rows width zero py = []
  sub_rows width (suc left) py =
      sub_row width (py * temp_width width) (py / 2 * (temp_width width / 2)) (py * width)
      ++ sub_rows width left (py + 1)

  unfoldable full_rows : ℕ → ℕ → ℕ → List ℕ
  unfolding full_row
  full_rows width zero py = []
  full_rows width (suc left) py =
      full_row width (py * width) (py * width) (py * width) ++ full_rows width left (py + 1)

-- From planes to pixels.
unfoldable convert : Bool → ℕ → ℕ → ℕ → Planes → List ℕ
unfolding yco_cg_to_bgra_no_sub sub_rows full_rows
convert true width height shift p = sub_rows p shift width height 0
convert false width height shift p = elim p.alpha [
  | none ↦ yco_cg_to_bgra_no_sub (width * height) 0 p.y p.co p.cg shift
  | some _ ↦ full_rows p shift width height 0
]

module _ (pool : ℕ → ℕ → List ℕ) where
  unfoldable read_planes : Header → Bool → ℕ → ℕ → List ℕ → Option Planes
  unfolding next_plane alpha_plane luma_size chroma_size
  read_planes h sub width height remaining =
      elim (next_plane remaining h.luma_len (pool 0 (luma_size sub width height))) [
        | none ↦ none
        | some (y, r1) ↦ elim (next_plane r1 h.orange_len (pool 1 (chroma_size sub width height))) [
          | none ↦ none
          | some (co, r2) ↦
              elim (next_plane r2 h.green_len (pool 2 (chroma_size sub width height))) [
                | none ↦ none
                | some (cg, r3) ↦ elim (alpha_plane r3 h.alpha_len (pool 3 (width * height))) [
                  | none ↦ none
                  | some alpha ↦ some (record { y = y; co = co; cg = cg; alpha = alpha })
                ]
              ]
        ]
      ]

  unfoldable pub decode_ns_codec : List ℕ → ℕ → ℕ → Decoded
  unfolding read_header total_plane_len read_planes convert
  decode_ns_codec bytes width height =
      let h = read_header bytes in
      let sub = ltb 0 h.chroma_subsampling_level in
      if ltb (length bytes) 20
      then nothing
      else if ltb (length bytes - 20) (total_plane_len h)
      then nothing
      else elim (read_planes h sub width height (drop 20 bytes)) [
        | none ↦ crash
        | some p ↦ pixels (convert sub width height (h.color_loss_level - 1) p)
      ]
