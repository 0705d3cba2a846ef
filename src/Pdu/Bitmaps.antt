-- ===== src/Pdu/Bitmaps.antt =====
-- protocol/pdu/data.go: the bitmap updates of the slow and of the fast path.
use grdp.Prelude.{ℕ, zero, suc, List, [], ◌∷◌, Bool, Option, none, some, not, ◌&&◌}
use grdp.Io.{Error, read_bytes, read_uint16_le, Read}
use grdp.Pdu.Reads.{Reads, ◌>>=◌, done, when, uint16, has}

abbrev bitmap_compression : ℕ
bitmap_compression = 0x0001

abbrev pub no_bitmap_compression_hdr : ℕ
no_bitmap_compression_hdr = 0x0400

pub record BitmapCompressedDataHeader : Type 0 where
  pub cb_comp_first_row_size : ℕ
  pub cb_comp_main_body_size : ℕ
  pub cb_scan_width : ℕ
  pub cb_uncompressed_size : ℕ

pub record BitmapData : Type 0 where
  pub dest_left : ℕ
  pub dest_top : ℕ
  pub dest_right : ℕ
  pub dest_bottom : ℕ
  pub width : ℕ
  pub height : ℕ
  pub bits_per_pixel : ℕ
  pub flags : ℕ
  pub bitmap_length : ℕ
  pub bitmap_compr_hdr : Option BitmapCompressedDataHeader
  pub bitmap_data_stream : List ℕ

unfoldable is_compress : BitmapData → Bool
is_compress b = has b.flags bitmap_compression

unfoldable pub compression_header : Reads BitmapCompressedDataHeader
unfolding uint16
compression_header = do
  first_row ← uint16
  main_body ← uint16
  scan_width ← uint16
  uncompressed ← uint16
  done (record {
    cb_comp_first_row_size = first_row;
    cb_comp_main_body_size = main_body;
    cb_scan_width = scan_width;
    cb_uncompressed_size = uncompressed;
  })

-- The header of a compressed bitmap, unless the flags say that it is left out.
unfoldable pub header_of : ℕ → Reads (Option BitmapCompressedDataHeader)
unfolding compression_header
header_of flags =
    when (has flags bitmap_compression && not (has flags no_bitmap_compression_hdr)) none
      (compression_header >>= (λ h. done (some h)))

-- How long the data are: what the header says of its body, else the length.
abbrev stream_length : Option BitmapCompressedDataHeader → ℕ → ℕ
stream_length none bitmap_length = bitmap_length
stream_length (some h) bitmap_length = h.cb_comp_main_body_size

-- One rectangle: the nine words, the header, and the data with the error of their read.
unfoldable read_rectangle : List ℕ → Read BitmapData
unfolding uint16 header_of
read_rectangle r =
    let (left, r1) = uint16 r in
    let (top, r2) = uint16 r1 in
    let (right, r3) = uint16 r2 in
    let (bottom, r4) = uint16 r3 in
    let (width, r5) = uint16 r4 in
    let (height, r6) = uint16 r5 in
    let (bpp, r7) = uint16 r6 in
    let (flags, r8) = uint16 r7 in
    let (length, r9) = uint16 r8 in
    let (hdr, r10) = header_of flags r9 in
    let (stream, e, r11) = read_bytes (stream_length hdr length) r10 in
    (
      record {
        dest_left = left;
        dest_top = top;
        dest_right = right;
        dest_bottom = bottom;
        width = width;
        height = height;
        bits_per_pixel = bpp;
        flags = flags;
        bitmap_length = length;
        bitmap_compr_hdr = hdr;
        bitmap_data_stream = stream;
      },
      e,
      r11,
    )

-- Every rectangle is kept; the error is that of the last read.
unfoldable read_rectangles : ℕ → Option Error → List ℕ → Read (List BitmapData)
unfolding read_rectangle
read_rectangles zero e r = ([], e, r)
read_rectangles (suc n) e r =
    let (rect, e', r1) = read_rectangle r in
    let (rects, e'', r2) = read_rectangles n e' r1 in (rect ∷ rects, e'', r2)

-- `BitmapUpdateDataPDU.Unpack`.
unfoldable unpack_bitmap_update : List ℕ → Read (List BitmapData)
unfolding read_rectangles
unpack_bitmap_update r = let (n, e, r1) = read_uint16_le r in read_rectangles n e r1

-- `FastPathBitmapUpdateDataPDU.Unpack`, with a header word before the number.
unfoldable pub unpack_fast_path_bitmap : List ℕ → Read (List BitmapData)
unfolding uint16 read_rectangles
unpack_fast_path_bitmap r =
    let (header, r1) = uint16 r in let (n, e, r2) = read_uint16_le r1 in read_rectangles n e r2
