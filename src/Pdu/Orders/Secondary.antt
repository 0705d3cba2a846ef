-- ===== src/Pdu/Orders/Secondary.antt =====
-- protocol/pdu/orders.go: the secondary orders, which fill the caches. Go keeps each in a local
-- variable `cb`; here it is the result. A panic of Go is `none`.
use grdp.Prelude.{
  ℕ, ◌+◌, ◌-◌, ◌/◌, ◌%◌, ◌^◌, List, [], Bool, bit_and, ◌==◌, if◌then◌else◌, not, ◌&&◌,
}
use grdp.Pdu.Reads.{Reads, ◌>>=◌, done, when, uint8, uint16, uint32, some_bytes, has}

-- A constant of caps.go.
abbrev pub no_bitmap_compression_hdr : ℕ
no_bitmap_compression_hdr = 0x0400

pub record CacheBitmapOrder : Type 0 where
  pub cache_id : ℕ
  pub bitmap_bpp : ℕ
  pub bitmap_width : ℕ
  pub bitmap_height : ℕ
  pub bitmap_length : ℕ
  pub cache_index : ℕ
  pub bitmap_compr_hdr : List ℕ
  pub bitmap_data_stream : List ℕ

-- The eight bytes of the header are part of the length.
unfoldable pub compression_header : Bool → ℕ → Reads (List ℕ × ℕ)
unfolding some_bytes
compression_header present bitmap_length =
    when present ([], bitmap_length)
      (some_bytes 8 >>= (λ hdr. done (hdr, (bitmap_length + (2 ^ 16 - 8)) % 2 ^ 16)))

unfoldable pub update_cache_bitmap_order : Bool → ℕ → Reads CacheBitmapOrder
unfolding uint8 uint16 some_bytes compression_header
update_cache_bitmap_order compressed flags = do
  cache_id ← uint8
  _ ← uint8
  width ← uint8
  height ← uint8
  bpp ← uint8
  announced ← uint16
  cache_index ← uint16
  (hdr, left) ←
      compression_header (compressed && not (has flags no_bitmap_compression_hdr)) announced
  stream ← some_bytes left
  done (record {
    cache_id = cache_id;
    bitmap_bpp = bpp;
    bitmap_width = width;
    bitmap_height = height;
    bitmap_length = left;
    cache_index = cache_index;
    bitmap_compr_hdr = hdr;
    bitmap_data_stream = stream;
  })

unfoldable get_cb_v2_bpp : ℕ → ℕ
get_cb_v2_bpp bpp =
    if bpp == 3
    then 8
    else if bpp == 4
    then 16
    else if bpp == 5
    then 24
    else if bpp == 6
    then 32
    else 0

abbrev cbr2_height_same_as_width : ℕ
cbr2_height_same_as_width = 0x01

abbrev cbr2_persistent_key_present : ℕ
cbr2_persistent_key_present = 0x02

abbrev cbr2_no_bitmap_compression_hdr : ℕ
cbr2_no_bitmap_compression_hdr = 0x08

abbrev cbr2_do_not_cache : ℕ
cbr2_do_not_cache = 0x10

pub record CacheBitmapV2Order : Type 0 where
  pub cache_id : ℕ
  pub flags : ℕ
  pub key1 : ℕ
  pub key2 : ℕ
  pub bitmap_bpp : ℕ
  pub bitmap_width : ℕ
  pub bitmap_height : ℕ
  pub bitmap_length : ℕ
  pub cache_index : ℕ
  pub compressed : Bool
  pub cb_comp_first_row_size : ℕ
  pub cb_comp_main_body_size : ℕ
  pub cb_scan_width : ℕ
  pub cb_uncompressed_size : ℕ
  pub bitmap_data_stream : List ℕ

unfoldable persistent_key : Bool → Reads (ℕ × ℕ)
unfolding uint32
persistent_key present =
    when present (0, 0) (uint32 >>= (λ key1. uint32 >>= (λ key2. done (key1, key2))))

unfoldable bitmap_size : ℕ → Reads (ℕ × ℕ)
unfolding uint8
bitmap_size flags = do
  width ← uint8
  height ← when (not (has flags cbr2_height_same_as_width)) width uint8
  done (width, height)

-- The sizes of the first row and of the body, the scan width and the uncompressed size.
unfoldable v2_header : Bool → Reads (ℕ × ℕ × ℕ × ℕ)
unfolding uint16
v2_header present =
    when present (0, 0, 0, 0)
      (do
        first_row ← uint16
        main_body ← uint16
        scan_width ← uint16
        uncompressed ← uint16
        done (first_row, main_body, scan_width, uncompressed))

unfoldable pub update_cache_bitmap_v2_order : Bool → ℕ → Reads CacheBitmapV2Order
unfolding uint8 uint16 some_bytes get_cb_v2_bpp persistent_key bitmap_size v2_header
update_cache_bitmap_v2_order compressed word =
    let flags = bit_and word 0xFF80 / 2 ^ 7 in
    let with_header = compressed && not (has flags cbr2_no_bitmap_compression_hdr) in
    do
      (key1, key2) ← persistent_key (has flags cbr2_persistent_key_present)
      (width, height) ← bitmap_size flags
      announced ← uint16
      cache_index ← uint8
      (first_row, main_body, scan_width, uncompressed) ← v2_header with_header
      stream ← some_bytes (if with_header then main_body else announced)
      done (record {
        cache_id = bit_and word 0x0003;
        flags = flags;
        key1 = key1;
        key2 = key2;
        bitmap_bpp = get_cb_v2_bpp (bit_and word 0x0078 / 2 ^ 3);
        bitmap_width = width;
        bitmap_height = height;
        bitmap_length = if with_header then main_body else announced;
        cache_index = if has flags cbr2_do_not_cache then 0x7FFF else cache_index;
        compressed = compressed;
        cb_comp_first_row_size = first_row;
        cb_comp_main_body_size = main_body;
        cb_scan_width = scan_width;
        cb_uncompressed_size = uncompressed;
        bitmap_data_stream = stream;
      })

pub record BitmapDataEx : Type 0 where
  pub bpp : ℕ
  pub codec_id : ℕ
  pub width : ℕ
  pub height : ℕ
  pub length : ℕ
  pub bytes : List ℕ

pub record CacheBitmapV3Order : Type 0 where
  pub cache_id : ℕ
  pub bpp : ℕ
  pub flags : ℕ
  pub cache_index : ℕ
  pub key1 : ℕ
  pub key2 : ℕ
  pub bitmap_data : BitmapDataEx

unfoldable bitmap_data_ex : Reads BitmapDataEx
unfolding uint8 uint16 uint32 some_bytes
bitmap_data_ex = do
  bpp ← uint8
  _ ← uint8
  _ ← uint8
  codec_id ← uint8
  width ← uint16
  height ← uint16
  new_len ← uint32
  bytes ← some_bytes new_len
  done (record {
    bpp = bpp;
    codec_id = codec_id;
    width = width;
    height = height;
    length = new_len;
    bytes = bytes;
  })

unfoldable pub update_cache_bitmap_v3_order : ℕ → Reads CacheBitmapV3Order
unfolding uint16 uint32 get_cb_v2_bpp bitmap_data_ex
update_cache_bitmap_v3_order word = do
  cache_index ← uint16
  key1 ← uint32
  key2 ← uint32
  bitmap ← bitmap_data_ex
  done (record {
    cache_id = bit_and word 0x0003;
    bpp = get_cb_v2_bpp (bit_and word 0x0078 / 2 ^ 3);
    flags = bit_and word 0xFF80 / 2 ^ 7;
    cache_index = cache_index;
    key1 = key1;
    key2 = key2;
    bitmap_data = bitmap;
  })
