-- ===== src/Pdu/Orders/Glyphs.antt =====
-- protocol/pdu/orders.go: the secondary order that fills the glyph cache.
use grdp.Prelude.{ℕ, zero, suc, ◌+◌, ◌*◌, ◌/◌, ◌%◌, ◌^◌, List, [], ◌∷◌}
use grdp.Prelude.Bits.{bit_clear}
use grdp.Pdu.Reads.{Reads, ◌>>=◌, done, uint8, uint16, some_bytes}

pub record CacheGlyph : Type 0 where
  pub character : ℕ
  pub offset : ℕ
  pub baseline : ℕ
  pub width : ℕ
  pub height : ℕ
  pub datasize : ℕ
  pub bytes : List ℕ

-- `int(c.height*((c.width+7)/8)+3) & ^3`, the product and the sums in 16 bits.
unfoldable glyph_size : ℕ → ℕ → ℕ
glyph_size width height = bit_clear ((height * ((width + 7) % 2 ^ 16 / 8) + 3) % 2 ^ 16) 3

unfoldable cache_glyph : Reads CacheGlyph
unfolding uint16 some_bytes glyph_size
cache_glyph = do
  character ← uint16
  offset ← uint16
  baseline ← uint16
  width ← uint16
  height ← uint16
  bytes ← some_bytes (glyph_size width height)
  done (record {
    character = character;
    offset = offset;
    baseline = baseline;
    width = width;
    height = height;
    datasize = glyph_size width height;
    bytes = bytes;
  })

unfoldable cache_glyphs : ℕ → Reads (List CacheGlyph)
unfolding cache_glyph
cache_glyphs zero = done []
cache_glyphs (suc n) = do c ← cache_glyph; cs ← cache_glyphs n; done (c ∷ cs)

pub record CacheGlyphOrder : Type 0 where
  pub cache_id : ℕ
  pub nglyphs : ℕ
  pub glyphs : List CacheGlyph

unfoldable pub update_cache_glyph_order : Reads CacheGlyphOrder
unfolding uint8 cache_glyphs
update_cache_glyph_order = do
  cache_id ← uint8
  nglyphs ← uint8
  glyphs ← cache_glyphs nglyphs
  done (record { cache_id = cache_id; nglyphs = nglyphs; glyphs = glyphs })
