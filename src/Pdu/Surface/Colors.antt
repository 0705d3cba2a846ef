-- ===== src/Pdu/Surface/Colors.antt =====
-- protocol/pdu/data.go and ycbcr_generic.go: from luma and chroma to pixels. An `int16` is its
-- two's complement word.
use grdp.Prelude.{
  ℕ, zero, suc, ◌+◌, ◌-◌, ◌*◌, ◌%◌, ◌^◌, List, [], ◌∷◌, ◌++◌, ltb, leb, if◌then◌else◌, get_or,
}

unfoldable clamp_byte : ℕ → ℕ
clamp_byte v = if leb 32768 v then 0 else if ltb 255 v then 255 else v

-- `int16(int8(byte(int16(c) << shift)))`
unfoldable pub chroma : ℕ → ℕ → ℕ
chroma shift c =
    let b = c * 2 ^ shift % 2 ^ 16 % 2 ^ 8 in if ltb b 128 then b else b + (2 ^ 16 - 256)

-- Blue, green, red and alpha of a pixel.
unfoldable pub bgra : ℕ → ℕ → ℕ → ℕ → List ℕ
unfolding clamp_byte
bgra y co cg alpha =
    clamp_byte ((y + (2 ^ 16 - co) + (2 ^ 16 - cg)) % 2 ^ 16)
    ∷ clamp_byte ((y + cg) % 2 ^ 16)
    ∷ clamp_byte ((y + co + (2 ^ 16 - cg)) % 2 ^ 16)
    ∷ alpha
    ∷ []

-- `ycoCgToBGRANoSub`, from pixel i on; the planes have a byte for every pixel.
unfoldable pub yco_cg_to_bgra_no_sub : ℕ → ℕ → List ℕ → List ℕ → List ℕ → ℕ → List ℕ
unfolding chroma bgra
yco_cg_to_bgra_no_sub zero i y_plane co_plane cg_plane shift = []
yco_cg_to_bgra_no_sub (suc left) i y_plane co_plane cg_plane shift =
    bgra (get_or y_plane i 0) (chroma shift (get_or co_plane i 0))
      (chroma shift (get_or cg_plane i 0)) 0xFF
    ++ yco_cg_to_bgra_no_sub left (i + 1) y_plane co_plane cg_plane shift
