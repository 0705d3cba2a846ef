-- ===== src/Io/Colour.antt =====
-- The two colour expansions as arithmetic on the fields of a pixel.
use grdp.Prelude.{ℕ, ◌*◌, ◌/◌, ◌%◌, ◌^◌, ◌<◌, ◌≡◌, refl, bit_and}
use grdp.Prelude.Bits.{agree_below, agree_below→eq}
use grdp.Io.{rgb565_to_rgb, rgb555_to_rgb}

red565 : (d : ℕ) → d < 65536 → bit_and d 0xF800 / 2 ^ 8 % 256 ≡ d / 2048 * 8
unfolding agree_below
red565 = agree_below→eq _ _ 65536 refl

green565 : (d : ℕ) → d < 65536 → bit_and d 0x07E0 / 2 ^ 3 % 256 ≡ d / 32 % 64 * 4
unfolding agree_below
green565 = agree_below→eq _ _ 65536 refl

low5 : (d : ℕ) → d < 65536 → bit_and d 0x001F * 2 ^ 3 % 256 ≡ d % 32 * 8
unfolding agree_below
low5 = agree_below→eq _ _ 65536 refl

red555 : (d : ℕ) → d < 65536 → bit_and d 0x7C00 / 2 ^ 7 % 256 ≡ d / 1024 % 32 * 8
unfolding agree_below
red555 = agree_below→eq _ _ 65536 refl

green555 : (d : ℕ) → d < 65536 → bit_and d 0x03E0 / 2 ^ 2 % 256 ≡ d / 32 % 32 * 8
unfolding agree_below
green555 = agree_below→eq _ _ 65536 refl

-- For every pixel of 16 bits, the two expansions yield the fields of the pixel, of 5, 6 and 5 bits and
-- of 5, 5 and 5 bits, each one at the top of its byte.
pub rgb_fields :
    (d : ℕ)
    → d < 65536
    → (rgb565_to_rgb d ≡ (d / 2048 * 8, d / 32 % 64 * 4, d % 32 * 8))
      × (rgb555_to_rgb d ≡ (d / 1024 % 32 * 8, d / 32 % 32 * 8, d % 32 * 8))
unfolding rgb565_to_rgb rgb555_to_rgb
rgb_fields d h =
    (rw (red565 d h, green565 d h, low5 d h) refl, rw (red555 d h, green555 d h, low5 d h) refl)
