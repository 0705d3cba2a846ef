-- ===== src/Examples/Bitmaps.antt =====
-- The bitmap decoders on small inputs.
use grdp.Prelude.{◌≡◌, ◌≢◌, refl, [], ◌∷◌, none, true, false, inl, arith, ℕ}
use grdp.Rle.Pixels.{pixel8}
use grdp.Rle.State.{State, ok, stop, outside, stuck}
use grdp.Rle.Draw.{fill_or_mix, copy_run, insert_mix, fill_run}
use grdp.Rle.Planar.Total.{decompress4-ne-stuck}
use grdp.Rle.{decompress1, decompress4, decompress_into, decompress}
use grdp.Rle.Bounds.{InBounds, decompress_into-InBounds}
use grdp.Rle.Copies.{decompress1-upside_down}
use grdp.Rle.Masks.{background_loop, fill_or_mix_special}

-- A copied row, and a row filled from it, of four pixels of 8 bits.
decompress_into-InBounds_example :
    InBounds 8 (decompress_into none (0x84 ∷ 1 ∷ 2 ∷ 3 ∷ 4 ∷ 0x04 ∷ []) [] 4 2 1)
decompress_into-InBounds_example =
    decompress_into-InBounds 4 2 (omega arith) (0x84 ∷ 1 ∷ 2 ∷ 3 ∷ 4 ∷ 0x04 ∷ []) none [] 1
      (λ e. absurd (omega arith))

-- Two rows of two pixels, the lower one first in the data.
decompress1-upside_down_example :
    decompress1 (0 ∷ 0 ∷ 0 ∷ 0 ∷ []) 2 2 (0xf4 ∷ 4 ∷ 0 ∷ 1 ∷ 2 ∷ 3 ∷ 4 ∷ [])
    ≡ ok (true, 3 ∷ 4 ∷ 1 ∷ 2 ∷ [])
decompress1-upside_down_example =
    decompress1-upside_down 2 2 4 0 (0 ∷ 0 ∷ 0 ∷ 0 ∷ []) (1 ∷ 2 ∷ 3 ∷ 4 ∷ []) (omega arith) refl
      refl refl

copied_row :
    decompress none (0x84 ∷ 1 ∷ 2 ∷ 3 ∷ 4 ∷ 0x04 ∷ []) 4 2 1
    ≡ ok (true, 1 ∷ 2 ∷ 3 ∷ 4 ∷ 1 ∷ 2 ∷ 3 ∷ 4 ∷ [])
unfolding decompress copy_run insert_mix fill_run
copied_row = refl

-- FillOrMix_1, whose mask mixes the first two pixels of eight, on a bitmap of eight pixels.
unmixed_row : decompress none (0xf9 ∷ []) 8 1 1 ≡ ok (true, 0 ∷ 0 ∷ 0 ∷ 0 ∷ 0 ∷ 0 ∷ 0 ∷ 0 ∷ [])
unfolding decompress fill_or_mix
unmixed_row = refl

-- The state in which FillOrMix_1 begins to draw its row.
abbrev special : State ℕ
special = record {
  out = 9 ∷ 9 ∷ [];
  input = [];
  x = 0;
  height = 0;
  prevline = 0;
  line = 0;
  count = 8;
  opcode = 2;
  lastopcode = none;
  insertmix = false;
  bicolour = false;
  mixmask = 0;
  mask = 3;
  fom_mask = 3;
  colour1 = 0;
  colour2 = 0;
  mix = 0xff;
}

fill_or_mix_special_example : fill_or_mix pixel8 2 special ≡ background_loop pixel8 2 2 special
fill_or_mix_special_example = fill_or_mix_special pixel8 2 special (inl refl) refl

-- A segment that brings no pixel, and then the end of the input.
decompress4-ne-stuck_example : decompress4 (0 ∷ 0 ∷ 0 ∷ 0 ∷ []) 1 1 (0x30 ∷ 0 ∷ []) ≢ stop stuck
decompress4-ne-stuck_example = decompress4-ne-stuck (0 ∷ 0 ∷ 0 ∷ 0 ∷ []) 1 1 (0x30 ∷ 0 ∷ [])

-- One segment of fifteen raw bytes and fifteen more of the run, in a plane of one column.
plane_overrun :
    decompress none
      (0x30 ∷ 0xff ∷ 1 ∷ 2 ∷ 3 ∷ 4 ∷ 5 ∷ 6 ∷ 7 ∷ 8 ∷ 9 ∷ 10 ∷ 11 ∷ 12 ∷ 13 ∷ 14 ∷ 15 ∷ [])
      1
      1
      4
    ≡ stop outside
unfolding decompress
plane_overrun = refl
