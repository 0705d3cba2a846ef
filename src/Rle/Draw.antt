-- ===== src/Rle/Draw.antt =====
-- core/rle.go: the pixels of an order, in `decompress1`, `decompress2` and `decompress3`.
-- A loop over the pixels of a row is a function by recursion on the pixels that are left of the row.
use grdp.Prelude.{
  ℕ, zero, suc, ◌+◌, ◌-◌, ◌*◌, ◌%◌, ◌^◌, min, List, [], ◌∷◌, Option, none, some, true, false,
  bit_and, ◌==◌, ◌&&◌, if◌then◌else◌, length, replicate, map, get_elem?,
}
use grdp.Rle.Pixels.{Pixel, cval}
use grdp.Rle.State.{
  State, Result, ok, stop, refused, outside, ◌>>=◌, or_exhausted, or_outside, slice, put,
}

module _ {P : Type 0} (px : Pixel P) (width : ℕ) where
  -- These pixels at the cursor, which goes on behind them.
  abbrev pub paint : List P → State P → Result P (State P)
  paint ps st =
      or_outside (put (st.x + st.line) ps st.out)
      >>= (λ out. ok (record st { out = out; count = st.count - length ps; x = st.x + length ps }))

  abbrev pub run_length : State P → ℕ
  run_length st = min st.count (width - st.x)

  -- A run of one colour.
  abbrev pub flat : P → State P → Result P (State P)
  flat p st =
      if px.first_written && (run_length st == 0)
      then stop outside
      else paint (replicate (run_length st) p) st

  -- The pixels of the row above, along a run.
  abbrev pub above : State P → Result P (List P)
  above st = or_outside (slice (st.prevline + st.x) (run_length st) st.out)

  -- A pixel of the row above, and one of the row above with the mix colour.
  abbrev pub above_here : State P → Result P P
  above_here st = or_outside (get_elem? st.out (st.prevline + st.x))

  abbrev pub background : State P → Result P P
  background st = if st.prevline == 0 then ok px.black else above_here st

  abbrev pub foreground : State P → Result P P
  foreground st =
      if st.prevline == 0 then ok st.mix else above_here st >>= (λ p. ok (px.xor p st.mix))

  unfoldable pub insert_mix : State P → Result P (State P)
  unfolding put
  insert_mix st =
      if st.insertmix
      then foreground st >>= (λ p. paint (p ∷ []) (record st { insertmix = false }))
      else ok st

  unfoldable pub fill_run : State P → Result P (State P)
  unfolding put slice
  fill_run st =
      if st.prevline == 0
      then paint (replicate (run_length st) px.black) st
      else above st >>= (λ ps. paint ps st)

  unfoldable pub mix_run : State P → Result P (State P)
  unfolding put slice
  mix_run st =
      if st.prevline == 0
      then flat st.mix st
      else above st >>= (λ ps. paint (map (λ p. px.xor p st.mix) ps) st)

  -- `mixmask` and `mask` for the next pixel.
  unfoldable pub next_mask : State P → Result P (State P)
  unfolding cval
  next_mask st =
      let mixmask = st.mixmask * 2 % 2 ^ 8 in
      if mixmask == 0
      then (if st.fom_mask == 0
          then or_exhausted (cval st.input)
            >>= (λ (m, r). ok (record st { mask = m; mixmask = 1; input = r }))
          else ok (record st { mask = st.fom_mask; mixmask = 0 }))
      else ok (record st { mixmask = mixmask })

  unfoldable pub fill_or_mix_pixel : State P → Result P (State P)
  unfolding put next_mask
  fill_or_mix_pixel st = do
    st' ← next_mask st
    p ← if bit_and st'.mask st'.mixmask == 0 then background st' else foreground st'
    paint (p ∷ []) st'

  unfoldable pub fill_or_mix_loop : ℕ → State P → Result P (State P)
  unfolding fill_or_mix_pixel
  fill_or_mix_loop zero st = ok st
  fill_or_mix_loop (suc left) st = fill_or_mix_pixel st >>= fill_or_mix_loop left

  -- `count` and `x` change at every pixel, so that the lesser of `count` and the rest of the row is how
  -- often the loop runs.
  unfoldable pub fill_or_mix : State P → Result P (State P)
  unfolding fill_or_mix_loop
  fill_or_mix st = fill_or_mix_loop (run_length st) st

  unfoldable pub take_pixels : ℕ → List ℕ → Option (List P × List ℕ)
  take_pixels zero input = some ([], input)
  take_pixels (suc n) input = elim (px.take_pixel input) [
    | none ↦ none
    | some (p, r) ↦ elim (take_pixels n r) [ none ↦ none | some (ps, r') ↦ some (p ∷ ps, r') ]
  ]

  unfoldable pub copy_run : State P → Result P (State P)
  unfolding put take_pixels
  copy_run st = elim (take_pixels (run_length st) st.input) [
    | none ↦ stop (refused st.out)
    | some (ps, r) ↦ paint ps (record st { input = r })
  ]

  -- The first of two colours leaves the count as it is.
  unfoldable pub bicolour_pixel : State P → Result P (State P)
  unfolding put
  bicolour_pixel st =
      if st.bicolour
      then paint (st.colour2 ∷ []) (record st { bicolour = false })
      else paint (st.colour1 ∷ []) (record st { bicolour = true; count = st.count + 1 })

  unfoldable pub bicolour_loop : ℕ → State P → Result P (State P)
  unfolding bicolour_pixel
  bicolour_loop zero st = ok st
  bicolour_loop (suc left) st =
      if st.count == 0 then ok st else bicolour_pixel st >>= bicolour_loop left
