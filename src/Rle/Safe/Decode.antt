-- ===== src/Rle/Safe/Decode.antt =====
-- The loop over the orders ends, inside the output.
use grdp.Prelude.{
  ℕ, zero, suc, ◌+◌, ◌*◌, ◌≤◌, ◌<◌, ◌≡◌, refl, ◌∙◌, ap, List, inl, inr, ◌==◌, length, arith,
}
use grdp.Rle.Pixels.{Pixel}
use grdp.Rle.State.{State, ◌>>=◌}
use grdp.Rle.Orders.{read_order}
use grdp.Rle.Rounds.{draw_order, orders, start, decode}
use grdp.Rle.Safe.{Holds, Holds-bind, Holds-map, Holds-if, Shortens}
use grdp.Rle.Safe.Loop.{Sound, Ordered, rounds-Ordered}
use grdp.Rle.Safe.Headers.{Kept, read_order-Kept}

module _ {P : Type 0} (px : Pixel P) (width height : ℕ) (wide : 0 < width) where
  Kept-Sound : (st st' : State P) → Sound width height st → Kept st st' → Sound width height st'
  Kept-Sound st st' s k = record {
    size = ap length k.same_out ∙ s.size;
    in_row = rw k.same_x s.in_row;
    low = rw k.same_height s.low;
    prev_row = rw k.same_prevline s.prev_row;
    line_row = rw k.same_line s.line_row;
    this_row = λ h. rw k.same_line (s.this_row (rw k.same_x at h));
  }

  draw_order-Ordered :
      (st : State P)
      → Shortens px
      → Sound width height st
      → Holds (width * height) (Ordered px width height wide st) (draw_order px width st)
  unfolding draw_order
  draw_order-Ordered st shortens s =
      rounds-Ordered px width height wide shortens (st.height + 2) st s (inr (ground arith))

  pub orders-Sound :
      (fuel : ℕ) (st : State P)
      → Shortens px
      → Sound width height st
      → length st.input ≤ fuel
      → Holds (width * height) (Sound width height) (orders px width fuel st)
  unfolding orders
  orders-Sound zero st shortens s h =
      Holds-if (width * height) (Sound width height) (length st.input == 0) _ _ (λ e. s)
        (λ e. ground arith)
  orders-Sound (suc fuel) st shortens s h =
      let n = width * height in
      let Q : State P → Type 0 = λ b. Sound width height b × (length b.input ≤ fuel) in
      let R : State P → Type 0 = λ b. Kept st b × (length b.input < length st.input) in
      Holds-if n (Sound width height) (length st.input == 0) _ _ (λ e. s)
        (λ e.
          Holds-bind n Q (Sound width height) (read_order px width st >>= draw_order px width)
            (orders px width fuel)
            (Holds-bind n R Q (read_order px width st) (draw_order px width)
              (read_order-Kept px width n shortens st)
              (λ b (k, l).
                Holds-map n (Ordered px width height wide b) Q (draw_order px width b)
                  (draw_order-Ordered b shortens (Kept-Sound st b s k))
                  (λ c (s', l'). (s', omega arith))))
            (λ b (s', l). orders-Sound fuel b shortens s' l))

  -- A decoder on an output of the bitmap's size never writes outside it nor reads what is not there of
  -- it, comes to an end, and leaves an output of the same size; it ends for want of input or not.
  pub decode-Sound :
      (out : List P) (input : List ℕ)
      → Shortens px
      → length out ≡ width * height
      → Holds (width * height) (Sound width height) (decode px width height out input)
  unfolding decode start
  decode-Sound out input shortens e =
      orders-Sound (length input) (start px width height out input) shortens
        (record {
          size = e;
          in_row = omega arith;
          low = omega arith;
          prev_row = inl refl;
          line_row = inl refl;
          this_row = λ h. absurd (omega arith);
        })
        (omega arith)
