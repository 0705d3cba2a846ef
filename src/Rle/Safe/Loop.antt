-- ===== src/Rle/Safe/Loop.antt =====
-- The rows of an order, and the orders of an input, stay inside the output.
use grdp.Prelude.{
  ℕ, zero, suc, ◌+◌, ◌-◌, ◌*◌, ◌≤◌, ◌<◌, ◌≡◌, refl, sym, ◌∙◌, false, ◌⊎◌, inl, inr, ◌==◌, leb, ltb,
  le→ltb_false, length, arith, if◌then◌else◌,
}
use native.Mathlib.Nat.{mul-le-mul_left, mul_comm, suc-mul}
use grdp.Rle.Pixels.{Pixel}
use grdp.Rle.State.{State, ◌>>=◌}
use grdp.Rle.Rounds.{draw, next_row, rounds}
use grdp.Rle.Safe.{Holds, Holds-bind, Holds-map, Holds-if, Shortens, Inside}
use grdp.Rle.Safe.Draws.{Drawn, draw-Drawn}

-- The state between rounds.
pub record Sound {P : Type 0} (width height : ℕ) (st : State P) : Type 0 where
  pub size : length st.out ≡ width * height
  pub in_row : st.x ≤ width
  pub low : st.height ≤ height
  pub prev_row : (st.prevline ≡ 0) ⊎ (st.prevline + width ≤ width * height)
  pub line_row : (st.line ≡ 0) ⊎ (st.line + width ≤ width * height)
  pub this_row : st.x < width → st.line + width ≤ width * height

-- The rounds that are left, at most.
abbrev left : {P : Type 0} → ℕ → State P → ℕ
left width st = st.height + (if ltb st.x width then 1 else 0)

record Rowed {P : Type 0} (width height : ℕ) (st st' : State P) : Type 0 where
  inside : Inside width (width * height) st'
  in_row : st'.x < width
  low : st'.height ≤ height
  used : st'.height + 1 ≡ left width st
  same_count : st'.count ≡ st.count
  same_input : st'.input ≡ st.input

row_fits : (h width height : ℕ) → 0 < h → h ≤ height → (h - 1) * width + width ≤ width * height
row_fits zero width height p l = absurd (omega arith)
row_fits (suc h) width height p l =
    let less : suc h - 1 ≡ h = omega arith in
    let rows : width * suc h ≤ width * height = mul-le-mul_left width l in
    let row : width * suc h ≡ h * width + width = mul_comm width (suc h) ∙ suc-mul h width in
    rw less (omega arith)

module _ {P : Type 0} (px : Pixel P) (width height : ℕ) (wide : 0 < width) where
  next_row-Rowed :
      (st : State P)
      → Sound width height st
      → Holds (width * height) (Rowed width height st) (next_row px width st)
  unfolding next_row
  next_row-Rowed st s =
      Holds-if (width * height) (Rowed width height st) (leb width st.x) _ _
        (λ e.
          Holds-if (width * height) (Rowed width height st) (st.height == 0) _ _ (λ z. s.size)
            (λ z.
              let fits = row_fits st.height width height (ground arith) s.low in
              record {
                inside = record {
                  size = s.size;
                  prev_row = s.line_row;
                  this_row = fits;
                  in_row = omega arith;
                };
                in_row = wide;
                low = omega (arith, s.low);
                used = ground arith;
                same_count = refl;
                same_input = refl;
              }))
        (λ e. record {
          inside = record {
            size = s.size;
            prev_row = s.prev_row;
            this_row = s.this_row (ground arith);
            in_row = s.in_row;
          };
          in_row = ground arith;
          low = s.low;
          used = ground arith;
          same_count = refl;
          same_input = refl;
        })

  -- A round that is over: the state is sound, and the order or the row has ended.
  Drawn-Sound :
      (st st' : State P)
      → st.height ≤ height
      → Drawn width (width * height) st st'
      → Sound width height st'
  Drawn-Sound st st' l d = record {
    size = d.inside.size;
    in_row = d.inside.in_row;
    low = rw d.same_height l;
    prev_row = d.inside.prev_row;
    line_row = inr d.inside.this_row;
    this_row = λ h. d.inside.this_row;
  }

  -- What an order leaves.
  abbrev pub Ordered : State P → State P → Type 0
  Ordered st st' = Sound width height st' × (length st'.input ≤ length st.input)

  -- What a round leaves to the rounds that follow it.
  Next : ℕ → State P → State P → Type 0
  Next fuel st st' =
      Sound width height st'
      × (length st'.input ≤ length st.input)
      × ((st'.count ≡ 0) ⊎ (left width st' < fuel))

  Drawn-Next :
      (fuel : ℕ) (st b c : State P)
      → Rowed width height st b
      → Drawn width (width * height) b c
      → left width st < suc fuel
      → Next fuel st c
  unfolding Next
  Drawn-Next fuel st b c r d h = (
    Drawn-Sound b c r.low d,
    rw (sym r.same_input) d.less_input,
    elim d.done [
      | inl z ↦ inl z
      | inr full ↦
          let over : ltb c.x width ≡ false = le→ltb_false c.x width (omega arith) in
          inr (rw over (omega (arith, r.used, d.same_height)))
    ],
  )

  module _ (shortens : Shortens px) where
    pub rounds-Ordered :
        (fuel : ℕ) (st : State P)
        → Sound width height st
        → (st.count ≡ 0) ⊎ (left width st < fuel)
        → Holds (width * height) (Ordered st) (rounds px width fuel st)
    unfolding rounds Next
    rounds-Ordered zero st s h =
        Holds-if (width * height) (Ordered st) (st.count == 0) _ _ (λ e. (s, omega arith))
          (λ e. elim h [ inl z ↦ ground arith | inr l ↦ omega arith ])
    rounds-Ordered (suc fuel) st s h =
        Holds-if (width * height) (Ordered st) (st.count == 0) _ _ (λ e. (s, omega arith))
          (λ e.
            Holds-bind (width * height) (Next fuel st) (Ordered st)
              (next_row px width st >>= draw px width) (rounds px width fuel)
              (Holds-bind (width * height) (Rowed width height st) (Next fuel st)
                (next_row px width st) (draw px width) (next_row-Rowed st s)
                (λ b r.
                  Holds-map (width * height) (Drawn width (width * height) b) (Next fuel st)
                    (draw px width b)
                    (draw-Drawn px width (width * height) shortens b r.inside r.in_row
                      (rw r.same_count e))
                    (λ c d. Drawn-Next fuel st b c r d (ground arith))))
              (λ c (s', l, h').
                Holds-map (width * height) (Ordered c) (Ordered st) (rounds px width fuel c)
                  (rounds-Ordered fuel c s' h') (λ c' (s'', l'). (s'', omega arith))))
