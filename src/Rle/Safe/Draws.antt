-- ===== src/Rle/Safe/Draws.antt =====
-- An order in one row stays in it, and ends the order or the row.
use grdp.Prelude.{
  ℕ, zero, suc, ◌+◌, ◌-◌, min, ◌≤◌, ◌<◌, ◌≡◌, refl, ap, ◌∙◌, List, [], ◌∷◌, Option, none, some,
  true, false, ◌⊎◌, inl, inr, ◌==◌, length, arith,
}
use grdp.Rle.Pixels.{Pixel}
use grdp.Rle.State.{State, Result, ◌>>=◌}
use grdp.Rle.Draw.{
  paint, run_length, insert_mix, fill_run, take_pixels, copy_run, bicolour_pixel, bicolour_loop,
}
use grdp.Rle.Rounds.{draw}
use grdp.Rle.Safe.{
  Holds, Holds-bind, Holds-map, Holds-if, Each, Shortens, Moved, Inside, Moved-Inside, paint-Moved,
}
use grdp.Rle.Safe.Pieces.{
  Ahead, in_run, paint_run, paint_flat, flat-Moved, fill_run-Moved, mix_run-Moved, insert_mix-Moved,
  fill_or_mix-Moved,
}

pub record Drawn {P : Type 0} (width n : ℕ) (st st' : State P) : Type 0 where
  pub inside : Inside width n st'
  pub same_height : st'.height ≡ st.height
  pub less_input : length st'.input ≤ length st.input
  pub done : (st'.count ≡ 0) ⊎ (st'.x ≡ width)

-- A pixel of an order of two colours.
record Dotted {P : Type 0} (width n : ℕ) (st st' : State P) : Type 0 where
  inside : Inside width n st'
  same_height : st'.height ≡ st.height
  less_input : length st'.input ≤ length st.input
  moves_x : st'.x ≡ st.x + 1

Each-Each :
    {A B : Type 0} (Q : A → Type 0) (R : B → Type 0) (o : Option A) (f : A → Option B)
    → Each Q o
    → ((a : A) → Q a → Each R (f a))
    → Each R (elim o [ none ↦ none | some a ↦ f a ])
Each-Each Q R none f h k = tt
Each-Each Q R (some a) f h k = k a h

Each-Holds :
    {P A B : Type 0} (n : ℕ) (Q : A → Type 0) (R : B → Type 0) (o : Option A) (f : A → Result P B)
    (r : Result P B)
    → Each Q o
    → Holds n R r
    → ((a : A) → Q a → Holds n R (f a))
    → Holds n R (elim o [ none ↦ r | some a ↦ f a ])
Each-Holds n Q R none f r h l k = l
Each-Holds n Q R (some a) f r h l k = k a h

run_done :
    (count x width : ℕ)
    → x ≤ width
    → (count - min count (width - x) ≡ 0) ⊎ (x + min count (width - x) ≡ width)
run_done count x width h = ground arith

-- So many pixels, and no more input than there was.
Parts : {P : Type 0} → ℕ → List ℕ → List P × List ℕ → Type 0
Parts k input c = (length c.0 ≡ k) × (length c.1 ≤ length input)

cons-Parts :
    {P : Type 0} (p : P) (k : ℕ) (input r : List ℕ) (o : Option (List P × List ℕ))
    → length r < length input
    → Each (Parts k r) o
    → Each (Parts (suc k) input) (elim o [ none ↦ none | some (ps, r') ↦ some (p ∷ ps, r') ])
unfolding Parts
cons-Parts p k input r none h e = tt
cons-Parts p k input r (some (ps, r')) h (e, l) = (ap suc e, omega arith)

module _ {P : Type 0} (px : Pixel P) (width n : ℕ) where
  whole_run :
      (st : State P)
      → Inside width n st
      → (r : Result P (State P)) → Holds n (Moved (run_length px width st) st) r
      → Holds n (Drawn width n st) r
  whole_run st i r h =
      Holds-map n (Moved (run_length px width st) st) (Drawn width n st) r h (λ b m. record {
        inside = Moved-Inside width n (run_length px width st) st b i m (in_run px width n st i);
        same_height = m.same_height;
        less_input = m.less_input;
        done = rw (m.counts, m.moves_x) (run_done st.count st.x width i.in_row);
      })

  fill-Drawn :
      (st : State P)
      → Inside width n st
      → st.x < width
      → Holds n (Drawn width n st) (insert_mix px width st >>= fill_run px width)
  fill-Drawn st i h =
      Holds-bind n (Ahead px width n st) (Drawn width n st) (insert_mix px width st)
        (fill_run px width) (insert_mix-Moved px width n st i h)
        (λ b (k, m, l).
          let i' = Moved-Inside width n k st b i m l in
          Holds-map n (Drawn width n b) (Drawn width n st) (fill_run px width b)
            (whole_run b i' (fill_run px width b) (fill_run-Moved px width n b i'))
            (λ c d. record {
              inside = d.inside;
              same_height = d.same_height ∙ m.same_height;
              less_input = omega (arith, d.less_input, m.less_input);
              done = d.done;
            }))

  dot :
      (p : P) (st b : State P)
      → Inside width n b
      → b.x < width
      → b.x ≡ st.x
      → b.height ≡ st.height
      → length b.input ≤ length st.input
      → Holds n (Dotted width n st) (paint px width (p ∷ []) b)
  dot p st b i h x e l =
      Holds-map n (Moved 1 b) (Dotted width n st) (paint px width (p ∷ []) b)
        (paint-Moved px width n 1 (p ∷ []) b refl i (omega arith))
        (λ c m. record {
          inside = Moved-Inside width n 1 b c i m (omega arith);
          same_height = m.same_height ∙ e;
          less_input = omega (arith, m.less_input);
          moves_x = omega (arith, m.moves_x);
        })

  bicolour_pixel-Dotted :
      (st : State P)
      → Inside width n st
      → st.x < width
      → Holds n (Dotted width n st) (bicolour_pixel px width st)
  unfolding bicolour_pixel
  bicolour_pixel-Dotted st i h =
      Holds-if n (Dotted width n st) st.bicolour _ _
        (λ e.
          dot st.colour2 st (record st { bicolour = false })
            (record {
              size = i.size;
              prev_row = i.prev_row;
              this_row = i.this_row;
              in_row = i.in_row;
            })
            h refl refl (omega arith))
        (λ e.
          dot st.colour1 st (record st { bicolour = true; count = st.count + 1 })
            (record {
              size = i.size;
              prev_row = i.prev_row;
              this_row = i.this_row;
              in_row = i.in_row;
            })
            h refl refl (omega arith))

  bicolour_loop-Drawn :
      (left : ℕ) (st : State P)
      → Inside width n st
      → st.x + left ≡ width
      → Holds n (Drawn width n st) (bicolour_loop px width left st)
  unfolding bicolour_loop
  bicolour_loop-Drawn zero st i e = record {
    inside = i;
    same_height = refl;
    less_input = omega arith;
    done = inr (omega arith);
  }
  bicolour_loop-Drawn (suc left) st i e =
      Holds-if n (Drawn width n st) (st.count == 0) _ _
        (λ c. record {
          inside = i;
          same_height = refl;
          less_input = omega arith;
          done = inl (ground arith);
        })
        (λ c.
          Holds-bind n (Dotted width n st) (Drawn width n st) (bicolour_pixel px width st)
            (bicolour_loop px width left) (bicolour_pixel-Dotted st i (omega arith))
            (λ b d.
              Holds-map n (Drawn width n b) (Drawn width n st) (bicolour_loop px width left b)
                (bicolour_loop-Drawn left b d.inside (omega (arith, d.moves_x)))
                (λ c' d'. record {
                  inside = d'.inside;
                  same_height = d'.same_height ∙ d.same_height;
                  less_input = omega (arith, d.less_input, d'.less_input);
                  done = d'.done;
                })))

  copied :
      (st : State P)
      → Inside width n st
      → (ps : List P) (r : List ℕ) → Parts (run_length px width st) st.input (ps, r)
      → Holds n (Drawn width n st) (paint px width ps (record st { input = r }))
  unfolding Parts
  copied st i ps r (e, l) =
      let b : State P = record st { input = r } in
      let i' : Inside width n b = record {
        size = i.size;
        prev_row = i.prev_row;
        this_row = i.this_row;
        in_row = i.in_row;
      } in
      Holds-map n (Drawn width n b) (Drawn width n st) (paint px width ps b)
        (whole_run b i' (paint px width ps b) (paint_run px width n ps b i' e))
        (λ c d. record {
          inside = d.inside;
          same_height = d.same_height;
          less_input = omega (arith, d.less_input);
          done = d.done;
        })

  module _ (shortens : Shortens px) where
    take_pixels-Parts :
        (k : ℕ) (input : List ℕ) → Each (Parts k input) (take_pixels px width k input)
    unfolding take_pixels Parts
    take_pixels-Parts zero input = (refl, omega arith)
    take_pixels-Parts (suc k) input =
        Each-Each (λ c. length c.1 < length input) (Parts (suc k) input) (px.take_pixel input) _
          (shortens input)
          (λ c h.
            cons-Parts c.0 k input c.1 (take_pixels px width k c.1) h (take_pixels-Parts k c.1))

    copy_run-Drawn :
        (st : State P) → Inside width n st → Holds n (Drawn width n st) (copy_run px width st)
    unfolding copy_run
    copy_run-Drawn st i =
        Each-Holds n (Parts (run_length px width st) st.input) (Drawn width n st)
          (take_pixels px width (run_length px width st) st.input) _ _
          (take_pixels-Parts (run_length px width st) st.input) i.size
          (λ c h. copied st i c.0 c.1 h)

    pub draw-Drawn :
        (st : State P)
        → Inside width n st
        → st.x < width
        → (st.count == 0) ≡ false
        → Holds n (Drawn width n st) (draw px width st)
    unfolding draw
    draw-Drawn st i h c =
        let D = Drawn width n st in
        let run = run_length px width st in
        Holds-if n D (st.opcode == 0) _ _ (λ e. fill-Drawn st i h)
          (λ e.
            Holds-if n D (st.opcode == 1) _ _
              (λ e1. whole_run st i _ (mix_run-Moved px width n st i h c))
              (λ e1.
                Holds-if n D (st.opcode == 2) _ _
                  (λ e2. whole_run st i _ (fill_or_mix-Moved px width n st i))
                  (λ e2.
                    Holds-if n D (st.opcode == 3) _ _
                      (λ e3. whole_run st i _ (flat-Moved px width n st.colour2 st i h c))
                      (λ e3.
                        Holds-if n D (st.opcode == 4) _ _ (λ e4. copy_run-Drawn st i)
                          (λ e4.
                            Holds-if n D (st.opcode == 8) _ _
                              (λ e8.
                                bicolour_loop-Drawn (width - st.x) st i (omega (arith, i.in_row)))
                              (λ e8.
                                Holds-if n D (st.opcode == 0xd) _ _
                                  (λ e13. whole_run st i _ (paint_flat px width n px.white st i))
                                  (λ e13.
                                    Holds-if n D (st.opcode == 0xe) _ _
                                      (λ e14.
                                        whole_run st i _ (paint_flat px width n px.black st i))
                                      (λ e14. i.size))))))))
