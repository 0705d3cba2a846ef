-- ===== src/Rle/Safe/Pieces.antt =====
-- The pieces of an order stay in the row that they draw.
use grdp.Prelude.{
  ℕ, zero, suc, ◌+◌, ◌*◌, ◌%◌, ◌^◌, ◌≤◌, ◌<◌, ◌≡◌, refl, ap, ◌∙◌, List, [], ◌∷◌, Bool, true, false,
  inl, inr, ◌==◌, ◌&&◌, length, replicate, map, bit_and, arith, Bool-cases, if◌then◌else◌,
  length-replicate,
}
use grdp.Rle.Pixels.{Pixel, cval}
use grdp.Rle.State.{State, ok, ◌>>=◌, or_exhausted}
use grdp.Rle.Draw.{
  paint, run_length, flat, above, background, foreground, insert_mix, fill_run, mix_run, next_mask,
  fill_or_mix_pixel, fill_or_mix_loop, fill_or_mix,
}
use grdp.Rle.Safe.{
  Holds, Holds-bind, Holds-map, Holds-if, Holds-or_exhausted, cval-shortens, Moved, Inside,
  Moved-Inside, Moved-Moved, paint-Moved, background-Inside, foreground-Inside, above-Inside,
}

after_none : {P : Type 0} (k : ℕ) (a b c : State P) → Moved 0 a b → Moved k b c → Moved k a c
after_none k a b c m m' = let e : 0 + k ≡ k = omega arith in rw e at (Moved-Moved 0 k a b c m m')

length-map : {A B : Type 0} (f : A → B) (xs : List A) → length (map f xs) ≡ length xs
length-map f [] = refl
length-map f (x ∷ xs) = ap suc (length-map f xs)

pub unmoved :
    {P : Type 0} (a b : State P)
    → length b.out ≡ length a.out
    → b.line ≡ a.line
    → b.prevline ≡ a.prevline
    → b.height ≡ a.height
    → length b.input ≤ length a.input
    → b.x ≡ a.x
    → b.count ≡ a.count
    → Moved 0 a b
unmoved a b o l p h i x c = record {
  size = o;
  same_line = l;
  same_prevline = p;
  same_height = h;
  less_input = i;
  moves_x = omega arith;
  counts = omega arith;
}

and_false : (b : Bool) → (b && false) ≡ false
and_false true = refl
and_false false = refl

module _ {P : Type 0} (px : Pixel P) (width n : ℕ) where
  pub in_run : (st : State P) → Inside width n st → st.x + run_length px width st ≤ width
  in_run st i = omega (arith, i.in_row)

  pub paint_run :
      (ps : List P) (st : State P)
      → Inside width n st
      → length ps ≡ run_length px width st
      → Holds n (Moved (run_length px width st) st) (paint px width ps st)
  paint_run ps st i e = paint-Moved px width n (run_length px width st) ps st e i (in_run st i)

  pub paint_flat :
      (p : P) (st : State P)
      → Inside width n st
      → Holds n
          (Moved (run_length px width st) st)
          (paint px width (replicate (run_length px width st) p) st)
  paint_flat p st i =
      paint_run (replicate (run_length px width st) p) st i
        (length-replicate (run_length px width st) p)

  pub flat-Moved :
      (p : P) (st : State P)
      → Inside width n st
      → st.x < width
      → (st.count == 0) ≡ false
      → Holds n (Moved (run_length px width st) st) (flat px width p st)
  flat-Moved p st i h c =
      let some_pixels : (run_length px width st == 0) ≡ false = ground arith in
      rw (some_pixels, and_false px.first_written) (paint_flat p st i)

  pub fill_run-Moved :
      (st : State P)
      → Inside width n st
      → Holds n (Moved (run_length px width st) st) (fill_run px width st)
  unfolding fill_run
  fill_run-Moved st i = elim (Bool-cases (st.prevline == 0)) [
    | inl e ↦ rw e (paint_flat px.black st i)
    | inr e ↦ rw e (
        Holds-bind n (λ ps. length ps ≡ run_length px width st) (Moved (run_length px width st) st)
          (above px width st) (λ ps. paint px width ps st) (above-Inside px width n st i e)
          (λ ps l. paint_run ps st i l))
  ]

  pub mix_run-Moved :
      (st : State P)
      → Inside width n st
      → st.x < width
      → (st.count == 0) ≡ false
      → Holds n (Moved (run_length px width st) st) (mix_run px width st)
  unfolding mix_run
  mix_run-Moved st i h c = elim (Bool-cases (st.prevline == 0)) [
    | inl e ↦ rw e (flat-Moved st.mix st i h c)
    | inr e ↦ rw e (
        Holds-bind n (λ ps. length ps ≡ run_length px width st) (Moved (run_length px width st) st)
          (above px width st) (λ ps. paint px width (map (λ p. px.xor p st.mix) ps) st)
          (above-Inside px width n st i e)
          (λ ps l.
            paint_run (map (λ p. px.xor p st.mix) ps) st i
              (length-map (λ p. px.xor p st.mix) ps ∙ l)))
  ]

  -- A piece of some pixels of the row.
  abbrev pub Ahead : State P → State P → Type 0
  Ahead st st' = (k : ℕ) × Moved k st st' × (st.x + k ≤ width)

  -- One pixel, in a state that differs from `st` in no place.
  pub paint_pixel :
      (p : P) (st b : State P)
      → Inside width n st
      → st.x < width
      → Moved 0 st b
      → Holds n (Moved 1 st) (paint px width (p ∷ []) b)
  paint_pixel p st b i h m =
      Holds-map n (Moved 1 b) (Moved 1 st) (paint px width (p ∷ []) b)
        (paint-Moved px width n 1 (p ∷ []) b refl (Moved-Inside width n 0 st b i m (omega arith))
          (omega (arith, m.moves_x)))
        (λ c m'. after_none 1 st b c m m')

  pub insert_mix-Moved :
      (st : State P)
      → Inside width n st
      → st.x < width
      → Holds n (Ahead st) (insert_mix px width st)
  unfolding insert_mix
  insert_mix-Moved st i h =
      let cleared : State P = record st { insertmix = false } in
      let same : Moved 0 st cleared =
        unmoved st cleared refl refl refl refl (omega arith) refl refl in
      Holds-if n (Ahead st) st.insertmix
        (foreground px width st >>= (λ p. paint px width (p ∷ []) cleared)) (ok st)
        (λ e.
          Holds-bind n (λ p. Unit {0}) (Ahead st) (foreground px width st)
            (λ p. paint px width (p ∷ []) cleared) (foreground-Inside px width n st i h)
            (λ p u.
              Holds-map n (Moved 1 st) (Ahead st) (paint px width (p ∷ []) cleared)
                (paint_pixel p st cleared i h same) (λ c m. (1, m, omega arith))))
        (λ e.
          (0, unmoved st st refl refl refl refl (omega arith) refl refl, omega (arith, i.in_row)))

  next_mask-Moved : (st : State P) → Holds n (Moved 0 st) (next_mask px width st)
  unfolding next_mask cval
  next_mask-Moved st =
      Holds-if n (Moved 0 st) (st.mixmask * 2 % 2 ^ 8 == 0) _ _
        (λ e.
          Holds-if n (Moved 0 st) (st.fom_mask == 0) _ _
            (λ e'.
              Holds-bind n (λ c. length c.1 < length st.input) (Moved 0 st)
                (or_exhausted (cval st.input)) _
                (Holds-or_exhausted P n (λ c. length c.1 < length st.input) (cval st.input)
                  (cval-shortens st.input))
                (λ c l. unmoved st _ refl refl refl refl (omega arith) refl refl))
            (λ e'. unmoved st _ refl refl refl refl (omega arith) refl refl))
        (λ e. unmoved st _ refl refl refl refl (omega arith) refl refl)

  fill_or_mix_pixel-Moved :
      (st : State P)
      → Inside width n st
      → st.x < width
      → Holds n (Moved 1 st) (fill_or_mix_pixel px width st)
  unfolding fill_or_mix_pixel
  fill_or_mix_pixel-Moved st i h =
      Holds-bind n (Moved 0 st) (Moved 1 st) (next_mask px width st) _ (next_mask-Moved st) (λ b m.
        let i' = Moved-Inside width n 0 st b i m (omega arith) in
        let h' : b.x < width = omega (arith, m.moves_x) in
        Holds-bind n (λ p. Unit {0}) (Moved 1 st)
          (if bit_and b.mask b.mixmask == 0 then background px width b else foreground px width b)
          (λ p. paint px width (p ∷ []) b)
          (Holds-if n (λ p. Unit {0}) (bit_and b.mask b.mixmask == 0) _ _
            (λ e. background-Inside px width n b i' h') (λ e. foreground-Inside px width n b i' h'))
          (λ p u. paint_pixel p st b i h m))

  fill_or_mix_loop-Moved :
      (left : ℕ) (st : State P)
      → Inside width n st
      → st.x + left ≤ width
      → Holds n (Moved left st) (fill_or_mix_loop px width left st)
  unfolding fill_or_mix_loop
  fill_or_mix_loop-Moved zero st i h = unmoved st st refl refl refl refl (omega arith) refl refl
  fill_or_mix_loop-Moved (suc left) st i h =
      Holds-bind n (Moved 1 st) (Moved (suc left) st) (fill_or_mix_pixel px width st)
        (fill_or_mix_loop px width left) (fill_or_mix_pixel-Moved st i (omega arith))
        (λ b m.
          Holds-map n (Moved left b) (Moved (suc left) st) (fill_or_mix_loop px width left b)
            (fill_or_mix_loop-Moved left b (Moved-Inside width n 1 st b i m (omega arith))
              (omega (arith, m.moves_x)))
            (λ c m'.
              let e : 1 + left ≡ suc left = omega arith in
              rw e at (Moved-Moved 1 left st b c m m')))

  pub fill_or_mix-Moved :
      (st : State P)
      → Inside width n st
      → Holds n (Moved (run_length px width st) st) (fill_or_mix px width st)
  unfolding fill_or_mix
  fill_or_mix-Moved st i = fill_or_mix_loop-Moved (run_length px width st) st i (in_run st i)
