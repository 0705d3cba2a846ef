-- ===== src/Rle/Masks.antt =====
-- core/rle.go: what the orders FillOrMix_1 and FillOrMix_2 draw. Their mask stands in the opcode: `prepare`
-- puts it into `fom_mask`, which is 0 for the other FillOrMix orders.
use grdp.Prelude.{
  ℕ, zero, suc, ◌+◌, ◌*◌, ◌%◌, ◌^◌, ◌≡◌, refl, ap, ◌∙◌, ◌⊎◌, inl, inr, [], ◌∷◌, Bool, true, false,
  ◌==◌, bit_and, arith, if◌then◌else◌,
}
use grdp.Rle.Pixels.{Pixel}
use grdp.Rle.State.{State, Result, ok, stop, ◌>>=◌, or_outside, put}
use grdp.Rle.Draw.{
  paint, run_length, background, next_mask, fill_or_mix_pixel, fill_or_mix_loop, fill_or_mix,
}

abbrev Oks : {P A : Type 0} → (A → Type 0) → Result P A → Type 0
Oks Q (ok a) = Q a
Oks Q (stop s) = Unit

bind_eq :
    {P A B : Type 0} (Q : A → Type 0) (r : Result P A) (f g : A → Result P B)
    → Oks Q r
    → ((a : A) → Q a → f a ≡ g a)
    → (r >>= f) ≡ (r >>= g)
bind_eq Q (ok a) f g h k = k a h
bind_eq Q (stop s) f g h k = refl

Oks-bind :
    {P A B : Type 0} (Q : B → Type 0) (r : Result P A) (f : A → Result P B)
    → ((a : A) → Oks Q (f a))
    → Oks Q (r >>= f)
Oks-bind Q (ok a) f k = k a
Oks-bind Q (stop s) f k = tt

if_true : {A : Type 0} (b : Bool) (x y : A) → b ≡ true → (if b then x else y) ≡ x
if_true b x y e = rw e refl

if_false : {A : Type 0} (b : Bool) (x y : A) → b ≡ false → (if b then x else y) ≡ y
if_false b x y e = rw e refl

no_bits : (m : ℕ) → (m ≡ 3) ⊎ (m ≡ 5) → (bit_and m 0 == 0) ≡ true
no_bits m (inl e) = rw e refl
no_bits m (inr e) = rw e refl

module _ {P : Type 0} (px : Pixel P) (width : ℕ) where
  -- So many pixels of the background.
  abbrev pub background_pixel : State P → Result P (State P)
  background_pixel st =
      background px width st
      >>= (λ p. paint px width (p ∷ []) (record st { mask = st.fom_mask; mixmask = 0 }))

  unfoldable pub background_loop : ℕ → State P → Result P (State P)
  background_loop zero st = ok st
  background_loop (suc left) st = background_pixel st >>= background_loop left

  -- The state in which such an order is, from `prepare` on.
  Special : State P → Type 0
  Special st = ((st.fom_mask ≡ 3) ⊎ (st.fom_mask ≡ 5)) × (st.mixmask ≡ 0)

  masked : State P → State P
  masked st = record st { mask = st.fom_mask; mixmask = 0 }

  special_mask :
      (st : State P)
      → (st.fom_mask ≡ 3) ⊎ (st.fom_mask ≡ 5)
      → st.mixmask ≡ 0
      → next_mask px width st ≡ ok (masked st)
  unfolding next_mask masked
  special_mask st h e =
      let wraps : (st.mixmask * 2 % 2 ^ 8 == 0) ≡ true = ground arith in
      let named : (st.fom_mask == 0) ≡ false = ground arith in
      if_true (st.mixmask * 2 % 2 ^ 8 == 0) _ _ wraps ∙ if_false (st.fom_mask == 0) _ _ named

  special_pixel :
      (st : State P)
      → (st.fom_mask ≡ 3) ⊎ (st.fom_mask ≡ 5)
      → st.mixmask ≡ 0
      → fill_or_mix_pixel px width st ≡ background_pixel st
  unfolding fill_or_mix_pixel masked
  special_pixel st h e = rw (special_mask st h e) (
      ap (λ r. r >>= (λ p. paint px width (p ∷ []) (masked st)))
        (if_true (bit_and st.fom_mask 0 == 0) _ _ (no_bits st.fom_mask h)))

  special_loop :
      (left : ℕ) (st : State P)
      → (st.fom_mask ≡ 3) ⊎ (st.fom_mask ≡ 5)
      → st.mixmask ≡ 0
      → fill_or_mix_loop px width left st ≡ background_loop left st
  unfolding fill_or_mix_loop background_loop Special
  special_loop zero st h e = refl
  special_loop (suc left) st h e = rw (special_pixel st h e) (
      bind_eq Special (background_pixel st) (fill_or_mix_loop px width left) (background_loop left)
        (Oks-bind Special (background px width st)
          (λ p. paint px width (p ∷ []) (record st { mask = st.fom_mask; mixmask = 0 }))
          (λ p.
            Oks-bind Special (or_outside (put (st.x + st.line) (p ∷ []) st.out)) _
              (λ out. (h, refl))))
        (λ b (h', e'). special_loop left b h' e'))

  -- An order whose mask, 3 or 5, stands in its opcode, begun with an empty `mixmask`, mixes no pixel:
  -- each of its pixels in the row is the background's.
  pub fill_or_mix_special :
      (st : State P)
      → (st.fom_mask ≡ 3) ⊎ (st.fom_mask ≡ 5)
      → st.mixmask ≡ 0
      → fill_or_mix px width st ≡ background_loop (run_length px width st) st
  unfolding fill_or_mix
  fill_or_mix_special st h e = special_loop (run_length px width st) st h e
