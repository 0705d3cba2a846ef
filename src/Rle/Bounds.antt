-- ===== src/Rle/Bounds.antt =====
-- core/rle.go: the decoders of 8, 16 and 24 bits a pixel stay inside their output.
use grdp.Prelude.{
  ℕ, zero, suc, ◌+◌, ◌*◌, ◌≤◌, ◌<◌, ◌≡◌, ◌≢◌, refl, ap, ◌∙◌, List, [], ◌∷◌, Option, none, some,
  Bool, true, false, ◌==◌, leb, length, arith, if◌then◌else◌, Bool-cases, inl, inr, le→leb,
  length-take, length-replicate, ≢→==_false,
}
use grdp.Rle.Pixels.{pixel8, pixel16, pixel24, Rgb, bytes16, bytes24, cval, cval2, cval3}
use grdp.Rle.State.{
  State, Result, ok, stop, refused, exhausted, outside, stuck, ◌>>=◌, or_outside, put,
}
use grdp.Rle.{
  Answer, answer, decompress1, decompress2, decompress3, pooled, pixels24, sized, decompress_into,
}
use grdp.Rle.Safe.{Holds, Shortens, length-patched}
use grdp.Rle.Safe.Loop.{Sound}
use grdp.Rle.Safe.Decode.{decode-Sound}

-- The call returns an output of `n` bytes, or panics for want of input, and nothing else.
abbrev pub InBounds : ℕ → Answer → Type 0
InBounds n (ok (b, out)) = length out ≡ n
InBounds n (stop exhausted) = Unit
InBounds n (stop (refused out)) = ⊥
InBounds n (stop outside) = ⊥
InBounds n (stop stuck) = ⊥

if-InBounds :
    (n : ℕ) (b : Bool) (r s : Answer)
    → (b ≡ true → InBounds n r)
    → (b ≡ false → InBounds n s)
    → InBounds n (if b then r else s)
if-InBounds n true r s h k = h refl
if-InBounds n false r s h k = k refl

answer-InBounds :
    {P : Type 0} (n m width height : ℕ) (f g : List P → Answer) (r : Result P (State P))
    → ((out : List P) → length out ≡ n → InBounds m (f out))
    → ((out : List P) → length out ≡ n → InBounds m (g out))
    → width * height ≡ n
    → Holds n (Sound width height) r
    → InBounds m (answer f g r)
answer-InBounds n m w h f g (ok st) p q e s = p st.out (s.size ∙ e)
answer-InBounds n m w h f g (stop (refused out)) p q e s = q out s
answer-InBounds n m w h f g (stop exhausted) p q e s = tt
answer-InBounds n m w h f g (stop outside) p q e s = absurd s
answer-InBounds n m w h f g (stop stuck) p q e s = absurd s

pixel8-Shortens : Shortens pixel8
unfolding cval
pixel8-Shortens [] = tt
pixel8-Shortens (a ∷ r) = omega arith

pixel16-Shortens : Shortens pixel16
unfolding cval2
pixel16-Shortens [] = tt
pixel16-Shortens (a ∷ []) = tt
pixel16-Shortens (a ∷ b ∷ r) = omega arith

pixel24-Shortens : Shortens pixel24
unfolding cval3
pixel24-Shortens [] = tt
pixel24-Shortens (a ∷ []) = tt
pixel24-Shortens (a ∷ b ∷ []) = tt
pixel24-Shortens (a ∷ b ∷ c ∷ r) = omega arith

length-bytes16 : (vs : List ℕ) → length (bytes16 vs) ≡ 2 * length vs
unfolding bytes16
length-bytes16 [] = refl
length-bytes16 (v ∷ vs) = omega (arith, length-bytes16 vs)

length-bytes24 : (ps : List Rgb) → length (bytes24 ps) ≡ 3 * length ps
unfolding bytes24
length-bytes24 [] = refl
length-bytes24 ((a, b, c) ∷ ps) = omega (arith, length-bytes24 ps)

length-pixels24 : (k : ℕ) (bytes : List ℕ) → length bytes ≡ 3 * k → length (pixels24 bytes) ≡ k
unfolding pixels24
length-pixels24 zero [] h = refl
length-pixels24 zero (a ∷ r) h = absurd (omega arith)
length-pixels24 (suc k) [] h = absurd (omega arith)
length-pixels24 (suc k) (a ∷ []) h = absurd (omega arith)
length-pixels24 (suc k) (a ∷ b ∷ []) h = absurd (omega arith)
length-pixels24 (suc k) (a ∷ b ∷ c ∷ r) h = ap suc (length-pixels24 k r (omega arith))

length-pooled : (pool : Option (List ℕ)) (needed : ℕ) → length (pooled pool needed) ≡ needed
unfolding pooled
length-pooled none needed = length-replicate needed 0
length-pooled (some v) needed = elim (Bool-cases (leb needed (length v))) [
  | inl e ↦ rw (e, length-take needed v) (ground arith)
  | inr e ↦ rw e (length-replicate needed 0)
]

length-sized : (dst : List ℕ) (size : ℕ) → length (sized dst size) ≡ size
unfolding sized
length-sized dst size = elim (Bool-cases (leb size (length dst))) [
  | inl e ↦ rw (e, length-take size dst) (ground arith)
  | inr e ↦ rw e (length-replicate size 0)
]

written-InBounds :
    (n : ℕ) (vs output : List ℕ)
    → length vs ≡ n
    → length output ≡ n * 2
    → InBounds (n * 2) (or_outside (put 0 (bytes16 vs) output) >>= (λ bytes. ok (true, bytes)))
unfolding put
written-InBounds n vs output e h =
    let l : length (bytes16 vs) ≤ length output = omega (arith, length-bytes16 vs) in
    let fits : leb (0 + length (bytes16 vs)) (length output) ≡ true =
      le→leb (0 + length (bytes16 vs)) (length output) (omega arith) in
    rw fits (length-patched 0 (bytes16 vs) output (omega arith) ∙ h)

module _ (width height : ℕ) (wide : 0 < width) (input : List ℕ) where
  decompress1-InBounds :
      (output : List ℕ)
      → length output ≡ width * height
      → InBounds (width * height) (decompress1 output width height input)
  unfolding decompress1
  decompress1-InBounds output e =
      answer-InBounds (width * height) (width * height) width height _ _ _ (λ out h. h) (λ out h. h)
        refl (decode-Sound pixel8 width height wide output input pixel8-Shortens e)

  decompress2-InBounds :
      (pool : Option (List ℕ)) (output : List ℕ)
      → length output ≡ width * height * 2
      → InBounds (width * height * 2) (decompress2 pool output width height input)
  unfolding decompress2
  decompress2-InBounds pool output e =
      let out = pooled pool (width * height) in
      answer-InBounds (width * height) (width * height * 2) width height _ _ _
        (λ vs h. written-InBounds (width * height) vs output h e) (λ vs h. e) refl
        (decode-Sound pixel16 width height wide out input pixel16-Shortens
          (length-pooled pool (width * height)))

  decompress3-InBounds :
      (output : List ℕ)
      → length output ≡ width * height * 3
      → InBounds (width * height * 3) (decompress3 output width height input)
  unfolding decompress3
  decompress3-InBounds output e =
      let n = width * height in
      answer-InBounds n (n * 3) width height _ _ _ (λ out h. omega (arith, length-bytes24 out))
        (λ out h. omega (arith, length-bytes24 out)) refl
        (decode-Sound pixel24 width height wide (pixels24 output) input pixel24-Shortens
          (length-pixels24 n output (omega arith)))

  -- `DecompressInto` of a bitmap of a width above 0 at any depth but 32 bits a pixel returns, for any input,
  -- an output of the bitmap's size, or panics for want of input: it never writes or reads outside the
  -- output, and its loops end.
  pub decompress_into-InBounds :
      (pool : Option (List ℕ)) (dst : List ℕ) (bpp : ℕ)
      → bpp ≢ 4
      → InBounds (width * height * bpp) (decompress_into pool input dst width height bpp)
  unfolding decompress_into
  decompress_into-InBounds pool dst bpp h =
      let n = width * height * bpp in
      if-InBounds n (bpp == 1) _ _
        (λ e.
          let one : bpp ≡ 1 = ground arith in
          let unit : width * height * 1 ≡ width * height = omega arith in
          rw (one, unit)
            (decompress1-InBounds (sized dst (width * height)) (length-sized dst (width * height))))
        (λ e1.
          if-InBounds n (bpp == 2) _ _
            (λ e.
              let two : bpp ≡ 2 = ground arith in
              rw two (
                decompress2-InBounds pool (sized dst (width * height * 2))
                  (length-sized dst (width * height * 2))))
            (λ e2.
              if-InBounds n (bpp == 3) _ _
                (λ e.
                  let three : bpp ≡ 3 = ground arith in
                  rw three (
                    decompress3-InBounds (sized dst (width * height * 3))
                      (length-sized dst (width * height * 3))))
                (λ e3. rw (≢→==_false bpp 4 h) (length-sized dst n))))
