-- ===== src/Rle/Safe.antt =====
-- The results that a decoder in its output's bounds can have, and how far a piece of a row moves it.
pub mod Pieces
pub mod Draws
pub mod Loop
pub mod Headers
pub mod Decode
use grdp.Prelude.{
  ℕ, zero, suc, ◌+◌, ◌-◌, ◌*◌, min, ◌≤◌, ◌<◌, ◌≡◌, refl, ap, ◌∙◌, sym, List, [], ◌∷◌, ◌++◌, Option,
  none, some, Bool, true, false, ◌⊎◌, inl, inr, ◌==◌, leb, if◌then◌else◌, length, take, drop,
  get_elem?, arith, Bool-cases, le→leb, length-append, length-take, length-drop,
}
use grdp.Rle.Pixels.{Pixel, cval}
use grdp.Rle.State.{
  State, Stop, Result, ok, stop, refused, exhausted, outside, stuck, ◌>>=◌, or_outside,
  or_exhausted, slice, put,
}
use grdp.Rle.Draw.{paint, run_length, above, above_here, background, foreground}

-- `Q` of a result; otherwise the call ends with `n` pixels of output, or for want of input.
abbrev pub Holds : {P A : Type 0} → ℕ → (A → Type 0) → Result P A → Type 0
Holds n Q (ok a) = Q a
Holds n Q (stop (refused out)) = length out ≡ n
Holds n Q (stop exhausted) = Unit
Holds n Q (stop outside) = ⊥
Holds n Q (stop stuck) = ⊥

pub Holds-bind :
    {P A B : Type 0} (n : ℕ) (Q : A → Type 0) (R : B → Type 0) (r : Result P A) (f : A → Result P B)
    → Holds n Q r
    → ((a : A) → Q a → Holds n R (f a))
    → Holds n R (r >>= f)
Holds-bind n Q R (ok a) f h k = k a h
Holds-bind n Q R (stop (refused out)) f h k = h
Holds-bind n Q R (stop exhausted) f h k = tt
Holds-bind n Q R (stop outside) f h k = absurd h
Holds-bind n Q R (stop stuck) f h k = absurd h

pub Holds-map :
    {P A : Type 0} (n : ℕ) (Q R : A → Type 0) (r : Result P A)
    → Holds n Q r
    → ((a : A) → Q a → R a)
    → Holds n R r
Holds-map n Q R (ok a) h k = k a h
Holds-map n Q R (stop (refused out)) h k = h
Holds-map n Q R (stop exhausted) h k = tt
Holds-map n Q R (stop outside) h k = absurd h
Holds-map n Q R (stop stuck) h k = absurd h

pub Holds-if :
    {P A : Type 0} (n : ℕ) (Q : A → Type 0) (b : Bool) (r s : Result P A)
    → ((b ≡ true) → Holds n Q r)
    → ((b ≡ false) → Holds n Q s)
    → Holds n Q (if b then r else s)
Holds-if n Q true r s h k = h refl
Holds-if n Q false r s h k = k refl

abbrev pub Each : {A : Type 0} → (A → Type 0) → Option A → Type 0
Each Q none = Unit
Each Q (some a) = Q a

pub Holds-or_exhausted :
    {A : Type 0} (P : Type 0) (n : ℕ) (Q : A → Type 0) (o : Option A)
    → Each Q o
    → Holds {P = P} n Q (or_exhausted o)
Holds-or_exhausted P n Q none h = tt
Holds-or_exhausted P n Q (some a) h = h

-- A pixel that is read is taken off the input.
abbrev pub Shortens : {P : Type 0} → Pixel P → Type 0
Shortens px = (input : List ℕ) → Each (λ c. length c.1 < length input) (px.take_pixel input)

pub cval-shortens : (input : List ℕ) → Each (λ c. length c.1 < length input) (cval input)
unfolding cval
cval-shortens [] = tt
cval-shortens (b ∷ r) = omega arith

-- From `st` to `st'` the cursor moves by `k` pixels, and the count falls by as many.
pub record Moved {P : Type 0} (k : ℕ) (st st' : State P) : Type 0 where
  pub size : length st'.out ≡ length st.out
  pub same_line : st'.line ≡ st.line
  pub same_prevline : st'.prevline ≡ st.prevline
  pub same_height : st'.height ≡ st.height
  pub less_input : length st'.input ≤ length st.input
  pub moves_x : st'.x ≡ st.x + k
  pub counts : st'.count ≡ st.count - k

-- The row that is drawn and the one above it are rows of the output.
pub record Inside {P : Type 0} (width n : ℕ) (st : State P) : Type 0 where
  pub size : length st.out ≡ n
  pub prev_row : (st.prevline ≡ 0) ⊎ (st.prevline + width ≤ n)
  pub this_row : st.line + width ≤ n
  pub in_row : st.x ≤ width

pub Moved-Inside :
    {P : Type 0} (width n k : ℕ) (st st' : State P)
    → Inside width n st
    → Moved k st st'
    → st.x + k ≤ width
    → Inside width n st'
Moved-Inside width n k st st' i m h = record {
  size = m.size ∙ i.size;
  prev_row = rw m.same_prevline i.prev_row;
  this_row = rw m.same_line i.this_row;
  in_row = rw m.moves_x h;
}

pub Moved-Moved :
    {P : Type 0} (k j : ℕ) (a b c : State P) → Moved k a b → Moved j b c → Moved (k + j) a c
Moved-Moved k j a b c m m' = record {
  size = m'.size ∙ m.size;
  same_line = m'.same_line ∙ m.same_line;
  same_prevline = m'.same_prevline ∙ m.same_prevline;
  same_height = m'.same_height ∙ m.same_height;
  less_input = omega arith;
  moves_x = omega arith;
  counts = omega arith;
}

get_elem?-Inside :
    {P : Type 0} (n i : ℕ) (out : List P)
    → i < length out
    → Holds {P = P} n (λ p. Unit {0}) (or_outside (get_elem? out i))
get_elem?-Inside n i [] h = absurd (omega arith)
get_elem?-Inside n zero (p ∷ out) h = tt
get_elem?-Inside n (suc i) (p ∷ out) h = get_elem?-Inside n i out (omega arith)

pub length-patched :
    {P : Type 0} (i : ℕ) (ps out : List P)
    → i + length ps ≤ length out
    → length (take i out ++ ps ++ drop (i + length ps) out) ≡ length out
length-patched i ps out h =
    rw
      (
        length-append (take i out ++ ps) (drop (i + length ps) out),
        length-append (take i out) ps,
        length-take i out,
        length-drop (i + length ps) out,
      )
      (omega arith)

module _ {P : Type 0} (px : Pixel P) (width n : ℕ) where
  pub paint-Moved :
      (k : ℕ) (ps : List P) (st : State P)
      → length ps ≡ k
      → Inside width n st
      → st.x + k ≤ width
      → Holds n (Moved k st) (paint px width ps st)
  unfolding put
  paint-Moved k ps st e i h =
      let fits : leb (st.x + st.line + length ps) (length st.out) ≡ true =
        le→leb (st.x + st.line + length ps) (length st.out) (omega (arith, i.size)) in
      rw fits record {
        size = length-patched (st.x + st.line) ps st.out (omega (arith, i.size));
        same_line = refl;
        same_prevline = refl;
        same_height = refl;
        less_input = omega arith;
        moves_x = ap (λ l. st.x + l) e;
        counts = ap (λ l. st.count - l) e;
      }

  pub background-Inside :
      (st : State P)
      → Inside width n st
      → st.x < width
      → Holds n (λ p. Unit {0}) (background px width st)
  background-Inside st i h = elim (Bool-cases (st.prevline == 0)) [
    | inl e ↦ rw e tt
    | inr e ↦ rw e (get_elem?-Inside n (st.prevline + st.x) st.out (ground arith))
  ]

  pub foreground-Inside :
      (st : State P)
      → Inside width n st
      → st.x < width
      → Holds n (λ p. Unit {0}) (foreground px width st)
  foreground-Inside st i h = elim (Bool-cases (st.prevline == 0)) [
    | inl e ↦ rw e tt
    | inr e ↦ rw e (
        Holds-bind n (λ p. Unit {0}) (λ p. Unit {0}) (above_here px width st)
          (λ p. ok (px.xor p st.mix))
          (get_elem?-Inside n (st.prevline + st.x) st.out (ground arith)) (λ p u. tt))
  ]

  -- The pixels above a run, as many as the run has.
  pub above-Inside :
      (st : State P)
      → Inside width n st
      → (st.prevline == 0) ≡ false
      → Holds n (λ ps. length ps ≡ run_length px width st) (above px width st)
  unfolding slice
  above-Inside st i e =
      let k = run_length px width st in
      let fits : leb (st.prevline + st.x + k) (length st.out) ≡ true =
        le→leb (st.prevline + st.x + k) (length st.out) (ground arith) in
      rw
        (
          fits,
          length-take k (drop (st.prevline + st.x) st.out),
          length-drop (st.prevline + st.x) st.out,
        )
        (ground arith)
