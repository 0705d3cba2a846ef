-- ===== src/Rle/Copies.antt =====
-- core/rle.go: a bitmap that is sent as one order of raw pixels.
use grdp.Prelude.{
  ℕ, zero, suc, ◌+◌, ◌-◌, ◌*◌, ◌^◌, min, ◌≤◌, ◌<◌, ◌≡◌, refl, sym, ap, ◌∙◌, List, [], ◌∷◌, ◌++◌,
  some, true, false, ◌==◌, leb, length, take, drop, arith, le→leb, append_assoc, append-nil,
  length-append, length-take, drop-append, length-drop, bit_or,
}
use native.Mathlib.Nat.{suc-mul}
use grdp.Rle.Pixels.{pixel8, cval}
use grdp.Rle.State.{State, ok, ◌>>=◌, put}
use grdp.Rle.Draw.{paint, take_pixels, copy_run}
use grdp.Rle.Orders.{long_count, read_header, prepare, read_order}
use grdp.Rle.Rounds.{draw, next_row, rounds, draw_order, orders, start, decode}
use grdp.Rle.{decompress1}

-- The rows from the last to the first: the source draws from the bottom.
abbrev pub upside_down : ℕ → ℕ → List ℕ → List ℕ
upside_down width zero pixels = []
upside_down width (suc height) pixels =
    upside_down width height (drop width pixels) ++ take width pixels

take_pixels-take :
    (width n : ℕ) (input : List ℕ)
    → n ≤ length input
    → take_pixels pixel8 width n input ≡ some (take n input, drop n input)
unfolding take_pixels cval
take_pixels-take width zero input h = refl
take_pixels-take width (suc n) [] h = absurd (omega arith)
take_pixels-take width (suc n) (b ∷ input) h =
    rw (take_pixels-take width n input (omega arith)) refl

drop-append_left : (n : ℕ) (pre post : List ℕ) → n ≡ length pre → drop n (pre ++ post) ≡ post
drop-append_left n pre post e = rw e (drop-append pre post)

take-append_left : (n : ℕ) (pre post : List ℕ) → n ≤ length pre → take n (pre ++ post) ≡ take n pre
take-append_left zero pre post h = refl
take-append_left (suc n) [] post h = absurd (omega arith)
take-append_left (suc n) (b ∷ pre) post h =
    ap (λ r. b ∷ r) (take-append_left n pre post (omega arith))

-- A write of a row before `post`.
put-row :
    (i : ℕ) (pre ps post : List ℕ)
    → i + length ps ≡ length pre
    → put i ps (pre ++ post) ≡ some (take i pre ++ (ps ++ post))
unfolding put
put-row i pre ps post e =
    let fits : leb (i + length ps) (length (pre ++ post)) ≡ true =
      le→leb (i + length ps) (length (pre ++ post)) (omega (arith, length-append pre post)) in
    rw
      (
        fits,
        take-append_left i pre post (omega arith),
        drop-append_left (i + length ps) pre post e,
        append_assoc (take i pre) ps post,
      )
      refl

-- A state of `decompress1` in an order of raw pixels that is the first.
abbrev copying : List ℕ → List ℕ → (x height prevline line count : ℕ) → State ℕ
copying out input x height prevline line count = record {
  out = out;
  input = input;
  x = x;
  height = height;
  prevline = prevline;
  line = line;
  count = count;
  opcode = 4;
  lastopcode = some 4;
  insertmix = false;
  bicolour = false;
  mixmask = 0;
  mask = 0;
  fom_mask = 0;
  colour1 = 0;
  colour2 = 0;
  mix = 0xff;
}

module _ (width : ℕ) (wide : 0 < width) where
  next_row-copying :
      (out input : List ℕ) (h p l count : ℕ)
      → next_row pixel8 width (copying out input width (suc h) p l count)
        ≡ ok (copying out input 0 h l (h * width) count)
  unfolding next_row
  next_row-copying out input h p l count =
      let full : leb width width ≡ true = le→leb width width (omega arith) in
      let more : (suc h == 0) ≡ false = ground arith in
      let less : suc h - 1 ≡ h = omega arith in rw (full, more, less) refl

  paint-copying :
      (pre post ps input : List ℕ) (h p : ℕ)
      → length pre ≡ suc h * width
      → length ps ≡ width
      → paint pixel8 width ps (copying (pre ++ post) input 0 h p (h * width) (suc h * width))
        ≡ ok
            (copying (take (h * width) pre ++ (ps ++ post)) input width h p (h * width) (h * width))
  paint-copying pre post ps input h p e row =
      let rows : suc h * width ≡ h * width + width = suc-mul h width in
      let left : suc h * width - width ≡ h * width = omega arith in
      let over : 0 + width ≡ width = omega arith in
      let place : 0 + h * width ≡ h * width = omega arith in
      rw (place, put-row (h * width) pre ps post (omega arith), row, left, over) refl

  draw-copying :
      (pre post input : List ℕ) (h p : ℕ)
      → length pre ≡ suc h * width
      → length input ≡ suc h * width
      → draw pixel8 width (copying (pre ++ post) input 0 h p (h * width) (suc h * width))
        ≡ ok (
            copying
              (take (h * width) pre ++ (take width input ++ post))
              (drop width input)
              width
              h
              p
              (h * width)
              (h * width))
  unfolding draw copy_run
  draw-copying pre post input h p e e' =
      let rows : suc h * width ≡ h * width + width = suc-mul h width in
      let run : min (suc h * width) (width - 0) ≡ width = omega arith in
      let row : length (take width input) ≡ width = omega (arith, length-take width input) in
      rw (copy_run, run, take_pixels-take width width input (omega arith))
        (paint-copying pre post (take width input) (drop width input) h p e row)

  -- The rows that are left of the order.
  rounds-copying :
      (h fuel : ℕ) (pre post input : List ℕ) (p l : ℕ)
      → length pre ≡ h * width
      → length input ≡ h * width
      → h ≤ fuel
      → (p' : ℕ) × (l' : ℕ) × (rounds pixel8 width fuel
            (copying (pre ++ post) input width h p l (h * width))
          ≡ ok (copying (upside_down width h input ++ post) [] width 0 p' l' 0))
  unfolding rounds
  rounds-copying zero fuel [] post [] p l e e' le =
      let none_left : 0 * width ≡ 0 = omega arith in (p, l, rw none_left (done fuel))
    where
      done :
          (fuel : ℕ)
          → rounds pixel8 width fuel (copying post [] width 0 p l 0)
            ≡ ok (copying post [] width 0 p l 0)
      done zero = refl
      done (suc f) = refl
  rounds-copying zero fuel (b ∷ pre) post input p l e e' le = absurd (omega arith)
  rounds-copying zero fuel [] post (b ∷ input) p l e e' le = absurd (omega arith)
  rounds-copying (suc h) zero pre post input p l e e' le = absurd (omega arith)
  rounds-copying (suc h) (suc fuel) pre post input p l e e' le =
      let rows : suc h * width ≡ h * width + width = suc-mul h width in
      let some_left : (suc h * width == 0) ≡ false = ground arith in
      let (p', l', r) =
        rounds-copying h fuel (take (h * width) pre) (take width input ++ post) (drop width input) l
          (h * width) (omega (arith, length-take (h * width) pre))
          (omega (arith, length-drop width input)) (omega arith) in
      (
        p',
        l',
        rw
            (
              some_left,
              next_row-copying (pre ++ post) input h p l (suc h * width),
              draw-copying pre post input h l e e',
              r,
              append_assoc (upside_down width h (drop width input)) (take width input) post,
            )
            refl,
      )

read_order-copying :
    (width height count lo hi : ℕ) (output pixels : List ℕ)
    → bit_or lo (hi * 2 ^ 8) ≡ count
    → read_order pixel8 width (start pixel8 width height output (0xf4 ∷ lo ∷ hi ∷ pixels))
      ≡ ok (copying output pixels width height 0 0 count)
unfolding read_order read_header long_count prepare start cval
read_order-copying width height count lo hi output pixels e = rw e refl

orders-one :
    (width fuel : ℕ) (st : State ℕ)
    → (length st.input == 0) ≡ false
    → orders pixel8 width (suc fuel) st
      ≡ (read_order pixel8 width st >>= draw_order pixel8 width >>= orders pixel8 width fuel)
unfolding orders
orders-one width fuel st e = rw e refl

decode-copying :
    (width height count lo hi : ℕ) (output pixels : List ℕ)
    → bit_or lo (hi * 2 ^ 8) ≡ count
    → decode pixel8 width height output (0xf4 ∷ lo ∷ hi ∷ pixels) ≡ (
        draw_order pixel8 width (copying output pixels width height 0 0 count)
        >>= orders pixel8 width (suc (suc (length pixels))))
unfolding decode
decode-copying width height count lo hi output pixels e =
    let st = start pixel8 width height output (0xf4 ∷ lo ∷ hi ∷ pixels) in
    orders-one width (suc (suc (length pixels))) st (ground arith)
    ∙ ap (λ r. r >>= draw_order pixel8 width >>= orders pixel8 width (suc (suc (length pixels))))
        (read_order-copying width height count lo hi output pixels e)

-- A bitmap of 8 bits a pixel that is sent as one order of raw pixels, with their number as its count, is
-- drawn whole, its rows from the bottom up, on any output of its size; the width is above 0.
pub decompress1-upside_down :
    (width height lo hi : ℕ) (output pixels : List ℕ)
    → 0 < width
    → bit_or lo (hi * 2 ^ 8) ≡ height * width
    → length output ≡ height * width
    → length pixels ≡ height * width
    → decompress1 output width height (0xf4 ∷ lo ∷ hi ∷ pixels)
      ≡ ok (true, upside_down width height pixels)
unfolding decompress1 draw_order
decompress1-upside_down width height lo hi output pixels wide count size all =
    let (p, l, drawn) =
      rounds-copying width wide height (height + 2) output [] pixels 0 0 size all (omega arith) in
    rw
      (
        decode-copying width height (height * width) lo hi output pixels count,
        sym (append-nil output),
        drawn,
        append-nil (upside_down width height pixels),
      )
      refl
