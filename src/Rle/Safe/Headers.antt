-- ===== src/Rle/Safe/Headers.antt =====
-- The header of an order takes input, and leaves the output and the cursor as they are.
use grdp.Prelude.{
  ℕ, ◌-◌, ◌/◌, ◌%◌, ◌^◌, ◌≤◌, ◌<◌, ◌≡◌, refl, List, ◌==◌, ◌&&◌, ◌||◌, not, leb, ltb, length, arith,
}
use grdp.Rle.Pixels.{Pixel, cval}
use grdp.Rle.State.{State, or_exhausted}
use grdp.Rle.Orders.{Header, strange_count, long_count, read_header, prepare, read_order, repeats}
use grdp.Rle.Safe.{
  Holds, Holds-bind, Holds-map, Holds-if, Holds-or_exhausted, cval-shortens, Shortens,
}

-- A header with so much input left, at most.
Left : ℕ → Header → Type 0
Left l (opcode, count, r) = length r ≤ l

-- The variables that an order's preliminary data do not change.
pub record Kept {P : Type 0} (st st' : State P) : Type 0 where
  pub same_out : st'.out ≡ st.out
  pub same_x : st'.x ≡ st.x
  pub same_height : st'.height ≡ st.height
  pub same_prevline : st'.prevline ≡ st.prevline
  pub same_line : st'.line ≡ st.line
  pub less_input : length st'.input ≤ length st.input

module _ (P : Type 0) (n : ℕ) where
  Taken : List ℕ → ℕ × List ℕ → Type 0
  Taken input c = length c.1 < length input

  cval-Taken : (input : List ℕ) → Holds {P = P} n (Taken input) (or_exhausted (cval input))
  unfolding Taken
  cval-Taken input =
      Holds-or_exhausted P n (λ c. length c.1 < length input) (cval input) (cval-shortens input)

  strange_count-Left :
      (offset opcode count : ℕ) (input : List ℕ)
      → Holds {P = P} n (Left (length input)) (strange_count offset opcode count input)
  unfolding strange_count Left Taken
  strange_count-Left offset opcode count input =
      Holds-if n (Left (length input)) (count == 0) _ _
        (λ e.
          Holds-bind n (Taken input) (Left (length input)) (or_exhausted (cval input)) _
            (cval-Taken input) (λ c h. omega arith))
        (λ e. omega arith)

  long_count-Left :
      (opcode : ℕ) (input : List ℕ)
      → Holds {P = P} n (Left (length input)) (long_count opcode input)
  unfolding long_count Left Taken
  long_count-Left opcode input =
      Holds-if n (Left (length input)) (ltb opcode 9) _ _
        (λ e.
          Holds-bind n (Taken input) (Left (length input)) (or_exhausted (cval input)) _
            (cval-Taken input)
            (λ c h.
              Holds-bind n (Taken c.1) (Left (length input)) (or_exhausted (cval c.1)) _
                (cval-Taken c.1) (λ c' h'. omega arith)))
        (λ e. omega arith)

  -- Some input is taken.
  Read : List ℕ → Header → Type 0
  Read input (opcode, count, r) = length r < length input

  read_header-Read : (input : List ℕ) → Holds {P = P} n (Read input) (read_header input)
  unfolding read_header Read Taken Left
  read_header-Read input =
      Holds-bind n (Taken input) (Read input) (or_exhausted (cval input)) _ (cval-Taken input)
        (λ c h.
          let high = c.0 / 2 ^ 4 in
          Holds-if n (Read input) (leb 0xc high && leb high 0xe) _ _
            (λ e.
              Holds-map n (Left (length c.1)) (Read input) _
                (strange_count-Left 16 (high - 6) (c.0 % 2 ^ 4) c.1) (λ x l. omega arith))
            (λ e.
              Holds-if n (Read input) (high == 0xf) _ _
                (λ e'.
                  Holds-map n (Left (length c.1)) (Read input) _ (long_count-Left (c.0 % 2 ^ 4) c.1)
                    (λ x l. omega arith))
                (λ e'.
                  Holds-map n (Left (length c.1)) (Read input) _
                    (strange_count-Left 32 (high / 2) (c.0 % 2 ^ 5) c.1) (λ x l. omega arith))))

kept :
    {P : Type 0} (st st' : State P)
    → st'.out ≡ st.out
    → st'.x ≡ st.x
    → st'.height ≡ st.height
    → st'.prevline ≡ st.prevline
    → st'.line ≡ st.line
    → length st'.input ≤ length st.input
    → Kept st st'
kept st st' o x h p l i = record {
  same_out = o;
  same_x = x;
  same_height = h;
  same_prevline = p;
  same_line = l;
  less_input = i;
}

module _ {P : Type 0} (px : Pixel P) (width n : ℕ) (shortens : Shortens px) where
  pixel-Taken :
      (input : List ℕ)
      → Holds {P = P} n (λ c. length c.1 < length input) (or_exhausted (px.take_pixel input))
  pixel-Taken input =
      Holds-or_exhausted P n (λ c. length c.1 < length input) (px.take_pixel input) (shortens input)

  prepare-Kept : (opcode : ℕ) (st : State P) → Holds n (Kept st) (prepare px width opcode st)
  unfolding prepare
  prepare-Kept opcode st =
      let K = Kept st in
      let T : List ℕ → P × List ℕ → Type 0 = λ input c. length c.1 < length input in
      let pixel = or_exhausted (px.take_pixel st.input) in
      Holds-if n K (opcode == 0) _ _
        (λ e.
          Holds-if n K (repeats st.lastopcode opcode && not ((st.x == width) && (st.prevline == 0)))
            _ _ (λ e'. kept st _ refl refl refl refl refl (omega arith))
            (λ e'. kept st _ refl refl refl refl refl (omega arith)))
        (λ e.
          Holds-if n K (opcode == 8) _ _
            (λ e8. Holds-bind n (T st.input) K pixel _ (pixel-Taken st.input) (λ c h.
              Holds-bind n (T c.1) K (or_exhausted (px.take_pixel c.1)) _ (pixel-Taken c.1)
                (λ c' h'. kept st _ refl refl refl refl refl (omega arith))))
            (λ e8.
              Holds-if n K (opcode == 3) _ _
                (λ e3.
                  Holds-bind n (T st.input) K pixel _ (pixel-Taken st.input)
                    (λ c h. kept st _ refl refl refl refl refl (omega arith)))
                (λ e3.
                  Holds-if n K ((opcode == 6) || (opcode == 7)) _ _
                    (λ e6.
                      Holds-bind n (T st.input) K pixel _ (pixel-Taken st.input)
                        (λ c h. kept st _ refl refl refl refl refl (omega arith)))
                    (λ e6.
                      Holds-if n K (opcode == 9) _ _
                        (λ e9. kept st _ refl refl refl refl refl (omega arith))
                        (λ e9.
                          Holds-if n K (opcode == 0x0a) _ _
                            (λ e10. kept st _ refl refl refl refl refl (omega arith))
                            (λ e10. kept st _ refl refl refl refl refl (omega arith)))))))

  pub read_order-Kept :
      (st : State P)
      → Holds n (λ st'. Kept st st' × (length st'.input < length st.input)) (read_order px width st)
  unfolding read_order Read
  read_order-Kept st =
      let Q : State P → Type 0 = λ st'. Kept st st' × (length st'.input < length st.input) in
      Holds-bind n (Read P n st.input) Q (read_header st.input) _ (read_header-Read P n st.input)
        (λ (opcode, count, r) h.
          let b : State P = record st { fom_mask = 0; count = count; input = r } in
          Holds-map n (Kept b) Q (prepare px width opcode b) (prepare-Kept opcode b) (λ c k. (
            kept st c k.same_out k.same_x k.same_height k.same_prevline k.same_line
                (omega (arith, k.less_input)),
            omega (arith, k.less_input),
          )))
