-- ===== src/Rle/Orders.antt =====
-- core/rle.go: the header of an order, and the data that come before its pixels.
use grdp.Prelude.{
  ℕ, ◌+◌, ◌-◌, ◌*◌, ◌/◌, ◌%◌, ◌^◌, List, Option, none, some, Bool, true, false, bit_or, ltb, leb,
  ◌==◌, ◌&&◌, ◌||◌, not, if◌then◌else◌,
}
use grdp.Rle.Pixels.{Pixel, cval}
use grdp.Rle.State.{State, Result, ok, ◌>>=◌, or_exhausted}

-- The opcode, the count and the rest of the input.
abbrev pub Header : Type 0
Header = ℕ × ℕ × List ℕ

module _ {P : Type 0} where
  -- The second form of the count, for an opcode with an `offset`.
  unfoldable pub strange_count : ℕ → ℕ → ℕ → List ℕ → Result P Header
  unfolding cval
  strange_count offset opcode count input =
      let isfillormix = (opcode == 2) || (opcode == 7) in
      if count == 0
      then or_exhausted (cval input)
        >>= (λ (n, r). ok (opcode, (if isfillormix then n + 1 else n + offset), r))
      else ok (opcode, (if isfillormix then count * 2 ^ 3 else count), input)

  -- An opcode with no offset, after its first byte.
  unfoldable pub long_count : ℕ → List ℕ → Result P Header
  unfolding cval
  long_count opcode r =
      if ltb opcode 9
      then (do
        (low, r') ← or_exhausted (cval r)
        (high, r'') ← or_exhausted (cval r')
        ok (opcode, bit_or low (high * 2 ^ 8), r''))
      else ok (opcode, (if ltb opcode 0xb then 8 else 1), r)

  unfoldable pub read_header : List ℕ → Result P Header
  unfolding cval strange_count long_count
  read_header input = do
    (code, r) ← or_exhausted (cval input)
    let high = code / 2 ^ 4 in
        if leb 0xc high && leb high 0xe
        then strange_count 16 (high - 6) (code % 2 ^ 4) r
        else if high == 0xf
        then long_count (code % 2 ^ 4) r
        else strange_count 32 (high / 2) (code % 2 ^ 5) r

-- The state when the pixels of an order are about to be written.
abbrev pub starts : {P : Type 0} → State P → ℕ → State P
starts st opcode = record st { opcode = opcode; lastopcode = some opcode; mixmask = 0 }

abbrev pub repeats : Option ℕ → ℕ → Bool
repeats none opcode = false
repeats (some last) opcode = last == opcode

module _ {P : Type 0} (px : Pixel P) (width : ℕ) where
  -- The preliminary data of the opcode.
  unfoldable pub prepare : ℕ → State P → Result P (State P)
  prepare opcode st =
      if opcode == 0
      then (if repeats st.lastopcode opcode && not ((st.x == width) && (st.prevline == 0))
          then ok (starts (record st { insertmix = true }) 0)
          else ok (starts st 0))
      else if opcode == 8
      then (do
        (c1, r) ← or_exhausted (px.take_pixel st.input)
        (c2, r') ← or_exhausted (px.take_pixel r)
        ok (starts (record st { colour1 = c1; colour2 = c2; input = r' }) 8))
      else if opcode == 3
      then or_exhausted (px.take_pixel st.input)
        >>= (λ (c, r). ok (starts (record st { colour2 = c; input = r }) 3))
      else if (opcode == 6) || (opcode == 7)
      then or_exhausted (px.take_pixel st.input)
        >>= (λ (c, r). ok (starts (record st { mix = c; input = r }) (opcode - 5)))
      else if opcode == 9
      then ok (starts (record st { mask = 0x03; fom_mask = 3 }) 2)
      else if opcode == 0x0a
      then ok (starts (record st { mask = 0x05; fom_mask = 5 }) 2)
      else ok (starts st opcode)

  -- An order up to its pixels.
  unfoldable pub read_order : State P → Result P (State P)
  unfolding prepare read_header
  read_order st = do
    (opcode, count, r) ← read_header st.input
    prepare opcode (record st { fom_mask = 0; count = count; input = r })
