-- ===== src/Rle/Rounds.antt =====
-- core/rle.go: the loops of `decompress1`, `decompress2` and `decompress3`, over the rows of an order and
-- over the orders of the input.
use grdp.Prelude.{
  ℕ, zero, suc, ◌+◌, ◌-◌, ◌*◌, List, none, false, leb, ◌==◌, if◌then◌else◌, length, replicate,
}
use grdp.Rle.Pixels.{Pixel}
use grdp.Rle.State.{State, Result, ok, stop, refused, stuck, ◌>>=◌}
use grdp.Rle.Orders.{read_order}
use grdp.Rle.Draw.{
  paint, flat, run_length, insert_mix, fill_run, mix_run, fill_or_mix, copy_run, bicolour_loop,
}

module _ {P : Type 0} (px : Pixel P) (width : ℕ) where
  -- The pixels of an order in one row.
  unfoldable pub draw : State P → Result P (State P)
  draw st =
      if st.opcode == 0
      then insert_mix px width st >>= fill_run px width
      else if st.opcode == 1
      then mix_run px width st
      else if st.opcode == 2
      then fill_or_mix px width st
      else if st.opcode == 3
      then flat px width st.colour2 st
      else if st.opcode == 4
      then copy_run px width st
      else if st.opcode == 8
      then bicolour_loop px width (width - st.x) st
      else if st.opcode == 0xd
      then paint px width (replicate (run_length px width st) px.white) st
      else if st.opcode == 0xe
      then paint px width (replicate (run_length px width st) px.black) st
      else stop (refused st.out)

  unfoldable pub next_row : State P → Result P (State P)
  next_row st =
      if leb width st.x
      then (if st.height == 0
          then stop (refused st.out)
          else ok (record st {
            x = 0;
            height = st.height - 1;
            prevline = st.line;
            line = (st.height - 1) * width;
          }))
      else ok st

  -- A round either ends the order or fills the row, and a round in a full row takes one row of `height`.
  unfoldable pub rounds : ℕ → State P → Result P (State P)
  unfolding next_row draw
  rounds zero st = if st.count == 0 then ok st else stop stuck
  rounds (suc fuel) st = if st.count == 0 then ok st else next_row st >>= draw >>= rounds fuel

  unfoldable pub draw_order : State P → Result P (State P)
  unfolding rounds
  draw_order st = rounds (st.height + 2) st

  -- An order takes a byte at least.
  unfoldable pub orders : ℕ → State P → Result P (State P)
  unfolding read_order draw_order
  orders zero st = if length st.input == 0 then ok st else stop stuck
  orders (suc fuel) st =
      if length st.input == 0 then ok st else read_order px width st >>= draw_order >>= orders fuel

  -- A row is said to be beyond the last by `x = width`.
  unfoldable pub start : ℕ → List P → List ℕ → State P
  start height out input = record {
    out = out;
    input = input;
    x = width;
    height = height;
    prevline = 0;
    line = 0;
    count = 0;
    opcode = 0;
    lastopcode = none;
    insertmix = false;
    bicolour = false;
    mixmask = 0;
    mask = 0;
    fom_mask = 0;
    colour1 = px.black;
    colour2 = px.black;
    mix = px.white;
  }

  unfoldable pub decode : ℕ → List P → List ℕ → Result P (State P)
  unfolding orders start
  decode height out input = orders (length input) (start height out input)
