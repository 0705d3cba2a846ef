-- ===== src/Rle/State.antt =====
-- core/rle.go: the variables of `decompress1`, `decompress2` and `decompress3`, and how a call ends.
use grdp.Prelude.{
  ℕ, ◌+◌, List, ◌++◌, Option, none, some, Bool, leb, if◌then◌else◌, length, take, drop,
}

-- `out` holds pixels: the element `p` stands for the byte `p` in `decompress1`, and for the bytes `3 * p`
-- to `3 * p + 2` in `decompress3`, whose `line` and `prevline` are three times those kept here.
-- `lastopcode` is `none` for -1.
pub record State (P : Type 0) : Type 0 where
  pub out : List P
  pub input : List ℕ
  pub x : ℕ
  pub height : ℕ
  pub prevline : ℕ
  pub line : ℕ
  pub count : ℕ
  pub opcode : ℕ
  pub lastopcode : Option ℕ
  pub insertmix : Bool
  pub bicolour : Bool
  pub mixmask : ℕ
  pub mask : ℕ
  pub fom_mask : ℕ
  pub colour1 : P
  pub colour2 : P
  pub mix : P

-- `return false` with the output as it is by then; a panic, by reading beyond the input or by an index
-- beyond the output; a loop of the model that ran out of fuel.
pub data Stop (P : Type 0) : Type 0 where
  refused : List P → Stop P
  exhausted outside stuck : Stop P

pub data Result (P A : Type 0) : Type 0 where
  ok : A → Result P A
  stop : Stop P → Result P A

infixl 5 ◌>>=◌
abbrev pub ◌>>=◌ : {P A B : Type 0} → Result P A → (A → Result P B) → Result P B
ok a >>= f = f a
stop s >>= f = stop s

module _ {P A : Type 0} where
  abbrev pub or_exhausted : Option A → Result P A
  or_exhausted (some a) = ok a
  or_exhausted none = stop exhausted

  abbrev pub or_outside : Option A → Result P A
  or_outside (some a) = ok a
  or_outside none = stop outside

-- `out[i : i+n]`, and a write of it. The source's slices may reach beyond the length up to the capacity;
-- these may not.
unfoldable pub slice : {P : Type 0} → ℕ → ℕ → List P → Option (List P)
slice i n out = if leb (i + n) (length out) then some (take n (drop i out)) else none

unfoldable pub put : {P : Type 0} → ℕ → List P → List P → Option (List P)
put i ps out =
    if leb (i + length ps) (length out)
    then some (take i out ++ ps ++ drop (i + length ps) out)
    else none
