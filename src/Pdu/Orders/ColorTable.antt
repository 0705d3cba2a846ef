-- ===== src/Pdu/Orders/ColorTable.antt =====
-- protocol/pdu/orders.go: the colour table order. A panic of Go is `none`.
use grdp.Prelude.{
  ℕ, zero, suc, ◌+◌, ◌*◌, List, [], ◌∷◌, ◌++◌, ◌==◌, if◌then◌else◌, Option, none, some, length, ltb,
  take, drop, replicate,
}
use mathlib.Core.Option.{map as map_option}
use grdp.Pdu.Reads.{uint8, uint16}
use grdp.Pdu.Orders.Fields.{Colour, update_read_color_ref}

pub record CacheColorTableOrder : Type 0 where
  pub cache_index : ℕ
  pub number_colors : ℕ
  pub color_table : List ℕ

-- `t[i], t[i+1], t[i+2], t[i+3] = c`
unfoldable pub put_color : List ℕ → ℕ → Colour → Option (List ℕ)
put_color t i (b, g, r, a) =
    if ltb (i + 3) (length t)
    then some (take i t ++ (b ∷ g ∷ r ∷ a ∷ []) ++ drop (i + 4) t)
    else none

-- The loop from round i on, with as many rounds as are left.
unfoldable pub color_loop : ℕ → ℕ → List ℕ → List ℕ → Option (List ℕ)
unfolding update_read_color_ref put_color
color_loop zero i t r = some t
color_loop (suc left) i t r =
    let (c, r') = update_read_color_ref r in
    elim (put_color t i c) [ none ↦ none | some t' ↦ color_loop left (i + 1) t' r' ]

unfoldable pub update_cache_color_table_order : List ℕ → Option CacheColorTableOrder
unfolding uint8 uint16 color_loop
update_cache_color_table_order r =
    let (index, r1) = uint8 r in
    let (number, r2) = uint16 r1 in
    let full : List ℕ → CacheColorTableOrder =
      λ t. record { cache_index = index; number_colors = number; color_table = t } in
    if number == 256
    then map_option full (color_loop (number * 4) 0 (replicate 1024 0) r2)
    else some (full (replicate 1024 0))
