-- ===== src/Pdu/Orders/Caches.antt =====
-- protocol/pdu/orders.go: which cache orders panic, and the pixels of a compressed brush.
use grdp.Prelude.{
  ℕ, zero, suc, ◌+◌, ◌*◌, ◌/◌, ◌%◌, ◌≤◌, ◌<◌, ◌≡◌, ◌↔◌, refl, ap, ◌∙◌, sym, List, [], ◌∷◌, ◌++◌,
  true, false, bit_and, ◌==◌, none, some, length, ltb, take, drop, replicate, arith, Bool-cases,
  length-append, length-take, length-drop, get_elem?, inl, inr, append_assoc, append-nil, All,
  take-append, drop-append,
}
use mathlib.Core.Option.{some-ne-none}
use native.Mathlib.Nat.{mul-le-mul_right, suc-mul}
use grdp.Prelude.Bits.{low_two}
use grdp.Pdu.Reads.{uint8, uint16}
use grdp.Pdu.Orders.Fields.{Colour, update_read_color_ref}
use grdp.Pdu.Orders.ColorTable.{put_color, color_loop, update_cache_color_table_order}
use grdp.Pdu.Orders.Brushes.{◌>>=◌, palette_entry, brush_byte, brush_rows, update_decompress_brush}

length-put_color :
    (t : List ℕ) (i : ℕ) (c : Colour)
    → i + 3 < length t
    → (t' : List ℕ) × (put_color t i c ≡ some t') × (length t' ≡ length t)
unfolding put_color
length-put_color t i (b, g, r, a) h =
    let s = take i t ++ (b ∷ g ∷ r ∷ a ∷ []) ++ drop (i + 4) t in
    let e : ltb (i + 3) (length t) ≡ true = ground arith in
    let l : length s ≡ length t = omega (
      arith,
      length-append (take i t ++ (b ∷ g ∷ r ∷ a ∷ [])) (drop (i + 4) t),
      length-append (take i t) (b ∷ g ∷ r ∷ a ∷ []),
      length-take i t,
      length-drop (i + 4) t,
    ) in
    (s, rw e refl, l)

put_color_outside : (t : List ℕ) (i : ℕ) (c : Colour) → length t ≤ i + 3 → put_color t i c ≡ none
unfolding put_color
put_color_outside t i (b, g, r, a) h = let e : ltb (i + 3) (length t) ≡ false = ground arith in rw e

color_loop_outside :
    (left i : ℕ) (t r : List ℕ) → 0 < left → length t < i + left + 3 → color_loop left i t r ≡ none
unfolding color_loop
color_loop_outside zero i t r h k = absurd (omega arith)
color_loop_outside (suc left) i t r h k =
    let (c, r') = update_read_color_ref r in
    elim (Bool-cases (ltb (i + 3) (length t))) [
      | inl e ↦
          let (t', p, l) = length-put_color t i c (ground arith) in
          rw (p, color_loop) (color_loop_outside left (i + 1) t' r' (ground arith) (omega arith))
      | inr e ↦ rw (put_color_outside t i c (ground arith), color_loop)
    ]

all_colors : (n : ℕ) (r : List ℕ) → n ≡ 256 → color_loop (n * 4) 0 (replicate 1024 0) r ≡ none
all_colors n r h =
    let l : length {A = ℕ} (replicate 1024 0) ≡ 1024 = refl in
    color_loop_outside (n * 4) 0 (replicate 1024 0) r (omega arith) (omega arith)

colors_crash : (r : List ℕ) → (uint16 (uint8 r).1).0 ≡ 256 → update_cache_color_table_order r ≡ none
unfolding update_cache_color_table_order
colors_crash r h =
    let e : ((uint16 (uint8 r).1).0 == 256) ≡ true = ground arith in
    rw (e, all_colors (uint16 (uint8 r).1).0 (uint16 (uint8 r).1).1 h)

others_pass :
    (r : List ℕ)
    → ((uint16 (uint8 r).1).0 == 256) ≡ false
    → update_cache_color_table_order r ≡ none
    → ⊥
unfolding update_cache_color_table_order
others_pass r e h = some-ne-none _ (rw e at h)

-- A colour table order panics exactly when it announces 256 colours.
pub color_table_crash :
    (r : List ℕ) → (update_cache_color_table_order r ≡ none) ↔ ((uint16 (uint8 r).1).0 ≡ 256)
color_table_crash r = elim (Bool-cases ((uint16 (uint8 r).1).0 == 256)) [
  | inl e ↦ (λ _. ground arith, colors_crash r)
  | inr e ↦ (λ h. absurd (others_pass r e h), colors_crash r)
]

-- A picture of 8 by 8 is a list of rows, top to bottom, each of two groups of four palette indices.
abbrev pub Four : Type 0
Four = ℕ × ℕ × ℕ × ℕ

abbrev pub IsFour : Four → Type 0
IsFour (a, b, c, d) = (a < 4) × (b < 4) × (c < 4) × (d < 4)

abbrev pub pack_four : Four → ℕ
pack_four (a, b, c, d) = a * 64 + b * 16 + c * 4 + d

-- The rows as the server sends them: the last row first.
abbrev pub pack_rows : List (Four × Four) → List ℕ
pack_rows [] = []
pack_rows ((l, r) ∷ rows) = pack_rows rows ++ (pack_four l ∷ pack_four r ∷ [])

abbrev pub entry : List ℕ → ℕ → ℕ → List ℕ
entry pal n i = take n (drop (i * n) pal)

abbrev pub four_pixels : List ℕ → ℕ → Four → List ℕ
four_pixels pal n (a, b, c, d) = entry pal n a ++ entry pal n b ++ entry pal n c ++ entry pal n d

-- The picture as bytes, top to bottom.
abbrev pub picture : List ℕ → ℕ → List (Four × Four) → List ℕ
picture pal n [] = []
picture pal n ((l, r) ∷ rows) = four_pixels pal n l ++ four_pixels pal n r ++ picture pal n rows

at_suc :
    (i : ℕ) (pal : List ℕ)
    → i < length pal
    → (v : ℕ) × (get_elem? pal i ≡ some v) × (drop i pal ≡ v ∷ drop (suc i) pal)
at_suc i [] h = absurd (omega arith)
at_suc zero (v ∷ pal) h = (v, refl, refl)
at_suc (suc i) (v ∷ pal) h = at_suc i pal (omega arith)

at_index :
    (i : ℕ) (pal : List ℕ)
    → i < length pal
    → (v : ℕ) × (get_elem? pal i ≡ some v) × (drop i pal ≡ v ∷ drop (i + 1) pal)
at_index i pal h =
    let (v, g, e) = at_suc i pal h in
    let s : suc i ≡ i + 1 = omega arith in (v, g, e ∙ ap (λ (k : ℕ). v ∷ drop k pal) s)

palette_entry-take :
    (pal : List ℕ) (from n : ℕ)
    → from + n ≤ length pal
    → palette_entry pal from n ≡ some (take n (drop from pal))
unfolding palette_entry ◌>>=◌
palette_entry-take pal from zero h = refl
palette_entry-take pal from (suc n) h =
    let (v, g, e) = at_index from pal (omega arith) in
    rw (g, e, palette_entry-take pal (from + 1) n (omega arith))

entry_found :
    (pal : List ℕ) (n x i : ℕ)
    → length pal ≡ 4 * n
    → i < 4
    → x < 256
    → x % 4 ≡ i
    → palette_entry pal (bit_and x 3 * n) n ≡ some (entry pal n i)
entry_found pal n x i h k l e =
    let m : i * n + n ≤ length pal =
      ground (arith, mul-le-mul_right {m = suc i} {n = 4} n (omega arith), suc-mul i n) in
    rw (low_two x l, e) (palette_entry-take pal (i * n) n m)

brush_byte-pack_four :
    (pal : List ℕ) (n : ℕ) (f : Four)
    → length pal ≡ 4 * n
    → IsFour f
    → brush_byte pal n (pack_four f) ≡ some (four_pixels pal n f)
unfolding brush_byte ◌>>=◌
brush_byte-pack_four pal n (a, b, c, d) h (ha, hb, hc, hd) =
    let x = a * 64 + b * 16 + c * 4 + d in
    rw (
      entry_found pal n (x / 64) a h ha (omega arith) (omega arith),
      entry_found pal n (x / 16) b h hb (omega arith) (omega arith),
      entry_found pal n (x / 4) c h hc (omega arith) (omega arith),
      entry_found pal n x d h hd (omega arith) (omega arith),
    )

brush_rows-pack_rows :
    (pal : List ℕ) (n : ℕ) (rows : List (Four × Four)) (rest below : List ℕ)
    → length pal ≡ 4 * n
    → All (λ (l, r). IsFour l × IsFour r) rows
    → brush_rows pal n (pack_rows rows ++ rest) below
      ≡ brush_rows pal n rest (picture pal n rows ++ below)
unfolding brush_rows ◌>>=◌
brush_rows-pack_rows pal n [] rest below h hs = refl
brush_rows-pack_rows pal n ((l, r) ∷ rows) rest below h ((hl, hr), hs) =
    rw
      (
        append_assoc (pack_rows rows) (pack_four l ∷ pack_four r ∷ []) rest,
        brush_rows-pack_rows pal n rows (pack_four l ∷ pack_four r ∷ rest) below h hs,
        brush_byte-pack_four pal n l h hl,
        brush_byte-pack_four pal n r h hr,
      )
      (ap (brush_rows pal n rest) (
        sym (append_assoc (four_pixels pal n l ++ four_pixels pal n r) (picture pal n rows) below)))

length-pack_rows : (rows : List (Four × Four)) → length (pack_rows rows) ≡ 2 * length rows
length-pack_rows [] = refl
length-pack_rows ((l, r) ∷ rows) =
    omega (
      arith,
      length-pack_rows rows,
      length-append (pack_rows rows) (pack_four l ∷ pack_four r ∷ []),
    )

-- A compressed brush of 8 by 8 pixels is unpacked to the picture it stands for.
pub update_decompress_brush-pack_rows :
    (pal : List ℕ) (n : ℕ) (rows : List (Four × Four))
    → length pal ≡ 4 * n
    → length rows ≡ 8
    → All (λ (l, r). IsFour l × IsFour r) rows
    → update_decompress_brush (pack_rows rows ++ pal) n ≡ some (picture pal n rows)
unfolding update_decompress_brush brush_rows
update_decompress_brush-pack_rows pal n rows h k hs =
    let l : length (pack_rows rows) ≡ 16 = omega (arith, length-pack_rows rows) in
    let e : ltb (length (pack_rows rows ++ pal)) 16 ≡ false =
      ground (arith, length-append (pack_rows rows) pal) in
    let taken : take 16 (pack_rows rows ++ pal) ≡ pack_rows rows =
      rw l at (take-append (pack_rows rows) pal) in
    let left : drop 16 (pack_rows rows ++ pal) ≡ pal = rw l at (drop-append (pack_rows rows) pal) in
    rw (e, taken, left)
      (ap (λ t. brush_rows pal n t []) (sym (append-nil (pack_rows rows)))
        ∙ brush_rows-pack_rows pal n rows [] [] h hs
        ∙ ap some (append-nil (picture pal n rows)))
