-- ===== src/Window.antt =====
-- A ring of bytes as a sliding window: the abstract view that the two LZ77 decompressors
-- (core/mppc.go, plugin/rdpgfx/zgfx.go) share. The ring is a function from indices, of which those
-- below `size` matter; `index` is where the next byte goes.
use grdp.Prelude.{
  ℕ, zero, suc, [], ◌∷◌, refl, ap, sym, ◌∙◌, ◌+◌, ◌-◌, ◌<◌, ◌≡◌, List, ◌++◌, ltb, if◌then◌else◌,
  length, get_or, arith, length-append, get_or-append_left, get_or-append_right, lt-or-le, inl, inr,
}

-- The index of the byte that was written `k` bytes before the last one.
abbrev pub slot : ℕ → ℕ → ℕ → ℕ
slot size index k = if ltb k index then index - 1 - k else index + size - 1 - k

-- The ring holds the last bytes of `past`, as many as fit.
abbrev pub Tracks : ℕ → (ℕ → ℕ) → ℕ → List ℕ → Type 0
Tracks size ring index past =
    (k : ℕ)
    → k < size
    → k < length past
    → ring (slot size index k) ≡ get_or past (length past - 1 - k) 0

-- What a write of `block` must do to the window.
abbrev pub Slides : ℕ → (ℕ → ℕ) → ℕ → (ℕ → ℕ) → ℕ → List ℕ → Type 0
Slides size ring index ring' index' block =
    (k : ℕ)
    → k < size
    → ring' (slot size index' k) ≡ (
        if ltb k (length block)
        then get_or block (length block - 1 - k) 0
        else ring (slot size index (k - length block)))

-- A window that slides by a block goes on tracking what was written.
pub Slides-Tracks :
    (size : ℕ) (ring ring' : ℕ → ℕ) (index index' : ℕ) (past block : List ℕ)
    → Slides size ring index ring' index' block
    → Tracks size ring index past
    → Tracks size ring' index' (past ++ block)
Slides-Tracks size ring ring' index index' past block s t k hk hp =
    elim (lt-or-le k (length block)) [
      | inl new ↦ ground (
        arith,
        s k hk,
        length-append past block,
        get_or-append_right past block (length (past ++ block) - 1 - k) 0,
      )
      | inr old ↦ ground (
        arith,
        s k hk,
        t (k - length block),
        length-append past block,
        get_or-append_left past block (length (past ++ block) - 1 - k) 0,
      )
    ]

-- The bytes of the ring from its beginning on.
pub contents : ℕ → (ℕ → ℕ) → List ℕ
contents zero history = []
contents (suc n) history = contents n history ++ history n ∷ []

length-contents : (n : ℕ) (history : ℕ → ℕ) → length (contents n history) ≡ n
unfolding contents
length-contents zero history = refl
length-contents (suc n) history =
    omega (arith, length-append (contents n history) (history n ∷ []), length-contents n history)

get_or-contents : (n i : ℕ) (history : ℕ → ℕ) → i < n → get_or (contents n history) i 0 ≡ history i
unfolding contents
get_or-contents zero i history h = absurd (omega arith)
get_or-contents (suc n) i history h = elim (lt-or-le i n) [
  | inl before ↦
      get_or-append_left (contents n history) (history n ∷ []) i 0
        (omega (arith, length-contents n history, before))
      ∙ get_or-contents n i history before
  | inr last ↦
      let here : i - length (contents n history) ≡ 0 =
        omega (arith, length-contents n history, last, h) in
      let same : n ≡ i = omega (arith, last, h) in
      get_or-append_right (contents n history) (history n ∷ []) i 0
        (omega (arith, length-contents n history, last))
      ∙ rw here (ap history same)
]

-- A ring whose next byte goes to the beginning tracks its bytes in their order.
pub Tracks-contents :
    (size index : ℕ) (ring : ℕ → ℕ) → index ≡ 0 → Tracks size ring index (contents size ring)
Tracks-contents size index ring start k hk hp =
    let at_slot : slot size index k ≡ size - 1 - k = ground (arith, start) in
    ap ring at_slot
    ∙ sym (get_or-contents size (size - 1 - k) ring (omega (arith, hk)))
    ∙ ap (λ (m : ℕ). get_or (contents size ring) (m - 1 - k) 0) (sym (length-contents size ring))
