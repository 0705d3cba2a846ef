-- ===== src/Zgfx/Ring/Match.antt =====
-- A match copies bytes that were written before, also where it overlaps its own output.
use grdp.Prelude.{
  ℕ, ◌+◌, ◌-◌, ◌≤◌, ◌<◌, ◌≡◌, refl, List, [], ◌∷◌, ◌++◌, some, ltb, if◌then◌else◌, length, get_or,
  arith, lt-or-le, inl, inr, length-append, get_or-append_left, get_or-append_right, zero, suc,
  append-nil, le→leb, lt→leb_false, sym, ◌∙◌, ap,
}
use grdp.Window.{Tracks, Slides-Tracks}
use grdp.Zgfx.Ring.{
  ZgfxContext, zgfx_history_size, slice, read_ring, expand, match_block, output_match,
  history_write,
}
use grdp.Zgfx.Ring.Write.{IsValid, history_write-IsValid, history_write-Writes}

length-slice : (h : ℕ → ℕ) (s n : ℕ) → length (slice h s n) ≡ n
length-slice h s zero = refl
length-slice h s (suc n) = ap suc (length-slice h (s + 1) n)

get_or-slice : (h : ℕ → ℕ) (s n i : ℕ) → i < n → get_or (slice h s n) i 0 ≡ h (s + i)
get_or-slice h s zero i k = absurd (omega arith)
get_or-slice h s (suc n) zero k = ground arith
get_or-slice h s (suc n) (suc i) k =
    let e : s + 1 + i ≡ s + suc i = omega arith in get_or-slice h (s + 1) n i (omega arith) ∙ ap h e

length-read_ring :
    (h : ℕ → ℕ) (src n : ℕ) → src ≤ zgfx_history_size → length (read_ring h src n) ≡ n
unfolding read_ring
length-read_ring h src n v =
    let first : ℕ = zgfx_history_size - src in
    ground (
      arith,
      length-slice h src n,
      length-slice h src first,
      length-slice h 0 (n - first),
      length-append (slice h src first) (slice h 0 (n - first)),
    )

get_or-read_ring :
    (h : ℕ → ℕ) (src n i : ℕ)
    → src ≤ zgfx_history_size
    → i < n
    → get_or (read_ring h src n) i 0
      ≡ (if ltb (src + i) zgfx_history_size then h (src + i) else h (src + i - zgfx_history_size))
unfolding read_ring
get_or-read_ring h src n i v k =
    let first : ℕ = zgfx_history_size - src in
    elim (lt-or-le zgfx_history_size (src + n)) [
      | inr fits ↦
          rw (le→leb (src + n) zgfx_history_size fits) (ground (arith, get_or-slice h src n i))
      | inl wraps ↦ rw (lt→leb_false (src + n) zgfx_history_size wraps) (
          ground (
            arith,
            length-slice h src first,
            get_or-slice h src first i,
            get_or-slice h 0 (n - first) (i - first),
            get_or-append_left (slice h src first) (slice h 0 (n - first)) i 0,
            get_or-append_right (slice h src first) (slice h 0 (n - first)) i 0,
          ))
    ]

length-expand : (r d : ℕ) (block : List ℕ) → length (expand r d block) ≡ length block + r
unfolding expand
length-expand zero d block = omega arith
length-expand (suc r) d block =
    let b : ℕ = get_or block (length block - d) 0 in
    omega (arith, length-expand r d (block ++ b ∷ []), length-append block (b ∷ []))

-- What stands in the block stays there.
get_or-expand_old :
    (r d : ℕ) (block : List ℕ) (i : ℕ)
    → i < length block
    → get_or (expand r d block) i 0 ≡ get_or block i 0
unfolding expand
get_or-expand_old zero d block i k = refl
get_or-expand_old (suc r) d block i k =
    let b : ℕ = get_or block (length block - d) 0 in
    get_or-expand_old r d (block ++ b ∷ []) i (omega (arith, length-append block (b ∷ [])))
    ∙ get_or-append_left block (b ∷ []) i 0 k

-- What is added repeats what stands `d` bytes before.
get_or-expand_new :
    (r d : ℕ) (block : List ℕ) (i : ℕ)
    → 0 < d
    → d ≤ length block
    → length block ≤ i
    → i < length block + r
    → get_or (expand r d block) i 0 ≡ get_or (expand r d block) (i - d) 0
unfolding expand
get_or-expand_new zero d block i hd hb lo hi = absurd (omega arith)
get_or-expand_new (suc r) d block i hd hb lo hi =
    let b : ℕ = get_or block (length block - d) 0 in
    let block' : List ℕ = block ++ b ∷ [] in
    let longer : length block' ≡ length block + 1 = length-append block (b ∷ []) in
    elim (lt-or-le (length block) i) [
      | inl later ↦
          get_or-expand_new r d block' i hd (omega (arith, longer)) (omega (arith, longer))
            (omega (arith, longer))
      | inr here ↦
          let e : i ≡ length block = omega arith in
          let zeroth : length block - length block ≡ 0 = omega arith in
          rw e (
            get_or-expand_old r d block' (length block) (omega (arith, longer))
            ∙ get_or-append_right block (b ∷ []) (length block) 0 (omega arith)
            ∙ rw zeroth (
                sym (
                  get_or-expand_old r d block' (length block - d) (omega (arith, longer))
                  ∙ get_or-append_left block (b ∷ []) (length block - d) 0 (omega arith))))
    ]

-- A block that repeats what stands `d` bytes before, in `past` or in the block itself.
abbrev pub Repeats : List ℕ → ℕ → List ℕ → Type 0
Repeats past d block =
    (i : ℕ)
    → i < length block
    → get_or block i 0
      ≡ (if ltb i d then get_or past (length past - d + i) 0 else get_or block (i - d) 0)

-- The source index of a match, for a distance within the ring.
abbrev source : ℕ → ℕ → ℕ
source idx d = if ltb idx d then idx + zgfx_history_size - d else idx - d

module _ (z : ZgfxContext) (past : List ℕ) (d : ℕ) (v : IsValid z)
    (t : Tracks zgfx_history_size z.history z.history_idx past) (d_pos : 0 < d)
    (d_ring : d ≤ zgfx_history_size) (d_past : d ≤ length past) where
  src_small : source z.history_idx d ≤ zgfx_history_size
  src_small = ground arith

  -- The ring from the source on is `past` from `d` bytes before its end on.
  read_ring-past :
      (n i : ℕ)
      → n ≤ d
      → i < n
      → get_or (read_ring z.history (source z.history_idx d) n) i 0
        ≡ get_or past (length past - d + i) 0
  read_ring-past n i hn hi =
      let e : length past - 1 - (d - 1 - i) ≡ length past - d + i = omega arith in
      get_or-read_ring z.history (source z.history_idx d) n i src_small hi
      ∙ (ground arith)
      ∙ t (d - 1 - i) (omega arith) (omega arith)
      ∙ rw e

  match_block-Repeats :
      (count : ℕ)
      → (length (match_block z.history (source z.history_idx d) d count) ≡ count)
        × Repeats past d (match_block z.history (source z.history_idx d) d count)
  unfolding match_block
  match_block-Repeats count = elim (lt-or-le d count) [
    | inr within ↦ rw (le→leb count d within) (
      length-read_ring z.history src count src_small,
      λ i hi.
          ground
            (arith, length-read_ring z.history src count src_small, read_ring-past count i within),
    )
    | inl beyond ↦ rw (lt→leb_false count d beyond) (
      omega (arith, length-expand (count - d) d head, head_length),
      λ i hi. ground (
        arith,
        head_length,
        length-expand (count - d) d head,
        get_or-expand_old (count - d) d head i,
        get_or-expand_new (count - d) d head i,
        read_ring-past d i (omega arith),
      ),
    )
  ]
    where
      src : ℕ
      src = source z.history_idx d

      head : List ℕ
      head = read_ring z.history src d

      head_length : length head ≡ d
      head_length = length-read_ring z.history src d src_small

  -- The LZ77 step. The index of the context is in the ring, and it holds the last bytes of `past`, all that was decompressed so far; the
  -- distance is positive, within the ring and within `past`. Then the match does not panic, and
  -- appends exactly `count` bytes to the output, each of which repeats the byte `d` places before it in
  -- `past` or in the new bytes themselves; the index stays in the ring, and the context holds the last
  -- bytes of `past` with the new ones.
  pub output_match-Repeats :
      (count : ℕ) (out : List ℕ)
      → (z' : ZgfxContext) × (block : List ℕ) × (output_match z d count out
          ≡ some (z', out ++ block))
        × (length block ≡ count)
        × Repeats past d block
        × IsValid z'
        × Tracks zgfx_history_size z'.history z'.history_idx (past ++ block)
  unfolding output_match
  output_match-Repeats zero out = (
    z,
    [],
    ground (arith, append-nil out),
    refl,
    λ i hi. absurd (omega arith),
    v,
    rw append-nil t,
  )
  output_match-Repeats (suc count) out =
      let block : List ℕ = match_block z.history (source z.history_idx d) d (suc count) in
      let (size, repeats) = match_block-Repeats (suc count) in
      (
        history_write z block,
        block,
        ground arith,
        size,
        repeats,
        history_write-IsValid z block v,
        Slides-Tracks zgfx_history_size z.history (history_write z block).history z.history_idx
            (history_write z block).history_idx past block (history_write-Writes z block v) t,
      )
