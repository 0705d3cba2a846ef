-- ===== src/Zgfx/Ring/Write.antt =====
-- Writes through the ring slide its window.
use grdp.Prelude.{
  ℕ, ◌+◌, ◌-◌, ◌≤◌, ◌<◌, ◌≡◌, List, [], ◌∷◌, false, ◌==◌, if◌then◌else◌, length, take, drop, arith,
  lt-or-le, le→leb, lt→leb_false, inl, inr, length-take, length-drop, get_or-take, get_or-drop,
}
use grdp.Window.{Slides}
use grdp.Zgfx.Ring.{ZgfxContext, zgfx_history_size, copy_in, history_write, output_literal}

abbrev pub IsValid : ZgfxContext → Type 0
IsValid z = z.history_idx < zgfx_history_size

-- The window of the context slides by the block.
abbrev pub Writes : ZgfxContext → ZgfxContext → List ℕ → Type 0
Writes z z' block = Slides zgfx_history_size z.history z.history_idx z'.history z'.history_idx block

-- `historyWrite` keeps the index in the ring, on each of its four branches.
pub history_write-IsValid :
    (z : ZgfxContext) (bytes : List ℕ) → IsValid z → IsValid (history_write z bytes)
unfolding history_write
history_write-IsValid z bytes v = ground arith

-- The three ways in which a write covers the ring.
module _ (size : ℕ) (h : ℕ → ℕ) (idx : ℕ) (bytes : List ℕ) where
  fitting-Slides :
      0 < length bytes
      → idx + length bytes ≤ size
      → Slides size h idx
          (copy_in h idx bytes)
          (if (idx + length bytes) == size then 0 else idx + length bytes)
          bytes
  fitting-Slides f e k hk = ground arith

  covering-Slides :
      0 < size
      → size ≤ length bytes
      → Slides size h idx (copy_in h 0 (drop (length bytes - size) bytes)) 0 bytes
  covering-Slides f e k hk = ground (
    arith,
    length-drop (length bytes - size) bytes,
    get_or-drop (length bytes - size) bytes (size - 1 - k) 0,
  )

  wrapping-Slides :
      idx < size
      → length bytes < size
      → size < idx + length bytes
      → Slides size h idx
          (copy_in (copy_in h idx (take (size - idx) bytes)) 0 (drop (size - idx) bytes))
          (length bytes - (size - idx))
          bytes
  wrapping-Slides v f e k hk = ground (
    arith,
    length-take (size - idx) bytes,
    length-drop (size - idx) bytes,
    get_or-take (size - idx) bytes (length bytes - 1 - k) 0,
    get_or-drop (size - idx) bytes (length bytes - (size - idx) - 1 - k) 0,
  )

module _ (z : ZgfxContext) (bytes : List ℕ) where
  history_write_empty : length bytes ≡ 0 → history_write z bytes ≡ z
  unfolding history_write
  history_write_empty e = ground arith

  history_write_covering :
      zgfx_history_size ≤ length bytes
      → history_write z bytes ≡ record {
        history = copy_in z.history 0 (drop (length bytes - zgfx_history_size) bytes);
        history_idx = 0;
      }
  unfolding history_write
  history_write_covering e = rw (le→leb zgfx_history_size (length bytes) e, empty)
    where
      empty : (length bytes == 0) ≡ false
      empty = ground arith

  history_write_fitting :
      0 < length bytes
      → length bytes < zgfx_history_size
      → z.history_idx + length bytes ≤ zgfx_history_size
      → history_write z bytes ≡ record {
        history = copy_in z.history z.history_idx bytes;
        history_idx =
            if (z.history_idx + length bytes) == zgfx_history_size
            then 0
            else z.history_idx + length bytes;
      }
  unfolding history_write
  history_write_fitting f e g = rw (
    empty,
    lt→leb_false zgfx_history_size (length bytes) e,
    le→leb (z.history_idx + length bytes) zgfx_history_size g,
  )
    where
      empty : (length bytes == 0) ≡ false
      empty = ground arith

  history_write_wrapping :
      z.history_idx < zgfx_history_size
      → length bytes < zgfx_history_size
      → zgfx_history_size < z.history_idx + length bytes
      → (let first = zgfx_history_size - z.history_idx in
          history_write z bytes ≡ record {
            history =
                copy_in (copy_in z.history z.history_idx (take first bytes)) 0 (drop first bytes);
            history_idx = length bytes - first;
          })
  unfolding history_write
  history_write_wrapping v e g = rw (
    empty,
    lt→leb_false zgfx_history_size (length bytes) e,
    lt→leb_false (z.history_idx + length bytes) zgfx_history_size g,
  )
    where
      empty : (length bytes == 0) ≡ false
      empty = ground arith

  -- Where the index is in the ring, `historyWrite` slides the window by the bytes that it is given, on each of its four branches: the
  -- last bytes of a block that is longer than the ring, else the block behind what the ring held.
  pub history_write-Writes : IsValid z → Writes z (history_write z bytes) bytes
  history_write-Writes v = elim (lt-or-le 0 (length bytes)) [
    | inr none' ↦ rw (history_write_empty (omega arith)) (λ k hk. ground arith)
    | inl some' ↦ elim (lt-or-le (length bytes) zgfx_history_size) [
      | inr long ↦
          rw (history_write_covering long)
            (covering-Slides zgfx_history_size z.history z.history_idx bytes (omega arith) long)
      | inl short ↦ elim (lt-or-le zgfx_history_size (z.history_idx + length bytes)) [
        | inr fits ↦
            rw (history_write_fitting some' short fits)
              (fitting-Slides zgfx_history_size z.history z.history_idx bytes some' fits)
        | inl wraps ↦
            rw (history_write_wrapping v short wraps)
              (wrapping-Slides zgfx_history_size z.history z.history_idx bytes v short wraps)
      ]
    ]
  ]

pub output_literal-IsValid :
    (z : ZgfxContext) (b : ℕ) (out : List ℕ) → IsValid z → IsValid (output_literal z b out).0
unfolding output_literal
output_literal-IsValid z b out v = ground arith

-- A literal slides the window by one byte.
pub output_literal-Writes :
    (z : ZgfxContext) (b : ℕ) (out : List ℕ)
    → IsValid z
    → Writes z (output_literal z b out).0 (b ∷ [])
unfolding output_literal
output_literal-Writes z b out v k hk = ground arith
