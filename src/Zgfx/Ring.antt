-- ===== src/Zgfx/Ring.antt =====
-- plugin/rdpgfx/zgfx.go: the history ring of `zgfxContext` (`historyWrite`, `outputLiteral`,
-- `outputMatch`). The ring is a function from indices; slices of it are written out with their bounds,
-- and `none` is the panic of a slice out of range.
pub mod Write
pub mod Match
use grdp.Prelude.{
  ℕ, zero, suc, ◌+◌, ◌-◌, List, [], ◌∷◌, ◌++◌, Option, none, some, Bool, true, false, ltb, leb,
  ◌==◌, ◌&&◌, ◌||◌, if◌then◌else◌, length, take, drop, get_or,
}

abbrev pub zgfx_history_size : ℕ
zgfx_history_size = 2500000

pub record ZgfxContext : Type 0 where
  pub history : ℕ → ℕ
  pub history_idx : ℕ

unfoldable pub new_zgfx_context : ZgfxContext
new_zgfx_context = record { history = λ i. 0; history_idx = 0 }

-- `copy(history[start:], bytes)` where it fits.
abbrev pub copy_in : (ℕ → ℕ) → ℕ → List ℕ → ℕ → ℕ
copy_in h start bytes i =
    if leb start i && ltb i (start + length bytes) then get_or bytes (i - start) 0 else h i

-- `history[start:start+n]`
abbrev pub slice : (ℕ → ℕ) → ℕ → ℕ → List ℕ
slice h start zero = []
slice h start (suc n) = h start ∷ slice h (start + 1) n

unfoldable pub history_write : ZgfxContext → List ℕ → ZgfxContext
history_write z bytes =
    let n = length bytes in
    let end = z.history_idx + n in
    let first = zgfx_history_size - z.history_idx in
    if n == 0
    then z
    else if leb zgfx_history_size n
    then record {
      history = copy_in z.history 0 (drop (n - zgfx_history_size) bytes);
      history_idx = 0;
    }
    else if leb end zgfx_history_size
    then record {
      history = copy_in z.history z.history_idx bytes;
      history_idx = if end == zgfx_history_size then 0 else end;
    }
    else record {
      history = copy_in (copy_in z.history z.history_idx (take first bytes)) 0 (drop first bytes);
      history_idx = n - first;
    }

unfoldable pub output_literal : ZgfxContext → ℕ → List ℕ → ZgfxContext × List ℕ
output_literal z b out =
    let idx = z.history_idx + 1 in
    (
      record {
        history = λ i. if i == z.history_idx then b else z.history i;
        history_idx = if idx == zgfx_history_size then 0 else idx;
      },
      out ++ b ∷ [],
    )

-- The first `n` bytes of the ring from `src` on, over its end where it wraps.
unfoldable pub read_ring : (ℕ → ℕ) → ℕ → ℕ → List ℕ
read_ring h src n =
    let first = zgfx_history_size - src in
    if leb (src + n) zgfx_history_size
    then slice h src n
    else slice h src first ++ slice h 0 (n - first)

-- `for i := distance; i < count; i++ { o[base+i] = o[base+i-distance] }`, `rounds` of them.
unfoldable pub expand : ℕ → ℕ → List ℕ → List ℕ
expand zero distance block = block
expand (suc rounds) distance block =
    expand rounds distance (block ++ get_or block (length block - distance) 0 ∷ [])

-- What is appended to the output.
unfoldable pub match_block : (ℕ → ℕ) → ℕ → ℕ → ℕ → List ℕ
match_block h src distance count =
    if leb count distance
    then read_ring h src count
    else expand (count - distance) distance (read_ring h src distance)

-- A distance beyond the index and the whole ring makes a negative index.
unfoldable pub output_match : ZgfxContext → ℕ → ℕ → List ℕ → Option (ZgfxContext × List ℕ)
output_match z distance count out =
    let idx = z.history_idx in
    let src = if ltb idx distance then idx + zgfx_history_size - distance else idx - distance in
    let block = match_block z.history src distance count in
    if (distance == 0) || (count == 0)
    then some (z, out)
    else if ltb (idx + zgfx_history_size) distance
    then none
    else some (history_write z block, out ++ block)
