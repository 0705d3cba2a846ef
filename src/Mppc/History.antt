-- ===== src/Mppc/History.antt =====
-- The history holds the last bytes of all that was decompressed.
use grdp.Prelude.{
  ℕ, zero, suc, ◌+◌, ◌-◌, ◌*◌, ◌%◌, ◌<◌, ◌≡◌, refl, List, [], ◌∷◌, ◌++◌, length, get_or, arith,
  append_assoc, append-nil, ap, ◌∙◌, length-append, get_or-append_left, get_or-append_right, sym,
}
use grdp.Window.{slot, Tracks, Slides, Slides-Tracks}
use grdp.Mppc.{mppc_history_size, MppcDecompressor, push, push_all, copy_loop, copy_source}

-- The offset is in the ring, which holds the end of `past`.
abbrev pub Holds : MppcDecompressor → List ℕ → Type 0
Holds d past = (d.offset < mppc_history_size) × Tracks mppc_history_size d.history d.offset past

push-Slides :
    (d : MppcDecompressor) (b : ℕ)
    → d.offset < mppc_history_size
    → Slides mppc_history_size d.history d.offset (push d b).history (push d b).offset (b ∷ [])
unfolding push
push-Slides d b v k hk = ground arith

pub Holds-push :
    (d : MppcDecompressor) (past : List ℕ) (b : ℕ)
    → Holds d past
    → Holds (push d b) (past ++ b ∷ [])
Holds-push d past b (v, t) = (
  unfold push in omega arith,
  Slides-Tracks mppc_history_size d.history (push d b).history d.offset (push d b).offset past
      (b ∷ []) (push-Slides d b v) t,
)

pub Holds-push_all :
    (d : MppcDecompressor) (past bs : List ℕ) → Holds d past → Holds (push_all d bs) (past ++ bs)
unfolding push_all
Holds-push_all d past [] h = rw append-nil h
Holds-push_all d past (b ∷ bs) h =
    rw (← append_assoc past (b ∷ []) bs)
      (Holds-push_all (push d b) (past ++ b ∷ []) bs (Holds-push d past b h))

-- Each byte of the block repeats the byte `d` places before it, in `past` or in the block.
abbrev pub Echoes : List ℕ → ℕ → List ℕ → Type 0
Echoes past d block =
    (i : ℕ)
    → i < length block
    → get_or (past ++ block) (length past + i) 0 ≡ get_or (past ++ block) (length past + i - d) 0

-- The ring index of the byte `copy_offset + 1` places back, `i` bytes into the copy.
copy_source-slot :
    (offset copy_offset : ℕ)
    → offset < mppc_history_size
    → copy_offset < 2 * mppc_history_size
    → (copy_source offset copy_offset + 0) % mppc_history_size
      ≡ slot mppc_history_size offset (copy_offset % mppc_history_size)
unfolding copy_source
copy_source-slot offset copy_offset v w = ground arith

next_slot :
    (src i offset e : ℕ)
    → offset < mppc_history_size
    → e < mppc_history_size
    → (src + i) % mppc_history_size ≡ slot mppc_history_size offset e
    → (src + (i + 1)) % mppc_history_size
      ≡ slot mppc_history_size ((offset + 1) % mppc_history_size) e
next_slot src i offset e v h k = ground arith

module _ (src e : ℕ) (he : e < mppc_history_size) where
  Echoes-cons :
      (past block : List ℕ) (b : ℕ)
      → e < length past
      → b ≡ get_or past (length past - 1 - e) 0
      → Echoes (past ++ b ∷ []) (e + 1) block
      → Echoes past (e + 1) (b ∷ block)
  Echoes-cons past block b hp hb ih zero hi =
      let rest : List ℕ = b ∷ block in
      let at_end : length past + 0 - length past ≡ 0 = omega arith in
      let back : length past + 0 - (e + 1) ≡ length past - 1 - e = omega arith in
      get_or-append_right past rest (length past + 0) 0 (omega arith)
      ∙ rw at_end
          (hb ∙ rw back (sym (get_or-append_left past rest (length past - 1 - e) 0 (omega arith))))
  Echoes-cons past block b hp hb ih (suc i) hi =
      let s : past ++ b ∷ block ≡ (past ++ b ∷ []) ++ block =
        sym (append_assoc past (b ∷ []) block) in
      let n : length (past ++ b ∷ []) ≡ length past + 1 = length-append past (b ∷ []) in
      let j : length (past ++ b ∷ []) + i ≡ length past + suc i = omega (arith, n) in
      rw s (rw j at (ih i (omega arith)))

  copy_loop-Echoes :
      (rounds i : ℕ) (d : MppcDecompressor) (past output : List ℕ)
      → Holds d past
      → e < length past
      → (src + i) % mppc_history_size ≡ slot mppc_history_size d.offset e
      → (d' : MppcDecompressor) × (block : List ℕ) × (copy_loop rounds src i d output
          ≡ (d', output ++ block))
        × (length block ≡ rounds)
        × Echoes past (e + 1) block
        × Holds d' (past ++ block)
  unfolding copy_loop
  copy_loop-Echoes zero i d past output h hp s =
      (d, [], rw append-nil, refl, (λ j hj. absurd (omega arith)), rw append-nil h)
  copy_loop-Echoes (suc rounds) i d past output h hp s =
      let b : ℕ = d.history ((src + i) % mppc_history_size) in
      let hb : b ≡ get_or past (length past - 1 - e) 0 = rw s (h.1 e he hp) in
      let (d', block, eq, len, echoes, held) =
        copy_loop-Echoes rounds (i + 1) (push d b) (past ++ b ∷ []) (output ++ b ∷ [])
          (Holds-push d past b h) (omega (arith, length-append past (b ∷ [])))
          (unfold push in next_slot src i d.offset e h.0 he s) in
      (
        d',
        b ∷ block,
        eq ∙ ap (λ o. (d', o)) (append_assoc output (b ∷ []) block),
        omega (arith, len),
        Echoes-cons past block b hp hb echoes,
        rw append_assoc at held,
      )

-- The LZ77 step of `Decompress`. The history holds the end of `past`, and the byte that the offset of
-- a copy tuple names, taken round the ring, is within `past`. Then the copy, from the source index that
-- the code computes, appends exactly `rounds` bytes to the output, each of which repeats the byte that
-- far and one place before it, in `past` or in the copy itself; the history then holds the end of
-- `past` with the copy.
pub copy_loop-copy_source :
    (rounds copy_offset : ℕ) (d : MppcDecompressor) (past output : List ℕ)
    → Holds d past
    → copy_offset < 2 * mppc_history_size
    → copy_offset % mppc_history_size < length past
    → (d' : MppcDecompressor) × (block : List ℕ) × (copy_loop rounds
          (copy_source d.offset copy_offset)
          0
          d
          output
        ≡ (d', output ++ block))
      × (length block ≡ rounds)
      × Echoes past (copy_offset % mppc_history_size + 1) block
      × Holds d' (past ++ block)
copy_loop-copy_source rounds copy_offset d past output h w hp =
    copy_loop-Echoes (copy_source d.offset copy_offset) (copy_offset % mppc_history_size)
      (omega arith) rounds 0 d past output h hp (copy_source-slot d.offset copy_offset h.0 w)
