-- ===== src/Mppc/Total.antt =====
-- `Decompress` as a whole: it ends on every input, and its history then holds the end of what the
-- connection has decompressed.
use grdp.Prelude.{
  ℕ, zero, suc, ◌+◌, ◌*◌, ◌%◌, ◌≤◌, ◌<◌, ◌≡◌, refl, List, [], ◌∷◌, ◌++◌, Option, none, some, ltb,
  ◌==◌, if◌then◌else◌, length, arith, lt-or-le, inl, inr, Bool-cases, append_assoc, append-nil,
  bit_and, lt→ltb, le→ltb_false,
}
use grdp.Window.{contents, Tracks-contents}
use grdp.Mppc.{
  mppc_history_size, mppc_compressed, mppc_reset, mppc_flushed, MppcDecompressor, MppcBitReader,
  push, read_bit, read_bits_from, read_bits, offset_bits, offset_base, read_length, copy_loop,
  copy_source, State, Round, continue, break, starved, with_length, copy_round, round,
  decompress_loop, prepare, decompress, new_mppc_bit_reader,
}
use grdp.Mppc.History.{Holds, Holds-push, Holds-push_all}

read_bit-le : (r : MppcBitReader) → (read_bit r).1.bits_left ≤ r.bits_left
unfolding read_bit
read_bit-le r = ground arith

read_bit-lt : (r : MppcBitReader) → 0 < r.bits_left → (read_bit r).1.bits_left < r.bits_left
unfolding read_bit
read_bit-lt r h = ground arith

read_bits_from-le :
    (n result : ℕ) (r : MppcBitReader) → (read_bits_from n result r).1.bits_left ≤ r.bits_left
unfolding read_bits_from
read_bits_from-le zero result r = omega arith
read_bits_from-le (suc n) result r =
    omega (arith, read_bit-le r, read_bits_from-le n (result * 2 + (read_bit r).0) (read_bit r).1)

-- A length, and a reader with no more bits left.
abbrev Lengths : ℕ → Option (ℕ × MppcBitReader) → Type 0
Lengths bits none = ⊥
Lengths bits (some (copy_length, r)) = r.bits_left ≤ bits

Lengths-le : (a b : ℕ) (o : Option (ℕ × MppcBitReader)) → a ≤ b → Lengths a o → Lengths b o
Lengths-le a b none h l = l
Lengths-le a b (some (n, r)) h l = omega (arith, h, l)

-- The loop over the unary length ends by its own tests where the fuel is above the number of bits left.
read_length-Lengths :
    (fuel n : ℕ) (r : MppcBitReader)
    → r.bits_left < fuel
    → Lengths r.bits_left (read_length fuel n r)
unfolding read_length
read_length-Lengths zero n r h = absurd (omega arith)
read_length-Lengths (suc fuel) n r h = elim (Bool-cases (r.bits_left == 0)) [
  | inl over ↦ rw over (omega arith)
  | inr more ↦
      let r' : MppcBitReader = (read_bit r).1 in
      let less : r'.bits_left < r.bits_left = read_bit-lt r (ground (arith, more)) in
      elim (Bool-cases ((read_bit r).0 == 0)) [
        | inl stop ↦ rw (more, stop) (omega (arith, less))
        | inr go ↦
            rw (more, go)
              (Lengths-le r'.bits_left r.bits_left (read_length fuel (n + 1) r')
                (omega (arith, less))
                (read_length-Lengths fuel (n + 1) r' (omega (arith, less, h))))
      ]
]

read_bits-le : (r : MppcBitReader) (n : ℕ) → (read_bits r n).1.bits_left ≤ r.bits_left
unfolding read_bits
read_bits-le r n = read_bits_from-le n 0 r

module _ (past : List ℕ) where
  copy_loop-Holds :
      (rounds src i : ℕ) (d : MppcDecompressor) (output : List ℕ)
      → Holds d (past ++ output)
      → Holds (copy_loop rounds src i d output).0 (past ++ (copy_loop rounds src i d output).1)
  unfolding copy_loop
  copy_loop-Holds zero src i d output h = h
  copy_loop-Holds (suc rounds) src i d output h =
      let b : ℕ = d.history ((src + i) % mppc_history_size) in
      copy_loop-Holds rounds src (i + 1) (push d b) (output ++ b ∷ [])
        (rw append_assoc at (Holds-push d (past ++ output) b h))

  -- A round keeps the history in step with the output, and goes on with fewer bits only.
  abbrev Steps : ℕ → Round → Type 0
  Steps bits (continue (d, r, output)) = Holds d (past ++ output) × (r.bits_left < bits)
  Steps bits (break d output) = Holds d (past ++ output)
  Steps bits starved = ⊥

  with_length-Steps :
      (d : MppcDecompressor) (output : List ℕ) (src bits left : ℕ) (o : Option (ℕ × MppcBitReader))
      → Holds d (past ++ output)
      → left < bits
      → Lengths left o
      → Steps bits (with_length d output src o)
  with_length-Steps d output src bits left none h less l = l
  with_length-Steps d output src bits left (some (copy_length, r)) h less l =
      (copy_loop-Holds copy_length src 0 d output h, omega (arith, less, l))

  copy_round-Steps :
      (d : MppcDecompressor) (r : MppcBitReader) (output : List ℕ) (bits : ℕ)
      → Holds d (past ++ output)
      → r.bits_left < bits
      → Steps bits (copy_round d r output)
  unfolding copy_round
  copy_round-Steps d r output bits h less =
      let (hi, r1) = read_bit r in
      let (lo, r2) = read_bit r1 in
      let sel : ℕ = hi * 2 + lo in
      let (value, r3) = read_bits r2 (offset_bits sel) in
      let src : ℕ = copy_source d.offset (offset_base sel + value) in
      let fewer : r3.bits_left < bits =
        omega (arith, less, read_bit-le r, read_bit-le r1, read_bits-le r2 (offset_bits sel)) in
      elim (Bool-cases (ltb r2.bits_left (offset_bits sel))) [
        | inl cut ↦ rw cut h
        | inr whole ↦ rw whole (
            with_length-Steps d output src bits r3.bits_left (read_length (r3.bits_left + 1) 3 r3) h
              fewer (read_length-Lengths (r3.bits_left + 1) 3 r3 (omega arith)))
      ]

  round-Steps :
      (d : MppcDecompressor) (r : MppcBitReader) (output : List ℕ)
      → Holds d (past ++ output)
      → Steps r.bits_left (round (d, r, output))
  unfolding round
  round-Steps d r output h =
      let (disc, r1) = read_bit r in
      let (b, r2) = read_bits r1 8 in
      elim (lt-or-le r.bits_left 9) [
        | inl few ↦ rw (lt→ltb r.bits_left 9 few) h
        | inr enough ↦ rw (le→ltb_false r.bits_left 9 enough) elim (Bool-cases (disc == 0)) [
          | inl literal ↦ rw literal (
            rw append_assoc at (Holds-push d (past ++ output) (b % 256) h),
            omega (arith, enough, read_bit-lt r (omega (arith, enough)), read_bits-le r1 8),
          )
          | inr copy ↦
              rw copy
                (copy_round-Steps d r1 output r.bits_left h (read_bit-lt r (omega (arith, enough))))
        ]
      ]

  abbrev Ends : Option (MppcDecompressor × List ℕ) → Type 0
  Ends outcome =
      (d : MppcDecompressor) × (output : List ℕ) × (outcome ≡ some (d, output))
      × Holds d (past ++ output)

  decompress_loop-after :
      (fuel bits : ℕ) (s : State) (next : Round)
      → round s ≡ next
      → Steps bits next
      → bits ≤ fuel
      → ((d : MppcDecompressor) (r : MppcBitReader) (output : List ℕ)
          → Holds d (past ++ output)
          → r.bits_left < fuel
          → Ends (decompress_loop fuel (d, r, output)))
      → Ends (decompress_loop (suc fuel) s)
  unfolding decompress_loop
  decompress_loop-after fuel bits s (continue (d, r, output)) e (h, less) le rest =
      rw (e, decompress_loop) (rest d r output h (omega (arith, less, le)))
  decompress_loop-after fuel bits s (break d output) e h le rest =
      rw (e, decompress_loop) (d, output, refl, h)
  decompress_loop-after fuel bits s starved e h le rest = absurd h

  -- Fuel above the number of bits left is enough.
  decompress_loop-Holds :
      (fuel : ℕ) (d : MppcDecompressor) (r : MppcBitReader) (output : List ℕ)
      → Holds d (past ++ output)
      → r.bits_left < fuel
      → Ends (decompress_loop fuel (d, r, output))
  decompress_loop-Holds zero d r output h less = absurd (omega arith)
  decompress_loop-Holds (suc fuel) d r output h less =
      decompress_loop-after fuel r.bits_left (d, r, output) (round (d, r, output)) refl
        (round-Steps d r output h) (omega arith)
        (λ d' r' output' h' less'. decompress_loop-Holds fuel d' r' output' h' less')

-- What the history holds once the packet's flags are read: after a flush, zeros all over; after a reset,
-- its bytes as they lie in the ring, with the next one to be written at the beginning.
unfoldable pub kept : ℕ → MppcDecompressor → List ℕ → List ℕ
kept flags d past =
    if bit_and flags mppc_flushed == 0
    then (if bit_and flags mppc_reset == 0 then past else contents mppc_history_size d.history)
    else contents mppc_history_size (λ i. 0)

-- A ring whose next byte goes to the beginning holds its bytes in their order.
Holds-contents :
    (d : MppcDecompressor) → d.offset ≡ 0 → Holds d (contents mppc_history_size d.history)
Holds-contents d start =
    (omega (arith, start), Tracks-contents mppc_history_size d.offset d.history start)

prepare-Holds :
    (d : MppcDecompressor) (flags : ℕ) (past : List ℕ)
    → Holds d past
    → Holds (prepare d flags) (kept flags d past)
unfolding prepare kept
prepare-Holds d flags past h = elim (Bool-cases (bit_and flags mppc_flushed == 0)) [
  | inl kept_all ↦ rw kept_all elim (Bool-cases (bit_and flags mppc_reset == 0)) [
    | inl no_reset ↦ rw no_reset h
    | inr reset ↦ rw reset (Holds-contents (record d { offset = 0 }) refl)
  ]
  | inr flushed ↦ rw flushed (Holds-contents (record { history = λ i. 0; offset = 0 }) refl)
]

-- For every decompressor whose history holds the end of the bytes `past`, all flags and all bytes,
-- `Decompress` returns, and the history then holds the end of the bytes kept followed by the output. The
-- bytes kept are `past` itself, or after a reset the contents of the ring from its beginning on, or after
-- a flush a ring of zeros. A packet that is not compressed is its own output.
pub decompress-Holds :
    (d : MppcDecompressor) (flags : ℕ) (bytes past : List ℕ)
    → Holds d past
    → (d' : MppcDecompressor) × (output : List ℕ) × (decompress d flags bytes ≡ some (d', output))
      × Holds d' (kept flags d past ++ output)
      × (bit_and flags mppc_compressed ≡ 0 → output ≡ bytes)
unfolding decompress
decompress-Holds d flags bytes past h =
    let h' = prepare-Holds d flags past h in
    elim (Bool-cases (bit_and flags mppc_compressed == 0)) [
      | inl plain ↦
          rw plain (
            _,
            bytes,
            refl,
            Holds-push_all (prepare d flags) (kept flags d past) bytes h',
            λ p. refl,
          )
      | inr packed ↦
          let h0 : Holds (prepare d flags) (kept flags d past ++ []) = rw append-nil h' in
          let (d', output, eq, held) =
            decompress_loop-Holds (kept flags d past) (length bytes * 8 + 1) (prepare d flags)
              (new_mppc_bit_reader bytes) [] h0 (unfold new_mppc_bit_reader in omega arith) in
          rw packed (d', output, eq, held, λ p. absurd (ground arith))
    ]
