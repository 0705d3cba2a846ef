-- ===== src/Tpkt/Framing.antt =====
-- The read loop against the writers, and its termination.
use grdp.Prelude.{
  ℕ, zero, suc, ◌+◌, ◌-◌, ◌*◌, ◌/◌, ◌%◌, ◌^◌, ◌≤◌, ◌<◌, ◌≡◌, refl, bit_and, bit_or, List, [], ◌∷◌,
  ◌++◌, none, false, ◌==◌, length, arith, inl, inr, IsByte, All, get_or, map, le→ltb_false, ◌⊎◌,
}
use grdp.Prelude.Bits.{top_bit, set_top_bit, low_two, bit_clear}
use grdp.Io.{Error, Read, read_full, eof}
use grdp.Io.Laws.{read_full-append, length-read_full}
use grdp.Tpkt.{
  Event, packet, fast_path, failed, io, next, stop, Round, returned, announce, in_silence,
  recv_body, fast_path_body, recv_x224, recv_fast_path, recv_packet, read_loop, write,
  send_fast_path,
}

recv_body-append :
    (size : ℕ) (body rest : List ℕ) (event : List ℕ → Event) (on_short : Error → Round)
    → size ≡ length body
    → recv_body size event on_short (body ++ rest) ≡ next (event body) rest
unfolding recv_body
recv_body-append size body rest event on_short e =
    let full : read_full size (body ++ rest) ≡ (body, none, rest) =
      rw e (read_full-append body rest) in
    ground (arith, full)

-- The loop takes a written packet off the stream, and hands its body on.
pub recv_packet-write :
    (body rest : List ℕ)
    → length body + 4 < 65536
    → recv_packet (write body ++ rest) ≡ next (packet body) rest
unfolding recv_packet write recv_x224 read_full
recv_packet-write body rest h =
    let n : ℕ = (length body + 4) % 65536 in
    let e : n / 256 % 256 * 256 + n % 256 ≡ length body + 4 = omega arith in
    rw (e, le→ltb_false (length body + 4) 4 (omega arith))
      (recv_body-append _ body rest packet announce (omega arith))

-- The loop takes a written fast-path packet off the stream, and hands its body on with the two
-- low bits of the security flag.
pub recv_packet-send_fast_path :
    (flag : ℕ) (body rest : List ℕ)
    → IsByte flag
    → length body + 3 < 0x8000
    → recv_packet (send_fast_path flag body ++ rest) ≡ next (fast_path (flag % 4) body) rest
unfolding recv_packet send_fast_path recv_fast_path read_full
recv_packet-send_fast_path flag body rest hf h =
    let n : ℕ = length body + 3 in
    let hdr : bit_or (n % 65536) 0x8000 ≡ n + 32768 =
      rw (set_top_bit (n % 65536) (omega arith)) (omega arith) in
    let high : (n + 32768) / 256 % 256 ≡ n / 256 + 128 = omega arith in
    let low : (n + 32768) % 256 ≡ n % 256 = omega arith in
    let flags : bit_and flag 3 * 64 % 256 ≡ flag % 4 * 64 = rw (low_two flag hf) (omega arith) in
    let plain : (flag % 4 * 64 == 3) ≡ false = ground arith in
    let top : bit_and (n / 256 + 128) 128 ≡ 128 =
      rw (top_bit (n / 256 + 128) (omega arith)) (omega arith) in
    let size : (n / 256 + 128 - 128) * 256 + n % 256 ≡ length body + 3 = omega arith in
    let two : bit_and (flag % 4 * 64 / 2 ^ 6) 3 ≡ flag % 4 =
      rw (low_two (flag % 4 * 64 / 2 ^ 6) (omega arith)) (omega arith) in
    rw
      (hdr, high, low, flags, plain, top, two, size, le→ltb_false (length body + 3) 3 (omega arith))
      (recv_body-append _ body rest (fast_path (flag % 4)) in_silence (omega arith))

recv_body-shorter :
    (size : ℕ) (event : List ℕ → Event) (r : List ℕ) (e : Event) (rest : List ℕ)
    → (recv_body size event announce r ≡ next e rest)
      ⊎ (recv_body size event in_silence r ≡ next e rest)
    → length rest ≤ length r
unfolding recv_body
recv_body-shorter size event r e rest h = ground (arith, length-read_full size r)

recv_x224-shorter :
    (r : List ℕ) (e : Event) (rest : List ℕ) → recv_x224 r ≡ next e rest → length rest ≤ length r
unfolding recv_x224
recv_x224-shorter r e rest h =
    let hdr : Read (List ℕ) = read_full 2 r in
    let size : ℕ = get_or hdr.0 0 0 * 256 + get_or hdr.0 1 0 in
    ground (arith, length-read_full 2 r, recv_body-shorter (size - 4) packet hdr.2 e rest)

fast_path_body-shorter :
    (flag length' header : ℕ) (r : List ℕ) (e : Event) (rest : List ℕ)
    → fast_path_body flag length' header r ≡ next e rest
    → length rest ≤ length r
unfolding fast_path_body
fast_path_body-shorter flag length' header r e rest h =
    ground (arith, recv_body-shorter (length' - header) (fast_path flag) r e rest)

recv_fast_path-shorter :
    (version length' : ℕ) (r : List ℕ) (e : Event) (rest : List ℕ)
    → recv_fast_path version length' r ≡ next e rest
    → length rest ≤ length r
unfolding recv_fast_path
recv_fast_path-shorter version length' r e rest h =
    let ext : Read (List ℕ) = read_full 1 r in
    let flag : ℕ = bit_and (version / 2 ^ 6) 0x3 in
    let extended : ℕ = bit_clear length' 0x80 * 2 ^ 8 + get_or ext.0 0 0 in
    ground (
      arith,
      length-read_full 1 r,
      fast_path_body-shorter flag length' 2 r e rest,
      fast_path_body-shorter flag extended 3 ext.2 e rest,
    )

-- A round that goes on takes two bytes off the stream at least.
pub recv_packet-shorter :
    (r : List ℕ) (e : Event) (rest : List ℕ)
    → recv_packet r ≡ next e rest
    → length rest + 2 ≤ length r
unfolding recv_packet
recv_packet-shorter r e rest h =
    let hdr : Read (List ℕ) = read_full 2 r in
    ground (
      arith,
      length-read_full 2 r,
      recv_x224-shorter hdr.2 e rest,
      recv_fast_path-shorter (get_or hdr.0 0 0) (get_or hdr.0 1 0) hdr.2 e rest,
    )

Round-cases :
    (t : Round)
    → ((e : Event) × (rest : List ℕ) × (t ≡ next e rest)) ⊎ ((es : List Event) × (t ≡ stop es))
Round-cases (next e rest) = inl (e, rest, refl)
Round-cases (stop es) = inr (es, refl)

read_loop-next :
    (fuel : ℕ) (r : List ℕ) (e : Event) (rest : List ℕ)
    → recv_packet r ≡ next e rest
    → read_loop (suc fuel) r ≡ (e ∷ (read_loop fuel rest).0, (read_loop fuel rest).1)
unfolding read_loop
read_loop-next fuel r e rest h = rw (h, read_loop)

read_loop-stop :
    (fuel : ℕ) (r : List ℕ) (es : List Event)
    → recv_packet r ≡ stop es
    → read_loop (suc fuel) r ≡ (es, returned)
unfolding read_loop
read_loop-stop fuel r es h = rw (h, read_loop)

-- The loop returns on every stream, with any fuel above the number of its bytes.
pub read_loop-returned : (fuel : ℕ) (r : List ℕ) → length r < fuel → (read_loop fuel r).1 ≡ returned
unfolding read_loop
read_loop-returned zero r h = absurd (omega arith)
read_loop-returned (suc fuel) r h = elim (Round-cases (recv_packet r)) [
  | inl (e, rest, p) ↦
      rw (read_loop-next fuel r e rest p)
        (read_loop-returned fuel rest (omega (arith, recv_packet-shorter r e rest p)))
  | inr (es, p) ↦ rw (read_loop-stop fuel r es p)
]

-- What a peer sends: an X.224 packet, or a fast-path packet under a security flag.
pub data Sent : Type 0 where
  x224 : List ℕ → Sent
  fast : ℕ → List ℕ → Sent

-- What the two writers can frame in one packet.
abbrev pub Fits : Sent → Type 0
Fits (x224 body) = length body + 4 < 65536
Fits (fast flag body) = IsByte flag × (length body + 3 < 0x8000)

abbrev pub frame : Sent → List ℕ
frame (x224 body) = write body
frame (fast flag body) = send_fast_path flag body

abbrev pub delivered : Sent → Event
delivered (x224 body) = packet body
delivered (fast flag body) = fast_path (flag % 4) body

abbrev pub frames : List Sent → List ℕ
frames [] = []
frames (p ∷ ps) = frame p ++ frames ps

recv_packet-frame :
    (p : Sent) (rest : List ℕ) → Fits p → recv_packet (frame p ++ rest) ≡ next (delivered p) rest
recv_packet-frame (x224 body) rest h = recv_packet-write body rest h
recv_packet-frame (fast flag body) rest (h, k) = recv_packet-send_fast_path flag body rest h k

recv_packet-nil : recv_packet [] ≡ stop (failed (io eof) ∷ [])
unfolding recv_packet read_full
recv_packet-nil = refl

-- Whatever mix of packets the two writers framed, each with a body that fits its length field, the
-- read loop, with more fuel than packets, delivers them all, in order, with their bodies unchanged and
-- the two low bits of their flags, and then reports the end of the stream and returns.
pub read_loop-frames :
    (ps : List Sent) (fuel : ℕ)
    → All Fits ps
    → length ps < fuel
    → read_loop fuel (frames ps) ≡ (map delivered ps ++ failed (io eof) ∷ [], returned)
read_loop-frames ps zero h k = absurd (omega arith)
read_loop-frames [] (suc fuel) h k = read_loop-stop fuel [] _ recv_packet-nil
read_loop-frames (p ∷ ps) (suc fuel) (h, hs) k = rw (
  read_loop-next fuel _ _ _ (recv_packet-frame p (frames ps) h),
  read_loop-frames ps fuel hs (omega arith),
)
