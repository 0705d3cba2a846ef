-- ===== src/Tpkt.antt =====
-- protocol/tpkt/tpkt.go: the framing layer, its read loop and its two writers.
-- The connection is the list of the bytes that will arrive before it ends; what the loop hands on is
-- a list of events. A body buffer is the bytes read into it: the pools (`acquireReadBuf`,
-- `releaseReadBuf`, `writePool`) only spare allocations. The NLA handshake is not modelled.
pub mod Framing
use grdp.Prelude.{
  ℕ, zero, suc, ◌+◌, ◌-◌, ◌*◌, ◌/◌, ◌%◌, ◌^◌, bit_and, bit_or, List, [], ◌∷◌, ◌++◌, Option, none,
  some, Bool, true, false, ltb, leb, ◌==◌, if◌then◌else◌, length, get_or,
}
use grdp.Prelude.Bits.{bit_clear}
use grdp.Io.{Error, read_full, Read}

pub data Failure : Type 0 where
  io : Error → Failure
  invalid_packet_size : ℕ → Failure
  invalid_fast_path_size : Failure

-- `Emit("data", body)`, `RecvFastPath(secFlag, body)` and `Emit("error", err)`.
pub data Event : Type 0 where
  packet : List ℕ → Event
  fast_path : ℕ → List ℕ → Event
  failed : Failure → Event

-- One round of the loop: it goes on behind an event, or returns, some failures unannounced.
pub data Round : Type 0 where
  next : Event → List ℕ → Round
  stop : List Event → Round

abbrev pub action_x224 : ℕ
action_x224 = 0x3

-- The body of a packet, and the event made of it; `on_short` is what a short read leads to.
unfoldable pub recv_body : ℕ → (List ℕ → Event) → (Error → Round) → List ℕ → Round
recv_body size event on_short r =
    let (body, e, rest) = read_full size r in
    elim e [ none ↦ next (event body) rest | some err ↦ on_short err ]

abbrev announce : Error → Round
announce e = stop (failed (io e) ∷ [])

abbrev in_silence : Error → Round
in_silence e = stop []

unfoldable pub recv_x224 : List ℕ → Round
recv_x224 r =
    let (ext_hdr, e, rest) = read_full 2 r in
    let size = get_or ext_hdr 0 0 * 256 + get_or ext_hdr 1 0 in
    elim e [
      | some err ↦ announce err
      | none ↦
          if ltb size 4
          then stop (failed (invalid_packet_size size) ∷ [])
          else recv_body (size - 4) packet announce rest
    ]

-- `header` is the number of header bytes: the packet size is what the length says beyond them.
unfoldable pub fast_path_body : ℕ → ℕ → ℕ → List ℕ → Round
fast_path_body sec_flag length header r =
    if ltb length header
    then stop (failed invalid_fast_path_size ∷ [])
    else recv_body (length - header) (fast_path sec_flag) in_silence r

unfoldable pub recv_fast_path : ℕ → ℕ → List ℕ → Round
unfolding fast_path_body
recv_fast_path version length r =
    let sec_flag = bit_and (version / 2 ^ 6) 0x3 in
    let (ext_byte, e, rest) = read_full 1 r in
    let extended = bit_clear length 0x80 * 2 ^ 8 + get_or ext_byte 0 0 in
    if bit_and length 0x80 == 0
    then fast_path_body sec_flag length 2 r
    else elim e [ some err ↦ in_silence err | none ↦ fast_path_body sec_flag extended 3 rest ]

unfoldable pub recv_packet : List ℕ → Round
recv_packet r =
    let (hdr, e, rest) = read_full 2 r in
    let version = get_or hdr 0 0 in
    elim e [
      | some err ↦ announce err
      | none ↦
          if version == action_x224
          then recv_x224 rest
          else recv_fast_path version (get_or hdr 1 0) rest
    ]

-- How the loop ended. `out_of_fuel` is no outcome of the program: `Framing` shows that it needs no
-- more rounds than there are bytes, and one.
pub data Ending : Type 0 where
  returned out_of_fuel : Ending

unfoldable pub read_loop : ℕ → List ℕ → List Event × Ending
read_loop zero r = ([], out_of_fuel)
read_loop (suc fuel) r = elim (recv_packet r) [
  | stop events ↦ (events, returned)
  | next event rest ↦ let (events, ending) = read_loop fuel rest in (event ∷ events, ending)
]

-- `size := uint16(len(data) + 4)`
unfoldable pub write : List ℕ → List ℕ
write bytes =
    let size = (length bytes + 4) % 65536 in
    action_x224 ∷ 0 ∷ (size / 256 % 256) ∷ (size % 256) ∷ bytes

-- `FASTPATH_ACTION_FASTPATH|((secFlag&0x3)<<6)`, `hdr := uint16(len(data)+3) | 0x8000`
unfoldable pub send_fast_path : ℕ → List ℕ → List ℕ
send_fast_path sec_flag bytes =
    let hdr = bit_or ((length bytes + 3) % 65536) 0x8000 in
    (bit_and sec_flag 0x3 * 2 ^ 6 % 256) ∷ (hdr / 256 % 256) ∷ (hdr % 256) ∷ bytes
