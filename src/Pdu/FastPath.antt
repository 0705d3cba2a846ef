-- ===== src/Pdu/FastPath.antt =====
-- protocol/pdu/pdu.go and data.go: the updates of the fast path, from the bytes of a PDU to the
-- events and acknowledgements of the client. A panic of Go is `none`.
pub mod Wire
pub mod Fragments
pub mod Compression
use grdp.Prelude.{
  ℕ, zero, suc, ◌+◌, List, [], ◌∷◌, ◌++◌, Bool, true, false, bit_and, ◌==◌, map, length,
  if◌then◌else◌, Option, none, some, not, ◌&&◌, ◌||◌,
}
use grdp.Io.{Error, Read, read_bytes, read_uint8, read_uint16_le}
use grdp.Mppc.{MppcDecompressor, decompress}
use grdp.Pdu.Bitmaps.{BitmapData, unpack_fast_path_bitmap}
use grdp.Pdu.Orders.Process.{Globals}
use grdp.Pdu.Orders.Stream.{OrderPdu, unpack_orders}
use grdp.Pdu.Surface.Commands.{parse_surface_commands}

pub record PointerUpdate : Type 0 where
  pub xor_bpp : ℕ
  pub cache_idx : ℕ
  pub x : ℕ
  pub y : ℕ
  pub width : ℕ
  pub height : ℕ
  pub mask_len : ℕ
  pub data_len : ℕ
  pub xor_data : List ℕ
  pub mask : List ℕ

-- The package `struc` on the three pointer updates, `none` for an error.
pub record Struc : Type 0 where
  pub position : List ℕ → Option (ℕ × ℕ)
  pub cached : List ℕ → Option ℕ
  pub pointer : List ℕ → Option PointerUpdate

-- The types behind `UpdateData` that a fast-path update can hold.
pub data UpdateData : Type 0 where
  orders : List OrderPdu → UpdateData
  bitmap : List BitmapData → UpdateData
  pointer_null : UpdateData
  pointer_position : ℕ → ℕ → UpdateData
  cached : ℕ → UpdateData
  pointer : PointerUpdate → UpdateData

-- An update, an error, or a panic.
pub data Parsed : Type 0 where
  update : UpdateData → Parsed
  failed panicked : Parsed

-- What the client emits, and the PDUs it sends.
pub data Event : Type 0 where
  emit : UpdateData → Event
  frame_acknowledge : ℕ → Event

abbrev or_failed : {A : Type 0} → (A → UpdateData) → Option A → Parsed
or_failed con none = failed
or_failed con (some a) = update (con a)

-- The client's buffer of fragments, its decompressor, and the variables of the orders.
pub record Client : Type 0 where
  pub buff : List ℕ
  pub mppc : Option MppcDecompressor
  pub globals : Globals

abbrev fragment_single : ℕ
fragment_single = 0x00

abbrev fragment_last : ℕ
fragment_last = 0x10

abbrev fragment_first : ℕ
fragment_first = 0x20

abbrev fragment_next : ℕ
fragment_next = 0x30

abbrev fastpath_output_compression_used : ℕ
fastpath_output_compression_used = 0x2

abbrev updatetype_surfcmds : ℕ
updatetype_surfcmds = 0x4

-- The header of an update.
pub record Header : Type 0 where
  pub update_code : ℕ
  pub fragmentation : ℕ
  pub compression_flags : ℕ

-- `none` where the loop returns, for an error of a read.
unfoldable pub read_flags : ℕ → List ℕ → Option (ℕ × List ℕ)
read_flags compression r =
    let (flags, e, r') = read_uint8 r in
    if compression == fastpath_output_compression_used
    then elim e [ none ↦ some (flags, r') | some _ ↦ none ]
    else some (0, r)

abbrev pub with_payload : ℕ → ℕ → Read (List ℕ) → Option (Header × List ℕ × List ℕ)
with_payload header flags (payload, some _, r) = none
with_payload header flags (payload, none, r) = some (
  record {
    update_code = bit_and header 0x0f;
    fragmentation = bit_and header 0x30;
    compression_flags = flags;
  },
  payload,
  r,
)

abbrev pub with_size : ℕ → ℕ → Read ℕ → Option (Header × List ℕ × List ℕ)
with_size header flags (size, some _, r) = none
with_size header flags (size, none, r) = with_payload header flags (read_bytes size r)

unfoldable pub read_payload : ℕ → ℕ → List ℕ → Option (Header × List ℕ × List ℕ)
read_payload header flags r = with_size header flags (read_uint16_le r)

unfoldable pub read_update : ℕ → List ℕ → Option (Header × List ℕ × List ℕ)
unfolding read_flags read_payload
read_update header r = elim (read_flags (bit_and header 0xC0) r) [
  | none ↦ none
  | some (flags, r') ↦ read_payload header flags r'
]

-- The buffer after a fragment, and the whole payload once it is there.
unfoldable pub collect : ℕ → List ℕ → List ℕ → List ℕ × Option (List ℕ)
collect fragmentation buff payload =
    let buff' = (if fragmentation == fragment_first then [] else buff) ++ payload in
    if fragmentation == fragment_single
    then (buff, some payload)
    else (buff', if fragmentation == fragment_last then some buff' else none)

-- `decompress` always has a result; its `none` is the model's fuel.
unfoldable pub unpacked : ℕ → Option MppcDecompressor → List ℕ → Option MppcDecompressor × List ℕ
unpacked flags none payload = (none, payload)
unpacked flags (some d) payload =
    let result = decompress d flags payload in
    if flags == 0
    then (some d, payload)
    else elim result [ none ↦ (some d, payload) | some (d', bytes) ↦ (some d', bytes) ]

module _ (struc : Struc) where
  -- The variables of the orders come along, since an order changes them.
  unfoldable read_fast_path_update_pdu : ℕ → Globals → List ℕ → Parsed × Globals
  unfolding unpack_orders unpack_fast_path_bitmap
  read_fast_path_update_pdu code g r =
      let (rects, e, _) = unpack_fast_path_bitmap r in
      let parsed = elim (unpack_orders g r) as (λ _. Parsed × Globals) [
        | none ↦ (panicked, g)
        | some (g', os, _) ↦ (update (orders os), g')
      ] in
      let unpacked_bitmap = elim e as (λ _. Parsed) [
        | none ↦ update (bitmap rects)
        | some _ ↦ failed
      ] in
      if code == 0x0
      then parsed
      else if code == 0x1
      then (unpacked_bitmap, g)
      else if code == 0x5
      then (update pointer_null, g)
      else if code == 0x8
      then (or_failed (λ (x, y). pointer_position x y) (struc.position r), g)
      else if code == 0xA
      then (or_failed cached (struc.cached r), g)
      else if code == 0xB
      then (or_failed pointer (struc.pointer r), g)
      else (failed, g)

  module _ (decode_remote_fx : Option (List ℕ → ℕ → ℕ → Option (List ℕ)))
      (pool : ℕ → ℕ → List ℕ) where
    abbrev pub Handled : Type 0
    Handled = Option (Client × List Event)

    -- Rectangles are emitted together, if there are any; then the frames are acknowledged in order.
    unfoldable pub handle_surface : Client → List ℕ → Handled
    unfolding parse_surface_commands
    handle_surface c payload = elim (parse_surface_commands decode_remote_fx pool payload) [
      | none ↦ none
      | some ([], ids) ↦ some (c, map frame_acknowledge ids)
      | some (rect ∷ rects, ids) ↦
          some (c, emit (bitmap (rect ∷ rects)) ∷ map frame_acknowledge ids)
    ]

    -- The rest of a round, with a payload that is whole and decompressed.
    unfoldable pub handle : Client → ℕ → List ℕ → Handled
    unfolding handle_surface read_fast_path_update_pdu
    handle c code payload =
        let (parsed, g) = read_fast_path_update_pdu code c.globals payload in
        let c' = record c { globals = g } in
        if code == updatetype_surfcmds then handle_surface c payload else elim parsed [
          | update u ↦ some (c', emit u ∷ [])
          | failed ↦ some (c', [])
          | panicked ↦ none
        ]

    -- A round of the loop, after its reads.
    unfoldable pub round : Client → Header → List ℕ → Handled
    unfolding collect unpacked handle
    round c h payload =
        let (buff, whole) = collect h.fragmentation c.buff payload in
        elim whole [
          | none ↦ some (record c { buff = buff }, [])
          | some bytes ↦
              let (mppc, plain) = unpacked h.compression_flags c.mppc bytes in
              handle (record c { buff = buff; mppc = mppc }) h.update_code plain
        ]

    -- What follows a round that did not panic, with the events of both.
    abbrev pub and_then : List Event → Handled → Handled
    and_then es none = none
    and_then es (some (c, es')) = some (c, es ++ es')

    abbrev pub then_on : Handled → (Client → Handled) → Handled
    then_on none next = none
    then_on (some (c, es)) next = and_then es (next c)

    -- The loop, with fuel for one update a byte.
    unfoldable pub updates : ℕ → Client → List ℕ → Handled
    unfolding read_update round
    updates zero c r = some (c, [])
    updates (suc fuel) c [] = some (c, [])
    updates (suc fuel) c (header ∷ r) = elim (read_update header r) [
      | none ↦ some (c, [])
      | some (h, payload, rest) ↦ then_on (round c h payload) (λ c'. updates fuel c' rest)
    ]

    unfoldable pub recv_fast_path : Client → List ℕ → Handled
    unfolding updates
    recv_fast_path c s = updates (length s) c s
