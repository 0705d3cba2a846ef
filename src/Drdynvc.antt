-- ===== src/Drdynvc.antt =====
-- plugin/drdynvc/dvc.go: the client of dynamic virtual channels: headers, the commands of the server,
-- and the reassembly of a message that comes in several PDUs.
-- A channel name is the list of its bytes. A handler is known by its name, with the two optional
-- interfaces that the code asks for; what the client does to the outside is a list of events. A
-- handler that panics (the deferred `recover`) is not modelled, nor are the log lines and the unused
-- map `channels`.
pub mod Header
pub mod Reassembly
pub mod Invariant
pub mod Create
use grdp.Prelude.{
  ℕ, zero, suc, ◌+◌, ◌-◌, ◌*◌, ◌/◌, ◌%◌, ◌^◌, bit_and, bit_or, List, [], ◌∷◌, ◌++◌, Option, none,
  some, Bool, true, false, ltb, leb, ◌==◌, if◌then◌else◌, length, take, min, ◌&&◌,
}
use grdp.Prelude.Table.{Table, lookup, put, delete}
use grdp.Io.{
  Read, read_uint8, read_uint16_le, read_uint32_le, write_uint8, write_uint16_le, write_uint32_le,
}

abbrev pub dynvc_create_req : ℕ
dynvc_create_req = 0x01

abbrev pub dynvc_data_first : ℕ
dynvc_data_first = 0x02

abbrev pub dynvc_data : ℕ
dynvc_data = 0x03

abbrev pub dynvc_close : ℕ
dynvc_close = 0x04

abbrev pub dynvc_capabilities : ℕ
dynvc_capabilities = 0x05

abbrev pub dynvc_soft_sync_request : ℕ
dynvc_soft_sync_request = 0x08

abbrev pub dynvc_soft_sync_response : ℕ
dynvc_soft_sync_response = 0x09

abbrev pub e_fail : ℕ
e_fail = 0x80004005

-- Whether a handler has the methods `SetSendFunc` and `OnChannelCreated`.
pub record Handler : Type 0 where
  pub sets_send_func : Bool
  pub on_channel_created : Bool

pub record DvcChannelInfo : Type 0 where
  pub name : List ℕ
  pub id : ℕ
  pub cb_ch_id : ℕ

pub record DvcReassembly : Type 0 where
  pub buf : List ℕ
  pub total_len : ℕ

pub record DvcClient : Type 0 where
  pub handlers : List (List ℕ × Handler)
  pub rejected_channels : List (List ℕ)
  pub channel_by_id : Table DvcChannelInfo
  pub reassembly : Table DvcReassembly
  pub negotiated_version : ℕ

-- A PDU sent to the server, `SetSendFunc` for a channel id, `OnChannelCreated`, and
-- `handler.Process`.
pub data Event : Type 0 where
  sent : List ℕ → Event
  send_func : List ℕ → ℕ → Event
  created : List ℕ → Event
  handled : List ℕ → List ℕ → Event

abbrev pub Effect : Type 0
Effect = DvcClient × List Event

unfoldable pub new_dvc_client : DvcClient
new_dvc_client = record {
  handlers = [];
  rejected_channels = [];
  channel_by_id = [];
  reassembly = [];
  negotiated_version = 0;
}

unfoldable pub name_eq : List ℕ → List ℕ → Bool
name_eq [] [] = true
name_eq [] (b ∷ bs) = false
name_eq (a ∷ as') [] = false
name_eq (a ∷ as') (b ∷ bs) = (a == b) && name_eq as' bs

unfoldable pub find_handler : List ℕ → List (List ℕ × Handler) → Option Handler
unfolding name_eq
find_handler name [] = none
find_handler name ((n, h) ∷ hs) = if name_eq n name then some h else find_handler name hs

unfoldable pub is_rejected : List ℕ → List (List ℕ) → Bool
unfolding name_eq
is_rejected name [] = false
is_rejected name (n ∷ ns) = if name_eq n name then true else is_rejected name ns

-- The newest entry of a name is the one that is found.
unfoldable pub register_handler : DvcClient → List ℕ → Handler → DvcClient
register_handler c name handler = record c { handlers = (name, handler) ∷ c.handlers }

unfoldable pub register_rejected_channel : DvcClient → List ℕ → DvcClient
register_rejected_channel c name = record c { rejected_channels = name ∷ c.rejected_channels }

pub record DvcHeader : Type 0 where
  pub cmd : ℕ
  pub sp : ℕ
  pub cb_ch_id : ℕ

unfoldable pub header_of : ℕ → DvcHeader
header_of value = record {
  cmd = bit_and value 0xf0 / 2 ^ 4;
  sp = bit_and value 0x0c / 2 ^ 2;
  cb_ch_id = bit_and value 0x03;
}

unfoldable pub read_header : List ℕ → DvcHeader × List ℕ
read_header r = let (value, e, rest) = read_uint8 r in (header_of value, rest)

-- `(h.cmd<<4)|(h.sp<<2)|h.cbChId` as a byte.
unfoldable pub header_byte : DvcHeader → ℕ
header_byte h = bit_or (bit_or (h.cmd * 2 ^ 4 % 256) (h.sp * 2 ^ 2 % 256)) h.cb_ch_id

unfoldable pub write_dvc_id : ℕ → ℕ → List ℕ
write_dvc_id cb_len id =
    if cb_len == 0
    then write_uint8 (id % 256)
    else if cb_len == 1
    then write_uint16_le (id % 65536)
    else write_uint32_le id

unfoldable pub serialize : DvcHeader → ℕ → List ℕ
serialize h channel_id = write_uint8 (header_byte h) ++ write_dvc_id h.cb_ch_id channel_id

-- `readDvcId`, and the length field of `processDataFirst`, which has the same three widths.
unfoldable pub read_dvc_id : ℕ → List ℕ → ℕ × List ℕ
read_dvc_id cb_len r =
    let narrow = read_uint8 r in
    let middle = read_uint16_le r in
    let wide = read_uint32_le r in
    if cb_len == 0
    then (narrow.0, narrow.2)
    else if cb_len == 1
    then (middle.0, middle.2)
    else (wide.0, wide.2)

-- Data on an open channel, in a DYNVC_DATA PDU.
unfoldable pub send_dvc_data : DvcClient → ℕ → List ℕ → Effect
send_dvc_data c channel_id bytes = elim (lookup channel_id c.channel_by_id) [
  | none ↦ (c, [])
  | some ch ↦ (
    c,
    sent (
          serialize (record { cmd = dynvc_data; sp = 0; cb_ch_id = ch.cb_ch_id }) channel_id
          ++ bytes)
        ∷ [],
  )
]

unfoldable pub process_close : DvcClient → DvcHeader → List ℕ → Effect
process_close c hdr s =
    let channel_id = (read_dvc_id hdr.cb_ch_id s).0 in
    elim (lookup channel_id c.channel_by_id) [
      | none ↦ (c, [])
      | some ch ↦ (
        record c {
          channel_by_id = delete channel_id c.channel_by_id;
          reassembly = delete channel_id c.reassembly;
        },
        [],
      )
    ]

abbrev keep : ℕ → List ℕ → List ℕ
keep b [] = if b == 0 then [] else b ∷ []
keep b (r ∷ rest) = b ∷ r ∷ rest

-- `strings.TrimRight(s, "\x00")`
unfoldable pub trim_right : List ℕ → List ℕ
trim_right [] = []
trim_right (b ∷ bs) = keep b (trim_right bs)

-- A handler found by the channel's name: the entry it gets, and the send function it is given.
unfoldable pub open_channel : DvcClient → DvcHeader → ℕ → List ℕ → Option Handler → Effect
open_channel c hdr channel_id name none = (c, [])
open_channel c hdr channel_id name (some handler) =
    let info : DvcChannelInfo = record { name = name; id = channel_id; cb_ch_id = hdr.cb_ch_id } in
    (
      record c { channel_by_id = put channel_id info c.channel_by_id },
      if handler.sets_send_func then send_func name channel_id ∷ [] else [],
    )

unfoldable pub create_rsp : DvcHeader → ℕ → ℕ → Event
create_rsp hdr channel_id status = sent (
    serialize (record { cmd = dynvc_create_req; sp = 0; cb_ch_id = hdr.cb_ch_id }) channel_id
    ++ write_uint32_le status)

abbrev notify : List ℕ → Option Handler → List Event
notify name none = []
notify name (some handler) = if handler.on_channel_created then created name ∷ [] else []

unfoldable pub process_create_req : DvcClient → DvcHeader → List ℕ → Effect
process_create_req c hdr s =
    let (channel_id, name_bytes) = read_dvc_id hdr.cb_ch_id s in
    let channel_name = trim_right name_bytes in
    let handler = find_handler channel_name c.handlers in
    let (c', opened) = open_channel c hdr channel_id channel_name handler in
    if is_rejected channel_name c.rejected_channels
    then (c', opened ++ create_rsp hdr channel_id e_fail ∷ [])
    else (c', opened ++ create_rsp hdr channel_id 0 ∷ notify channel_name handler)

unfoldable pub data_first : DvcClient → ℕ → ℕ → List ℕ → Effect
data_first c channel_id total_len bytes = elim (lookup channel_id c.channel_by_id) [
  | none ↦ (c, [])
  | some ch ↦
      if leb total_len (length bytes % 2 ^ 32)
      then (c, handled ch.name (take total_len bytes) ∷ [])
      else (
        record c {
          reassembly = put channel_id (record { buf = bytes; total_len = total_len }) c.reassembly;
        },
        [],
      )
]

unfoldable pub process_data_first : DvcClient → DvcHeader → List ℕ → Effect
process_data_first c hdr s =
    let (channel_id, r) = read_dvc_id hdr.cb_ch_id s in
    let (total_len, bytes) = read_dvc_id hdr.sp r in data_first c channel_id total_len bytes

-- The buffer is shared with the map's entry, so a write shows there at once.
unfoldable pub more_data : DvcClient → ℕ → DvcChannelInfo → DvcReassembly → List ℕ → Effect
more_data c channel_id ch ra bytes =
    let buf = ra.buf ++ bytes in
    if leb ra.total_len (length buf % 2 ^ 32)
    then (
      record c { reassembly = delete channel_id c.reassembly },
      handled ch.name (take ra.total_len buf) ∷ [],
    )
    else (
      record c {
        reassembly = put channel_id (record { buf = buf; total_len = ra.total_len }) c.reassembly;
      },
      [],
    )

unfoldable pub data_on : DvcClient → ℕ → List ℕ → Effect
data_on c channel_id bytes = elim (lookup channel_id c.channel_by_id) [
  | none ↦ (c, [])
  | some ch ↦ elim (lookup channel_id c.reassembly) [
    | some ra ↦ more_data c channel_id ch ra bytes
    | none ↦ (c, handled ch.name bytes ∷ [])
  ]
]

unfoldable pub process_data : DvcClient → DvcHeader → List ℕ → Effect
process_data c hdr s =
    let (channel_id, bytes) = read_dvc_id hdr.cb_ch_id s in data_on c channel_id bytes

-- `ver` is what stands behind the pad byte.
unfoldable pub process_caps_pdu : DvcClient → List ℕ → Effect
process_caps_pdu c s =
    let ver = min (read_uint16_le (read_uint8 s).2).0 3 in
    (
      record c { negotiated_version = ver },
      sent (write_uint8 0x50 ++ write_uint8 0x00 ++ write_uint16_le ver) ∷ [],
    )

unfoldable pub process_soft_sync_request : DvcClient → List ℕ → Effect
process_soft_sync_request c s = (
  c,
  sent (
        write_uint8 (bit_or (dynvc_soft_sync_response * 2 ^ 4) 0x00)
        ++ write_uint8 0
        ++ write_uint32_le 0x04)
      ∷ [],
)

unfoldable pub dispatch : DvcClient → DvcHeader → List ℕ → Effect
dispatch c hdr b =
    if hdr.cmd == dynvc_capabilities
    then process_caps_pdu c b
    else if hdr.cmd == dynvc_create_req
    then process_create_req c hdr b
    else if hdr.cmd == dynvc_data_first
    then process_data_first c hdr b
    else if hdr.cmd == dynvc_data
    then process_data c hdr b
    else if hdr.cmd == dynvc_close
    then process_close c hdr b
    else if hdr.cmd == dynvc_soft_sync_request
    then process_soft_sync_request c b
    else (c, [])

unfoldable pub process : DvcClient → List ℕ → Effect
process c s = let (hdr, b) = read_header s in dispatch c hdr b

-- A run of PDUs from the server.
unfoldable pub process_all : DvcClient → List (List ℕ) → Effect
process_all c [] = (c, [])
process_all c (s ∷ ss) =
    let (c', es) = process c s in let (last, rest) = process_all c' ss in (last, es ++ rest)
