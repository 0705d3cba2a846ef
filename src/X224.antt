-- ===== src/X224.antt =====
-- protocol/x224/x224.go: the connection request, the answer to the server's confirmation, and the data
-- header. The package `struc` that lays out structs is a parameter (`Struc`), and the outcomes of the
-- two handshakes of the transport (`StartTLS`, `StartNLA`) are arguments. What the layer does to its
-- transport and to its listeners is a list of events; log lines have no counterpart.
pub mod Confirm
pub mod Request
use grdp.Prelude.{
  ℕ, zero, suc, ◌+◌, ◌-◌, ◌%◌, List, [], ◌∷◌, ◌++◌, Option, none, some, Bool, true, false, ltb, leb,
  ◌==◌, ◌&&◌, if◌then◌else◌, length, take, drop, get_or, bit_or,
}
use grdp.Io.{read_uint8, write_uint8, write_uint16_be}

abbrev pub tpdu_connection_request : ℕ
tpdu_connection_request = 0xE0

abbrev pub tpdu_data : ℕ
tpdu_data = 0xF0

abbrev pub type_rdp_neg_req : ℕ
type_rdp_neg_req = 0x01

abbrev pub type_rdp_neg_rsp : ℕ
type_rdp_neg_rsp = 0x02

abbrev pub type_rdp_neg_failure : ℕ
type_rdp_neg_failure = 0x03

abbrev pub protocol_rdp : ℕ
protocol_rdp = 0x00000000

abbrev pub protocol_ssl : ℕ
protocol_ssl = 0x00000001

abbrev pub protocol_hybrid : ℕ
protocol_hybrid = 0x00000002

abbrev pub protocol_hybrid_ex : ℕ
protocol_hybrid_ex = 0x00000008

pub record Negotiation : Type 0 where
  pub type : ℕ
  pub flag : ℕ
  pub size : ℕ
  pub result : ℕ

pub record ClientConnectionRequestPdu : Type 0 where
  pub len : ℕ
  pub code : ℕ
  pub padding1 : ℕ
  pub padding2 : ℕ
  pub padding3 : ℕ
  pub cookie : List ℕ
  pub requested_protocol : ℕ
  pub protocol_neg : Negotiation

pub record DataHeader : Type 0 where
  pub header : ℕ
  pub message_type : ℕ
  pub separator : ℕ

-- `struc.Pack` of the two structs, and `struc.Unpack` into a `ServerConnectionConfirm`, of which the
-- code reads `ProtocolNeg`; `none` is an error.
pub record Struc : Type 0 where
  pub pack_negotiation : Negotiation → List ℕ
  pub pack_data_header : DataHeader → Option (List ℕ)
  pub unpack_confirm : List ℕ → Option Negotiation

pub record X224 : Type 0 where
  pub requested_protocol : ℕ
  pub selected_protocol : ℕ
  pub data_header : DataHeader
  pub username : List ℕ
  pub routing_token : List ℕ

pub data Failure : Type 0 where
  bad_confirm : Failure
  negotiation_failure : ℕ → Failure
  hybrid_ex_not_supported start_tls_failed start_nla_failed : Failure

-- `transport.Write`, `transport.Once("data", recvConnectionConfirm)`, `transport.On("data", recvData)`,
-- the two handshakes, `Close`, and the events "connect", "error" and "data".
pub data Event : Type 0 where
  written : List ℕ → Event
  awaits_confirm awaits_data started_tls started_nla closed : Event
  connected : ℕ → Event
  failed : Failure → Event
  received : List ℕ → Event

unfoldable pub new_negotiation : Negotiation
new_negotiation = record { type = 0; flag = 0; size = 0x0008; result = protocol_rdp }

unfoldable pub new_data_header : DataHeader
new_data_header = record { header = 2; message_type = tpdu_data; separator = 0x80 }

unfoldable pub new_x224 : X224
new_x224 = record {
  requested_protocol = bit_or (bit_or protocol_rdp protocol_ssl) protocol_hybrid;
  selected_protocol = protocol_ssl;
  data_header = new_data_header;
  username = [];
  routing_token = [];
}

-- `x.Len` is a byte.
unfoldable pub new_client_connection_request_pdu : List ℕ → ℕ → ClientConnectionRequestPdu
new_client_connection_request_pdu cookie requested_protocol =
    let with_cookie = if ltb 0 (length cookie) then (6 + (length cookie + 2) % 256) % 256 else 6 in
    record {
      len = if ltb protocol_rdp requested_protocol then (with_cookie + 8) % 256 else with_cookie;
      code = tpdu_connection_request;
      padding1 = 0;
      padding2 = 0;
      padding3 = 0;
      cookie = cookie;
      requested_protocol = requested_protocol;
      protocol_neg = new_negotiation;
    }

unfoldable pub serialize : Struc → ClientConnectionRequestPdu → List ℕ
serialize struc x =
    write_uint8 x.len
    ++ write_uint8 x.code
    ++ write_uint16_be x.padding1
    ++ write_uint16_be x.padding2
    ++ write_uint8 x.padding3
    ++ (if ltb 0 (length x.cookie) then x.cookie ++ write_uint8 0x0D ++ write_uint8 0x0A else [])
    ++ (if ltb protocol_rdp x.requested_protocol then struc.pack_negotiation x.protocol_neg else [])

-- "Cookie: mstshash=" and "test", as bytes.
abbrev pub cookie_prefix : List ℕ
cookie_prefix =
    67 ∷ 111 ∷ 111 ∷ 107 ∷ 105 ∷ 101 ∷ 58 ∷ 32 ∷ 109 ∷ 115 ∷ 116 ∷ 115 ∷ 104 ∷ 97 ∷ 115 ∷ 104 ∷ 61
    ∷ []

abbrev pub default_name : List ℕ
default_name = 116 ∷ 101 ∷ 115 ∷ 116 ∷ []

unfoldable pub strip_line_end : List ℕ → List ℕ
strip_line_end tok =
    let n = length tok in
    if leb 2 n && (get_or tok (n - 2) 0 == 0x0D) && (get_or tok (n - 1) 0 == 0x0A)
    then take (n - 2) tok
    else tok

unfoldable pub connection_cookie : X224 → List ℕ
connection_cookie x =
    if ltb 0 (length x.routing_token)
    then strip_line_end x.routing_token
    else cookie_prefix ++ (if length x.username == 0 then default_name else x.username)

-- With a transport in place.
unfoldable pub connect : Struc → X224 → List Event
connect struc x =
    let message = new_client_connection_request_pdu (connection_cookie x) x.requested_protocol in
    let neg = record message.protocol_neg {
      type = type_rdp_neg_req;
      result = x.requested_protocol;
    } in
    written (serialize struc (record message { protocol_neg = neg })) ∷ awaits_confirm ∷ []

-- What the selected protocol leads to; `tls` and `nla` say whether the handshakes succeed.
unfoldable pub start_protocol : ℕ → Bool → Bool → List Event
start_protocol selected tls nla =
    if selected == protocol_hybrid_ex
    then failed hybrid_ex_not_supported ∷ []
    else if selected == protocol_rdp
    then awaits_data ∷ connected selected ∷ []
    else if selected == protocol_ssl
    then awaits_data
      ∷ started_tls
      ∷ (if tls then connected selected ∷ [] else failed start_tls_failed ∷ [])
    else if selected == protocol_hybrid
    then awaits_data
      ∷ started_nla
      ∷ (if nla then connected selected ∷ [] else failed start_nla_failed ∷ [])
    else awaits_data ∷ []

unfoldable pub select : X224 → ℕ → Bool → Bool → X224 × List Event
select x selected tls nla =
    (record x { selected_protocol = selected }, start_protocol selected tls nla)

-- The answer with a negotiation in it.
unfoldable pub negotiated : X224 → Option Negotiation → Bool → Bool → X224 × List Event
negotiated x none tls nla = (x, failed bad_confirm ∷ [])
negotiated x (some neg) tls nla =
    if neg.type == type_rdp_neg_failure
    then (x, failed (negotiation_failure neg.result) ∷ closed ∷ [])
    else select x (if neg.type == type_rdp_neg_rsp then neg.result else x.selected_protocol) tls nla

unfoldable pub recv_connection_confirm : Struc → X224 → List ℕ → Bool → Bool → X224 × List Event
recv_connection_confirm struc x s tls nla =
    if ltb 6 (read_uint8 s).0
    then negotiated x (struc.unpack_confirm s) tls nla
    else select x protocol_rdp tls nla

-- `none` where the header cannot be packed.
unfoldable pub write : Struc → X224 → List ℕ → Option (List ℕ)
write struc x b = elim (struc.pack_data_header x.data_header) [
  | none ↦ none
  | some header ↦ some (header ++ b)
]

-- `s[3:]`, and `none` for the panic on fewer bytes.
unfoldable pub recv_data : List ℕ → Option Event
recv_data s = if ltb (length s) 3 then none else some (received (drop 3 s))
