-- ===== src/Mcs/Data.antt =====
-- protocol/t125/mcs.go: the data of the channels, auto-detection, and the events of the transport.
-- The clock is an argument: `elapsed` is the time since `bwStartTime` in milliseconds.
pub mod Wire
pub mod Run
pub mod Joins
use grdp.Prelude.{
  ℕ, zero, suc, ◌+◌, ◌-◌, ◌*◌, ◌/◌, ◌%◌, ◌^◌, List, [], ◌∷◌, ◌++◌, Option, none, some, Bool, true,
  false, ltb, leb, ◌==◌, ◌&&◌, ◌||◌, not, if◌then◌else◌, length, bit_and, bit_or, get_elem?, map,
}
use grdp.Io.{
  Error, Read, read_bytes, read_uint8, read_uint16_le, write_uint8, write_uint16_le,
  write_uint32_le,
}
use grdp.Per as Per
use grdp.Ber as Ber
use grdp.Gcc.{
  Struc, ServerNetworkData, ClientNetworkData, ChannelDef, ScData, core, security, network,
  msg_channel, Blocks, blocks, panic, out_of_fuel, read_conference_create_response,
  make_conference_create_request,
}
use grdp.Mcs.Connect.{
  ConnectResponse, read_connect_response, new_connect_initial, initial_ber,
  mcs_type_connect_initial,
}
use grdp.Drdynvc.{name_eq}
use grdp.Mcs.Client.{
  McsClient, McsChannelInfo, Listener, connect_response, attach_confirm, join_confirm, receiving,
  nobody, Event, Effect, sent, failed, sec, closed, connected, io, disconnected, invalid_opcode,
  write_mcs_pdu_header, read_mcs_pdu_header, off_base, on_base, recv_connect_response,
  recv_attach_user_confirm, recv_channel_join_confirm, send_data_request, send_data_indication,
  disconnect_provider_ultimatum, sec_auto_detect_req, sec_auto_detect_rsp,
  rdp_bw_results_connecttime, rdp_bw_results, mcs_global_channel_id,
}

unfoldable pub pack : McsClient → List ℕ → ℕ → List ℕ
pack c bytes channel_id =
    write_mcs_pdu_header send_data_request 0
    ++ Per.write_integer16 (off_base c.user_id)
    ++ Per.write_integer16 channel_id
    ++ write_uint8 0x70
    ++ Per.write_length (length bytes)
    ++ bytes

-- `timeDelta` and the count of bytes are there for bandwidth results only.
unfoldable pub auto_detect_payload : ℕ → ℕ → ℕ → List ℕ
auto_detect_payload sequence_number response_type time_delta =
    let include_bw =
      (response_type == rdp_bw_results_connecttime) || (response_type == rdp_bw_results) in
    write_uint16_le sec_auto_detect_rsp
    ++ write_uint16_le 0
    ++ write_uint8 (if include_bw then 14 else 6)
    ++ write_uint8 0x01
    ++ write_uint16_le sequence_number
    ++ write_uint16_le response_type
    ++ (if include_bw then write_uint32_le time_delta ++ write_uint32_le 0 else [])

unfoldable pub auto_detect_response : McsClient → ℕ → ℕ → ℕ → Event
auto_detect_response c sequence_number response_type time_delta =
    sent
      (pack c (auto_detect_payload sequence_number response_type time_delta) c.message_channel_id)

unfoldable pub auto_detect : McsClient → ℕ → ℕ → ℕ → List Event
auto_detect c elapsed seq_num req_type =
    let delta = if (elapsed % 2 ^ 32) == 0 then 1 else elapsed % 2 ^ 32 in
    if (req_type == 0x1001) || (req_type == 0x0001)
    then auto_detect_response c seq_num 0x0000 0 ∷ []
    else if req_type == 0x002B
    then auto_detect_response c seq_num rdp_bw_results_connecttime delta ∷ []
    else if req_type == 0x0429
    then auto_detect_response c seq_num rdp_bw_results delta ∷ []
    else []

unfoldable pub handle_auto_detect : McsClient → ℕ → List ℕ → List Event
handle_auto_detect c elapsed bytes =
    let (sec_flag, e0, r0) = read_uint16_le bytes in
    let (sec_flag_hi, e1, r1) = read_uint16_le r0 in
    let (header_length, e2, r2) = read_uint8 r1 in
    let (header_type_id, e3, r3) = read_uint8 r2 in
    let (seq_num, e4, r4) = read_uint16_le r3 in
    let (req_type, e5, r5) = read_uint16_le r4 in
    if bit_and sec_flag sec_auto_detect_req == 0 then [] else auto_detect c elapsed seq_num req_type

unfoldable pub find_name : ℕ → List McsChannelInfo → Option (List ℕ)
find_name id [] = none
find_name id (ch ∷ chs) = if ch.id == id then some ch.name else find_name id chs

abbrev hand_on : List ℕ → Read (List ℕ) → Event
hand_on name (left, none, r) = sec name left
hand_on name (left, some e, r) = failed (io e)

-- Data for a channel; data for none of them is for auto-detection, or is dropped.
unfoldable pub deliver : McsClient → ℕ → ℕ → ℕ → List ℕ → List Event
deliver c elapsed channel_id size r = elim (find_name channel_id c.channels) [
  | some name ↦ hand_on name (read_bytes size r) ∷ []
  | none ↦
      if not (c.message_channel_id == 0) && (channel_id == c.message_channel_id)
      then handle_auto_detect c elapsed (read_bytes size r).0
      else []
]

unfoldable pub recv_data : McsClient → ℕ → List ℕ → Effect
recv_data c elapsed s =
    let (option, err, r) = read_uint8 s in
    let (id, e0, r0) = Per.read_integer16 r in
    let (channel_id, e1, r1) = Per.read_integer16 r0 in
    let (priority, e2, r2) = Per.read_enumerates r1 in
    let (size, e3, r3) = Per.read_length r2 in
    elim err [
      | some f ↦ some (c, failed (io f) ∷ [])
      | none ↦
          if read_mcs_pdu_header option disconnect_provider_ultimatum
          then some (c, failed disconnected ∷ closed ∷ [])
          else if read_mcs_pdu_header option send_data_indication
          then some (c, deliver c elapsed channel_id size r3)
          else some (c, failed invalid_opcode ∷ [])
    ]

-- A "data" event of the transport.
unfoldable pub recv : Struc → McsClient → ℕ → List ℕ → Effect
recv struc c elapsed s = elim c.listener [
  | connect_response ↦ recv_connect_response struc c s
  | attach_confirm ↦ recv_attach_user_confirm c s
  | join_confirm ↦ recv_channel_join_confirm c s
  | receiving ↦ recv_data c elapsed s
  | nobody ↦ some (c, [])
]

-- The id of the first channel of that name, else the default.
unfoldable pub channel_id_of : List ℕ → ℕ → List McsChannelInfo → ℕ
unfolding name_eq
channel_id_of channel default [] = default
channel_id_of channel default (ch ∷ chs) =
    if name_eq channel ch.name then ch.id else channel_id_of channel default chs

abbrev first_id : List McsChannelInfo → ℕ
first_id [] = mcs_global_channel_id
first_id (ch ∷ chs) = ch.id

-- `c.channels[0]` is there from the start.
unfoldable pub write : McsClient → List ℕ → Event
write c bytes = sent (pack c bytes (first_id c.channels))

unfoldable pub send_to_channel : McsClient → List ℕ → List ℕ → Event
send_to_channel c channel bytes =
    sent (pack c bytes (channel_id_of channel (first_id c.channels) c.channels))

-- The events of the transport one after another.
unfoldable pub run : Struc → ℕ → McsClient → List (List ℕ) → Effect
run struc elapsed c [] = some (c, [])
run struc elapsed c (s ∷ ss) = elim (recv struc c elapsed s) [
  | none ↦ none
  | some (c', es) ↦ elim (run struc elapsed c' ss) [
    | none ↦ none
    | some (c'', es') ↦ some (c'', es ++ es')
  ]
]
