-- ===== src/Mcs/Client.antt =====
-- protocol/t125/mcs.go: `MCSClient`, the connection sequence and the data of the channels.
-- `listener` is what the next "data" event of the transport calls: `Once` registers a function for one
-- event, so a function that returns without another `Once` leaves nobody; `recvData` stays. What the
-- client does to the outside is a list of events; `none` is a panic.  A name is the list of its bytes.
use grdp.Prelude.{
  ℕ, zero, suc, ◌+◌, ◌-◌, ◌*◌, ◌/◌, ◌%◌, ◌^◌, List, [], ◌∷◌, ◌++◌, Option, none, some, Bool, true,
  false, ltb, ◌==◌, ◌&&◌, ◌||◌, not, if◌then◌else◌, length, bit_or, get_elem?,
}
use grdp.Io.{Error, read_uint8, write_uint8}
use grdp.Per as Per
use grdp.Ber as Ber
use grdp.Gcc.{
  Struc, ServerNetworkData, ClientNetworkData, ScData, core, security, network, msg_channel, Blocks,
  blocks, panic, out_of_fuel, read_conference_create_response, make_conference_create_request,
}
use grdp.Mcs.Connect.{
  read_connect_response, new_connect_initial, initial_ber, mcs_type_connect_initial,
}

abbrev pub erect_domain_request : ℕ
erect_domain_request = 1

abbrev pub disconnect_provider_ultimatum : ℕ
disconnect_provider_ultimatum = 8

abbrev pub attach_user_request : ℕ
attach_user_request = 10

abbrev pub attach_user_confirm : ℕ
attach_user_confirm = 11

abbrev pub channel_join_request : ℕ
channel_join_request = 14

abbrev pub channel_join_confirm : ℕ
channel_join_confirm = 15

abbrev pub send_data_request : ℕ
send_data_request = 25

abbrev pub send_data_indication : ℕ
send_data_indication = 26

abbrev pub mcs_global_channel_id : ℕ
mcs_global_channel_id = 1003

abbrev pub mcs_userchannel_base : ℕ
mcs_userchannel_base = 1001

-- "global" and "user".
abbrev pub global_channel_name : List ℕ
global_channel_name = 103 ∷ 108 ∷ 111 ∷ 98 ∷ 97 ∷ 108 ∷ []

abbrev pub user_channel_name : List ℕ
user_channel_name = 117 ∷ 115 ∷ 101 ∷ 114 ∷ []

abbrev pub sec_auto_detect_req : ℕ
sec_auto_detect_req = 0x1000

abbrev pub sec_auto_detect_rsp : ℕ
sec_auto_detect_rsp = 0x2000

abbrev pub rdp_bw_results_connecttime : ℕ
rdp_bw_results_connecttime = 0x0003

abbrev pub rdp_bw_results : ℕ
rdp_bw_results = 0x000B

pub record McsChannelInfo : Type 0 where
  pub id : ℕ
  pub name : List ℕ

pub data Listener : Type 0 where
  connect_response attach_confirm join_confirm receiving nobody : Listener

pub record McsClient : Type 0 where
  pub channels : List McsChannelInfo
  pub client_network_data : ClientNetworkData
  pub server_network_data : Option ServerNetworkData
  pub channels_connected : ℕ
  pub user_id : ℕ
  pub nb_channel_requested : ℕ
  pub message_channel_id : ℕ
  pub message_channel_joined : Bool
  pub listener : Listener

pub data Failure : Type 0 where
  bad_connect_response bad_header server_reject_user wait_channel_join_confirm : Failure
  invalid_user_id must_confirm_static_channel disconnected invalid_opcode : Failure
  io : Error → Failure

-- `transport.Write`, and the events "error", "connect" with the user id and the channels, "sec" with a
-- channel name and data, and `transport.Close`.
pub data Event : Type 0 where
  sent : List ℕ → Event
  failed : Failure → Event
  connected : ℕ → List McsChannelInfo → Event
  sec : List ℕ → List ℕ → Event
  closed : Event

abbrev pub Effect : Type 0
Effect = Option (McsClient × List Event)

unfoldable pub new_mcs_client : ClientNetworkData → McsClient
new_mcs_client defs = record {
  channels = record { id = mcs_global_channel_id; name = global_channel_name } ∷ [];
  client_network_data = defs;
  server_network_data = none;
  channels_connected = 0;
  user_id = 1 + mcs_userchannel_base;
  nb_channel_requested = 0;
  message_channel_id = 0;
  message_channel_joined = false;
  listener = nobody;
}

-- `(uint8(mcsPdu)<<2)|options`
unfoldable pub write_mcs_pdu_header : ℕ → ℕ → List ℕ
write_mcs_pdu_header mcs_pdu options = write_uint8 (bit_or (mcs_pdu * 2 ^ 2 % 256) options)

unfoldable pub read_mcs_pdu_header : ℕ → ℕ → Bool
read_mcs_pdu_header options mcs_pdu = (options / 2 ^ 2) == mcs_pdu

-- A uint16 below which `MCS_USERCHANNEL_BASE` is taken off, and above which it is added.
abbrev pub off_base : ℕ → ℕ
off_base id = (id + 2 ^ 16 - mcs_userchannel_base) % 2 ^ 16

abbrev pub on_base : ℕ → ℕ
on_base id = (id + mcs_userchannel_base) % 2 ^ 16

unfoldable pub join_request : McsClient → ℕ → Event
join_request c channel_id = sent (
    write_mcs_pdu_header channel_join_request 0
    ++ Per.write_integer16 (off_base c.user_id)
    ++ Per.write_integer16 channel_id)

unfoldable pub erect_domain : Event
erect_domain =
    sent (write_mcs_pdu_header erect_domain_request 0 ++ Per.write_integer 0 ++ Per.write_integer 0)

unfoldable pub attach_user : Event
attach_user = sent (write_mcs_pdu_header attach_user_request 0)

abbrev pub listens : Listener → McsClient → McsClient
listens l c = record c { listener = l }

-- An error that leaves nobody listening.
abbrev pub fails : McsClient → Failure → Effect
fails c f = some (listens nobody c, failed f ∷ [])

-- `user_data` is what the four `Pack` calls of the settings make.
unfoldable pub connect : McsClient → List ℕ → Effect
connect c user_data =
    let initial = initial_ber (new_connect_initial (make_conference_create_request user_data)) in
    some (
      listens connect_response c,
      sent (Ber.write_application_tag mcs_type_connect_initial (length initial) ++ initial) ∷ [],
    )

-- The loop over the server's settings.
unfoldable pub record_settings : McsClient → List ScData → McsClient
record_settings c [] = c
record_settings c (core d ∷ ds) = record_settings c ds
record_settings c (security d ∷ ds) = record_settings c ds
record_settings c (network d ∷ ds) = record_settings (record c { server_network_data = some d }) ds
record_settings c (msg_channel id ∷ ds) = record_settings (record c { message_channel_id = id }) ds

abbrev with_blocks : McsClient → Blocks → Effect
with_blocks c (blocks ds) =
    some (listens attach_confirm (record_settings c ds), erect_domain ∷ attach_user ∷ [])
with_blocks c panic = none
with_blocks c out_of_fuel = none

unfoldable pub recv_connect_response : Struc → McsClient → List ℕ → Effect
recv_connect_response struc c s = elim (read_connect_response s) [
  | none ↦ fails c bad_connect_response
  | some r ↦ with_blocks c (read_conference_create_response struc r.user_data)
]

-- The next static channel, or the end of the sequence. A panic without the server's network data, or
-- where its count is beyond its array.
unfoldable pub next_static : McsClient → Option ServerNetworkData → Effect
next_static c none = none
next_static c (some d) =
    if ltb c.nb_channel_requested d.channel_count
    then elim (get_elem? d.channel_id_array c.nb_channel_requested) [
      | none ↦ none
      | some id ↦ some (
        listens join_confirm (record c { nb_channel_requested = c.nb_channel_requested + 1 }),
        join_request c id ∷ [],
      )
    ]
    else some (listens receiving c, connected c.user_id c.channels ∷ [])

unfoldable pub connect_channels : McsClient → Effect
connect_channels c = elim (get_elem? c.channels c.channels_connected) [
  | some ch ↦ some (listens join_confirm c, join_request c ch.id ∷ [])
  | none ↦
      if not (c.message_channel_id == 0) && not c.message_channel_joined
      then some (
        listens join_confirm (record c { message_channel_joined = true }),
        join_request c c.message_channel_id ∷ [],
      )
      else next_static c c.server_network_data
]

unfoldable pub recv_attach_user_confirm : McsClient → List ℕ → Effect
recv_attach_user_confirm c s =
    let (option, err, r) = read_uint8 s in
    let (e, err', r') = Per.read_enumerates r in
    let (id, err'', r'') = Per.read_integer16 r' in
    let user_id = on_base id in
    let attached = record c {
      user_id = user_id;
      channels = c.channels ++ (record { id = user_id; name = user_channel_name } ∷ []);
    } in
    elim err [
      | some f ↦ fails c (io f)
      | none ↦
          if read_mcs_pdu_header option attach_user_confirm
          then elim err' [
            | some f ↦ fails c (io f)
            | none ↦ if e == 0 then connect_channels attached else fails c server_reject_user
          ]
          else fails c bad_header
    ]

-- The channels whose ids are the confirmed one, from index `i` on; a panic where the server counts
-- more channels than it lists, or than the client asked for.
unfoldable pub confirmed : ℕ → List ℕ → ClientNetworkData → ℕ → Option (List McsChannelInfo)
confirmed zero ids defs channel_id = some []
confirmed (suc count) [] defs channel_id = none
confirmed (suc count) (id ∷ ids) [] channel_id =
    let more = confirmed count ids [] channel_id in if channel_id == id then none else more
confirmed (suc count) (id ∷ ids) (d ∷ defs) channel_id =
    let more = confirmed count ids defs channel_id in
    if channel_id == id
    then elim more [ none ↦ none | some cs ↦ some (record { id = channel_id; name = d.name } ∷ cs) ]
    else more

abbrev pub one_more : McsClient → List McsChannelInfo → McsClient
one_more c added = record c {
  channels = c.channels ++ added;
  channels_connected = c.channels_connected + 1;
}

unfoldable pub join_confirmed : McsClient → ℕ → Effect
join_confirmed c channel_id = elim c.server_network_data [
  | none ↦ none
  | some d ↦ elim (confirmed d.channel_count d.channel_id_array c.client_network_data channel_id) [
    | none ↦ none
    | some added ↦ connect_channels (one_more c added)
  ]
]

unfoldable pub recv_channel_join_confirm : McsClient → List ℕ → Effect
recv_channel_join_confirm c s =
    let (option, err, r) = read_uint8 s in
    let (confirm, e1, r1) = Per.read_enumerates r in
    let (id, e2, r2) = Per.read_integer16 r1 in
    let (channel_id, e3, r3) = Per.read_integer16 r2 in
    elim err [
      | some f ↦ fails c (io f)
      | none ↦
          if not (read_mcs_pdu_header option channel_join_confirm)
          then fails c wait_channel_join_confirm
          else if not (c.user_id == on_base id)
          then fails c invalid_user_id
          else if confirm == 0
          then join_confirmed c channel_id
          else if (channel_id == mcs_global_channel_id) || (channel_id == c.user_id)
          then fails c must_confirm_static_channel
          else connect_channels (one_more c [])
    ]
