-- ===== src/Examples/Connection.antt =====
-- The connection sequence of MCS on small inputs.
use grdp.Prelude.{ℕ, ◌<◌, ◌≡◌, ◌≢◌, refl, List, [], ◌∷◌, ◌++◌, none, some, true, arith, map, length}
use grdp.Gcc.{Struc, out_of_fuel, read_conference_create_response, unpack_block}
use grdp.Gcc.Certificates.{unpack_security, unpack_certificate, unpack_proprietary}
use grdp.Gcc.Settings.{Block, write_blocks, unpack_all}
use grdp.Gcc.Response.{
  Header, IsHeader, conference_create_response, read_conference_create_response-write,
  read_conference_create_response-ne-out_of_fuel,
}
use grdp.Io.{write_uint16_le, read_uint32_le, read_uint16_le, read_bytes}
use grdp.Mcs.Connect.{read_connect_response}
use grdp.Mcs.Connect.RoundTrip.{
  Number, Response, IsResponse, kept_parameters, connect_response, read_connect_response-bytes,
}
use grdp.Mcs.Client.{McsClient, receiving, connected, sec}
use grdp.Mcs.Data.{pack, find_name, recv_data, run}
use grdp.Mcs.Data.Wire.{relayed, recv_data-pack}
use grdp.Mcs.Data.Run.{Server, IsFair, client, asks, attach_confirm_pdu, join_confirm_pdu}
use grdp.Mcs.Data.Joins.{waiting, wanted, all_infos, run_joins}

-- A reading of the network data that knows one channel, whatever the bytes.
abbrev one_channel : Struc
one_channel = record {
  unpack_network =
      λ bytes. record { mcs_channel_id = 1003; channel_count = 1; channel_id_array = 1004 ∷ [] };
  unpack_chain = λ bytes. none;
}

-- Two blocks of a known kind, the core data and an empty security block, and one of another kind.
abbrev three_blocks : List Block
three_blocks =
    record { kind = 0x0C01; payload = 4 ∷ 0 ∷ 8 ∷ 0 ∷ [] }
    ∷ record { kind = 0x0C02; payload = 0 ∷ 0 ∷ 0 ∷ 0 ∷ 0 ∷ 0 ∷ 0 ∷ 0 ∷ [] }
    ∷ record { kind = 0x0C08; payload = 7 ∷ [] }
    ∷ []

abbrev response_header : Header
response_header = record { size = 42; choice = 20; node = 1; tag = 1; result = 0; sets = 1 }

response_header-IsHeader : IsHeader response_header
response_header-IsHeader = record { size = omega arith; node = omega arith; tag = omega arith }

blocks_small : length (write_blocks three_blocks) < 0x8000
unfolding write_uint16_le
blocks_small = omega arith

read_conference_create_response-write_example :
    read_conference_create_response one_channel
      (conference_create_response response_header three_blocks)
    ≡ unpack_all one_channel three_blocks
read_conference_create_response-write_example =
    read_conference_create_response-write one_channel response_header three_blocks
      response_header-IsHeader
      ((omega arith, omega arith), ((omega arith, omega arith), ((omega arith, omega arith), tt)))
      blocks_small

-- A response that ends in the middle.
read_conference_create_response-ne-out_of_fuel_example :
    read_conference_create_response one_channel (0 ∷ 5 ∷ 0 ∷ 20 ∷ []) ≢ out_of_fuel
read_conference_create_response-ne-out_of_fuel_example =
    read_conference_create_response-ne-out_of_fuel one_channel (0 ∷ 5 ∷ 0 ∷ 20 ∷ [])

-- Numbers of one, two and three bytes, and lengths in all three forms.
abbrev number : ℕ → ℕ → Number
number value width = record { value = value; width = width; form = 0 }

abbrev response : Response
response = record {
  size = 300;
  size_form = 2;
  result_form = 0;
  result = 0;
  called_connect_id = number 0 1;
  parameters = record {
    size = 200;
    form = 1;
    max_channel_ids = number 22 1;
    max_user_ids = number 3 2;
    max_token_ids = number 0 1;
    num_priorities = number 1 1;
    min_thoughput = number 0 1;
    max_height = number 1 1;
    max_mcs_pdu_size = number 0xfff8 3;
    protocol_version = number 2 1;
  };
  data_form = 0;
  user_data = 1 ∷ 2 ∷ [];
}

response-IsResponse : IsResponse response
response-IsResponse = record {
  size = omega arith;
  called_connect_id = omega arith;
  parameters = record {
    size = omega arith;
    max_channel_ids = omega arith;
    max_user_ids = omega arith;
    max_token_ids = omega arith;
    num_priorities = omega arith;
    min_thoughput = omega arith;
    max_height = omega arith;
    max_mcs_pdu_size = omega arith;
    protocol_version = omega arith;
  };
  user_data = omega arith;
}

read_connect_response-bytes_example :
    read_connect_response (connect_response response)
    ≡ some (record {
      result = response.result;
      called_connect_id = response.called_connect_id.value;
      domain_parameters = kept_parameters response.parameters;
      user_data = response.user_data;
    })
read_connect_response-bytes_example = read_connect_response-bytes response response-IsResponse

-- Two static channels, "a" and "b", and a message channel.
abbrev server : Server
server = record {
  statics =
      (1004, record { name = 97 ∷ []; options = 0 })
      ∷ (1005, record { name = 98 ∷ []; options = 0 })
      ∷ [];
  u = 6;
  mid = 1010;
  global_id = 1003;
}

server-IsFair : IsFair server
server-IsFair = record {
  u = omega arith;
  mid = omega arith;
  ids = (omega arith, (omega arith, tt));
  distinct = (((λ e. absurd (omega arith)), tt), (tt, tt));
  not_global = ((λ e. absurd (omega arith)), ((λ e. absurd (omega arith)), tt));
  not_user = ((λ e. absurd (omega arith)), ((λ e. absurd (omega arith)), tt));
  not_message = ((λ e. absurd (omega arith)), ((λ e. absurd (omega arith)), tt));
}

run_joins_example :
    run one_channel 0
      (waiting server)
      (attach_confirm_pdu 6 ∷ map (join_confirm_pdu 6) (wanted server))
    ≡ some (
      client server receiving (all_infos server) 5 2 true,
      map (asks 6) (wanted server) ++ (connected 1007 (all_infos server) ∷ []),
    )
run_joins_example = run_joins one_channel server 0 server-IsFair

abbrev joined_client : McsClient
joined_client = client server receiving (all_infos server) 5 2 true

found_a : find_name 1004 joined_client.channels ≡ some (97 ∷ [])
unfolding find_name
found_a = refl

recv_data-pack_example :
    recv_data joined_client 0 (relayed (pack joined_client (1 ∷ 2 ∷ 3 ∷ []) 1004))
    ≡ some (joined_client, sec (97 ∷ []) (1 ∷ 2 ∷ 3 ∷ []) ∷ [])
recv_data-pack_example =
    recv_data-pack joined_client joined_client 0 1004 (97 ∷ []) (1 ∷ 2 ∷ 3 ∷ []) (omega arith)
      (omega arith) found_a

-- A proprietary certificate with a key of fewer than eight bytes.
short_key :
    unpack_block one_channel 0x0C02
      (1 ∷ 0 ∷ 0 ∷ 0 ∷ 2 ∷ 0 ∷ 0 ∷ 0 ∷ 0 ∷ 0 ∷ 0 ∷ 0 ∷ 4 ∷ 0 ∷ 0 ∷ 0 ∷ 1 ∷ 0 ∷ 0 ∷ 0 ∷ [])
    ≡ none
unfolding unpack_block unpack_security unpack_certificate unpack_proprietary read_uint32_le
    read_uint16_le read_bytes
short_key = refl
