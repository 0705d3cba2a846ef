-- ===== src/Mcs/Connect.antt =====
-- protocol/t125/mcs.go: the connect messages (`DomainParameters`, `ConnectInitial`, `ConnectResponse`).
-- An error is `none`: the caller only asks whether there is one.
pub mod RoundTrip
use grdp.Prelude.{
  ℕ, List, [], ◌∷◌, ◌++◌, Option, none, some, Bool, true, false, if◌then◌else◌, length,
}
use grdp.Io.{Read, read_bytes}
use grdp.Ber.{
  Parse, tag_sequence, tag_octet_string, read_universal_tag, read_length, read_integer,
  read_enumerated, read_application_tag, write_integer, write_octetstring, write_boolean,
  write_encoded_domain_params, write_application_tag,
}

abbrev pub mcs_type_connect_initial : ℕ
mcs_type_connect_initial = 0x65

abbrev pub mcs_type_connect_response : ℕ
mcs_type_connect_response = 0x66

pub record DomainParameters : Type 0 where
  pub max_channel_ids : ℕ
  pub max_user_ids : ℕ
  pub max_token_ids : ℕ
  pub num_priorities : ℕ
  pub min_thoughput : ℕ
  pub max_height : ℕ
  pub max_mcs_pdu_size : ℕ
  pub protocol_version : ℕ

unfoldable pub new_domain_parameters : (a b c d e f g h : ℕ) → DomainParameters
new_domain_parameters a b c d e f g h = record {
  max_channel_ids = a;
  max_user_ids = b;
  max_token_ids = c;
  num_priorities = d;
  min_thoughput = e;
  max_height = f;
  max_mcs_pdu_size = g;
  protocol_version = h;
}

-- Four of the eight numbers are fixed.
unfoldable pub ber : DomainParameters → List ℕ
ber d =
    write_integer d.max_channel_ids
    ++ write_integer d.max_user_ids
    ++ write_integer d.max_token_ids
    ++ write_integer 1
    ++ write_integer 0
    ++ write_integer 1
    ++ write_integer d.max_mcs_pdu_size
    ++ write_integer 2

-- The four fixed ones are read and dropped, and stay 0.
unfoldable pub read_domain_parameters : List ℕ → Option DomainParameters × List ℕ
read_domain_parameters r =
    let (tagged, r0) = read_universal_tag tag_sequence true r in
    let (size, e0, r1) = read_length r0 in
    let (channels, e1, r2) = read_integer r1 in
    let (users, e2, r3) = read_integer r2 in
    let (tokens, e3, r4) = read_integer r3 in
    let (n4, e4, r5) = read_integer r4 in
    let (n5, e5, r6) = read_integer r5 in
    let (n6, e6, r7) = read_integer r6 in
    let (pdu, e7, r8) = read_integer r7 in
    let (n8, e8, r9) = read_integer r8 in
    if tagged
    then (some (new_domain_parameters channels users tokens 0 0 0 pdu 0), r9)
    else (none, r0)

pub record ConnectInitial : Type 0 where
  pub calling_domain_selector : List ℕ
  pub called_domain_selector : List ℕ
  pub upward_flag : Bool
  pub target_parameters : DomainParameters
  pub minimum_parameters : DomainParameters
  pub maximum_parameters : DomainParameters
  pub user_data : List ℕ

unfoldable pub new_connect_initial : List ℕ → ConnectInitial
new_connect_initial user_data = record {
  calling_domain_selector = 0x1 ∷ [];
  called_domain_selector = 0x1 ∷ [];
  upward_flag = true;
  target_parameters = new_domain_parameters 34 2 0 1 0 1 0xffff 2;
  minimum_parameters = new_domain_parameters 1 1 1 1 0 1 0x420 2;
  maximum_parameters = new_domain_parameters 0xffff 0xfc17 0xffff 1 0 1 0xffff 2;
  user_data = user_data;
}

unfoldable pub initial_ber : ConnectInitial → List ℕ
initial_ber c =
    write_octetstring c.calling_domain_selector
    ++ write_octetstring c.called_domain_selector
    ++ write_boolean c.upward_flag
    ++ write_encoded_domain_params (ber c.target_parameters)
    ++ write_encoded_domain_params (ber c.minimum_parameters)
    ++ write_encoded_domain_params (ber c.maximum_parameters)
    ++ write_octetstring c.user_data

pub record ConnectResponse : Type 0 where
  pub result : ℕ
  pub called_connect_id : ℕ
  pub domain_parameters : DomainParameters
  pub user_data : List ℕ

unfoldable pub response_data : ℕ → ℕ → DomainParameters → Read (List ℕ) → Option ConnectResponse
response_data result id d (bytes, none, r) =
    some
      (record { result = result; called_connect_id = id; domain_parameters = d; user_data = bytes })
response_data result id d (bytes, some e, r) = none

unfoldable pub response_tail : ℕ → ℕ → Option DomainParameters × List ℕ → Option ConnectResponse
response_tail result id (none, r) = none
response_tail result id (some d, r) =
    let (tagged, r0) = read_universal_tag tag_octet_string false r in
    let (size, e, r1) = read_length r0 in
    if tagged then response_data result id d (read_bytes size r1) else none

-- An error of `ReadInteger` is overwritten by the next call.
unfoldable pub response_body : Parse → Option ConnectResponse
response_body (result, some f, r) = none
response_body (result, none, r) =
    let (id, e, r0) = read_integer r in response_tail result id (read_domain_parameters r0)

abbrev after_tag : Parse → Option ConnectResponse
after_tag (size, some f, r) = none
after_tag (size, none, r) = response_body (read_enumerated r)

unfoldable pub read_connect_response : List ℕ → Option ConnectResponse
read_connect_response r = after_tag (read_application_tag mcs_type_connect_response r)
