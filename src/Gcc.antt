-- ===== src/Gcc.antt =====
-- protocol/t125/gcc/gcc.go: the settings that client and server exchange while MCS connects.
-- The package `struc` that lays out `ClientCoreData` and reads `ServerNetworkData` is a parameter
-- (`Struc`); it reads a chain of X.509 certificates too. The child Certificates has the security block.
pub mod Settings
pub mod Response
pub mod Certificates
use grdp.Prelude.{
  ℕ, zero, suc, ◌+◌, ◌-◌, ◌*◌, ◌%◌, ◌^◌, List, [], ◌∷◌, ◌++◌, Option, none, some, Bool, true, false,
  ltb, ◌==◌, if◌then◌else◌, length, take, replicate, bit_or,
}
use grdp.Io.{Read, read_bytes, read_uint16_le, read_uint32_le, write_uint16_le, write_uint32_le}
use grdp.Per as Per
use grdp.Gcc.Certificates.{X509CertificateChain, ServerSecurityData, unpack_security}

abbrev pub t124_02_98_oid : List ℕ
t124_02_98_oid = 0 ∷ 0 ∷ 20 ∷ 124 ∷ 0 ∷ 1 ∷ []

-- "Duca" and "McDn".
abbrev pub h221_cs_key : List ℕ
h221_cs_key = 68 ∷ 117 ∷ 99 ∷ 97 ∷ []

abbrev pub h221_sc_key : List ℕ
h221_sc_key = 77 ∷ 99 ∷ 68 ∷ 110 ∷ []

abbrev pub sc_core : ℕ
sc_core = 0x0C01

abbrev pub sc_security : ℕ
sc_security = 0x0C02

abbrev pub sc_net : ℕ
sc_net = 0x0C03

abbrev pub sc_mcs_msgchannel : ℕ
sc_mcs_msgchannel = 0x0C04

abbrev pub cs_core : ℕ
cs_core = 0xC001

abbrev pub cs_security : ℕ
cs_security = 0xC002

abbrev pub cs_net : ℕ
cs_net = 0xC003

abbrev pub cs_mcs_msgchannel : ℕ
cs_mcs_msgchannel = 0xC006

pub record ChannelDef : Type 0 where
  pub name : List ℕ
  pub options : ℕ

-- `ChannelCount` is the length of the array: `AddVirtualChannel` is all that changes them.
abbrev pub ClientNetworkData : Type 0
ClientNetworkData = List ChannelDef

pub record ClientSecurityData : Type 0 where
  pub encryption_methods : ℕ
  pub ext_encryption_methods : ℕ

pub record ServerCoreData : Type 0 where
  pub rdp_version : ℕ
  pub client_requested_protocol : ℕ
  pub early_capability_flags : ℕ

pub record ServerNetworkData : Type 0 where
  pub mcs_channel_id : ℕ
  pub channel_count : ℕ
  pub channel_id_array : List ℕ

-- What `struc.Unpack` leaves in a `ServerNetworkData`, also where it fails, since the error is only
-- logged, and what it makes of a certificate chain, or an error.
pub record Struc : Type 0 where
  pub unpack_network : List ℕ → ServerNetworkData
  pub unpack_chain : List ℕ → Option X509CertificateChain

pub data ScData : Type 0 where
  core : ServerCoreData → ScData
  security : ServerSecurityData → ScData
  network : ServerNetworkData → ScData
  msg_channel : ℕ → ScData

unfoldable pub add_virtual_channel : ClientNetworkData → List ℕ → ℕ → ClientNetworkData
add_virtual_channel n name option = n ++ (record { name = name; options = option } ∷ [])

-- `copy(name[:], v.Name)` into eight zero bytes.
unfoldable pub name_field : List ℕ → List ℕ
name_field name = take 8 name ++ replicate (8 - length name) 0

unfoldable pub pack_channel_defs : List ChannelDef → List ℕ
pack_channel_defs [] = []
pack_channel_defs (d ∷ ds) = name_field d.name ++ write_uint32_le d.options ++ pack_channel_defs ds

unfoldable pub pack_network : ClientNetworkData → List ℕ
pack_network n =
    write_uint16_le cs_net
    ++ write_uint16_le ((length n * 12 + 8) % 2 ^ 16)
    ++ write_uint32_le (length n)
    ++ pack_channel_defs n

unfoldable pub new_client_security_data : ClientSecurityData
new_client_security_data = record {
  encryption_methods = bit_or (bit_or 0x01 0x08) 0x02;
  ext_encryption_methods = 0;
}

unfoldable pub pack_security : ClientSecurityData → List ℕ
pack_security d =
    write_uint16_le cs_security
    ++ write_uint16_le 0x0c
    ++ write_uint32_le d.encryption_methods
    ++ write_uint32_le d.ext_encryption_methods

-- `ClientCoreData.Pack` over the bytes that `struc.Pack` makes of the fields.
unfoldable pub pack_core : List ℕ → List ℕ
pack_core fields = write_uint16_le cs_core ++ write_uint16_le 0xd8 ++ fields

unfoldable pub pack_client_msg_channel_data : List ℕ
pack_client_msg_channel_data =
    write_uint16_le cs_mcs_msgchannel ++ write_uint16_le 0x08 ++ write_uint32_le 0

unfoldable pub make_conference_create_request : List ℕ → List ℕ
make_conference_create_request user_data =
    Per.write_choice 0
    ++ Per.write_object_identifier 0 0 20 124 0 1
    ++ Per.write_length (length user_data + 14)
    ++ Per.write_choice 0
    ++ Per.write_selection 0x08
    ++ Per.write_numeric_string (0x31 ∷ []) 1
    ++ Per.write_padding 1
    ++ Per.write_number_of_set 1
    ++ Per.write_choice 0xc0
    ++ Per.write_octet_stream h221_cs_key 4
    ++ Per.write_octet_stream user_data 0

unfoldable pub unpack_core : List ℕ → ServerCoreData
unpack_core r =
    let (version, e, r1) = read_uint32_le r in
    let (protocol, e1, r2) = read_uint32_le r1 in
    let (flags, e2, r3) = read_uint32_le r2 in
    record {
      rdp_version = version;
      client_requested_protocol = protocol;
      early_capability_flags = flags;
    }

-- A block of a kind that is known; others are passed over. `none` is a panic, on the certificate of a
-- security block.
unfoldable pub unpack_block : Struc → ℕ → List ℕ → Option (List ScData)
unpack_block struc t bytes =
    if t == sc_core
    then some (core (unpack_core bytes) ∷ [])
    else if t == sc_security
    then elim (unpack_security struc.unpack_chain bytes) [
      | none ↦ none
      | some d ↦ some (security d ∷ [])
    ]
    else if t == sc_net
    then some (network (struc.unpack_network bytes) ∷ [])
    else if t == sc_mcs_msgchannel
    then some (msg_channel (read_uint16_le bytes).0 ∷ [])
    else some []

-- `panic` is the slice of a negative length that a block of fewer than four bytes asks for, or that of
-- `unpack_block`; `out_of_fuel` is no outcome of the program.
pub data Blocks : Type 0 where
  blocks : List ScData → Blocks
  panic out_of_fuel : Blocks

abbrev pub prepend : Option (List ScData) → Blocks → Blocks
prepend none b = panic
prepend (some d) (blocks ds) = blocks (d ++ ds)
prepend (some d) panic = panic
prepend (some d) out_of_fuel = out_of_fuel

-- `for ln > 0 { … }`; `ln` is a uint16.
unfoldable pub read_blocks : Struc → ℕ → ℕ → List ℕ → Blocks
read_blocks struc zero ln r = out_of_fuel
read_blocks struc (suc fuel) ln r =
    let (t, e, r1) = read_uint16_le r in
    let (l, e1, r2) = read_uint16_le r1 in
    let (bytes, e2, r3) = read_bytes (l - 4) r2 in
    let more = read_blocks struc fuel ((ln + 2 ^ 16 - l) % 2 ^ 16) r3 in
    if ln == 0
    then blocks []
    else if ltb l 4
    then panic
    else prepend (unpack_block struc t bytes) more

-- A block takes four bytes of the reader at least, or there are none and the loop panics.
unfoldable pub read_conference_create_response : Struc → List ℕ → Blocks
read_conference_create_response struc r =
    let (choice, r0) = Per.read_choice r in
    let (t124, r1) = Per.read_object_identifier r0 t124_02_98_oid in
    let (l2, e2, r2) = Per.read_length r1 in
    let (c3, r3) = Per.read_choice r2 in
    let (i4, e4, r4) = Per.read_integer16 r3 in
    let (i5, r5) = Per.read_integer r4 in
    let (e6, f6, r6) = Per.read_enumerates r5 in
    let (n7, r7) = Per.read_number_of_set r6 in
    let (c8, r8) = Per.read_choice r7 in
    let (h221, r9) = Per.read_octet_stream r8 h221_sc_key 4 in
    let (ln, e10, r10) = Per.read_length r9 in
    if t124
    then (if h221 then read_blocks struc (length r10 + 1) ln r10 else blocks [])
    else blocks []
