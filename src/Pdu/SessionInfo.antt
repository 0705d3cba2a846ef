-- ===== src/Pdu/SessionInfo.antt =====
-- protocol/pdu/data.go: the save-session-info PDU. The names of user and domain are only logged.
use grdp.Prelude.{
  ℕ, List, [], Option, none, some, Bool, true, false, ◌==◌, if◌then◌else◌, not, ◌||◌,
}
use grdp.Io.{read_uint32_le}
use grdp.Pdu.Reads.{Reads, ◌>>=◌, done, uint16, uint32, some_bytes, has}

abbrev logon_ex_autoreconnectcookie : ℕ
logon_ex_autoreconnectcookie = 0x00000001

pub record SaveSessionInfo : Type 0 where
  pub info_type : ℕ
  pub length : ℕ
  pub fields_present : ℕ
  pub logon_id : ℕ
  pub random : List ℕ

-- The session identifier of the first version, after the fixed fields of domain and user.
unfoldable logon_info_v1 : Reads ℕ
unfolding uint32 some_bytes
logon_info_v1 = do _ ← uint32; _ ← some_bytes 52; _ ← uint32; _ ← some_bytes 512; uint32

-- The second version, with the lengths before the pad and the names.
unfoldable logon_info_v2 : Reads ℕ
unfolding uint16 uint32 some_bytes
logon_info_v2 = do
  _ ← uint16
  _ ← uint32
  session_id ← uint32
  cb_domain ← uint32
  cb_user_name ← uint32
  _ ← some_bytes 558
  _ ← some_bytes cb_domain
  _ ← some_bytes cb_user_name
  done session_id

-- The automatic reconnect cookie: its length and its version are tested; `none` for an error.
unfoldable reconnect_cookie : Reads (Option (ℕ × List ℕ))
unfolding uint32 some_bytes
reconnect_cookie = do
  _ ← uint32
  len ← uint32
  version ← uint32
  logon_id ← uint32
  random ← some_bytes 16
  done (if not (len == 28) || not (version == 1) then none else some (logon_id, random))

unfoldable logon_error : Reads ℕ
unfolding uint32
logon_error = do _ ← uint32; _ ← uint32; uint32

-- What the extended information leaves of the identifier and the cookie.
unfoldable extended_fields : Bool → List ℕ → Option (ℕ × List ℕ)
unfolding reconnect_cookie logon_error
extended_fields true r = (reconnect_cookie r).0
extended_fields false r = some ((logon_error r).0, [])

-- The error of the flags' read is returned in the end.
unfoldable logon_info_extended : List ℕ → Option SaveSessionInfo
unfolding uint16 extended_fields
logon_info_extended r =
    let (len, r1) = uint16 r in
    let (fields, e, r2) = read_uint32_le r1 in
    elim e [
      | some _ ↦ none
      | none ↦ elim (extended_fields (has fields logon_ex_autoreconnectcookie) r2) [
        | none ↦ none
        | some (id, random) ↦ some (record {
          info_type = 3;
          length = len;
          fields_present = fields;
          logon_id = id;
          random = random;
        })
      ]
    ]

abbrev plain : ℕ → ℕ → SaveSessionInfo
plain info_type id = record {
  info_type = info_type;
  length = 0;
  fields_present = 0;
  logon_id = id;
  random = [];
}

-- `SaveSessionInfo.Unpack`; the rest of the reader is dropped by the caller.
unfoldable pub unpack_save_session_info : List ℕ → Option SaveSessionInfo
unfolding uint32 logon_info_v1 logon_info_v2 logon_info_extended
unpack_save_session_info r =
    let (info_type, r1) = uint32 r in
    if info_type == 0
    then some (plain 0 (logon_info_v1 r1).0)
    else if info_type == 1
    then some (plain 1 (logon_info_v2 r1).0)
    else if info_type == 2
    then some (plain 2 0)
    else if info_type == 3
    then logon_info_extended r1
    else none
