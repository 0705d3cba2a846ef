-- ===== src/Drdynvc/Invariant.antt =====
-- The two maps of the client fit together, whatever the server sends.
use grdp.Prelude.{
  ℕ, ◌≤◌, ◌<◌, ◌≡◌, ◌≢◌, List, [], ◌∷◌, Option, none, some, Bool, true, false, arith, length, ◌==◌,
  ◌++◌, ◌%◌, ◌^◌, inl, inr, Option-cases, lt-or-le, lt→leb_false, le→leb, if◌then◌else◌,
}
use grdp.Prelude.Table.{lookup, put, delete, lookup-put, lookup-delete}
use grdp.Drdynvc.{
  Effect, dynvc_capabilities, dynvc_create_req, dynvc_data_first, dynvc_data, dynvc_close,
  dynvc_soft_sync_request, read_header, DvcClient, DvcChannelInfo, DvcReassembly, DvcHeader,
  Handler, new_dvc_client, open_channel, process_create_req, process_close, data_first,
  process_data_first, more_data, data_on, process_data, process_caps_pdu, process_soft_sync_request,
  dispatch, process, process_all, find_handler, trim_right, read_dvc_id,
}

-- An entry knows its own id; a message is awaited on open channels only, and is still incomplete by
-- the length of its buffer as a uint32;
-- the negotiated version is one that the client supports.
pub record IsConsistent (c : DvcClient) : Type 0 where
  pub own_id : (i : ℕ) (ch : DvcChannelInfo) → lookup i c.channel_by_id ≡ some ch → ch.id ≡ i
  pub open_only :
      (i : ℕ) (ra : DvcReassembly)
      → lookup i c.reassembly ≡ some ra
      → lookup i c.channel_by_id ≢ none
  pub incomplete :
      (i : ℕ) (ra : DvcReassembly)
      → lookup i c.reassembly ≡ some ra
      → length ra.buf % 2 ^ 32 < ra.total_len
  pub version : c.negotiated_version ≤ 3

pub new_dvc_client-IsConsistent : IsConsistent new_dvc_client
unfolding new_dvc_client lookup
new_dvc_client-IsConsistent = record {
  own_id = λ i ch h. cc;
  open_only = λ i ra h. cc;
  incomplete = λ i ra h. cc;
  version = omega arith;
}

-- A create request changes the state as it opens the channel, rejected or not.
pub process_create_req-state :
    (c : DvcClient) (hdr : DvcHeader) (s : List ℕ)
    → (process_create_req c hdr s).0
      ≡ (open_channel c hdr
          (read_dvc_id hdr.cb_ch_id s).0
          (trim_right (read_dvc_id hdr.cb_ch_id s).1)
          (find_handler (trim_right (read_dvc_id hdr.cb_ch_id s).1) c.handlers)).0
unfolding process_create_req
process_create_req-state c hdr s = ground arith

if-IsConsistent :
    (b : Bool) (x y : Effect)
    → IsConsistent x.0
    → IsConsistent y.0
    → IsConsistent (if b then x else y).0
if-IsConsistent true x y h k = h
if-IsConsistent false x y h k = k

module _ {c : DvcClient} (v : IsConsistent c) where
  open_channel-IsConsistent :
      (hdr : DvcHeader) (id : ℕ) (name : List ℕ) (handler : Option Handler)
      → IsConsistent (open_channel c hdr id name handler).0
  unfolding open_channel
  open_channel-IsConsistent hdr id name none = v
  open_channel-IsConsistent hdr id name (some handler) =
      let info : DvcChannelInfo = record { name = name; id = id; cb_ch_id = hdr.cb_ch_id } in
      record {
        own_id = λ i ch h. ground (arith, h, lookup-put id i info c.channel_by_id, v.own_id i ch);
        open_only =
            λ i ra h. ground (arith, lookup-put id i info c.channel_by_id, v.open_only i ra h);
        incomplete = v.incomplete;
        version = v.version;
      }

  process_create_req-IsConsistent :
      (hdr : DvcHeader) (s : List ℕ) → IsConsistent (process_create_req c hdr s).0
  process_create_req-IsConsistent hdr s =
      let p : ℕ × List ℕ = read_dvc_id hdr.cb_ch_id s in
      let name : List ℕ = trim_right p.1 in
      rw (process_create_req-state c hdr s)
        (open_channel-IsConsistent hdr p.0 name (find_handler name c.handlers))

  process_close-IsConsistent :
      (hdr : DvcHeader) (s : List ℕ) → IsConsistent (process_close c hdr s).0
  unfolding process_close
  process_close-IsConsistent hdr s =
      let id : ℕ = (read_dvc_id hdr.cb_ch_id s).0 in
      elim (Option-cases (lookup id c.channel_by_id)) [
        | inl shut ↦ rw (shut, process_close) v
        | inr (ch, open') ↦
            rw (open', process_close)
              (record {
                own_id =
                    λ i ch h. ground (arith, h, lookup-delete id i c.channel_by_id, v.own_id i ch);
                open_only = λ i ra h. ground (
                  arith,
                  h,
                  lookup-delete id i c.channel_by_id,
                  lookup-delete id i c.reassembly,
                  v.open_only i ra,
                );
                incomplete =
                    λ i ra h. ground (arith, h, lookup-delete id i c.reassembly, v.incomplete i ra);
                version = v.version;
              })
      ]

  -- A message that still wants bytes, on an open channel.
  waiting-IsConsistent :
      (id : ℕ) (ra : DvcReassembly)
      → lookup id c.channel_by_id ≢ none
      → length ra.buf % 2 ^ 32 < ra.total_len
      → IsConsistent (record c { reassembly = put id ra c.reassembly })
  waiting-IsConsistent id ra open' short = record {
    own_id = v.own_id;
    open_only =
        λ i ra' h. ground (arith, h, open', lookup-put id i ra c.reassembly, v.open_only i ra');
    incomplete = λ i ra' h. ground (arith, h, lookup-put id i ra c.reassembly, v.incomplete i ra');
    version = v.version;
  }

  done-IsConsistent : (id : ℕ) → IsConsistent (record c { reassembly = delete id c.reassembly })
  done-IsConsistent id = record {
    own_id = v.own_id;
    open_only = λ i ra' h. ground (arith, h, lookup-delete id i c.reassembly, v.open_only i ra');
    incomplete = λ i ra' h. ground (arith, h, lookup-delete id i c.reassembly, v.incomplete i ra');
    version = v.version;
  }

  data_first-IsConsistent :
      (id total : ℕ) (bytes : List ℕ) → IsConsistent (data_first c id total bytes).0
  unfolding data_first
  data_first-IsConsistent id total bytes = elim (Option-cases (lookup id c.channel_by_id)) [
    | inl shut ↦ rw (shut, data_first) v
    | inr (ch, open') ↦ elim (lt-or-le (length bytes % 2 ^ 32) total) [
      | inl short ↦
          rw (open', data_first)
            (rw (lt→leb_false total (length bytes % 2 ^ 32) short)
              (waiting-IsConsistent id _ (ground (arith, open')) short))
      | inr whole ↦ rw (open', data_first) (rw (le→leb total (length bytes % 2 ^ 32) whole) v)
    ]
  ]

  more_data-IsConsistent :
      (id : ℕ) (ch : DvcChannelInfo) (ra : DvcReassembly) (bytes : List ℕ)
      → lookup id c.channel_by_id ≢ none
      → IsConsistent (more_data c id ch ra bytes).0
  unfolding more_data
  more_data-IsConsistent id ch ra bytes open' =
      elim (lt-or-le (length (ra.buf ++ bytes) % 2 ^ 32) ra.total_len) [
        | inl short ↦
            rw (lt→leb_false ra.total_len (length (ra.buf ++ bytes) % 2 ^ 32) short)
              (waiting-IsConsistent id _ open' short)
        | inr whole ↦
            rw (le→leb ra.total_len (length (ra.buf ++ bytes) % 2 ^ 32) whole)
              (done-IsConsistent id)
      ]

  data_on-IsConsistent : (id : ℕ) (bytes : List ℕ) → IsConsistent (data_on c id bytes).0
  unfolding data_on
  data_on-IsConsistent id bytes = elim (Option-cases (lookup id c.channel_by_id)) [
    | inl shut ↦ rw (shut, data_on) v
    | inr (ch, open') ↦ elim (Option-cases (lookup id c.reassembly)) [
      | inl idle ↦ rw (open', idle, data_on) v
      | inr (ra, busy) ↦
          rw (open', data_on)
            (rw busy (more_data-IsConsistent id ch ra bytes (ground (arith, open'))))
    ]
  ]

  process_caps_pdu-IsConsistent : (s : List ℕ) → IsConsistent (process_caps_pdu c s).0
  unfolding process_caps_pdu
  process_caps_pdu-IsConsistent s = record {
    own_id = v.own_id;
    open_only = v.open_only;
    incomplete = v.incomplete;
    version = omega arith;
  }

  dispatch-IsConsistent : (hdr : DvcHeader) (b : List ℕ) → IsConsistent (dispatch c hdr b).0
  unfolding dispatch process_data_first process_data process_soft_sync_request
  dispatch-IsConsistent hdr b =
      let (id, r) = read_dvc_id hdr.cb_ch_id b in
      let (total, bytes) = read_dvc_id hdr.sp r in
      if-IsConsistent (hdr.cmd == dynvc_capabilities) _ _ (process_caps_pdu-IsConsistent b) (
        if-IsConsistent (hdr.cmd == dynvc_create_req) _ _ (process_create_req-IsConsistent hdr b) (
          if-IsConsistent (hdr.cmd == dynvc_data_first) _ _ (data_first-IsConsistent id total bytes)
            (if-IsConsistent (hdr.cmd == dynvc_data) _ _ (data_on-IsConsistent id r) (
              if-IsConsistent (hdr.cmd == dynvc_close) _ _ (process_close-IsConsistent hdr b)
                (if-IsConsistent (hdr.cmd == dynvc_soft_sync_request) _ _ v v)))))

pub process-IsConsistent :
    {c : DvcClient} (s : List ℕ) → IsConsistent c → IsConsistent (process c s).0
unfolding process
process-IsConsistent s v = dispatch-IsConsistent v (read_header s).0 (read_header s).1

-- From a consistent client, such as a new one, every run of PDUs, well formed or not, leads to a
-- consistent client: each entry of the channel map has its own id, a message is awaited only on an
-- open channel and the length of its buffer, as a uint32, is below the total that was announced, and
-- the negotiated version is at most 3.
pub process_all-IsConsistent :
    (c : DvcClient) (ss : List (List ℕ)) → IsConsistent c → IsConsistent (process_all c ss).0
unfolding process_all
process_all-IsConsistent c [] v = v
process_all-IsConsistent c (s ∷ ss) v =
    process_all-IsConsistent (process c s).0 ss (process-IsConsistent s v)
