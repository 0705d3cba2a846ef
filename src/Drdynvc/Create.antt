-- ===== src/Drdynvc/Create.antt =====
-- The life of a channel: the answer to a create request, data on the open channel, and its end.
use grdp.Prelude.{
  ℕ, zero, suc, ◌<◌, ◌≡◌, refl, List, [], ◌∷◌, ◌++◌, none, some, if◌then◌else◌, arith, ap, ◌∙◌,
  replicate, Bool-cases, Option-cases, inl, inr,
}
use grdp.Prelude.Table.{lookup, put, lookup-delete_self}
use grdp.Drdynvc.{
  DvcClient, DvcHeader, Handler, Event, sent, send_func, created, serialize, write_dvc_id,
  dynvc_create_req, dynvc_close, e_fail, find_handler, is_rejected, read_dvc_id, trim_right,
  open_channel, create_rsp, process_create_req, process_close, data_on, data_first, dispatch,
  process,
}
use grdp.Drdynvc.Header.{FitsId, read_dvc_id-write, process-serialize}
use grdp.Drdynvc.Reassembly.{data_pdu, data_first_pdu, process-data_pdu, process-data_first_pdu}
use grdp.Io.{write_uint32_le}

trim_right-replicate : (n : ℕ) → trim_right (replicate n 0) ≡ []
unfolding trim_right
trim_right-replicate zero = refl
trim_right-replicate (suc n) = rw (trim_right-replicate n)

-- Trailing zero bytes do not change the name.
pub trim_right-append :
    (name : List ℕ) (n : ℕ) → trim_right (name ++ replicate n 0) ≡ trim_right name
unfolding trim_right
trim_right-append [] n = trim_right-replicate n
trim_right-append (b ∷ name) n = rw (trim_right-append name n)

abbrev pub create_pdu : ℕ → ℕ → ℕ → List ℕ → List ℕ
create_pdu cb sp id name =
    serialize (record { cmd = dynvc_create_req; sp = sp; cb_ch_id = cb }) id ++ name

-- The answer to a create request, byte for byte.
abbrev pub answer : ℕ → ℕ → ℕ → Event
answer cb id status = sent (
    serialize (record { cmd = dynvc_create_req; sp = 0; cb_ch_id = cb }) id
    ++ write_uint32_le status)

process-create_pdu :
    (c : DvcClient) (cb sp id : ℕ) (name : List ℕ)
    → cb < 4
    → sp < 4
    → FitsId cb id
    → process c (create_pdu cb sp id name)
      ≡ process_create_req c
          (record { cmd = dynvc_create_req; sp = sp; cb_ch_id = cb })
          (write_dvc_id cb id ++ name)
unfolding dispatch
process-create_pdu c cb sp id name hcb hsp hid = process-serialize c _ id name (omega arith)

-- A create request with a well-formed header for a name that is not trimmed further, with any padding of zeros, opens the
-- channel where a handler is registered for the name, and is answered once: with E_FAIL where the name
-- is rejected, and else with 0, behind which the handler is notified if it wants to be.
pub process-create :
    (c : DvcClient) (cb sp id n : ℕ) (name : List ℕ) (handler : Handler)
    → cb < 4
    → sp < 4
    → FitsId cb id
    → trim_right name ≡ name
    → find_handler name c.handlers ≡ some handler
    → process c (create_pdu cb sp id (name ++ replicate n 0)) ≡ (
      record c {
        channel_by_id = put id (record { name = name; id = id; cb_ch_id = cb }) c.channel_by_id;
      },
      (if handler.sets_send_func then send_func name id ∷ [] else [])
          ++ (if is_rejected name c.rejected_channels
              then answer cb id e_fail ∷ []
              else answer cb id 0 ∷ (if handler.on_channel_created then created name ∷ [] else [])),
    )
unfolding process_create_req open_channel create_rsp
process-create c cb sp id n name handler hcb hsp hid trimmed found =
    process-create_pdu c cb sp id (name ++ replicate n 0) hcb hsp hid
    ∙ rw
        (
          read_dvc_id-write cb id (name ++ replicate n 0) hid,
          trim_right-append name n,
          trimmed,
          found,
        )
        (elim (Bool-cases (is_rejected name c.rejected_channels)) [
          | inl refused ↦ rw refused
          | inr accepted ↦ rw accepted
        ])

abbrev pub close_pdu : ℕ → ℕ → ℕ → List ℕ → List ℕ
close_pdu cb sp id rest =
    serialize (record { cmd = dynvc_close; sp = sp; cb_ch_id = cb }) id ++ rest

close-lookup :
    (c : DvcClient) (hdr : DvcHeader) (s : List ℕ) (id : ℕ)
    → (read_dvc_id hdr.cb_ch_id s).0 ≡ id
    → lookup id (process_close c hdr s).0.channel_by_id ≡ none
unfolding process_close
close-lookup c hdr s id e =
    rw (e, process_close)
      (elim (Option-cases (lookup id c.channel_by_id)) [
        | inl shut ↦ rw shut shut
        | inr (ch, open') ↦ rw (open', e) (lookup-delete_self id c.channel_by_id)
      ])

process-close_pdu :
    (c : DvcClient) (cb sp id : ℕ) (rest : List ℕ)
    → cb < 4
    → sp < 4
    → FitsId cb id
    → lookup id (process c (close_pdu cb sp id rest)).0.channel_by_id ≡ none
unfolding dispatch
process-close_pdu c cb sp id rest hcb hsp hid =
    rw
      (process-serialize c (record { cmd = dynvc_close; sp = sp; cb_ch_id = cb }) id rest
        (omega arith))
      (close-lookup c (record { cmd = dynvc_close; sp = sp; cb_ch_id = cb })
        (write_dvc_id cb id ++ rest) id
        (ap (λ (t : ℕ × List ℕ). t.0) (read_dvc_id-write cb id rest hid)))

-- After a close PDU with a well-formed header for an id, whatever was open or awaited before, neither a further DYNVC_DATA nor
-- a DYNVC_DATA_FIRST for that id changes the client or reaches a handler.
pub process-close :
    (c : DvcClient) (cb sp sp' id total : ℕ) (rest bytes : List ℕ)
    → cb < 4
    → sp < 4
    → sp' < 4
    → FitsId cb id
    → FitsId sp' total
    → (let closed = (process c (close_pdu cb sp id rest)).0 in
        (process closed (data_pdu cb sp' id bytes) ≡ (closed, []))
        × (process closed (data_first_pdu cb sp' id total bytes) ≡ (closed, [])))
process-close c cb sp sp' id total rest bytes hcb hsp hsp' hid ht =
    let closed : DvcClient = (process c (close_pdu cb sp id rest)).0 in
    let gone : lookup id closed.channel_by_id ≡ none =
      process-close_pdu c cb sp id rest hcb hsp hid in
    (
      process-data_pdu closed cb sp' id bytes hcb hsp' hid ∙ unfold data_on in rw (gone, data_on),
      process-data_first_pdu closed cb sp' id total bytes hcb hsp' hid ht
          ∙ unfold data_first in rw (gone, data_first),
    )
