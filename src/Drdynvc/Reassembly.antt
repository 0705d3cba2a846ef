-- ===== src/Drdynvc/Reassembly.antt =====
-- A message in one or several PDUs reaches the handler of its channel whole, and once.
use grdp.Prelude.{
  ℕ, ◌%◌, ◌^◌, ◌<◌, ◌≡◌, refl, List, [], ◌∷◌, ◌++◌, none, some, length, map, arith, ◌∙◌, All,
  append_assoc, append-nil, take-all, length-append, le→leb, lt→leb_false,
}
use grdp.Prelude.Table.{lookup, put, delete, lookup-put_self, lookup-delete_self}
use grdp.Drdynvc.{
  DvcClient, DvcChannelInfo, Event, handled, serialize, write_dvc_id, dynvc_data_first, dynvc_data,
  data_first, data_on, more_data, process_data_first, process_data, process, process_all, dispatch,
}
use grdp.Drdynvc.Header.{FitsId, FitsId-lt, read_dvc_id-write, process-serialize}

-- DYNVC_DATA_FIRST and DYNVC_DATA as a server writes them.
abbrev pub data_first_pdu : ℕ → ℕ → ℕ → ℕ → List ℕ → List ℕ
data_first_pdu cb sp id total bytes =
    serialize (record { cmd = dynvc_data_first; sp = sp; cb_ch_id = cb }) id
    ++ (write_dvc_id sp total ++ bytes)

abbrev pub data_pdu : ℕ → ℕ → ℕ → List ℕ → List ℕ
data_pdu cb sp id bytes =
    serialize (record { cmd = dynvc_data; sp = sp; cb_ch_id = cb }) id ++ bytes

pub process-data_first_pdu :
    (c : DvcClient) (cb sp id total : ℕ) (bytes : List ℕ)
    → cb < 4
    → sp < 4
    → FitsId cb id
    → FitsId sp total
    → process c (data_first_pdu cb sp id total bytes) ≡ data_first c id total bytes
unfolding dispatch process_data_first
process-data_first_pdu c cb sp id total bytes hcb hsp hid ht =
    process-serialize c _ id (write_dvc_id sp total ++ bytes) (omega arith)
    ∙ rw (read_dvc_id-write cb id _ hid, read_dvc_id-write sp total bytes ht)

pub process-data_pdu :
    (c : DvcClient) (cb sp id : ℕ) (bytes : List ℕ)
    → cb < 4
    → sp < 4
    → FitsId cb id
    → process c (data_pdu cb sp id bytes) ≡ data_on c id bytes
unfolding dispatch process_data
process-data_pdu c cb sp id bytes hcb hsp hid =
    process-serialize c _ id bytes (omega arith) ∙ rw (read_dvc_id-write cb id bytes hid)

abbrev pub joined : List (List ℕ) → List ℕ
joined [] = []
joined (p ∷ ps) = p ++ joined ps

-- The state after a piece that is not the last one.
abbrev waiting : DvcClient → ℕ → List ℕ → ℕ → DvcClient
waiting c id buf total = record c {
  reassembly = put id (record { buf = buf; total_len = total }) c.reassembly;
}

data_on-waiting :
    (c : DvcClient) (id : ℕ) (ch : DvcChannelInfo) (buf p : List ℕ) (total : ℕ)
    → lookup id c.channel_by_id ≡ some ch
    → lookup id c.reassembly ≡ some (record { buf = buf; total_len = total })
    → length (buf ++ p) < total
    → total < 2 ^ 32
    → data_on c id p ≡ (waiting c id (buf ++ p) total, [])
unfolding data_on more_data
data_on-waiting c id ch buf p total open' ra short fits =
    rw (open', data_on, ra)
      (rw (lt→leb_false total (length (buf ++ p) % 2 ^ 32) (omega (arith, short, fits))))

data_on_complete :
    (c : DvcClient) (id : ℕ) (ch : DvcChannelInfo) (buf p : List ℕ) (total : ℕ)
    → lookup id c.channel_by_id ≡ some ch
    → lookup id c.reassembly ≡ some (record { buf = buf; total_len = total })
    → total ≡ length (buf ++ p)
    → total < 2 ^ 32
    → data_on c id p
      ≡ (record c { reassembly = delete id c.reassembly }, handled ch.name (buf ++ p) ∷ [])
unfolding data_on more_data
data_on_complete c id ch buf p total open' ra whole fits =
    rw (open', data_on, ra)
      (rw (
        le→leb total (length (buf ++ p) % 2 ^ 32) (omega (arith, whole, fits)),
        take-all total (buf ++ p) (omega (arith, whole)),
      ))

data_first-waiting :
    (c : DvcClient) (id : ℕ) (ch : DvcChannelInfo) (p : List ℕ) (total : ℕ)
    → lookup id c.channel_by_id ≡ some ch
    → length p < total
    → total < 2 ^ 32
    → data_first c id total p ≡ (waiting c id p total, [])
unfolding data_first
data_first-waiting c id ch p total open' short fits =
    rw (open', data_first)
      (rw (lt→leb_false total (length p % 2 ^ 32) (omega (arith, short, fits))))

-- A first PDU that holds the whole message leaves the state as it is.
pub data_first_complete :
    (c : DvcClient) (id : ℕ) (ch : DvcChannelInfo) (p : List ℕ) (total : ℕ)
    → lookup id c.channel_by_id ≡ some ch
    → total ≡ length p
    → total < 2 ^ 32
    → data_first c id total p ≡ (c, handled ch.name p ∷ [])
unfolding data_first
data_first_complete c id ch p total open' whole fits =
    rw (open', data_first)
      (rw (
        le→leb total (length p % 2 ^ 32) (omega (arith, whole, fits)),
        take-all total p (omega (arith, whole)),
      ))

process_all-cons :
    (c c' : DvcClient) (s : List ℕ) (es : List Event) (ss : List (List ℕ))
    → process c s ≡ (c', es)
    → process_all c (s ∷ ss) ≡ ((process_all c' ss).0, es ++ (process_all c' ss).1)
unfolding process_all
process_all-cons c c' s es ss h = rw (h, process_all)

process_all-nil : (c : DvcClient) → process_all c [] ≡ (c, [])
unfolding process_all
process_all-nil c = refl

-- The outcome of a run: one message handled, and nothing left to wait for on the channel.
abbrev pub Handled : DvcChannelInfo → ℕ → List ℕ → DvcClient × List Event → Type 0
Handled ch id message out =
    (out.1 ≡ handled ch.name message ∷ []) × (lookup id out.0.reassembly ≡ none)

module _ (cb sp id : ℕ) (hcb : cb < 4) (hsp : sp < 4) (hid : FitsId cb id)
    (ch : DvcChannelInfo) where
  process_all-data :
      (c : DvcClient) (buf : List ℕ) (total : ℕ) (p : List ℕ) (ps : List (List ℕ))
      → lookup id c.channel_by_id ≡ some ch
      → lookup id c.reassembly ≡ some (record { buf = buf; total_len = total })
      → All (λ q. 0 < length q) ps
      → total ≡ length (buf ++ joined (p ∷ ps))
      → total < 2 ^ 32
      → Handled ch id (buf ++ joined (p ∷ ps)) (process_all c (map (data_pdu cb sp id) (p ∷ ps)))
  process_all-data c buf total p [] open' ra fs whole fits =
      let whole' : total ≡ length (buf ++ p) = rw append-nil at whole in
      let c' : DvcClient = record c { reassembly = delete id c.reassembly } in
      let step : process c (data_pdu cb sp id p) ≡ (c', handled ch.name (buf ++ p) ∷ []) =
        process-data_pdu c cb sp id p hcb hsp hid
        ∙ data_on_complete c id ch buf p total open' ra whole' fits in
      rw (process_all-cons c c' _ _ [] step, process_all-nil c', append-nil p)
        (refl, lookup-delete_self id c.reassembly)
  process_all-data c buf total p (q ∷ qs) open' ra (f, fs) whole fits =
      let c' : DvcClient = waiting c id (buf ++ p) total in
      let short : length (buf ++ p) < total = omega (
        arith,
        whole,
        length-append buf p,
        length-append buf (p ++ (q ++ joined qs)),
        length-append p (q ++ joined qs),
        length-append q (joined qs),
      ) in
      let step : process c (data_pdu cb sp id p) ≡ (c', []) =
        process-data_pdu c cb sp id p hcb hsp hid
        ∙ data_on-waiting c id ch buf p total open' ra short fits in
      let rest : Handled ch id ((buf ++ p) ++ joined (q ∷ qs))
          (process_all c' (map (data_pdu cb sp id) (q ∷ qs))) =
        process_all-data c' (buf ++ p) total q qs open' (lookup-put_self id _ c.reassembly) fs
          (rw append_assoc whole) fits in
      rw (process_all-cons c c' _ [] _ step) (rw append_assoc at rest)

  -- DYNVC_DATA_FIRST with the length of the whole message, with well-formed headers, and then its further pieces, none of them
  -- empty, by DYNVC_DATA: if the channel is open, and waits for nothing when the first PDU comes,
  -- its handler is given the whole message once, and the channel waits for nothing again.
  pub process_all-message :
      (c : DvcClient) (sp' total : ℕ) (p : List ℕ) (ps : List (List ℕ))
      → sp' < 4
      → FitsId sp' total
      → lookup id c.channel_by_id ≡ some ch
      → lookup id c.reassembly ≡ none
      → All (λ q. 0 < length q) ps
      → total ≡ length (p ++ joined ps)
      → Handled ch id
          (p ++ joined ps)
          (process_all c (data_first_pdu cb sp' id total p ∷ map (data_pdu cb sp id) ps))
  process_all-message c sp' total p [] hsp' ht open' idle fs whole =
      let whole' : total ≡ length p = rw append-nil at whole in
      let step : process c (data_first_pdu cb sp' id total p) ≡ (c, handled ch.name p ∷ []) =
        process-data_first_pdu c cb sp' id total p hcb hsp' hid ht
        ∙ data_first_complete c id ch p total open' whole' (FitsId-lt sp' total ht) in
      rw (process_all-cons c c _ _ [] step, process_all-nil c, append-nil p) (refl, idle)
  process_all-message c sp' total p (q ∷ qs) hsp' ht open' idle (f, fs) whole =
      let c' : DvcClient = waiting c id p total in
      let short : length p < total =
        omega (arith, whole, length-append p (q ++ joined qs), length-append q (joined qs)) in
      let step : process c (data_first_pdu cb sp' id total p) ≡ (c', []) =
        process-data_first_pdu c cb sp' id total p hcb hsp' hid ht
        ∙ data_first-waiting c id ch p total open' short (FitsId-lt sp' total ht) in
      rw (process_all-cons c c' _ [] _ step) (
        process_all-data c' p total q qs open' (lookup-put_self id _ c.reassembly) fs whole
          (FitsId-lt sp' total ht))
