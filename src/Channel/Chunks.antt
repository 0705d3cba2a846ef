-- ===== src/Channel/Chunks.antt =====
-- A message cut into chunks is reassembled, whatever the buffer held before.
use Prim.Native.String.{String}
use grdp.Prelude.{
  ℕ, zero, suc, ◌+◌, ◌-◌, ◌≤◌, ◌<◌, ◌≡◌, refl, List, [], ◌∷◌, ◌++◌, none, some, Bool, true, false,
  ◌==◌, if◌then◌else◌, ◌&&◌, length, drop, map, arith, ap, append-nil, append_assoc,
  take-append-drop, length-take, length-drop, length-append, ==_iff, Bool-cases, Option-cases, ◌∙◌,
  inl, inr, bit_and, All,
}
use grdp.Channel.{
  Channels, lookup, chunk, base_flag, chunk_flag, chunk_pdu, send_chunks, send_to_channel,
  reassemble, process, process_all, channel_chunk_length,
}

-- The base flag is 0 or the show-protocol bit.
abbrev pub show : Bool → ℕ
show b = if b then 0x10 else 0

pub base_flag-show : (options : ℕ) → (b : Bool) × (base_flag options ≡ show b)
unfolding base_flag
base_flag-show options = elim (Bool-cases (bit_and options 0x00200000 == 0)) [
  | inl off ↦ (false, rw off)
  | inr on ↦ (true, rw on)
]

-- How a chunk with a written header acts, for each setting of the flags.
pub process-chunk_pdu :
    (c : Channels) (channel : String) (options total : ℕ) (b first last : Bool) (payload : List ℕ)
    → lookup channel c.channels ≡ some options
    → process c channel (chunk_pdu total (chunk_flag (show b) first last) payload) ≡ (
        let buff = (if first then [] else c.buff) ++ payload in
        if first && last
        then (record c { buff = c.buff }, some payload)
        else (record c { buff = buff }, if last then some buff else none))
unfolding process chunk_pdu chunk_flag reassemble
process-chunk_pdu c channel options total true true true payload h = ground (arith, h)
process-chunk_pdu c channel options total true true false payload h = ground (arith, h)
process-chunk_pdu c channel options total true false true payload h = ground (arith, h)
process-chunk_pdu c channel options total true false false payload h = ground (arith, h)
process-chunk_pdu c channel options total false true true payload h = ground (arith, h)
process-chunk_pdu c channel options total false true false payload h = ground (arith, h)
process-chunk_pdu c channel options total false false true payload h = ground (arith, h)
process-chunk_pdu c channel options total false false false payload h = ground (arith, h)

abbrev pub joined : List (List ℕ) → List ℕ
joined [] = []
joined (p ∷ ps) = p ++ joined ps

abbrev pub IsFilled : List ℕ → Type 0
IsFilled p = 0 < length p

joined-chunk : (fuel n : ℕ) (s : List ℕ) → 0 < n → length s ≤ fuel → joined (chunk fuel n s) ≡ s
unfolding chunk
joined-chunk fuel n [] h k = refl
joined-chunk zero n (b ∷ s) h k = absurd (omega arith)
joined-chunk (suc fuel) n (b ∷ s) h k =
    rw (joined-chunk fuel n (drop n (b ∷ s)) h (omega (arith, length-drop n (b ∷ s))))
      (take-append-drop n (b ∷ s))

chunk-IsFilled : (fuel n : ℕ) (s : List ℕ) → 0 < n → All IsFilled (chunk fuel n s)
unfolding chunk
chunk-IsFilled fuel n [] h = tt
chunk-IsFilled zero n (b ∷ s) h = tt
chunk-IsFilled (suc fuel) n (b ∷ s) h =
    (omega (arith, length-take n (b ∷ s)), chunk-IsFilled fuel n (drop n (b ∷ s)) h)

chunk_short : (fuel n : ℕ) (s : List ℕ) → All (λ p. length p ≤ n) (chunk fuel n s)
unfolding chunk
chunk_short fuel n [] = tt
chunk_short zero n (b ∷ s) = tt
chunk_short (suc fuel) n (b ∷ s) =
    (omega (arith, length-take n (b ∷ s)), chunk_short fuel n (drop n (b ∷ s)))

-- The chunks as they arrive on a channel.
abbrev pub on_channel : String → List (List ℕ) → List (String × List ℕ)
on_channel channel = map (λ m. (channel, m))

pub process_all-quiet :
    (c c' : Channels) (channel : String) (s : List ℕ) (rest : List (String × List ℕ))
    → process c channel s ≡ (c', none)
    → (process_all c ((channel, s) ∷ rest)).1 ≡ (process_all c' rest).1
unfolding process_all
process_all-quiet c c' channel s rest e = ground (arith, e)

pub process_all-loud :
    (c c' : Channels) (channel : String) (s m : List ℕ) (rest : List (String × List ℕ))
    → process c channel s ≡ (c', some m)
    → (process_all c ((channel, s) ∷ rest)).1 ≡ (channel, m) ∷ (process_all c' rest).1
unfolding process_all
process_all-loud c c' channel s m rest e = ground (arith, e)

pub process_all-nil : (c : Channels) → (process_all c []).1 ≡ []
unfolding process_all
process_all-nil c = refl

module _ (channel : String) (total : ℕ) (b : Bool) where
  -- The last piece is handed on behind what is buffered.
  last_piece :
      (c : Channels) (options : ℕ) (first : Bool) (p : List ℕ)
      → lookup channel c.channels ≡ some options
      → (c' : Channels) × (process c channel (chunk_pdu total (chunk_flag (show b) first true) p)
          ≡ (c', some ((if first then [] else c.buff) ++ p)))
  last_piece c options true p h = (c, process-chunk_pdu c channel options total b true true p h)
  last_piece c options false p h =
      (record c { buff = c.buff ++ p }, process-chunk_pdu c channel options total b false true p h)

  -- Any other piece joins the buffer.
  inner_piece :
      (c : Channels) (options : ℕ) (first : Bool) (p : List ℕ)
      → lookup channel c.channels ≡ some options
      → process c channel (chunk_pdu total (chunk_flag (show b) first false) p)
        ≡ (record c { buff = (if first then [] else c.buff) ++ p }, none)
  inner_piece c options true p h = process-chunk_pdu c channel options total b true false p h
  inner_piece c options false p h = process-chunk_pdu c channel options total b false false p h

  process_all-send_chunks :
      (c : Channels) (options : ℕ) (first : Bool) (remaining : ℕ) (p : List ℕ) (ps : List (List ℕ))
      → lookup channel c.channels ≡ some options
      → All IsFilled ps
      → remaining ≡ length (joined (p ∷ ps))
      → (process_all c (on_channel channel (send_chunks total (show b) first remaining (p ∷ ps)))).1
        ≡ (channel, (if first then [] else c.buff) ++ joined (p ∷ ps)) ∷ []
  unfolding send_chunks
  process_all-send_chunks c options first remaining p [] h fs e =
      let done : (remaining - length p == 0) ≡ true =
        (==_iff _ _).1 (omega (arith, e, length-append p [])) in
      let (c', q) = last_piece c options first p h in
      rw (done, append-nil p, process_all-loud c c' channel _ _ [] q, process_all-nil c')
  process_all-send_chunks c options first remaining p (q ∷ qs) h (g, gs) e =
      let left : remaining - length p ≡ length (joined (q ∷ qs)) =
        omega (arith, e, length-append p (joined (q ∷ qs))) in
      let more : (remaining - length p == 0) ≡ false =
        ground (arith, left, length-append q (joined qs)) in
      let c' : Channels = record c { buff = (if first then [] else c.buff) ++ p } in
      rw (
        more,
        process_all-quiet c c' channel _ _ (inner_piece c options first p h),
        process_all-send_chunks c' options false (remaining - length p) q qs h gs left,
        append_assoc,
      )

chunk-cons :
    (s : List ℕ)
    → 0 < length s
    → (p : List ℕ) × (ps : List (List ℕ)) × (chunk (length s) channel_chunk_length s ≡ p ∷ ps)
unfolding chunk
chunk-cons [] h = absurd (omega arith)
chunk-cons (x ∷ s) h = (_, _, refl)

send_to_channel_lem :
    (c : Channels) (channel : String) (o : ℕ) (s : List ℕ)
    → lookup channel c.channels ≡ some o
    → send_to_channel c channel s
      ≡ some (
          send_chunks
            (length s)
            (base_flag o)
            true
            (length s)
            (chunk (length s) channel_chunk_length s))
unfolding send_to_channel
send_to_channel_lem c channel o s h = rw (h, send_to_channel)

-- The chunks that `SendToChannel` makes of a message of at least one byte, once `process` has seen them all on a
-- registered channel with no other chunk between them, hand exactly that message to the channel, once;
-- this holds whatever an earlier message left in the buffer, and for every setting of the options.
pub process_all-send_to_channel :
    (sender receiver : Channels) (channel : String) (o o' : ℕ) (s : List ℕ)
    → lookup channel sender.channels ≡ some o
    → lookup channel receiver.channels ≡ some o'
    → 0 < length s
    → (pdus : List (List ℕ)) × (send_to_channel sender channel s ≡ some pdus)
      × ((process_all receiver (on_channel channel pdus)).1 ≡ (channel, s) ∷ [])
process_all-send_to_channel sender receiver channel o o' s h h' f =
    let (b, eb) = base_flag-show o in
    let (p, ps, ec) = chunk-cons s f in
    let filled : All IsFilled (p ∷ ps) =
      rw ec at (chunk-IsFilled (length s) channel_chunk_length s (omega arith)) in
    let whole : joined (p ∷ ps) ≡ s =
      rw ec at (joined-chunk (length s) channel_chunk_length s (omega arith) (omega arith)) in
    (
      send_chunks (length s) (show b) true (length s) (p ∷ ps),
      send_to_channel_lem sender channel o s h ∙ rw (eb, ec),
      process_all-send_chunks channel (length s) b receiver o' true (length s) p ps h' filled.1
            (rw whole)
          ∙ ap (λ m. (channel, m) ∷ []) whole,
    )

send_chunks_short :
    (total base : ℕ) (first : Bool) (remaining : ℕ) (ps : List (List ℕ))
    → All (λ p. length p ≤ channel_chunk_length) ps
    → All (λ p. length p ≤ 8 + channel_chunk_length) (send_chunks total base first remaining ps)
unfolding send_chunks chunk_pdu
send_chunks_short total base first remaining [] h = tt
send_chunks_short total base first remaining (p ∷ ps) (h, hs) =
    (omega arith, send_chunks_short total base false (remaining - length p) ps hs)

-- No buffer that `SendToChannel` hands to the sender is longer than the eight bytes of the header and
-- 1600 bytes of the message, which is the size that the pooled buffers have.
pub send_to_channel_short :
    (c : Channels) (channel : String) (s : List ℕ) (pdus : List (List ℕ))
    → send_to_channel c channel s ≡ some pdus
    → All (λ p. length p ≤ 8 + channel_chunk_length) pdus
unfolding send_to_channel
send_to_channel_short c channel s pdus e = elim (Option-cases (lookup channel c.channels)) [
  | inl missing ↦ ground (arith, missing)
  | inr (o, found) ↦
      let pieces : List (List ℕ) = chunk (length s) channel_chunk_length s in
      let same : send_chunks (length s) (base_flag o) true (length s) pieces ≡ pdus =
        cc (send_to_channel_lem c channel o s found, e) in
      rw (← same) (
        send_chunks_short (length s) (base_flag o) true (length s) pieces
          (chunk_short (length s) channel_chunk_length s))
]
