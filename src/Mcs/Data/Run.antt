-- ===== src/Mcs/Data/Run.antt =====
-- The connection sequence with a server that confirms every request.
use grdp.Prelude.{
  ℕ, zero, suc, ◌+◌, ◌≤◌, ◌<◌, ◌≡◌, ◌≢◌, refl, ap, sym, List, [], ◌∷◌, ◌++◌, none, some, Bool, true,
  false, ◌==◌, ◌&&◌, not, if◌then◌else◌, length, get_elem?, map, All, Option-cases, inl, inr,
  ≢→==_false, ==-refl, arith, append_assoc, append-nil, length-append, lt→ltb, le→ltb_false,
}
use grdp.Io.{read_uint8, write_uint8}
use grdp.Per as Per
use grdp.Per.RoundTrip.{read_enumerates-byte, read_integer16-write}
use grdp.Gcc.{Struc, ChannelDef, ServerNetworkData}
use grdp.Mcs.Client.{
  McsClient, McsChannelInfo, Listener, join_confirm, receiving, Event, Effect, connected, off_base,
  channel_join_request, sent, join_request, connect_channels, next_static,
  recv_channel_join_confirm, join_confirmed, confirmed, on_base, write_mcs_pdu_header,
  read_mcs_pdu_header, attach_user_confirm, channel_join_confirm, mcs_global_channel_id,
}
use grdp.Mcs.Data.{recv, run}

-- A channel that the client asked for, with the id that the server gave it.
abbrev pub Static : Type 0
Static = ℕ × ChannelDef

abbrev pub info : Static → McsChannelInfo
info (id, d) = record { id = id; name = d.name }

-- The channels among `statics` with that id.
abbrev pub having : ℕ → List Static → List McsChannelInfo
having id [] = []
having id ((i, d) ∷ ps) = if id == i then info (id, d) ∷ having id ps else having id ps

abbrev pub Absent : ℕ → List Static → Type 0
Absent id = All (λ p. id ≢ p.0)

some-if :
    (b : Bool) (x y : List McsChannelInfo)
    → (if b then some x else some y) ≡ some (if b then x else y)
some-if true x y = refl
some-if false x y = refl

confirmed-having :
    (id : ℕ) (ps : List Static)
    → confirmed (length ps) (map (λ p. p.0) ps) (map (λ p. p.1) ps) id ≡ some (having id ps)
unfolding confirmed
confirmed-having id [] = refl
confirmed-having id ((i, d) ∷ ps) = rw (confirmed-having id ps) (some-if (id == i) _ _)

pub having-Absent : (id : ℕ) (ps : List Static) → Absent id ps → having id ps ≡ []
having-Absent id [] h = refl
having-Absent id (p ∷ ps) (h, hs) = rw (≢→==_false id p.0 h) (having-Absent id ps hs)

pub having_once :
    (pre post : List Static) (p : Static)
    → Absent p.0 pre
    → Absent p.0 post
    → having p.0 (pre ++ p ∷ post) ≡ info p ∷ []
having_once [] post p hb ha = rw (==-refl p.0, having-Absent p.0 post ha)
having_once (q ∷ pre) post p (h, hb) ha = rw (≢→==_false p.0 q.0 h) (having_once pre post p hb ha)

-- The confirmations as the server writes them; `u` is the user id without its base.
abbrev pub attach_confirm_pdu : ℕ → List ℕ
attach_confirm_pdu u =
    write_mcs_pdu_header attach_user_confirm 2 ++ (0 ∷ (Per.write_integer16 u ++ []))

abbrev pub join_confirm_pdu : ℕ → ℕ → List ℕ
join_confirm_pdu u id =
    write_mcs_pdu_header channel_join_confirm 2
    ++ (0 ∷ (Per.write_integer16 u ++ (Per.write_integer16 id ++ [])))

-- A server that gives the user id `u`, these static channels, and `mid` as the id of the message
-- channel, or 0 for none.
pub record Server : Type 0 where
  pub statics : List Static
  pub u : ℕ
  pub mid : ℕ
  pub global_id : ℕ

-- The ids fit 16 bits; those of the static channels differ from one another, and from those of the
-- global, the user and the message channel.
abbrev pub Distinct : List Static → Type 0
Distinct [] = Unit
Distinct (p ∷ ps) = Absent p.0 ps × Distinct ps

pub record IsFair (s : Server) : Type 0 where
  pub u : s.u < 65536
  pub mid : s.mid < 65536
  pub ids : All (λ p. p.0 < 65536) s.statics
  pub distinct : Distinct s.statics
  pub not_global : Absent mcs_global_channel_id s.statics
  pub not_user : Absent (on_base s.u) s.statics
  pub not_message : Absent s.mid s.statics

abbrev pub network_data : Server → ServerNetworkData
network_data s = record {
  mcs_channel_id = s.global_id;
  channel_count = length s.statics;
  channel_id_array = map (λ p. p.0) s.statics;
}

-- A client in the midst of the sequence.
abbrev pub client : Server → Listener → List McsChannelInfo → ℕ → ℕ → Bool → McsClient
client s l chs joins requested joined = record {
  channels = chs;
  client_network_data = map (λ p. p.1) s.statics;
  server_network_data = some (network_data s);
  channels_connected = joins;
  user_id = on_base s.u;
  nb_channel_requested = requested;
  message_channel_id = s.mid;
  message_channel_joined = joined;
  listener = l;
}

pub recv_join_confirm :
    (struc : Struc) (s : Server) (elapsed id n req : ℕ) (joined : Bool) (chs : List McsChannelInfo)
    → s.u < 65536
    → id < 65536
    → recv struc (client s join_confirm chs n req joined) elapsed (join_confirm_pdu s.u id)
      ≡ connect_channels (client s join_confirm (chs ++ having id s.statics) (n + 1) req joined)
unfolding recv recv_channel_join_confirm read_mcs_pdu_header write_mcs_pdu_header read_uint8
    write_uint8 join_confirmed
recv_join_confirm struc s elapsed id n req joined chs hu hid =
    let tail : List ℕ = Per.write_integer16 id ++ [] in
    rw
      (
        read_enumerates-byte 0 (Per.write_integer16 s.u ++ tail),
        read_integer16-write s.u tail hu,
        read_integer16-write id [] hid,
        ==-refl (on_base s.u),
      )
      (rw (confirmed-having id s.statics, join_confirmed))

abbrev pub prepend : List Event → Effect → Effect
prepend es none = none
prepend es (some (c, es')) = some (c, es ++ es')

-- What a run makes of an outcome and of the PDUs that follow it.
abbrev pub then_run : Struc → ℕ → Effect → List (List ℕ) → Effect
then_run struc elapsed none ss = none
then_run struc elapsed (some (c, es)) ss = prepend es (run struc elapsed c ss)

-- A request to join, which names the user as the server does.
abbrev pub asks : ℕ → ℕ → Event
asks u id =
    sent (
      write_mcs_pdu_header channel_join_request 0
      ++ Per.write_integer16 u
      ++ Per.write_integer16 id)

pub off_base-on_base : (u : ℕ) → u < 65536 → off_base (on_base u) ≡ u
off_base-on_base u h = omega arith

pub run-cons :
    (struc : Struc) (elapsed : ℕ) (c : McsClient) (s : List ℕ) (ss : List (List ℕ))
    → run struc elapsed c (s ∷ ss) ≡ then_run struc elapsed (recv struc c elapsed s) ss
unfolding run
run-cons struc elapsed c s ss = elim (Option-cases (recv struc c elapsed s)) [
  | inl e ↦ rw (e, run) refl
  | inr ((c', es), e) ↦ rw (e, run) (opened es (run struc elapsed c' ss))
]
  where
    opened :
        (es : List Event) (r : Effect)
        → elim r [ none ↦ none | some (c', es') ↦ some (c', es ++ es') ] ≡ prepend es r
    opened es none = refl
    opened es (some y) = refl

pub then_run-cons :
    (struc : Struc) (elapsed : ℕ) (c : McsClient) (es : List Event) (s : List ℕ)
    (ss : List (List ℕ))
    → then_run struc elapsed (some (c, es)) (s ∷ ss)
      ≡ prepend es (then_run struc elapsed (recv struc c elapsed s) ss)
then_run-cons struc elapsed c es s ss = rw (run-cons struc elapsed c s ss)

get_elem?-none : {A : Type 0} (xs : List A) (n : ℕ) → length xs ≤ n → get_elem? xs n ≡ none
get_elem?-none [] n h = refl
get_elem?-none (x ∷ xs) zero h = absurd (omega arith)
get_elem?-none (x ∷ xs) (suc n) h = get_elem?-none xs n (omega arith)

get_elem?-here :
    (pre post : List Static) (p : Static)
    → get_elem? (map (λ q. q.0) (pre ++ p ∷ post)) (length pre) ≡ some p.0
get_elem?-here [] post p = refl
get_elem?-here (q ∷ pre) post p = get_elem?-here pre post p

-- A state in which no channel is left to be joined but static ones.
module _ (struc : Struc) (s : Server) (elapsed : ℕ) (joined : Bool) (hu : s.u < 65536)
    (settled : (not (s.mid == 0) && not joined) ≡ false) where
  connect_static :
      (chs : List McsChannelInfo) (n req : ℕ)
      → length chs ≤ n
      → connect_channels (client s join_confirm chs n req joined)
        ≡ next_static (client s join_confirm chs n req joined) (some (network_data s))
  unfolding connect_channels
  connect_static chs n req le = rw (get_elem?-none chs n le, settled) refl

  next_one :
      (pre post : List Static) (p : Static) (chs : List McsChannelInfo) (n : ℕ)
      → s.statics ≡ pre ++ p ∷ post
      → next_static (client s join_confirm chs n (length pre) joined) (some (network_data s))
        ≡ some (client s join_confirm chs n (length pre + 1) joined, asks s.u p.0 ∷ [])
  unfolding next_static join_request
  next_one pre post p chs n e =
      let here : get_elem? (map (λ q. q.0) s.statics) (length pre) ≡ some p.0 =
        rw e (get_elem?-here pre post p) in
      let less : length pre < length s.statics = rw (e, length-append) (omega arith) in
      rw (lt→ltb (length pre) (length s.statics) less, here, off_base-on_base s.u hu) refl

  next_none :
      (pre : List Static) (chs : List McsChannelInfo) (n : ℕ)
      → s.statics ≡ pre ++ []
      → next_static (client s join_confirm chs n (length pre) joined) (some (network_data s))
        ≡ some
            (client s receiving chs n (length s.statics) joined, connected (on_base s.u) chs ∷ [])
  unfolding next_static
  next_none pre chs n e =
      let same : length pre ≡ length s.statics = rw (e, append-nil) refl in
      rw (same, le→ltb_false (length s.statics) (length s.statics) (omega arith)) refl

  pub statics_run :
      (pre post : List Static) (chs : List McsChannelInfo) (n : ℕ)
      → s.statics ≡ pre ++ post
      → All (λ p. p.0 < 65536) post
      → (All (λ p. having p.0 s.statics ≡ info p ∷ []) post)
      → length chs ≤ n
      → then_run struc elapsed
          (connect_channels (client s join_confirm chs n (length pre) joined))
          (map (λ p. join_confirm_pdu s.u p.0) post)
        ≡ some (
          client s receiving (chs ++ map info post) (n + length post) (length s.statics) joined,
          map (λ p. asks s.u p.0) post ++ (connected (on_base s.u) (chs ++ map info post) ∷ []),
        )
  unfolding run
  statics_run pre [] chs n e fits once le =
      let same : n + 0 ≡ n = omega arith in
      let end : List McsChannelInfo → Effect = λ xs.
        some (client s receiving xs n (length s.statics) joined, connected (on_base s.u) xs ∷ []) in
      rw (connect_static chs n (length pre) le, next_none pre chs n e, same)
        (ap end (sym (append-nil chs)))
  statics_run pre (p ∷ post) chs n e (fit, fits) (one, once) le =
      let pre' = pre ++ p ∷ [] in
      let more : length pre' ≡ length pre + 1 = rw length-append refl in
      let le' : length (chs ++ info p ∷ []) ≤ n + 1 = rw length-append (omega arith) in
      let e' : s.statics ≡ pre' ++ post = rw (e, append_assoc) refl in
      let end : List McsChannelInfo → ℕ → Effect = λ xs k. some (
        client s receiving xs k (length s.statics) joined,
        asks s.u p.0 ∷ (map (λ q. asks s.u q.0) post ++ (connected (on_base s.u) xs ∷ [])),
      ) in
      let assoc : (chs ++ info p ∷ []) ++ map info post ≡ chs ++ info p ∷ map info post =
        append_assoc chs (info p ∷ []) (map info post) in
      let count : n + 1 + length post ≡ n + length (p ∷ post) = omega arith in
      let rest = statics_run pre' post (chs ++ info p ∷ []) (n + 1) e' fits once le' in
      rw
        (
          connect_static chs n (length pre) le,
          next_one pre post p chs n e,
          then_run-cons,
          recv_join_confirm struc s elapsed p.0 n (length pre + 1) joined chs hu fit,
          one,
          sym more,
          rest,
        )
        (λ i. end (assoc i) (count i))
