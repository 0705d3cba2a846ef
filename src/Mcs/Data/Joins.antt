-- ===== src/Mcs/Data/Joins.antt =====
-- The connection sequence with a server that confirms every request, from the attach confirmation on.
use grdp.Prelude.{
  ℕ, suc, ◌+◌, ◌≤◌, ◌≡◌, ◌≢◌, refl, ap, sym, List, [], ◌∷◌, ◌++◌, some, Bool, true, false, ◌==◌,
  ◌&&◌, not, if◌then◌else◌, length, map, All, inl, inr, arith, Bool-cases, append_assoc, append-nil,
}
use grdp.Io.{read_uint8, write_uint8}
use grdp.Per as Per
use grdp.Per.RoundTrip.{read_integer16-write}
use grdp.Gcc.{Struc}
use grdp.Mcs.Client.{
  McsClient, McsChannelInfo, attach_confirm, join_confirm, receiving, connected, join_request,
  connect_channels, recv_attach_user_confirm, on_base, write_mcs_pdu_header, read_mcs_pdu_header,
  mcs_global_channel_id, mcs_userchannel_base, global_channel_name, user_channel_name,
}
use grdp.Mcs.Data.{recv, run}
use grdp.Mcs.Data.Run.{
  Static, info, having, Absent, having-Absent, having_once, attach_confirm_pdu, join_confirm_pdu,
  Server, Distinct, IsFair, client, recv_join_confirm, then_run, asks, run-cons, off_base-on_base,
  then_run-cons, statics_run,
}

Absent-append :
    (id : ℕ) (pre : List Static) (p : Static) → Absent id pre → id ≢ p.0 → Absent id (pre ++ p ∷ [])
Absent-append id [] p h k = (k, tt)
Absent-append id (q ∷ pre) p (h, hs) k = (h, Absent-append id pre p hs k)

All-Absent :
    (pre post : List Static) (p : Static)
    → All (λ q. Absent q.0 pre) post
    → Absent p.0 post
    → All (λ q. Absent q.0 (pre ++ p ∷ [])) post
All-Absent pre [] p h k = tt
All-Absent pre (q ∷ post) p (h, hs) (k, ks) =
    (Absent-append q.0 pre p h (λ e. k (sym e)), All-Absent pre post p hs ks)

All-having :
    (pre post : List Static)
    → All (λ q. Absent q.0 pre) post
    → Distinct post
    → All (λ p. having p.0 (pre ++ post) ≡ info p ∷ []) post
All-having pre [] h d = tt
All-having pre (p ∷ post) (h, hs) (k, d) =
    let e : (pre ++ p ∷ []) ++ post ≡ pre ++ p ∷ post = append_assoc pre (p ∷ []) post in
    (
      having_once pre post p h k,
      rw e at (All-having (pre ++ p ∷ []) post (All-Absent pre post p hs k) d),
    )

none_before : (post : List Static) → All (λ q. Absent q.0 []) post
none_before [] = tt
none_before (p ∷ post) = (tt, none_before post)

abbrev global_info : McsChannelInfo
global_info = record { id = mcs_global_channel_id; name = global_channel_name }

abbrev pub user_info : Server → McsChannelInfo
user_info s = record { id = on_base s.u; name = user_channel_name }

-- A client that waits for the attach confirmation, and knows the server's network data.
abbrev pub waiting : Server → McsClient
waiting s = record (client s attach_confirm (global_info ∷ []) 0 0 false) {
  user_id = 1 + mcs_userchannel_base;
}

-- The message channel, where the server has one.
abbrev pub message : Server → List ℕ
message s = if s.mid == 0 then [] else s.mid ∷ []

-- The ids in the order in which the client asks for them.
abbrev pub wanted : Server → List ℕ
wanted s = mcs_global_channel_id ∷ on_base s.u ∷ (message s ++ map (λ p. p.0) s.statics)

abbrev pub all_infos : Server → List McsChannelInfo
all_infos s = global_info ∷ user_info s ∷ map info s.statics

length_ids : (ps : List Static) → length (map (λ p. p.0) ps) ≡ length ps
length_ids [] = refl
length_ids (p ∷ ps) = ap suc (length_ids ps)

map_ids :
    {B : Type 0} (f : ℕ → B) (ps : List Static) → map f (map (λ p. p.0) ps) ≡ map (λ p. f p.0) ps
map_ids f [] = refl
map_ids f (p ∷ ps) = ap (λ bs. f p.0 ∷ bs) (map_ids f ps)

module _ (struc : Struc) (s : Server) (elapsed : ℕ) (f : IsFair s) where
  base : List McsChannelInfo
  base = global_info ∷ user_info s ∷ []

  recv_attach :
      (c : McsClient)
      → recv_attach_user_confirm c (attach_confirm_pdu s.u)
        ≡ connect_channels (record c {
          user_id = on_base s.u;
          channels = c.channels ++ (record { id = on_base s.u; name = user_channel_name } ∷ []);
        })
  unfolding recv_attach_user_confirm read_mcs_pdu_header write_mcs_pdu_header read_uint8 write_uint8
      Per.read_enumerates
  recv_attach c = rw (read_integer16-write s.u [] f.u) refl

  recv_attached :
      recv struc (waiting s) elapsed (attach_confirm_pdu s.u)
      ≡ some (client s join_confirm base 0 0 false, asks s.u mcs_global_channel_id ∷ [])
  unfolding base recv connect_channels join_request
  recv_attached = rw (recv_attach (waiting s), off_base-on_base s.u f.u) refl

  joins_user :
      connect_channels (client s join_confirm base 1 0 false)
      ≡ some (client s join_confirm base 1 0 false, asks s.u (on_base s.u) ∷ [])
  unfolding base connect_channels join_request
  joins_user = rw (off_base-on_base s.u f.u) refl

  joins_static :
      (n : ℕ) (joined : Bool)
      → 2 ≤ n
      → (not (s.mid == 0) && not joined) ≡ false
      → then_run struc elapsed
          (connect_channels (client s join_confirm base n 0 joined))
          (map (join_confirm_pdu s.u) (map (λ p. p.0) s.statics))
        ≡ some (
          client s receiving (all_infos s) (n + length s.statics) (length s.statics) joined,
          map (asks s.u) (map (λ p. p.0) s.statics) ++ (connected (on_base s.u) (all_infos s) ∷ []),
        )
  unfolding base
  joins_static n joined le settled =
      let once = All-having [] s.statics (none_before s.statics) f.distinct in
      rw (map_ids (join_confirm_pdu s.u) s.statics, map_ids (asks s.u) s.statics)
        (statics_run struc s elapsed joined f.u settled [] s.statics base n refl f.ids once le)

  joins_mid :
      (s.mid == 0) ≡ false
      → connect_channels (client s join_confirm base 2 0 false)
        ≡ some (client s join_confirm base 2 0 true, asks s.u s.mid ∷ [])
  unfolding base connect_channels join_request
  joins_mid e = rw (e, off_base-on_base s.u f.u) refl

  joins_message :
      then_run struc elapsed
        (connect_channels (client s join_confirm base 2 0 false))
        (map (join_confirm_pdu s.u) (message s ++ map (λ p. p.0) s.statics))
      ≡ some (
        client s receiving (all_infos s) (length (wanted s)) (length s.statics) (not (s.mid == 0)),
        map (asks s.u) (message s ++ map (λ p. p.0) s.statics)
            ++ (connected (on_base s.u) (all_infos s) ∷ []),
      )
  joins_message = elim (Bool-cases (s.mid == 0)) [
    | inl e ↦
        let count : 2 + length s.statics ≡ suc (suc (length (map (λ p. p.0) s.statics))) =
          rw (length_ids s.statics) (omega arith) in
        rw (e, sym count) (joins_static 2 false (omega arith) (rw e refl))
    | inr e ↦
        let count : 3 + length s.statics ≡ suc (suc (suc (length (map (λ p. p.0) s.statics)))) =
          rw (length_ids s.statics) (omega arith) in
        rw
          (
            e,
            joins_mid e,
            then_run-cons,
            recv_join_confirm struc s elapsed s.mid 2 0 true base f.u f.mid,
            having-Absent s.mid s.statics f.not_message,
            append-nil base,
            sym count,
            joins_static 3 true (omega arith) (rw e refl),
          )
          refl
  ]

-- Let the server's ids fit 16 bits, and those of the static channels differ from one another and from
-- the global, the user and the message channel's.
-- A client that waits for the attach confirmation of such a server that confirms each join reaches the
-- state in which it receives data: it asks for the global channel, its user channel, the message
-- channel where the server has one, and each static channel, in this order and for each once, and
-- announces the connection once, last, with the name that it asked for beside each static channel's id.
pub run_joins :
    (struc : Struc) (s : Server) (elapsed : ℕ)
    → IsFair s
    → run struc elapsed (waiting s) (attach_confirm_pdu s.u ∷ map (join_confirm_pdu s.u) (wanted s))
      ≡ some (
        client s receiving (all_infos s) (length (wanted s)) (length s.statics) (not (s.mid == 0)),
        map (asks s.u) (wanted s) ++ (connected (on_base s.u) (all_infos s) ∷ []),
      )
run_joins struc s elapsed f =
    rw
      (
        run-cons,
        recv_attached struc s elapsed f,
        then_run-cons,
        recv_join_confirm struc s elapsed mcs_global_channel_id 0 0 false (base struc s elapsed f)
            f.u (omega arith),
        having-Absent mcs_global_channel_id s.statics f.not_global,
        append-nil (base struc s elapsed f),
        joins_user struc s elapsed f,
        then_run-cons,
        recv_join_confirm struc s elapsed (on_base s.u) 1 0 false (base struc s elapsed f) f.u
            (omega arith),
        having-Absent (on_base s.u) s.statics f.not_user,
        append-nil (base struc s elapsed f),
        joins_message struc s elapsed f,
      )
      refl
