-- ===== src/Examples/Channels.antt =====
-- Static and dynamic virtual channels on small messages.
use grdp.Prelude.{ℕ, ◌≡◌, refl, List, [], ◌∷◌, ◌++◌, some, true, false, arith, map, replicate}
use grdp.Prelude.Table.{lookup, put, delete}
use grdp.Channel as Channel
use grdp.Channel.{
  Channels, new_channels, register, send_to_channel, chunk_flag, chunk_pdu, channel_chunk_length,
  send_chunks, chunk, base_flag,
}
use grdp.Channel.Chunks.{show, on_channel, process_all-send_to_channel}
use grdp.Channel.Interleaving.{process_all_interleaved}
use grdp.Drdynvc.{
  DvcClient, DvcChannelInfo, DvcHeader, Handler, send_func, created, new_dvc_client,
  register_handler, find_handler, is_rejected, process, process_all, trim_right, name_eq,
}
use grdp.Drdynvc.Header.{IsHeader}
use grdp.Drdynvc.Reassembly.{data_pdu, data_first_pdu, Handled, process_all-message}
use grdp.Drdynvc.Invariant.{IsConsistent, new_dvc_client-IsConsistent, process_all-IsConsistent}
use grdp.Drdynvc.Create.{create_pdu, close_pdu, answer, process-create, process-close}

-- The clipboard with its options, and sound behind it.
abbrev two_channels : Channels
two_channels = register (register new_channels "rdpsnd" 0xC0A00000) "cliprdr" 0xC0A00000

process_all-send_to_channel_example :
    (pdus : List (List ℕ)) × (send_to_channel two_channels "cliprdr" (replicate 2000 7) ≡ some pdus)
    × ((Channel.process_all two_channels (on_channel "cliprdr" pdus)).1
        ≡ ("cliprdr", replicate 2000 7) ∷ [])
unfolding register new_channels Channel.lookup
process_all-send_to_channel_example =
    process_all-send_to_channel two_channels two_channels "cliprdr" 0xC0A00000 0xC0A00000
      (replicate 2000 7) refl refl (omega arith)

process_all_interleaved_example :
    (Channel.process_all two_channels (
      ("cliprdr", chunk_pdu 4 (chunk_flag (show true) true false) (1 ∷ 2 ∷ []))
      ∷ ("rdpsnd", chunk_pdu 3 (chunk_flag (show true) true false) (9 ∷ []))
      ∷ ("cliprdr", chunk_pdu 4 (chunk_flag (show true) false true) (3 ∷ 4 ∷ []))
      ∷ [])).1
    ≡ ("cliprdr", 9 ∷ 3 ∷ 4 ∷ []) ∷ []
unfolding register new_channels Channel.lookup
process_all_interleaved_example =
    process_all_interleaved two_channels "cliprdr" "rdpsnd" 0xC0A00000 0xC0A00000 4 3 true true
      (1 ∷ 2 ∷ []) (3 ∷ 4 ∷ []) (9 ∷ []) refl refl

abbrev name_ab : List ℕ
name_ab = 97 ∷ 98 ∷ []

abbrev notified : Handler
notified = record { sets_send_func = true; on_channel_created = true }

abbrev client : DvcClient
client = register_handler new_dvc_client name_ab notified

abbrev open_entry : DvcChannelInfo
open_entry = record { name = name_ab; id = 7; cb_ch_id = 0 }

-- The channel 7 is open under the name.
abbrev open_client : DvcClient
open_client = record client { channel_by_id = put 7 open_entry client.channel_by_id }

process-create_example :
    process client (create_pdu 0 0 7 (name_ab ++ replicate 1 0))
    ≡ (open_client, send_func name_ab 7 ∷ answer 0 7 0 ∷ created name_ab ∷ [])
unfolding trim_right find_handler register_handler is_rejected new_dvc_client name_eq
process-create_example =
    process-create client 0 0 7 1 name_ab notified (omega arith) (omega arith) (omega arith) refl
      refl

process_all-message_example : Handled open_entry 7 ((1 ∷ 2 ∷ []) ++ (3 ∷ []) ++ (4 ∷ []) ++ []) (
    process_all open_client
      (data_first_pdu 0 0 7 4 (1 ∷ 2 ∷ []) ∷ map (data_pdu 0 0 7) ((3 ∷ []) ∷ (4 ∷ []) ∷ [])))
unfolding lookup put delete register_handler new_dvc_client
process_all-message_example =
    process_all-message 0 0 7 (omega arith) (omega arith) (omega arith) open_entry open_client 0 4
      (1 ∷ 2 ∷ []) ((3 ∷ []) ∷ (4 ∷ []) ∷ []) (omega arith) (omega arith) refl refl
      (omega arith, (omega arith, tt)) refl

-- A create request, a close of another channel, and half a header.
abbrev pdus : List (List ℕ)
pdus = create_pdu 0 0 7 name_ab ∷ close_pdu 1 0 300 [] ∷ (0x30 ∷ []) ∷ []

process_all-IsConsistent_example : IsConsistent (process_all new_dvc_client pdus).0
process_all-IsConsistent_example =
    process_all-IsConsistent new_dvc_client pdus new_dvc_client-IsConsistent

process-close_example :
    (process (process open_client (close_pdu 0 0 7 [])).0 (data_pdu 0 1 7 (5 ∷ []))
      ≡ ((process open_client (close_pdu 0 0 7 [])).0, []))
    × (process (process open_client (close_pdu 0 0 7 [])).0 (data_first_pdu 0 1 7 300 (5 ∷ []))
        ≡ ((process open_client (close_pdu 0 0 7 [])).0, []))
process-close_example =
    process-close open_client 0 0 1 7 300 [] (5 ∷ []) (omega arith) (omega arith) (omega arith)
      (omega arith) (omega arith)

abbrev some_header : DvcHeader
some_header = record { cmd = 3; sp = 1; cb_ch_id = 2 }

some_header-IsHeader : IsHeader some_header
some_header-IsHeader = record { cmd = omega arith; sp = omega arith; cb_ch_id = omega arith }
