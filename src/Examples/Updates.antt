-- ===== src/Examples/Updates.antt =====
-- The PDU layer on small streams: updates, orders, planes, input and the activation.
use grdp.Prelude.{
  ℕ, ◌≡◌, ◌↔◌, ◌^◌, ◌≤◌, refl, List, [], ◌∷◌, ◌++◌, Option, some, none, true, false, arith,
  replicate, inl, inr, map, length,
}
use grdp.Io.{read_uint16_le, read_uint32_le}
use grdp.Pdu.Reads.{uint8, uint16, ◌>>=◌, done}
use grdp.Pdu.SessionInfo.{unpack_save_session_info}
use grdp.Pdu.Redirection.{ServerRedirectionPdu, read_server_redirection_pdu}
use grdp.Pdu.Redirection.RoundTrip.{redirection_bytes, read_server_redirection_pdu-bytes}
use grdp.Pdu.Orders.Process.{Globals, no_bounds}
use grdp.Pdu.Orders.Primary.{Scrblt}
use grdp.Pdu.Orders.Stream.{read_orders}
use grdp.Pdu.Orders.Blits.{Sent, stream_bytes, last_globals, orders_of, read_orders-stream_bytes}
use grdp.Pdu.Orders.ColorTable.{update_cache_color_table_order}
use grdp.Pdu.Orders.Brushes.{update_decompress_brush}
use grdp.Pdu.Orders.Caches.{
  Four, IsFour, pack_rows, picture, update_decompress_brush-pack_rows, color_table_crash,
}
use grdp.Pdu.FastPath.{Client, Struc, recv_fast_path, read_update, read_payload}
use grdp.Pdu.FastPath.Wire.{Message, stream_of}
use grdp.Pdu.FastPath.Fragments.{deliver, recv_fast_path-deliver}
use grdp.Pdu.FastPath.Compression.{read_update-ignored}
use grdp.Pdu.Surface.Nrle.{nrle_decode_into}
use grdp.Pdu.Surface.RoundTrip.{Token, lit, run as run_of, encode, expand, nrle_decode_into-encode}
use grdp.Pdu.Input.{
  InputEvent, pointer, scancode, unicode_key, send_input_events, fast_path, Call, send_calls,
}
use grdp.Pdu.Input.Keys.{takes_fast, read_events, meaning, send_input_events-read_events}
use grdp.Pdu.Input.Calls.{Arrives, arrived, refusals, behind, send_calls-Arrives}
use grdp.Pdu.Session.{
  Pdu, demand_active, deactivate_all, data_pdu, synchronize, control, font_map, update, other, run,
  emit, emit_bitmap, recv_demand_active, recv_granted, recv_font_map, is_font_map, connected,
}
use grdp.Pdu.Session.Handshake.{Sequence, waiting, run-Sequence, run_stuck}
use grdp.Pdu.Session.Reactivation.{Demand, session, reactivations, store_all, run-reactivations}

abbrev position_of : List ℕ → Option (ℕ × ℕ)
position_of (a ∷ b ∷ c ∷ d ∷ r) = some (a, c)
position_of r = none

abbrev index_of : List ℕ → Option ℕ
index_of (a ∷ b ∷ r) = some a
index_of r = none

abbrev layouts : Struc
layouts = record { position = position_of; cached = index_of; pointer = λ r. none }

abbrev no_blit : Scrblt
no_blit = record { x = 0; y = 0; cx = 0; cy = 0; opcode = 0; srcx = 0; srcy = 0 }

abbrev start : Globals
start = record { order_type = 0; bounds = no_bounds; d = no_blit }

abbrev client : Client
client = record { buff = 9 ∷ []; mppc = none; globals = start }

abbrev pool : ℕ → ℕ → List ℕ
pool k n = replicate n 7

-- A pointer position in three fragments, and a hidden pointer.
abbrev messages : List Message
messages =
    record { code = 8; first = 1 ∷ []; more = (0 ∷ 2 ∷ []) ∷ (0 ∷ []) ∷ [] }
    ∷ record { code = 5; first = []; more = [] }
    ∷ []

recv_fast_path-deliver_example :
    recv_fast_path layouts none pool client (stream_of messages)
    ≡ deliver layouts none pool client messages
recv_fast_path-deliver_example = recv_fast_path-deliver layouts none pool messages client (
  (omega arith, omega arith, (omega arith, (omega arith, tt))),
  ((omega arith, omega arith, tt), tt),
)

-- An update that says it is compressed.
read_update-ignored_example :
    read_update 0x81 (0x21 ∷ 1 ∷ 0 ∷ 7 ∷ []) ≡ read_payload 0x81 0 (0x21 ∷ 1 ∷ 0 ∷ 7 ∷ [])
read_update-ignored_example = read_update-ignored 0x81 (0x21 ∷ 1 ∷ 0 ∷ 7 ∷ []) (omega arith)

abbrev blit : Scrblt
blit = record { x = 10; y = 20; cx = 30; cy = 40; opcode = 0xCC; srcx = 4294967286; srcy = 5 }

-- Every field, and then a change of two of them, one downwards.
abbrev blits : List Sent
blits =
    record { present = 0x7F; delta = false; target = blit }
    ∷ record {
      present = 0x03;
      delta = true;
      target = record {
        x = 4;
        y = 21;
        cx = 30;
        cy = 40;
        opcode = 0xCC;
        srcx = 4294967286;
        srcy = 5;
      };
    }
    ∷ []

read_orders-stream_bytes_example :
    read_orders 2 start (stream_bytes no_blit blits (1 ∷ []))
    ≡ some (last_globals start blits, orders_of blits, 1 ∷ [])
read_orders-stream_bytes_example = read_orders-stream_bytes start blits (1 ∷ []) (
  omega arith,
  (
    (omega arith, inl (omega arith)),
    (omega arith, inl (omega arith)),
    (omega arith, inl (omega arith)),
    (omega arith, inl (omega arith)),
    tt,
    (omega arith, inr (omega arith)),
    (omega arith, inl (omega arith)),
  ),
  (
    omega arith,
    (
      (omega arith, omega arith, inr (omega arith)),
      (omega arith, omega arith, inl (omega arith)),
      refl,
      refl,
      refl,
      refl,
      refl,
    ),
    tt,
  ),
)

abbrev tokens : List Token
tokens = lit 5 ∷ run_of 7 300 ∷ run_of 7 3 ∷ lit 1 ∷ []

abbrev raw : List ℕ
raw = 1 ∷ 2 ∷ 3 ∷ 4 ∷ []

nrle_decode_into-encode_example :
    nrle_decode_into (encode tokens raw) (replicate 309 0xEE) ≡ expand tokens ++ raw
nrle_decode_into-encode_example =
    nrle_decode_into-encode tokens raw (replicate 309 0xEE)
      ((λ e. omega arith), (omega arith, omega arith, (omega arith, omega arith, (tt, tt)))) refl
      refl

abbrev row : Four × Four
row = ((0, 1, 2, 3), (3, 2, 1, 0))

update_decompress_brush-pack_rows_example :
    update_decompress_brush (pack_rows (replicate 8 row) ++ (10 ∷ 11 ∷ 12 ∷ 13 ∷ [])) 1
    ≡ some (picture (10 ∷ 11 ∷ 12 ∷ 13 ∷ []) 1 (replicate 8 row))
update_decompress_brush-pack_rows_example =
    let one : (IsFour row.0) × (IsFour row.1) = (
      (omega arith, omega arith, omega arith, omega arith),
      (omega arith, omega arith, omega arith, omega arith),
    ) in
    update_decompress_brush-pack_rows (10 ∷ 11 ∷ 12 ∷ 13 ∷ []) 1 (replicate 8 row) refl refl
      (one, (one, (one, (one, (one, (one, (one, (one, tt))))))))

color_table_crash_example :
    (update_cache_color_table_order (0 ∷ 0 ∷ 1 ∷ 9 ∷ []) ≡ none)
    ↔ ((uint16 (uint8 (0 ∷ 0 ∷ 1 ∷ 9 ∷ [])).1).0 ≡ 256)
color_table_crash_example = color_table_crash (0 ∷ 0 ∷ 1 ∷ 9 ∷ [])

-- The up arrow as 0xE048, a character and the mouse.
abbrev events : List InputEvent
events =
    scancode (record { keyboard_flags = 0x8000; key_code = 0xE048; pad2_octets = 0 })
    ∷ unicode_key (record { keyboard_flags = 0; unicode = 0x3042; pad2_octets = 0 })
    ∷ pointer (record { pointer_flags = 0x0800; x_pos = 640; y_pos = 480 })
    ∷ []

send_input_events-read_events_example :
    (bytes : List ℕ) × (send_input_events (takes_fast (λ b. true)) 4 events
      ≡ (takes_fast (λ b. true), fast_path (length events ∷ bytes) ∷ []))
    × (read_events (length events) bytes ≡ some (map meaning events, []))
send_input_events-read_events_example =
    send_input_events-read_events 4 events (λ b. true) refl (omega arith) (omega arith)
      (tt, (omega arith, ((omega arith, omega arith, omega arith), tt)))

-- A sender that fails.
abbrev two_calls : List Call
two_calls = (4, events) ∷ (1, events) ∷ []

send_calls-Arrives_example :
    Arrives two_calls (arrived (λ b. false) (send_calls (behind (λ b. false) true) two_calls).1)
    × (refusals (λ b. false) (send_calls (behind (λ b. false) true) two_calls).1 ≤ 1)
send_calls-Arrives_example = send_calls-Arrives (λ b. false) true two_calls

-- An activation with a deactivation and other PDUs between.
abbrev activation : List (Option Pdu)
activation =
    some deactivate_all
    ∷ some (demand_active 7 (some 0x0039))
    ∷ some (other 0x13)
    ∷ some (data_pdu synchronize)
    ∷ some (data_pdu (control 4))
    ∷ some (data_pdu (control 2))
    ∷ some (data_pdu font_map)
    ∷ []

run-Sequence_example : Sequence recv_demand_active activation
unfolding run
run-Sequence_example = run-Sequence activation refl

run_stuck_example :
    ((run (none ∷ activation) (waiting recv_granted connected)).1 ≡ [])
    × ((run (some (other 0x13) ∷ activation) (waiting recv_font_map connected)).1 ≡ [])
unfolding is_font_map
run_stuck_example = run_stuck recv_granted (other 0x13) activation connected refl

-- Three demands, of which the second brings an input capability.
abbrev demands : List Demand
demands = (7, none) ∷ (8, some 0x0039) ∷ (8, none) ∷ []

run-reactivations_example :
    ((run (reactivations demands) (session 1 0 recv_demand_active connected)).0
      ≡ session (2 ^ length demands) 0 recv_demand_active (store_all demands connected))
    × ((emit
          (some (data_pdu (update [])))
          (run (reactivations demands) (session 1 0 recv_demand_active connected)).0).1
        ≡ replicate (2 ^ length demands) (emit_bitmap []))
run-reactivations_example = run-reactivations demands connected []

-- A reconnect cookie of the wrong length.
wrong_cookie :
    unpack_save_session_info
      (3 ∷ 0 ∷ 0 ∷ 0 ∷ 0 ∷ 0 ∷ 1 ∷ 0 ∷ 0 ∷ 0 ∷ 28 ∷ 0 ∷ 0 ∷ 0 ∷ 27 ∷ 0 ∷ 0 ∷ 0 ∷ [])
    ≡ none
unfolding unpack_save_session_info read_uint32_le read_uint16_le ◌>>=◌ done
wrong_cookie = refl

abbrev redirection : ServerRedirectionPdu
redirection = record {
  flags = 0x0400;
  length = 30;
  session_id = 70000;
  redir_flags = 3;
  load_balance_info = 0x43 ∷ 0x6F ∷ [];
}

read_server_redirection_pdu-bytes_example :
    read_server_redirection_pdu (redirection_bytes 0 (1 ∷ 2 ∷ []) redirection (9 ∷ []))
    ≡ some (redirection, 9 ∷ [])
read_server_redirection_pdu-bytes_example =
    read_server_redirection_pdu-bytes 0 (1 ∷ 2 ∷ []) redirection (9 ∷ [])
      (omega arith, omega arith, omega arith, omega arith, omega arith, omega arith, omega arith)
