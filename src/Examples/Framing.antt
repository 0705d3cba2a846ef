-- ===== src/Examples/Framing.antt =====
-- The read loop and the X.224 layer on small streams.
use grdp.Prelude.{
  ℕ, ◌≡◌, ◌↔◌, refl, List, [], ◌∷◌, ◌++◌, some, true, false, get_or, arith, map, replicate, inr,
}
use grdp.Io.{eof, read_uint8}
use grdp.Tpkt.{failed, io, read_loop, returned}
use grdp.Tpkt.Framing.{Sent, x224, fast, frames, delivered, read_loop-frames, read_loop-returned}
use grdp.X224.{
  Struc, new_x224, recv_connection_confirm, negotiated, select, start_protocol, protocol_ssl,
}
use grdp.X224.Confirm.{
  connection, IsSecured, recv_connection_confirm-IsSecured, recv_connection_confirm-CanStart,
  is_told, LeavesUnknown, recv_connection_confirm-is_told,
}

abbrev two_packets : List Sent
two_packets = x224 (1 ∷ 2 ∷ []) ∷ fast 1 (7 ∷ []) ∷ []

read_loop-frames_example :
    read_loop 3 (frames two_packets) ≡ (map delivered two_packets ++ failed (io eof) ∷ [], returned)
read_loop-frames_example =
    read_loop-frames two_packets 3 (omega arith, ((omega arith, omega arith), tt)) (omega arith)

-- A packet that announces more bytes than come.
read_loop-returned_example : (read_loop 6 (3 ∷ 0 ∷ 0 ∷ 9 ∷ 1 ∷ [])).1 ≡ returned
read_loop-returned_example = read_loop-returned 6 (3 ∷ 0 ∷ 0 ∷ 9 ∷ 1 ∷ []) (omega arith)

-- A layout of the two structs: the type, the flag and six more bytes, and three bytes.
abbrev layout : Struc
layout = record {
  pack_negotiation = λ n. n.type ∷ n.flag ∷ replicate 6 0;
  pack_data_header = λ h. some (h.header ∷ h.message_type ∷ h.separator ∷ []);
  unpack_confirm = λ s. some (record {
    type = get_or s 7 0;
    flag = get_or s 8 0;
    size = get_or s 9 0;
    result = get_or s 11 0;
  });
}

-- A confirmation of 14 bytes behind its length, with type 2 and the given result.
abbrev confirm : ℕ → List ℕ
confirm result = 14 ∷ 0xD0 ∷ replicate 5 0 ++ 2 ∷ 0 ∷ 8 ∷ 0 ∷ result ∷ replicate 3 0

recv_connection_confirm-IsSecured_example :
    ((recv_connection_confirm layout new_x224 (confirm 1) true false).0.selected_protocol
      ≡ protocol_ssl)
    × IsSecured protocol_ssl true false
        (recv_connection_confirm layout new_x224 (confirm 1) true false).1
unfolding connection recv_connection_confirm read_uint8 negotiated select start_protocol
recv_connection_confirm-IsSecured_example =
    recv_connection_confirm-IsSecured true false protocol_ssl layout new_x224 (confirm 1) refl

recv_connection_confirm-is_told_example :
    (is_told (recv_connection_confirm layout new_x224 (confirm 4) true true).1 ≡ false)
    ↔ LeavesUnknown layout new_x224 (confirm 4)
recv_connection_confirm-is_told_example =
    recv_connection_confirm-is_told layout new_x224 (confirm 4) true true

recv_connection_confirm-CanStart_example :
    connection (recv_connection_confirm layout new_x224 (confirm 2) false true).1 ≡ some 2
unfolding read_uint8
recv_connection_confirm-CanStart_example =
    recv_connection_confirm-CanStart layout new_x224 (confirm 2) false true
      (record { type = 2; flag = 0; size = 8; result = 2 }) (omega arith) refl refl
      (inr (inr (refl, refl)))
