-- ===== src/Lib.antt =====
-- A client for the Remote Desktop Protocol, modelled from the wire up to its virtual channels.
--
-- The program is a stack of layers. The socket carries packets in TPKT or fast-path frames
-- (protocol/tpkt/tpkt.go); X.224 (protocol/x224/x224.go) negotiates the security protocol over them, and
-- frames the data; MCS (protocol/t125/mcs.go) above it joins the channels and carries their data, and GCC
-- (protocol/t125/gcc/gcc.go) the settings that the two sides exchange first; their messages are in BER and
-- PER (protocol/t125/ber/ber.go, protocol/t125/per/per.go). Static virtual channels (plugin/channel.go) cut
-- messages into chunks and put them together again, and one of them carries the dynamic virtual channels
-- (plugin/drdynvc/dvc.go). Two decompressors keep a history across packets: MPPC for the connection
-- (core/mppc.go) and ZGFX for the graphics channel (plugin/rdpgfx/zgfx.go); core/rle.go expands the bitmaps.
-- Above MCS the PDU layer (protocol/pdu) activates the session, takes the updates of the slow and of the
-- fast path apart, and encodes the input events.
-- All of it reads and writes through core/io.go.
--
-- Files and code:
--   Prelude   shared names, tests on numbers, lists, tables, masks as arithmetic
--   Io        core/io.go; a reader is the list of the bytes left, a writer the bytes that it adds
--   Per, Ber  protocol/t125/per/per.go and protocol/t125/ber/ber.go, one function for each of theirs
--   Gcc       protocol/t125/gcc/gcc.go: the client's packs, make_conference_create_request,
--             read_conference_create_response; Certificates has the security block
--   Mcs       protocol/t125/mcs.go: Connect (the connect messages), Client (the state McsClient and the join
--             sequence, connect to recv_channel_join_confirm), Data (recv_data, pack, auto-detection, and the
--             events of the transport as run)
--   Rle       core/rle.go: Pixels (what the depths differ in), Orders (the headers), Draw (the pixels of an
--             order in a row), Rounds (the loops), Planar (processPlane); decompress1 to decompress4 and
--             decompress_into; Safe has the invariant of the decoders
--   Tpkt      protocol/tpkt/tpkt.go: readLoop as read_loop, its branches as recv_x224 and recv_fast_path,
--             Write and SendFastPath
--   X224      protocol/x224/x224.go: connect, recv_connection_confirm, write, recv_data
--   Channel   plugin/channel.go: register, send_to_channel, process
--   Drdynvc   plugin/drdynvc/dvc.go: process and its handlers; the state is the record DvcClient
--   Window    a ring of bytes as a sliding window, the abstract view of both histories
--   Mppc      core/mppc.go: decompress, its rounds and its bit reader
--   Zgfx      plugin/rdpgfx/zgfx.go: Ring (history, literals, matches), Token (the Huffman table and its
--             lookup table), Reader (the bit reader), Decompress (the loop)
--   Pdu       protocol/pdu: Reads (reads that drop the error), Bitmaps (the bitmap updates), Orders
--             (orders.go: Fields, Primary, Memory, Polygon, Process, Brushes, ColorTable, Secondary, Glyphs,
--             Stream),
--             Surface (surface commands, NsCodec, Nrle and Colors), FastPath (recv_fast_path), Input (the
--             events and send_input_events), Redirection, SessionInfo, Session (the handlers of the activation and of the session,
--             and the emitter's calls of them)
--   Examples  runs on small inputs
--
-- Each module has the operations; its child modules have the proofs, named for what they are about.
-- State is passed explicitly; what an operation does to the outside is a list of events; a panic of the
-- source is a value of the model where the theorems speak of it.
--
-- Bounds and fuel. Bytes and machine words are natural numbers, with the wrap-around of the source written
-- out; a Go int is a natural number where the source keeps it from being negative. The rings have their
-- real sizes, 65536 and 2500000. Loops that the source runs without a bound take fuel: read_loop needs one
-- more than there are bytes, decompress_loop of Mppc and of Zgfx and the unary loop of Mppc one more than
-- there are bits, since every round takes at least one, the unary loop of Zgfx two more, and the loops of its
-- bit reader one more than the bits that are asked for; that this is enough is shown, and no result stands
-- for a run that has not ended. A decoder of Rle has a round for each row that is left and two more, an order for
-- each byte of the input, and a plane's row a segment for each byte; read_blocks has one round for each byte
-- that is left and one more. A pixel of decompress3 is a triple of its bytes. recv_fast_path, the surface
-- commands and nrle_decode_into have one round for each byte of their input, of which every round takes one
-- at least. An int32 and an int16 of protocol/pdu are their two's complement words.
--
-- Parameters: the layout of structs, and of certificate chains, by the package struc (X224.Struc, Gcc.Struc,
-- Pdu.FastPath.Struc), the outcomes of the TLS
-- and NLA handshakes, the clock (the time since a measurement began), the buffers that the pools of
-- decompress2 and of decodeNSCodec hand out, the hook DecodeRemoteFX, and the outcome of the fast-path sender.
--
-- Not modelled: sockets, TLS and NLA, the cryptography of protocol/nla and protocol/sec, the event emitter
-- but for the calls of Emit, licensing, the PDUs of protocol/pdu that struc lays out and the capabilities,
-- the keys in the certificates of GCC, the graphics, sound and clipboard channels with their
-- codecs, the client in grdp.go and the examples. The other buffer pools, log lines and handlers that panic have no counterpart.
pub mod Prelude
pub mod Io
pub mod Per
pub mod Ber
pub mod Gcc
pub mod Mcs
pub mod Rle
pub mod Tpkt
pub mod X224
pub mod Channel
pub mod Drdynvc
pub mod Window
pub mod Mppc
pub mod Zgfx
pub mod Pdu
pub mod Examples
