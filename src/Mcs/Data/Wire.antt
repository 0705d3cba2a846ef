-- ===== src/Mcs/Data/Wire.antt =====
-- What one client sends on a channel, as another one receives it.
use grdp.Prelude.{ℕ, ◌<◌, ◌≡◌, refl, List, [], ◌∷◌, ◌++◌, some, length, arith, append_assoc}
use grdp.Io.{read_uint8, write_uint8}
use grdp.Io.Laws.{read_bytes_all}
use grdp.Per as Per
use grdp.Per.RoundTrip.{read_length-write_length, read_integer16-write}
use grdp.Mcs.Client.{
  McsClient, sec, off_base, write_mcs_pdu_header, read_mcs_pdu_header, send_data_indication,
}
use grdp.Mcs.Data.{pack, find_name, deliver, recv_data}

-- The server passes a PDU on with another type in its header.
abbrev pub relayed : List ℕ → List ℕ
relayed [] = []
relayed (b ∷ bs) = write_mcs_pdu_header send_data_indication 0 ++ bs

deliver_named :
    (c : McsClient) (elapsed id : ℕ) (name bytes : List ℕ)
    → find_name id c.channels ≡ some name
    → deliver c elapsed id (length bytes) bytes ≡ sec name bytes ∷ []
unfolding deliver
deliver_named c elapsed id name bytes h = rw (deliver, h, read_bytes_all bytes) refl

-- Data that one client packs for a channel reaches another client, where the server relays it, as one
-- event with the name that the receiver has for the channel and the same bytes; the id fits 16 bits,
-- the data are under 0x8000 bytes, and the receiver has the channel.
pub recv_data-pack :
    (from c : McsClient) (elapsed id : ℕ) (name bytes : List ℕ)
    → id < 65536
    → length bytes < 0x8000
    → find_name id c.channels ≡ some name
    → recv_data c elapsed (relayed (pack from bytes id)) ≡ some (c, sec name bytes ∷ [])
unfolding pack recv_data read_mcs_pdu_header write_mcs_pdu_header read_uint8 write_uint8
    Per.read_enumerates
recv_data-pack from c elapsed id name bytes hid hl h =
    let len = Per.write_length (length bytes) ++ bytes in
    let user : off_base from.user_id < 65536 = omega arith in
    rw
      (
        append_assoc,
        append_assoc,
        append_assoc,
        read_integer16-write (off_base from.user_id) (Per.write_integer16 id ++ (0x70 ∷ len)) user,
        read_integer16-write id (0x70 ∷ len) hid,
        read_length-write_length (length bytes) bytes hl,
        deliver_named c elapsed id name bytes h,
      )
      refl
