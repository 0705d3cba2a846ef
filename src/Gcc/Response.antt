-- ===== src/Gcc/Response.antt =====
-- The server's response as a whole.
use grdp.Prelude.{
  ℕ, ◌+◌, ◌%◌, ◌^◌, ◌<◌, ◌≡◌, ◌≢◌, refl, List, [], ◌∷◌, ◌++◌, length, arith, append-nil, All,
}
use grdp.Per as Per
use grdp.Per.RoundTrip.{
  read_length-write_length, read_integer-write_integer, read_integer16-write, read_enumerates-byte,
  read_octet_stream-write,
}
use grdp.Per.Identifier.{read_object_identifier-write}
use grdp.Gcc.{Struc, out_of_fuel, read_conference_create_response, h221_sc_key}
use grdp.Gcc.Settings.{
  Block, Fits, write_blocks, unpack_all, read_blocks-ne-out_of_fuel, read_blocks-write_blocks,
  length-write_blocks, ends-if,
}

read_choice-write :
    (c : ℕ) (rest : List ℕ) → Per.read_choice (Per.write_choice c ++ rest) ≡ (c, rest)
unfolding Per.read_choice Per.write_choice
read_choice-write c rest = refl

read_number_of_set-write :
    (n : ℕ) (rest : List ℕ)
    → Per.read_number_of_set (Per.write_number_of_set n ++ rest) ≡ (n % 256, rest)
unfolding Per.read_number_of_set Per.write_number_of_set
read_number_of_set-write n rest = refl

-- A response as the server writes it: the fields that the client skips, the key, and the blocks.
pub record Header : Type 0 where
  pub size : ℕ
  pub choice : ℕ
  pub node : ℕ
  pub tag : ℕ
  pub result : ℕ
  pub sets : ℕ

pub record IsHeader (h : Header) : Type 0 where
  pub size : h.size < 0x8000
  pub node : h.node < 65536
  pub tag : h.tag < 2 ^ 32

abbrev pub conference_create_response : Header → List Block → List ℕ
conference_create_response h bs =
    Per.write_choice 0
    ++ (Per.write_object_identifier 0 0 20 124 0 1
        ++ (Per.write_length h.size
            ++ (Per.write_choice h.choice
                ++ (Per.write_integer16 h.node
                    ++ (Per.write_integer h.tag
                        ++ (h.result
                            ∷ (Per.write_number_of_set h.sets
                                ++ (Per.write_choice 0xc0
                                    ++ (Per.write_octet_stream h221_sc_key 4
                                        ++ (Per.write_length (length (write_blocks bs))
                                            ++ write_blocks bs))))))))))

-- Whatever blocks the server writes, of known and of unknown kinds, if they fit their length fields
-- and together fewer than 32768 bytes, then the client reads what `Unpack` makes of each of the known
-- ones, in order, and panics exactly where `Unpack` does on one of them, on its certificate.
pub read_conference_create_response-write :
    (struc : Struc) (h : Header) (bs : List Block)
    → IsHeader h
    → All Fits bs
    → length (write_blocks bs) < 0x8000
    → read_conference_create_response struc (conference_create_response h bs) ≡ unpack_all struc bs
unfolding read_conference_create_response
read_conference_create_response-write struc h bs v fits small =
    let r10 : List ℕ = write_blocks bs in
    let r9 : List ℕ = Per.write_length (length r10) ++ r10 in
    let r8 : List ℕ = Per.write_octet_stream h221_sc_key 4 ++ r9 in
    let r7 : List ℕ = Per.write_choice 0xc0 ++ r8 in
    let r6 : List ℕ = Per.write_number_of_set h.sets ++ r7 in
    let r5 : List ℕ = h.result ∷ r6 in
    let r4 : List ℕ = Per.write_integer h.tag ++ r5 in
    let r3 : List ℕ = Per.write_integer16 h.node ++ r4 in
    let r2 : List ℕ = Per.write_choice h.choice ++ r3 in
    let r1 : List ℕ = Per.write_length h.size ++ r2 in
    rw
      (
        read_choice-write 0 (Per.write_object_identifier 0 0 20 124 0 1 ++ r1),
        read_object_identifier-write 0 0 20 124 0 1 r1 (omega arith),
        read_length-write_length h.size r2 v.size,
        read_choice-write h.choice r3,
        read_integer16-write h.node r4 v.node,
        read_integer-write_integer h.tag r5 v.tag,
        read_enumerates-byte h.result r6,
        read_number_of_set-write h.sets r7,
        read_choice-write 0xc0 r8,
        read_octet_stream-write h221_sc_key r9 4 (omega arith) (omega arith),
        read_length-write_length (length r10) r10 small,
      )
      (rw append-nil at (
        read_blocks-write_blocks struc bs (length r10 + 1) [] fits (omega (arith, small))
          (omega (arith, length-write_blocks bs))))

-- On every input the client returns the blocks that it has read, or panics: it never runs round the
-- blocks for ever.
pub read_conference_create_response-ne-out_of_fuel :
    (struc : Struc) (r : List ℕ) → read_conference_create_response struc r ≢ out_of_fuel
unfolding read_conference_create_response
read_conference_create_response-ne-out_of_fuel struc r =
    ends-if _ _ _ (read_blocks-ne-out_of_fuel struc _ _ _ (omega arith))
