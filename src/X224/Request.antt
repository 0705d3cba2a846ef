-- ===== src/X224/Request.antt =====
-- What the layer writes: the length indicator of the connection request, and the data header.
use grdp.Prelude.{
  ℕ, ◌+◌, ◌%◌, List, [], ◌∷◌, ◌++◌, some, ltb, length, get_or, ◌≡◌, refl, arith, Bool-cases, inl,
  inr, length-append, drop, drop-append, ◌<◌, ◌≤◌, le→ltb_false,
}
use grdp.Io.{write_uint8, write_uint16_be}
use grdp.X224.{
  Struc, X224, Negotiation, serialize, connect, written, awaits_confirm, received,
  new_client_connection_request_pdu, write, recv_data, connection_cookie, protocol_rdp,
}

-- What a connection request holds behind its first byte.
abbrev pub body : List ℕ → List ℕ
body [] = []
body (b ∷ bs) = bs

module _ (struc : Struc) (packs : (n : Negotiation) → length (struc.pack_negotiation n) ≡ 8) where
  serialize-indicator :
      (cookie : List ℕ) (p : ℕ) (neg : Negotiation)
      → (let request =
            serialize struc
              (record (new_client_connection_request_pdu cookie p) { protocol_neg = neg }) in
          get_or request 0 0 ≡ length (body request) % 256)
  unfolding serialize new_client_connection_request_pdu write_uint8 write_uint16_be
  serialize-indicator cookie p neg =
      let packed : List ℕ = struc.pack_negotiation neg in
      let line : List ℕ = (cookie ++ 0x0D ∷ []) ++ 0x0A ∷ [] in
      let eight : length packed ≡ 8 = packs neg in
      let two : length line ≡ length cookie + 2 = omega (
        arith,
        length-append cookie (0x0D ∷ []),
        length-append (cookie ++ 0x0D ∷ []) (0x0A ∷ []),
      ) in
      elim (Bool-cases (ltb 0 (length cookie))) [
        | inl some_cookie ↦ elim (Bool-cases (ltb protocol_rdp p)) [
          | inl asks ↦ rw (some_cookie, asks) (omega (arith, eight, two, length-append line packed))
          | inr plain ↦ rw (some_cookie, plain) (omega (arith, two, length-append line []))
        ]
        | inr no_cookie ↦ elim (Bool-cases (ltb protocol_rdp p)) [
          | inl asks ↦ rw (no_cookie, asks) (omega (arith, eight))
          | inr plain ↦ rw (no_cookie, plain) (omega arith)
        ]
      ]

  -- Where the negotiation is packed into eight bytes, `Connect` writes one request and then waits for
  -- the confirmation; the first byte of the request is the number of the bytes behind it modulo
  -- 256, whatever the cookie, and exactly that number where there are fewer than 256.
  pub connect-indicator :
      (x : X224)
      → (request : List ℕ) × (connect struc x ≡ written request ∷ awaits_confirm ∷ [])
        × (get_or request 0 0 ≡ length (body request) % 256)
        × (length (body request) < 256 → get_or request 0 0 ≡ length (body request))
  unfolding connect
  connect-indicator x =
      let h = serialize-indicator (connection_cookie x) x.requested_protocol _ in
      (_, refl, h, λ small. omega (arith, h))

recv_data-append :
    (header bs : List ℕ) → length header ≡ 3 → recv_data (header ++ bs) ≡ some (received bs)
unfolding recv_data
recv_data-append header bs three =
    let long : 3 ≤ length (header ++ bs) = omega (arith, three, length-append header bs) in
    let off : drop 3 (header ++ bs) ≡ bs = rw three at (drop-append header bs) in
    rw (le→ltb_false (length (header ++ bs)) 3 long, off) refl

-- What `Write` frames, `recvData` hands on unchanged, where the data header is packed into three
-- bytes.
pub recv_data-write :
    (struc : Struc) (x : X224) (header bs : List ℕ)
    → struc.pack_data_header x.data_header ≡ some header
    → length header ≡ 3
    → (framed : List ℕ) × (write struc x bs ≡ some framed) × (recv_data framed ≡ some (received bs))
unfolding write
recv_data-write struc x header bs packed three =
    (header ++ bs, rw (packed, write) refl, recv_data-append header bs three)
