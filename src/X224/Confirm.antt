-- ===== src/X224/Confirm.antt =====
-- What the answer of the server leads to.
use grdp.Prelude.{
  ℕ, List, [], ◌∷◌, Option, none, some, Bool, true, false, if◌then◌else◌, ltb, ◌==◌, ◌≡◌, ◌≢◌, ◌↔◌,
  ◌⊎◌, inl, inr, refl, arith, Bool-cases, ap, lt→ltb, ◌<◌,
}
use grdp.Io.{read_uint8}
use grdp.X224.{
  Struc, X224, Negotiation, Event, connected, awaits_data, started_tls, started_nla, protocol_rdp,
  protocol_ssl, protocol_hybrid, protocol_hybrid_ex, type_rdp_neg_rsp, type_rdp_neg_failure,
  start_protocol, select, negotiated, recv_connection_confirm, written, awaits_confirm, closed,
  failed, received,
}

-- The protocol that the listeners of "connect" are told, if they are told one.
unfoldable pub connection : List Event → Option ℕ
connection [] = none
connection (connected p ∷ es) = some p
connection (written bs ∷ es) = connection es
connection (awaits_confirm ∷ es) = connection es
connection (awaits_data ∷ es) = connection es
connection (started_tls ∷ es) = connection es
connection (started_nla ∷ es) = connection es
connection (closed ∷ es) = connection es
connection (failed f ∷ es) = connection es
connection (received bs ∷ es) = connection es

none-ne : (p : ℕ) → none ≢ some p
none-ne p h = cc

-- A connection under `p`, whose handshake came first and succeeded.
abbrev pub IsSecured : ℕ → Bool → Bool → List Event → Type 0
IsSecured p tls nla es =
    ((p ≡ protocol_rdp) × (es ≡ awaits_data ∷ connected p ∷ []))
    ⊎ ((p ≡ protocol_ssl) × (tls ≡ true) × (es ≡ awaits_data ∷ started_tls ∷ connected p ∷ []))
    ⊎ ((p ≡ protocol_hybrid) × (nla ≡ true) × (es ≡ awaits_data ∷ started_nla ∷ connected p ∷ []))

some-injective : (m n : ℕ) → (some m ≡ some n) → m ≡ n
some-injective m n h = cc

module _ (tls nla : Bool) (p : ℕ) where
  start_protocol-IsSecured :
      (selected : ℕ)
      → connection (start_protocol selected tls nla) ≡ some p
      → (selected ≡ p) × IsSecured p tls nla (start_protocol selected tls nla)
  unfolding connection start_protocol
  start_protocol-IsSecured selected h = elim (Bool-cases (selected == 8)) [
    | inl e ↦ absurd (let q = rw e at h in none-ne p q)
    | inr e8 ↦ elim (Bool-cases (selected == 0)) [
      | inl e ↦
          let sp = some-injective selected p (rw (e8, e) at h) in
          (sp, rw (e8, e) (inl (ground arith, ap (λ k. awaits_data ∷ connected k ∷ []) sp)))
      | inr e0 ↦ elim (Bool-cases (selected == 1)) [
        | inl e ↦ elim (Bool-cases tls) [
          | inl t ↦
              let sp = some-injective selected p (rw (e8, e0, e, t) at h) in
              (
                sp,
                rw (e8, e0, e, t)
                    (inr (
                      inl (
                        ground arith,
                        refl,
                        ap (λ k. awaits_data ∷ started_tls ∷ connected k ∷ []) sp,
                      ))),
              )
          | inr f ↦ absurd (let q = rw (e8, e0, e, f) at h in none-ne p q)
        ]
        | inr e1 ↦ elim (Bool-cases (selected == 2)) [
          | inl e ↦ elim (Bool-cases nla) [
            | inl t ↦
                let sp = some-injective selected p (rw (e8, e0, e1, e, t) at h) in
                (
                  sp,
                  rw (e8, e0, e1, e, t)
                      (inr (
                        inr (
                          ground arith,
                          refl,
                          ap (λ k. awaits_data ∷ started_nla ∷ connected k ∷ []) sp,
                        ))),
                )
            | inr f ↦ absurd (let q = rw (e8, e0, e1, e, f) at h in none-ne p q)
          ]
          | inr e2 ↦ absurd (let q = rw (e8, e0, e1, e2) at h in none-ne p q)
        ]
      ]
    ]
  ]

  negotiated-IsSecured :
      (x : X224) (o : Option Negotiation)
      → (let (x', es) = negotiated x o tls nla in
          connection es ≡ some p → (x'.selected_protocol ≡ p) × IsSecured p tls nla es)
  unfolding negotiated select connection
  negotiated-IsSecured x none h = absurd (none-ne p h)
  negotiated-IsSecured x (some neg) h = elim (Bool-cases (neg.type == type_rdp_neg_failure)) [
    | inl e ↦ absurd (let q = rw e at h in none-ne p q)
    | inr e ↦ rw e (start_protocol-IsSecured _ (rw e at h))
  ]

  -- Whatever the server answers, and however the two handshakes end: if the listeners of "connect"
  -- are told a protocol, then it is the one that the layer has selected, it is RDP, SSL or HYBRID,
  -- the listener for data is in place, and for SSL and HYBRID the handshake was done before and
  -- succeeded; nothing else happens.
  pub recv_connection_confirm-IsSecured :
      (struc : Struc) (x : X224) (s : List ℕ)
      → connection (recv_connection_confirm struc x s tls nla).1 ≡ some p
      → ((recv_connection_confirm struc x s tls nla).0.selected_protocol ≡ p)
        × IsSecured p tls nla (recv_connection_confirm struc x s tls nla).1
  unfolding recv_connection_confirm select
  recv_connection_confirm-IsSecured struc x s h = elim (Bool-cases (ltb 6 (read_uint8 s).0)) [
    | inl e ↦ rw e (negotiated-IsSecured x (struc.unpack_confirm s) (rw e at h))
    | inr e ↦ rw e (start_protocol-IsSecured protocol_rdp (rw e at h))
  ]

-- Whether the listeners of "connect" or of "error" are told anything.
unfoldable pub is_told : List Event → Bool
is_told [] = false
is_told (connected p ∷ es) = true
is_told (failed f ∷ es) = true
is_told (written bs ∷ es) = is_told es
is_told (awaits_confirm ∷ es) = is_told es
is_told (awaits_data ∷ es) = is_told es
is_told (started_tls ∷ es) = is_told es
is_told (started_nla ∷ es) = is_told es
is_told (closed ∷ es) = is_told es
is_told (received bs ∷ es) = is_told es

-- The protocol that an answer leaves selected, by a response or from before.
abbrev pub chosen : X224 → Negotiation → ℕ
chosen x neg = if neg.type == type_rdp_neg_rsp then neg.result else x.selected_protocol

-- The answer is long enough for a negotiation, which is no failure, and leaves a protocol selected that
-- the layer does not know.
abbrev pub LeavesUnknown : Struc → X224 → List ℕ → Type 0
LeavesUnknown struc x s =
    (6 < (read_uint8 s).0)
    × (neg : Negotiation) × (struc.unpack_confirm s ≡ some neg)
    × (neg.type ≢ type_rdp_neg_failure)
    × (2 < chosen x neg)
    × (chosen x neg ≢ protocol_hybrid_ex)

true-ne-false : true ≢ false
true-ne-false h = cc

start_protocol-is_told :
    (p : ℕ) (tls nla : Bool)
    → (is_told (start_protocol p tls nla) ≡ false) ↔ ((2 < p) × (p ≢ protocol_hybrid_ex))
unfolding start_protocol is_told
start_protocol-is_told p tls nla = (λ h. ground arith, λ h. ground arith)

negotiated-is_told :
    (x : X224) (o : Option Negotiation) (tls nla : Bool)
    → is_told (negotiated x o tls nla).1 ≡ false
    → (neg : Negotiation) × (o ≡ some neg)
      × (neg.type ≢ type_rdp_neg_failure)
      × (2 < chosen x neg)
      × (chosen x neg ≢ protocol_hybrid_ex)
unfolding negotiated select is_told
negotiated-is_told x none tls nla h = absurd (cc)
negotiated-is_told x (some neg) tls nla h = elim (Bool-cases (neg.type == type_rdp_neg_failure)) [
  | inl e ↦ absurd (let q = rw e at h in true-ne-false q)
  | inr e ↦
      let unknown = (start_protocol-is_told (chosen x neg) tls nla).0 (rw e at h) in
      (neg, refl, ground (arith, e), unknown.0, unknown.1)
]

-- The layer tells neither "connect" nor "error" exactly when the answer of more than six bytes holds a
-- negotiation that is no failure and leaves a protocol selected other than RDP, SSL, HYBRID and
-- HYBRID_EX, however the handshakes end: by a response that names it, or, with a negotiation of another
-- type, since it was selected before.
pub recv_connection_confirm-is_told :
    (struc : Struc) (x : X224) (s : List ℕ) (tls nla : Bool)
    → (is_told (recv_connection_confirm struc x s tls nla).1 ≡ false) ↔ LeavesUnknown struc x s
unfolding recv_connection_confirm negotiated select
recv_connection_confirm-is_told struc x s tls nla = (
  λ h. elim (Bool-cases (ltb 6 (read_uint8 s).0)) [
    | inl e ↦
        let (neg, parsed, type, big, other) =
          negotiated-is_told x (struc.unpack_confirm s) tls nla (rw e at h) in
        (ground (arith, e), neg, parsed, type, big, other)
    | inr e ↦ absurd (
        let unknown = (start_protocol-is_told protocol_rdp tls nla).0 (rw e at h) in
        omega (arith, unknown.0))
  ],
  λ (long, neg, parsed, type, big, other).
      let no_failure : (neg.type == type_rdp_neg_failure) ≡ false = ground (arith, type) in
      rw (lt→ltb 6 (read_uint8 s).0 long, parsed)
        (rw no_failure ((start_protocol-is_told (chosen x neg) tls nla).1 (big, other))),
)

-- The protocols that the layer can start, given how the two handshakes end.
abbrev pub CanStart : ℕ → Bool → Bool → Type 0
CanStart p tls nla =
    (p ≡ protocol_rdp)
    ⊎ ((p ≡ protocol_ssl) × (tls ≡ true))
    ⊎ ((p ≡ protocol_hybrid) × (nla ≡ true))

start_protocol-CanStart :
    (p : ℕ) (tls nla : Bool) → CanStart p tls nla → connection (start_protocol p tls nla) ≡ some p
unfolding start_protocol connection
start_protocol-CanStart p tls nla (inl rdp) = rw rdp refl
start_protocol-CanStart p tls nla (inr (inl (ssl, ok))) = rw (ssl, ok) refl
start_protocol-CanStart p tls nla (inr (inr (hybrid, ok))) = rw (hybrid, ok) refl

-- An answer of more than six bytes that selects RDP, or SSL or HYBRID with a handshake that succeeds,
-- is followed by "connect" with that protocol, whatever the layer had selected before.
pub recv_connection_confirm-CanStart :
    (struc : Struc) (x : X224) (s : List ℕ) (tls nla : Bool) (neg : Negotiation)
    → 6 < (read_uint8 s).0
    → struc.unpack_confirm s ≡ some neg
    → neg.type ≡ type_rdp_neg_rsp
    → CanStart neg.result tls nla
    → connection (recv_connection_confirm struc x s tls nla).1 ≡ some neg.result
unfolding recv_connection_confirm negotiated select
recv_connection_confirm-CanStart struc x s tls nla neg long parsed rsp can =
    rw (lt→ltb 6 (read_uint8 s).0 long, parsed)
      (rw (rsp, start_protocol-CanStart neg.result tls nla can) refl)
