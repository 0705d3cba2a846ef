-- ===== src/Pdu/Session/Handshake.antt =====
-- protocol/pdu/pdu.go: what the server has sent when the session becomes ready.
use grdp.Prelude.{
  ℕ, List, [], ◌∷◌, ◌++◌, Bool, true, false, ◌≡◌, refl, ap, sym, ◌∙◌, Option, none, some,
  Bool-cases, inl, inr, drop,
}
use mathlib.Core.Bool.{false≢true}
use grdp.Pdu.Session.{
  Pdu, demand_active, deactivate_all, server_redirect, data_pdu, other, Effect, emit_ready,
  Listener, recv_demand_active, recv_synchronize, recv_cooperate, recv_granted, recv_font_map,
  Client, Ran, handle, dispatch, emit, run, connected, on_demand_active, on_synchronize,
  on_cooperate, on_granted, on_font_map, await, is_synchronize, is_control, is_font_map,
  ctrlaction_cooperate, ctrlaction_granted_control, store_demand,
}

-- What is still to come when a listener waits, in this order, with any PDUs and errors between: the
-- demand, the synchronize, the cooperate, the granted control and the font map.
pub data Sequence : Listener → List (Option Pdu) → Type 0 where
  skip :
      (l : Listener) (p : Option Pdu) (ps : List (Option Pdu)) → Sequence l ps → Sequence l (p ∷ ps)
  demanded :
      (id : ℕ) (flags : Option ℕ) (ps : List (Option Pdu))
      → Sequence recv_synchronize ps
      → Sequence recv_demand_active (some (demand_active id flags) ∷ ps)
  synchronized :
      (p : Pdu) (ps : List (Option Pdu))
      → is_synchronize p ≡ true
      → Sequence recv_cooperate ps
      → Sequence recv_synchronize (some p ∷ ps)
  cooperates :
      (p : Pdu) (ps : List (Option Pdu))
      → is_control ctrlaction_cooperate p ≡ true
      → Sequence recv_granted ps
      → Sequence recv_cooperate (some p ∷ ps)
  grants :
      (p : Pdu) (ps : List (Option Pdu))
      → is_control ctrlaction_granted_control p ≡ true
      → Sequence recv_font_map ps
      → Sequence recv_granted (some p ∷ ps)
  mapped :
      (p : Pdu) (ps : List (Option Pdu))
      → is_font_map p ≡ true
      → Sequence recv_font_map (some p ∷ ps)

abbrev pub has_ready : List Effect → Bool
has_ready [] = false
has_ready (emit_ready ∷ es) = true
has_ready (e ∷ es) = has_ready es

-- A client that waits for one PDU of the sequence, and one that waits for nothing.
abbrev pub waiting : Listener → Client → Client
waiting l c = record c { on = []; once = l ∷ [] }

abbrev deaf : Client → Client
deaf c = record c { on = []; once = [] }

run-deaf : (ps : List (Option Pdu)) (c0 : Client) → (run ps (deaf c0)).1 ≡ []
unfolding run emit dispatch
run-deaf [] c0 = refl
run-deaf (p ∷ ps) c0 = run-deaf ps c0

-- A ready session after a step that emitted nothing of the kind.
after :
    (p : Option Pdu) (ps : List (Option Pdu)) (c c' : Client)
    → emit p c ≡ (c', [])
    → has_ready (run (p ∷ ps) c).1 ≡ true
    → has_ready (run ps c').1 ≡ true
unfolding run
after p ps c c' e h = sym (ap (λ (t : Ran). has_ready (t.1 ++ (run ps t.0).1)) e) ∙ h

never_ready :
    (p : Option Pdu) (ps : List (Option Pdu)) (c : Client) (c0 : Client)
    → emit p c ≡ (deaf c0, [])
    → has_ready (run (p ∷ ps) c).1 ≡ true
    → ⊥
never_ready p ps c c0 e h =
    let quiet = ap has_ready (run-deaf ps c0) in
    let ready = after p ps c (deaf c0) e h in false≢true (sym quiet ∙ ready)

-- One handler at work.
step :
    (p : Pdu) (l l' : Listener) (c0 : Client)
    → handle l (some p) (waiting l c0) ≡ (await (waiting l c0) l', [])
    → emit (some p) (waiting l c0) ≡ (waiting l' c0, [])
unfolding emit dispatch await
step p l l' c0 e = ap (λ (t : Ran). (record t.0 { once = drop 1 t.0.once }, t.1 ++ [])) e

font_map-Sequence :
    (ps : List (Option Pdu)) (c0 : Client)
    → has_ready (run ps (waiting recv_font_map c0)).1 ≡ true
    → Sequence recv_font_map ps
unfolding run emit dispatch handle on_font_map
font_map-Sequence [] c0 h = absurd (false≢true h)
font_map-Sequence (none ∷ ps) c0 h =
    absurd (never_ready none ps (waiting recv_font_map c0) c0 refl h)
font_map-Sequence (some p ∷ ps) c0 h = elim (Bool-cases (is_font_map p)) [
  | inl e ↦ mapped p ps e
  | inr e ↦ absurd (never_ready (some p) ps (waiting recv_font_map c0) c0 (rw e refl) h)
]

granted-Sequence :
    (ps : List (Option Pdu)) (c0 : Client)
    → has_ready (run ps (waiting recv_granted c0)).1 ≡ true
    → Sequence recv_granted ps
unfolding run emit dispatch handle on_granted await
granted-Sequence [] c0 h = absurd (false≢true h)
granted-Sequence (none ∷ ps) c0 h = absurd (never_ready none ps (waiting recv_granted c0) c0 refl h)
granted-Sequence (some p ∷ ps) c0 h = elim (Bool-cases (is_control ctrlaction_granted_control p)) [
  | inl e ↦
      let on = step p recv_granted recv_font_map c0 (rw e refl) in
      grants p ps e (
        font_map-Sequence ps c0
          (after (some p) ps (waiting recv_granted c0) (waiting recv_font_map c0) on h))
  | inr e ↦
      let on = step p recv_granted recv_granted c0 (rw e refl) in
      skip recv_granted (some p) ps (
        granted-Sequence ps c0
          (after (some p) ps (waiting recv_granted c0) (waiting recv_granted c0) on h))
]

cooperate-Sequence :
    (ps : List (Option Pdu)) (c0 : Client)
    → has_ready (run ps (waiting recv_cooperate c0)).1 ≡ true
    → Sequence recv_cooperate ps
unfolding run emit dispatch handle on_cooperate await
cooperate-Sequence [] c0 h = absurd (false≢true h)
cooperate-Sequence (none ∷ ps) c0 h =
    absurd (never_ready none ps (waiting recv_cooperate c0) c0 refl h)
cooperate-Sequence (some p ∷ ps) c0 h = elim (Bool-cases (is_control ctrlaction_cooperate p)) [
  | inl e ↦
      let on = step p recv_cooperate recv_granted c0 (rw e refl) in
      cooperates p ps e (
        granted-Sequence ps c0
          (after (some p) ps (waiting recv_cooperate c0) (waiting recv_granted c0) on h))
  | inr e ↦
      let on = step p recv_cooperate recv_cooperate c0 (rw e refl) in
      skip recv_cooperate (some p) ps (
        cooperate-Sequence ps c0
          (after (some p) ps (waiting recv_cooperate c0) (waiting recv_cooperate c0) on h))
]

synchronize-Sequence :
    (ps : List (Option Pdu)) (c0 : Client)
    → has_ready (run ps (waiting recv_synchronize c0)).1 ≡ true
    → Sequence recv_synchronize ps
unfolding run emit dispatch handle on_synchronize await
synchronize-Sequence [] c0 h = absurd (false≢true h)
synchronize-Sequence (none ∷ ps) c0 h =
    absurd (never_ready none ps (waiting recv_synchronize c0) c0 refl h)
synchronize-Sequence (some p ∷ ps) c0 h = elim (Bool-cases (is_synchronize p)) [
  | inl e ↦
      let on = step p recv_synchronize recv_cooperate c0 (rw e refl) in
      synchronized p ps e (
        cooperate-Sequence ps c0
          (after (some p) ps (waiting recv_synchronize c0) (waiting recv_cooperate c0) on h))
  | inr e ↦
      let on = step p recv_synchronize recv_synchronize c0 (rw e refl) in
      skip recv_synchronize (some p) ps (
        synchronize-Sequence ps c0
          (after (some p) ps (waiting recv_synchronize c0) (waiting recv_synchronize c0) on h))
]

demand-Sequence :
    (ps : List (Option Pdu)) (c0 : Client)
    → has_ready (run ps (waiting recv_demand_active c0)).1 ≡ true
    → Sequence recv_demand_active ps
unfolding run emit dispatch handle on_demand_active await
demand-Sequence [] c0 h = absurd (false≢true h)
demand-Sequence (none ∷ ps) c0 h =
    absurd (never_ready none ps (waiting recv_demand_active c0) c0 refl h)
demand-Sequence (some (demand_active id flags) ∷ ps) c0 h =
    demanded id flags ps (synchronize-Sequence ps (store_demand id flags c0) h)
demand-Sequence (some (server_redirect target) ∷ ps) c0 h =
    absurd (false≢true (sym (ap has_ready (run-deaf ps c0)) ∙ h))
demand-Sequence (some deactivate_all ∷ ps) c0 h = skip _ _ ps (demand-Sequence ps c0 h)
demand-Sequence (some (data_pdu d) ∷ ps) c0 h = skip _ _ ps (demand-Sequence ps c0 h)
demand-Sequence (some (other t) ∷ ps) c0 h = skip _ _ ps (demand-Sequence ps c0 h)

-- The session is ready only after a demand-active, a synchronize, a cooperate, a granted-control and
-- a font-map PDU, received in this order.
pub run-Sequence :
    (ps : List (Option Pdu))
    → has_ready (run ps connected).1 ≡ true
    → Sequence recv_demand_active ps
run-Sequence ps h = demand-Sequence ps connected h

stopped :
    (p : Pdu) (c0 : Client)
    → is_font_map p ≡ false
    → emit (some p) (waiting recv_font_map c0) ≡ (deaf c0, [])
unfolding emit dispatch handle on_font_map
stopped p c0 h = rw h refl

-- In a first activation, where nothing but one handler of the sequence is registered, a PDU that
-- cannot be read ends the sequence for good, and so does any other PDU where the font map is due:
-- whatever comes after it, nothing is sent and nothing is emitted.
pub run_stuck :
    (l : Listener) (p : Pdu) (ps : List (Option Pdu)) (c0 : Client)
    → is_font_map p ≡ false
    → ((run (none ∷ ps) (waiting l c0)).1 ≡ [])
      × ((run (some p ∷ ps) (waiting recv_font_map c0)).1 ≡ [])
unfolding run emit dispatch handle on_font_map
run_stuck l p ps c0 h =
    (run-deaf ps c0, ap (λ (t : Ran). t.1 ++ (run ps t.0).1) (stopped p c0 h) ∙ run-deaf ps c0)
