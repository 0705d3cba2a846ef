-- ===== src/Pdu/Input/Calls.antt =====
-- protocol/pdu/pdu.go: runs of calls of SendInputEvents, behind a fast-path sender that may fail.
use grdp.Prelude.{
  ℕ, suc, ◌+◌, ◌≤◌, ◌≡◌, refl, List, [], ◌∷◌, ◌++◌, some, Bool, true, false, ◌&&◌, ◌⊎◌, inl, inr,
  if◌then◌else◌, Bool-cases, arith,
}
use mathlib.Core.Bool.{false≢true}
use grdp.Pdu.Input.{
  InputEvent, Sent, fast_path, slow_path, fast_path_buffer, slow_pdu, Inputs,
  can_send_fast_path_input, send_input_events, Call, send_calls,
}

-- What arrives where the sender refuses some buffers.
unfoldable pub arrived : (List ℕ → Bool) → List Sent → List Sent
arrived sender [] = []
arrived sender (fast_path bytes ∷ sent) =
    if sender bytes then fast_path bytes ∷ arrived sender sent else arrived sender sent
arrived sender (slow_path n es ∷ sent) = slow_path n es ∷ arrived sender sent

-- How many buffers the sender refuses.
unfoldable pub refusals : (List ℕ → Bool) → List Sent → ℕ
refusals sender [] = 0
refusals sender (fast_path bytes ∷ sent) =
    if sender bytes then refusals sender sent else suc (refusals sender sent)
refusals sender (slow_path n es ∷ sent) = refusals sender sent

-- The fast path, for events that it can carry.
abbrev pub TakesFast : Call → Sent → Type 0
TakesFast call d =
    (can_send_fast_path_input call.1 ≡ true) × (d ≡ fast_path (fast_path_buffer call.1))

-- Each call arrives once, in order, as the slow PDU or as the fast-path buffer of its events.
abbrev pub Arrives : List Call → List Sent → Type 0
Arrives [] [] = Unit
Arrives [] (d ∷ ds) = ⊥
Arrives (call ∷ calls) [] = ⊥
Arrives (call ∷ calls) (d ∷ ds) =
    ((d ≡ slow_pdu call.0 call.1) ⊎ TakesFast call d) × Arrives calls ds

and_true : (a b : Bool) → a && b ≡ true → (a ≡ true) × (b ≡ true)
and_true true b h = (refl, h)
and_true false b h = absurd (false≢true h)

module _ (sender : List ℕ → Bool) where
  abbrev pub behind : Bool → Inputs
  behind fast = record { server_fast_path_input = fast; fast_path_sender = some sender }

  abbrev budget : Bool → ℕ
  budget fast = if fast then 1 else 0

  -- What one call does: it arrives, and at most one refusal is taken from the budget.
  abbrev Sends : Bool → Call → Inputs × List Sent → Type 0
  Sends fast call (c', sent) =
      (fast' : Bool) × (c' ≡ behind fast')
      × (d : Sent) × ((d ≡ slow_pdu call.0 call.1) ⊎ TakesFast call d)
      × ((rest : List Sent)
          → (arrived sender (sent ++ rest) ≡ d ∷ arrived sender rest)
            × (refusals sender (sent ++ rest) + budget fast' ≤ refusals sender rest + budget fast))

  send_input_events-Sends :
      (fast : Bool) (msg_type : ℕ) (es : List InputEvent)
      → Sends fast (msg_type, es) (send_input_events (behind fast) msg_type es)
  unfolding send_input_events slow_pdu arrived refusals
  send_input_events-Sends fast msg_type es =
      let slow : Sent = slow_pdu msg_type es in
      let quick : Sent = fast_path (fast_path_buffer es) in
      elim (Bool-cases (fast && can_send_fast_path_input es)) [
        | inr off ↦ rw off (fast, refl, slow, inl refl, λ rest. (refl, omega arith))
        | inl on ↦ elim (Bool-cases (sender (fast_path_buffer es))) [
          | inl ok ↦
              let both = and_true fast (can_send_fast_path_input es) on in
              rw (on, ok)
                (fast, refl, quick, inr (both.1, refl), λ rest. (rw ok refl, rw ok (omega arith)))
          | inr ko ↦
              rw (on, ko)
                (
                  false,
                  refl,
                  slow,
                  inl refl,
                  λ rest. (
                    rw ko refl,
                    rw
                        (
                          ko,
                          let yes' : fast ≡ true =
                                (and_true fast (can_send_fast_path_input es) on).0 in
                              yes',
                        )
                        (omega arith),
                  ),
                )
        ]
      ]

  -- Whatever buffers the sender refuses, and wherever the run of calls starts from: what it refused left
  -- aside, each call arrives once, in order, by the slow path, or by the fast path where this can carry
  -- its events; and the sender refuses one buffer at most, and none where fast-path input was off. No
  -- demand-active PDU comes between the calls.
  pub send_calls-Arrives :
      (fast : Bool) (calls : List Call)
      → Arrives calls (arrived sender (send_calls (behind fast) calls).1)
        × (refusals sender (send_calls (behind fast) calls).1 ≤ (if fast then 1 else 0))
  unfolding send_calls arrived refusals
  send_calls-Arrives fast [] = (tt, omega arith)
  send_calls-Arrives fast ((msg_type, es) ∷ calls) =
      let (fast', e, d, how, leads) = send_input_events-Sends fast msg_type es in
      let rest : List Sent = (send_calls (behind fast') calls).1 in
      let (all, few) = send_calls-Arrives fast' calls in
      let (shown, spent) = leads rest in rw (e, shown) ((how, all), omega (arith, spent, few))
