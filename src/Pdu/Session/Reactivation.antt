-- ===== src/Pdu/Session/Reactivation.antt =====
-- protocol/pdu/pdu.go: reactivations of the session, each of which registers `recvPDU` once more.
use grdp.Prelude.{
  ℕ, zero, suc, ◌+◌, ◌^◌, ◌<◌, List, [], ◌∷◌, ◌++◌, ◌≡◌, refl, ap, sym, ◌∙◌, Option, none, some,
  length, drop, replicate, drop-append, append_assoc, append-nil, arith,
}
use native.Mathlib.Nat.{pow-suc}
use grdp.Pdu.Bitmaps.{BitmapData}
use grdp.Pdu.Session.{
  Pdu, synchronize, control, font_map, update, demand_active, deactivate_all, data_pdu, Effect,
  emit_bitmap, emit_deactivate_all, Listener, recv_demand_active, recv_synchronize, recv_cooperate,
  recv_granted, recv_font_map, recv_pdu, Client, Ran, handle, dispatch, emit, run, on_demand_active,
  on_synchronize, on_cooperate, on_granted, on_font_map, on_pdu, on_data, await, store_demand,
  is_synchronize, is_control, is_font_map,
}

-- n active handlers, and k handlers that wait for the same PDU; the other fields are those of `s`.
abbrev pub session : ℕ → ℕ → Listener → Client → Client
session n k l s = record s { on = replicate n recv_pdu; once = replicate k l }

-- The share id of a demand, and its input capability where there is one.
abbrev pub Demand : Type 0
Demand = ℕ × Option ℕ

-- The PDUs of a reactivation.
abbrev pub reactivation : Demand → List (Option Pdu)
reactivation d =
    some deactivate_all
    ∷ some (demand_active d.0 d.1)
    ∷ some (data_pdu synchronize)
    ∷ some (data_pdu (control 4))
    ∷ some (data_pdu (control 2))
    ∷ some (data_pdu font_map)
    ∷ []

abbrev pub reactivations : List Demand → List (Option Pdu)
reactivations [] = []
reactivations (d ∷ ds) = reactivation d ++ reactivations ds

-- The fields after the demands, one after another.
abbrev pub store_all : List Demand → Client → Client
store_all [] s = s
store_all (d ∷ ds) s = store_all ds (store_demand d.0 d.1 s)

-- The effects of k handlers.
abbrev times : ℕ → List Effect → List Effect
times zero es = []
times (suc k) es = es ++ times k es

module _ (s : Client) where
  abbrev at : List Listener → List Listener → Client
  at on once = record s { on = on; once = once }

  quiet :
      (p : Option Pdu) (es : List Effect)
      → ((c : Client) → handle recv_pdu p c ≡ (c, es))
      → (n : ℕ) (c : Client) → dispatch (replicate n recv_pdu) p c ≡ (c, times n es)
  unfolding dispatch
  quiet p es h zero c = refl
  quiet p es h (suc n) c = rw (h c, quiet p es h n c)

  -- Handlers that each register another one.
  register :
      (p : Option Pdu) (l l' : Listener) (es : List Effect)
      → ((on once : List Listener) → handle l p (at on once) ≡ (at on (once ++ (l' ∷ [])), es))
      → (k : ℕ) (on once : List Listener)
      → dispatch (replicate k l) p (at on once) ≡ (at on (once ++ replicate k l'), times k es)
  unfolding dispatch
  register p l l' es h zero on once = ap (λ t. (at on t, [])) (sym (append-nil once))
  register p l l' es h (suc k) on once =
      rw (h on once, register p l l' es h k on (once ++ (l' ∷ [])))
        (ap (λ t. (at on t, es ++ times k es)) (append_assoc once (l' ∷ []) (replicate k l')))

  emit_from :
      (p : Option Pdu) (on once on' once' : List Listener) (c c1 : Client)
      → (dispatch c.on p c).0 ≡ c1
      → c1 ≡ at on once
      → (dispatch once p (at on once)).0 ≡ at on' (once ++ once')
      → (emit p c).0 ≡ at on' once'
  unfolding emit
  emit_from p on once on' once' c c1 e f g =
      ap
        (λ (t : Client). (record (dispatch t.once p t).0 {
          once = drop (length t.once) (dispatch t.once p t).0.once;
        }))
        (e ∙ f)
      ∙ ap (λ (t : Client). (record t { once = drop (length once) t.once })) g
      ∙ ap (at on') (drop-append once once')

  -- A PDU of the handshake: every waiting handler makes way for the next.
  hand_over :
      (p : Option Pdu) (l l' : Listener) (es : List Effect)
      → ((c : Client) → handle recv_pdu p c ≡ (c, []))
      → ((on once : List Listener) → handle l p (at on once) ≡ (at on (once ++ (l' ∷ [])), es))
      → (n k : ℕ) → (emit p (session n k l s)).0 ≡ session n k l' s
  hand_over p l l' es h g n k =
      let c = session n k l s in
      emit_from p (replicate n recv_pdu) (replicate k l) (replicate n recv_pdu) (replicate k l') c c
        (ap (λ (t : Ran). t.0) (quiet p [] h n c)) refl
        (ap (λ (t : Ran). t.0) (register p l l' es g k (replicate n recv_pdu) (replicate k l)))

  -- Every active handler registers a handler for the demand, and that one waits on.
  deactivated :
      (n : ℕ) (l : Listener)
      → (emit (some deactivate_all) (session n 0 l s)).0 ≡ session n n recv_demand_active s
  unfolding handle on_pdu on_demand_active await
  deactivated n l =
      let p : Option Pdu = some deactivate_all in
      let on = replicate n recv_pdu in
      let waits = replicate n recv_demand_active in
      emit_from p on waits on waits (session n 0 l s) (at on waits)
        (ap (λ (t : Ran). t.0)
          (register p recv_pdu recv_demand_active (emit_deactivate_all ∷ []) (λ o w. refl) n on []))
        refl
        (ap (λ (t : Ran). t.0)
          (register p recv_demand_active recv_demand_active [] (λ o w. refl) n on waits))

  -- Every handler of the font map registers an active handler.
  activate :
      (k : ℕ) (on once : List Listener)
      → (dispatch (replicate k recv_font_map) (some (data_pdu font_map)) (at on once)).0
        ≡ at (on ++ replicate k recv_pdu) once
  unfolding dispatch handle on_font_map is_font_map
  activate zero on once = ap (λ t. at t once) (sym (append-nil on))
  activate (suc k) on once =
      activate k (on ++ (recv_pdu ∷ [])) once
      ∙ ap (λ t. at t once) (append_assoc on (recv_pdu ∷ []) (replicate k recv_pdu))

  joins : (n k : ℕ) → replicate n recv_pdu ++ replicate k recv_pdu ≡ replicate (n + k) recv_pdu
  joins zero k = let e : k ≡ 0 + k = omega arith in ap (λ m. replicate m recv_pdu) e
  joins (suc n) k =
      let e : suc (n + k) ≡ suc n + k = omega arith in
      ap (λ t. recv_pdu ∷ t) (joins n k) ∙ ap (λ m. replicate m recv_pdu) e

  activated :
      (n k : ℕ)
      → (emit (some (data_pdu font_map)) (session n k recv_font_map s)).0
        ≡ session (n + k) 0 recv_demand_active s
  unfolding handle on_pdu on_data
  activated n k =
      let p : Option Pdu = some (data_pdu font_map) in
      let c = session n k recv_font_map s in
      let w = replicate k recv_font_map in
      emit_from p (replicate n recv_pdu) w (replicate (n + k) recv_pdu) [] c c
        (ap (λ (t : Ran). t.0) (quiet p [] (λ d. refl) n c)) refl
        (activate k (replicate n recv_pdu) w
          ∙ ap (λ t. at t w) (joins n k)
          ∙ ap (at (replicate (n + k) recv_pdu)) (sym (append-nil w)))

  after_run :
      (p : Option Pdu) (ps : List (Option Pdu)) (c c' c'' : Client)
      → (emit p c).0 ≡ c'
      → (run ps c').0 ≡ c''
      → (run (p ∷ ps) c).0 ≡ c''
  unfolding run
  after_run p ps c c' c'' e f = ap (λ (d : Client). (run ps d).0) e ∙ f

  times_one : (k : ℕ) (e : Effect) → times k (e ∷ []) ≡ replicate k e
  times_one zero e = refl
  times_one (suc k) e = ap (λ t. e ∷ t) (times_one k e)

  updated :
      (rects : List BitmapData) (n : ℕ)
      → (emit (some (data_pdu (update rects))) (session n 0 recv_demand_active s)).1
        ≡ replicate n (emit_bitmap rects)
  unfolding emit dispatch handle on_pdu on_data
  updated rects n =
      let c = session n 0 recv_demand_active s in
      let p : Option Pdu = some (data_pdu (update rects)) in
      ap (λ (t : Ran). t.1 ++ (dispatch t.0.once p t.0).1)
        (quiet p (emit_bitmap rects ∷ []) (λ d. refl) n c)
      ∙ append-nil (times n (emit_bitmap rects ∷ []))
      ∙ times_one n (emit_bitmap rects)

-- Storing a demand again changes nothing.
store_again :
    (id : ℕ) (flags : Option ℕ) (s : Client) (on once : List Listener)
    → handle recv_demand_active
        (some (demand_active id flags))
        (at (store_demand id flags s) on once)
      ≡ (
        at (store_demand id flags s) on (once ++ (recv_synchronize ∷ [])),
        (on_demand_active (demand_active id flags) s).1,
      )
unfolding handle on_demand_active await
store_again id none s on once = refl
store_again id (some f) s on once = refl

-- The handlers that wait for the demand: the first one stores it, and the others again.
store_each :
    (id : ℕ) (flags : Option ℕ) (n : ℕ) (s : Client) (on once : List Listener)
    → (dispatch
        (replicate (suc n) recv_demand_active)
        (some (demand_active id flags))
        (at s on once)).0
      ≡ at (store_demand id flags s) on (once ++ replicate (suc n) recv_synchronize)
unfolding dispatch handle on_demand_active await
store_each id flags n s on once =
    let s' : Client = store_demand id flags s in
    ap (λ (t : Ran). t.0)
      (register s' (some (demand_active id flags)) recv_demand_active recv_synchronize _
        (store_again id flags s) n on (once ++ (recv_synchronize ∷ [])))
    ∙ ap (λ t. at s' on t)
        (append_assoc once (recv_synchronize ∷ []) (replicate n recv_synchronize))

stored :
    (id : ℕ) (flags : Option ℕ) (n : ℕ) (s : Client)
    → 0 < n
    → (emit (some (demand_active id flags)) (session n n recv_demand_active s)).0
      ≡ session n n recv_synchronize (store_demand id flags s)
unfolding emit handle on_pdu
stored id flags zero s pos = absurd (omega arith)
stored id flags (suc n) s pos =
    let p : Option Pdu = some (demand_active id flags) in
    let on = replicate (suc n) recv_pdu in
    let w = replicate (suc n) recv_demand_active in
    ap
      (λ (t : Client). (record (dispatch t.once p t).0 {
        once = drop (length t.once) (dispatch t.once p t).0.once;
      }))
      (ap (λ (t : Ran). t.0) (quiet s p [] (λ d. refl) (suc n) (at s on w)))
    ∙ ap (λ (t : Client). (record t { once = drop (length w) t.once }))
        (store_each id flags n s on w)
    ∙ ap (at (store_demand id flags s) on) (drop-append w (replicate (suc n) recv_synchronize))

-- A reactivation and what follows it.
reactivated :
    (d : Demand) (n : ℕ) (ps : List (Option Pdu)) (s c : Client)
    → 0 < n
    → (run ps (session (n + n) 0 recv_demand_active (store_demand d.0 d.1 s))).0 ≡ c
    → (run (reactivation d ++ ps) (session n 0 recv_demand_active s)).0 ≡ c
unfolding handle on_pdu on_data on_demand_active on_synchronize on_cooperate on_granted await
    is_synchronize is_control
reactivated d n ps s c pos h =
    let s' : Client = store_demand d.0 d.1 s in
    after_run s _ _ _ _ c (deactivated s n recv_demand_active) (
      after_run s _ _ _ _ c (stored d.0 d.1 n s pos) (
        after_run s' _ _ _ _ c
          (hand_over s' (some (data_pdu synchronize)) recv_synchronize recv_cooperate []
            (λ d'. refl) (λ o w. refl) n n)
          (after_run s' _ _ _ _ c
            (hand_over s' (some (data_pdu (control 4))) recv_cooperate recv_granted [] (λ d'. refl)
              (λ o w. refl) n n)
            (after_run s' _ _ _ _ c
              (hand_over s' (some (data_pdu (control 2))) recv_granted recv_font_map [] (λ d'. refl)
                (λ o w. refl) n n)
              (after_run s' _ ps _ _ c (activated s' n n) h)))))

pow-pos : (j : ℕ) → 0 < 2 ^ j
pow-pos zero = omega arith
pow-pos (suc j) = omega (arith, pow-suc 2 j, pow-pos j)

from_power :
    (ds : List Demand) (j : ℕ) (s : Client)
    → (run (reactivations ds) (session (2 ^ j) 0 recv_demand_active s)).0
      ≡ session (2 ^ (j + length ds)) 0 recv_demand_active (store_all ds s)
unfolding run
from_power [] j s =
    let e : j ≡ j + 0 = omega arith in ap (λ (i : ℕ). session (2 ^ i) 0 recv_demand_active s) e
from_power (d ∷ ds) j s =
    let s' : Client = store_demand d.0 d.1 s in
    let twice : 2 ^ suc j ≡ 2 ^ j + 2 ^ j = pow-suc 2 j ∙ omega arith in
    let e : suc j + length ds ≡ j + suc (length ds) = omega arith in
    reactivated d (2 ^ j) (reactivations ds) s _ (pow-pos j) (
      ap (λ (i : ℕ). (run (reactivations ds) (session i 0 recv_demand_active s')).0) (sym twice)
      ∙ from_power ds (suc j) s'
      ∙ ap (λ (i : ℕ). session (2 ^ i) 0 recv_demand_active (store_all ds s')) e)

-- From a session with one active handler, each reactivation doubles these handlers, if no other PDU
-- comes between its PDUs, whatever share id it has and whether or not it brings an input capability:
-- after m of them a bitmap update is emitted 2 ^ m times, and the other fields are those that the
-- demands leave.
pub run-reactivations :
    (ds : List Demand) (s : Client) (rects : List BitmapData)
    → ((run (reactivations ds) (session 1 0 recv_demand_active s)).0
        ≡ session (2 ^ length ds) 0 recv_demand_active (store_all ds s))
      × ((emit
            (some (data_pdu (update rects)))
            (run (reactivations ds) (session 1 0 recv_demand_active s)).0).1
          ≡ replicate (2 ^ length ds) (emit_bitmap rects))
run-reactivations ds s rects =
    let e : 0 + length ds ≡ length ds = omega arith in
    let f =
      from_power ds 0 s ∙ ap (λ (i : ℕ). session (2 ^ i) 0 recv_demand_active (store_all ds s)) e in
    (
      f,
      ap (λ (c : Client). (emit (some (data_pdu (update rects))) c).1) f
          ∙ updated (store_all ds s) rects (2 ^ length ds),
    )
