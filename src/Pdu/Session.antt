-- ===== src/Pdu/Session.antt =====
-- protocol/pdu/pdu.go: the client's handlers, from the demand-active PDU to the active session, and
-- the event "data" of emission/emitter.go that calls them.
-- A handler is modelled from what `readPDU` returns: `none` for an error, else the PDU. What is sent
-- and emitted is a list of effects. The capabilities that are sent have no counterpart.
pub mod Handshake
pub mod Reactivation
use grdp.Prelude.{
  ℕ, zero, suc, List, [], ◌∷◌, ◌++◌, Bool, true, false, ◌==◌, if◌then◌else◌, Option, none, some,
  length, drop, not, bit_and, map,
}
use grdp.Pdu.Reads.{has}
use grdp.Pdu.Bitmaps.{BitmapData}
use grdp.Pdu.FastPath.{PointerUpdate}

abbrev pub ctrlaction_cooperate : ℕ
ctrlaction_cooperate = 4

abbrev pub ctrlaction_granted_control : ℕ
ctrlaction_granted_control = 2

abbrev pub input_flag_fastpath_input : ℕ
input_flag_fastpath_input = 0x0008

-- The data PDUs that a handler looks at. An update has been unpacked as a bitmap update, the only
-- kind that the slow path unpacks.
pub data DataPdu : Type 0 where
  synchronize : DataPdu
  control : ℕ → DataPdu
  font_map : DataPdu
  update : List BitmapData → DataPdu
  pointer_cached : ℕ → DataPdu
  pointer_update : PointerUpdate → DataPdu
  pointer_system : DataPdu
  other_data : ℕ → DataPdu

-- The input capability's flags, if the server sent that capability.
pub data Pdu : Type 0 where
  demand_active : ℕ → Option ℕ → Pdu
  deactivate_all : Pdu
  server_redirect : List ℕ → Pdu
  data_pdu : DataPdu → Pdu
  other : ℕ → Pdu

pub data Effect : Type 0 where
  send_confirm_active send_synchronize send_cooperate send_request_control : Effect
  send_font_list send_allow_display_updates : Effect
  emit_ready emit_deactivate_all emit_pointer_hide : Effect
  emit_redirect : List ℕ → Effect
  emit_bitmap : List BitmapData → Effect
  emit_pointer_cached : ℕ → Effect
  emit_pointer_update : PointerUpdate → Effect

pub data Listener : Type 0 where
  recv_demand_active recv_synchronize recv_cooperate recv_granted recv_font_map recv_pdu : Listener

-- The listeners of the event "data", those of `On` and those of `Once`, and three of the fields:
-- `sharedId`, the flags of the entry CAPSTYPE_INPUT of `serverCapabilities`, which starts with an empty
-- one, and `serverFastPathInput`.
pub record Client : Type 0 where
  pub on : List Listener
  pub once : List Listener
  pub shared_id : ℕ
  pub input_flags : ℕ
  pub server_fast_path_input : Bool

-- `c.transport.Once("data", l)`
unfoldable pub await : Client → Listener → Client
await c l = record c { once = c.once ++ (l ∷ []) }

abbrev pub Ran : Type 0
Ran = Client × List Effect

-- The entry of the input capability in the map, which stays until the server sends another.
abbrev pub store_input : Option ℕ → ℕ → ℕ
store_input none old = old
store_input (some flags) old = flags

-- The fields once a demand-active PDU is read: `serverFastPathInput` comes from the stored entry.
abbrev pub store_demand : ℕ → Option ℕ → Client → Client
store_demand id flags c = record c {
  shared_id = id;
  input_flags = store_input flags c.input_flags;
  server_fast_path_input = has (store_input flags c.input_flags) input_flag_fastpath_input;
}

unfoldable pub on_demand_active : Pdu → Client → Ran
unfolding await
on_demand_active (demand_active id flags) c = (
  await (store_demand id flags c) recv_synchronize,
  send_confirm_active ∷ send_synchronize ∷ send_cooperate ∷ send_request_control ∷ send_font_list
      ∷ [],
)
on_demand_active deactivate_all c = (await c recv_demand_active, [])
on_demand_active (server_redirect target) c = (c, emit_redirect target ∷ [])
on_demand_active (data_pdu d) c = (await c recv_demand_active, [])
on_demand_active (other t) c = (await c recv_demand_active, [])

-- The guards of the handlers: a data PDU of the right kind, and for a control PDU its action.
unfoldable pub is_synchronize : Pdu → Bool
is_synchronize (data_pdu synchronize) = true
is_synchronize p = false

unfoldable pub is_control : ℕ → Pdu → Bool
is_control action (data_pdu (control a)) = a == action
is_control action p = false

unfoldable pub is_font_map : Pdu → Bool
is_font_map (data_pdu font_map) = true
is_font_map p = false

unfoldable pub on_synchronize : Pdu → Client → Ran
unfolding await is_synchronize
on_synchronize p c =
    if is_synchronize p then (await c recv_cooperate, []) else (await c recv_synchronize, [])

unfoldable pub on_cooperate : Pdu → Client → Ran
unfolding await is_control
on_cooperate p c =
    if is_control ctrlaction_cooperate p
    then (await c recv_granted, [])
    else (await c recv_cooperate, [])

unfoldable pub on_granted : Pdu → Client → Ran
unfolding await is_control
on_granted p c =
    if is_control ctrlaction_granted_control p
    then (await c recv_font_map, [])
    else (await c recv_granted, [])

-- Another PDU is dropped, and nothing waits for the font map any more.
unfoldable pub on_font_map : Pdu → Client → Ran
unfolding is_font_map
on_font_map p c =
    if is_font_map p
    then (record c { on = c.on ++ (recv_pdu ∷ []) }, send_allow_display_updates ∷ emit_ready ∷ [])
    else (c, [])

unfoldable pub on_data : DataPdu → List Effect
on_data (update rects) = emit_bitmap rects ∷ []
on_data (pointer_cached i) = emit_pointer_cached i ∷ []
on_data (pointer_update u) = emit_pointer_update u ∷ []
on_data pointer_system = emit_pointer_hide ∷ []
on_data d = []

unfoldable pub on_pdu : Pdu → Client → Ran
unfolding await on_data
on_pdu deactivate_all c = (await c recv_demand_active, emit_deactivate_all ∷ [])
on_pdu (server_redirect target) c = (c, emit_redirect target ∷ [])
on_pdu (data_pdu d) c = (c, on_data d)
on_pdu p c = (c, [])

-- A handler; an error of `readPDU` is logged, and nothing else happens.
unfoldable pub handle : Listener → Option Pdu → Client → Ran
unfolding on_demand_active on_synchronize on_cooperate on_granted on_font_map on_pdu
handle l none c = (c, [])
handle recv_demand_active (some p) c = on_demand_active p c
handle recv_synchronize (some p) c = on_synchronize p c
handle recv_cooperate (some p) c = on_cooperate p c
handle recv_granted (some p) c = on_granted p c
handle recv_font_map (some p) c = on_font_map p c
handle recv_pdu (some p) c = on_pdu p c

-- The listeners of a slice, one after another.
unfoldable pub dispatch : List Listener → Option Pdu → Client → Ran
unfolding handle
dispatch [] p c = (c, [])
dispatch (l ∷ ls) p c =
    let (c', es) = handle l p c in let (c'', es') = dispatch ls p c' in (c'', es ++ es')

-- `Emit("data", s)`: the listeners of `On`, then those of `Once` that there are by then, which go.
unfoldable pub emit : Option Pdu → Client → Ran
unfolding dispatch
emit p c =
    let (c1, es1) = dispatch c.on p c in
    let (c2, es2) = dispatch c1.once p c1 in
    (record c2 { once = drop (length c1.once) c2.once }, es1 ++ es2)

unfoldable pub run : List (Option Pdu) → Client → Ran
unfolding emit
run [] c = (c, [])
run (p ∷ ps) c = let (c', es) = emit p c in let (c'', es') = run ps c' in (c'', es ++ es')

-- After the event "connect".
abbrev pub connected : Client
connected = record {
  on = [];
  once = recv_demand_active ∷ [];
  shared_id = 0x103EA;
  input_flags = 0;
  server_fast_path_input = false;
}
