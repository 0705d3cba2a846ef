-- ===== src/Pdu/Input.antt =====
-- protocol/pdu/data.go: the input events and their two encodings on the wire.
pub mod Keys
pub mod Calls
use grdp.Prelude.{
  ℕ, zero, suc, ◌+◌, ◌*◌, ◌/◌, ◌%◌, ◌^◌, List, [], ◌∷◌, ◌++◌, Bool, true, false, bit_and, bit_or,
  ◌==◌, if◌then◌else◌, ◌||◌, ◌&&◌, Option, none, some, length, ltb,
}
use grdp.Pdu.Reads.{has}

abbrev pub kbdflags_extended : ℕ
kbdflags_extended = 0x0100

abbrev pub kbdflags_extended1 : ℕ
kbdflags_extended1 = 0x0200

abbrev pub kbdflags_release : ℕ
kbdflags_release = 0x8000

pub record PointerEvent : Type 0 where
  pub pointer_flags : ℕ
  pub x_pos : ℕ
  pub y_pos : ℕ

pub record SynchronizeEvent : Type 0 where
  pub pad2_octets : ℕ
  pub toggle_flags : ℕ

pub record ScancodeKeyEvent : Type 0 where
  pub keyboard_flags : ℕ
  pub key_code : ℕ
  pub pad2_octets : ℕ

pub record UnicodeKeyEvent : Type 0 where
  pub keyboard_flags : ℕ
  pub unicode : ℕ
  pub pad2_octets : ℕ

-- The types behind `InputEventsInterface`; all but the synchronize event are fast-path encoders.
pub data InputEvent : Type 0 where
  pointer : PointerEvent → InputEvent
  synchronize : SynchronizeEvent → InputEvent
  scancode : ScancodeKeyEvent → InputEvent
  unicode_key : UnicodeKeyEvent → InputEvent

-- `byte(w), byte(w >> 8)`
abbrev pub two_bytes : ℕ → List ℕ
two_bytes w = (w % 256) ∷ (w / 2 ^ 8 % 256) ∷ []

unfoldable pub serialize : InputEvent → List ℕ
serialize (pointer p) = two_bytes p.pointer_flags ++ two_bytes p.x_pos ++ two_bytes p.y_pos
serialize (synchronize p) =
    two_bytes p.pad2_octets
    ++ two_bytes p.toggle_flags
    ++ ((p.toggle_flags / 2 ^ 16 % 256) ∷ (p.toggle_flags / 2 ^ 24 % 256) ∷ [])
serialize (scancode p) =
    two_bytes p.keyboard_flags ++ two_bytes p.key_code ++ two_bytes p.pad2_octets
serialize (unicode_key p) =
    two_bytes p.keyboard_flags ++ two_bytes p.unicode ++ two_bytes p.pad2_octets

abbrev pub flag_if : Bool → ℕ → ℕ → ℕ
flag_if b flag flags = if b then bit_or flags flag else flags

-- The flags of a scancode event; the prefix 0xE0 in the high byte of the key code counts as extended.
unfoldable pub scancode_flags : ScancodeKeyEvent → ℕ
scancode_flags p = flag_if (has p.keyboard_flags kbdflags_extended1) 0x04 (
    flag_if (has p.keyboard_flags kbdflags_extended || (bit_and p.key_code 0xFF00 == 0xE000)) 0x02
      (flag_if (has p.keyboard_flags kbdflags_release) 0x01 0))

unfoldable pub unicode_flags : UnicodeKeyEvent → ℕ
unicode_flags p = flag_if (has p.keyboard_flags kbdflags_release) 0x01 0

-- The bytes an event appends, or `none` for a type that is not an encoder.
unfoldable pub fast_path_encode : InputEvent → Option (List ℕ)
unfolding scancode_flags unicode_flags
fast_path_encode (pointer p) =
    some ((1 * 2 ^ 5 % 256) ∷ (two_bytes p.pointer_flags ++ two_bytes p.x_pos ++ two_bytes p.y_pos))
fast_path_encode (synchronize p) = none
fast_path_encode (scancode p) =
    some (bit_or (0 * 2 ^ 5 % 256) (scancode_flags p) ∷ (p.key_code % 256) ∷ [])
fast_path_encode (unicode_key p) =
    some (bit_or (4 * 2 ^ 5 % 256) (unicode_flags p) ∷ two_bytes p.unicode)

-- One event of a slow-path input PDU: the time is 0.
pub record SlowPathInputEvent : Type 0 where
  pub message_type : ℕ
  pub slow_path_input_data : List ℕ

-- What a call hands to the fast-path sender, or to `sendDataPDU` with its 16-bit number of events.
pub data Sent : Type 0 where
  fast_path : List ℕ → Sent
  slow_path : ℕ → List SlowPathInputEvent → Sent

-- `serverFastPathInput`, and the sender of the layer below, which may be nil; it says whether it
-- succeeded.
pub record Inputs : Type 0 where
  pub server_fast_path_input : Bool
  pub fast_path_sender : Option (List ℕ → Bool)

abbrev is_some : Option (List ℕ) → Bool
is_some none = false
is_some (some _) = true

unfoldable pub all_encoders : List InputEvent → Bool
unfolding fast_path_encode
all_encoders [] = true
all_encoders (e ∷ es) = is_some (fast_path_encode e) && all_encoders es

unfoldable pub can_send_fast_path_input : List InputEvent → Bool
unfolding all_encoders
can_send_fast_path_input es =
    if (length es == 0) || ltb 15 (length es) then false else all_encoders es

abbrev or_nothing : Option (List ℕ) → List ℕ
or_nothing none = []
or_nothing (some bytes) = bytes

unfoldable pub encode_all : List InputEvent → List ℕ
unfolding fast_path_encode
encode_all [] = []
encode_all (e ∷ es) = or_nothing (fast_path_encode e) ++ encode_all es

unfoldable pub fast_path_buffer : List InputEvent → List ℕ
unfolding encode_all
fast_path_buffer es = (length es % 2 ^ 8) ∷ encode_all es

unfoldable slow_events : ℕ → List InputEvent → List SlowPathInputEvent
unfolding serialize
slow_events msg_type [] = []
slow_events msg_type (e ∷ es) =
    record { message_type = msg_type; slow_path_input_data = serialize e } ∷ slow_events msg_type es

unfoldable pub slow_pdu : ℕ → List InputEvent → Sent
unfolding slow_events
slow_pdu msg_type es = slow_path (length es % 2 ^ 16) (slow_events msg_type es)

-- The new state and what is sent. A sender that fails is not used again, and the events go the slow way.
unfoldable pub send_input_events : Inputs → ℕ → List InputEvent → Inputs × List Sent
unfolding can_send_fast_path_input fast_path_buffer slow_pdu
send_input_events c msg_type es =
    let slow = slow_pdu msg_type es in
    let fast = fast_path (fast_path_buffer es) in
    elim c.fast_path_sender [
      | none ↦ (c, slow ∷ [])
      | some sender ↦
          if c.server_fast_path_input && can_send_fast_path_input es
          then (if sender (fast_path_buffer es)
              then (c, fast ∷ [])
              else (record c { server_fast_path_input = false }, fast ∷ slow ∷ []))
          else (c, slow ∷ [])
    ]

-- A call of `SendInputEvents`: the message type of the events, and the events.
abbrev pub Call : Type 0
Call = ℕ × List InputEvent

-- Calls one after another, with no demand-active PDU between them.
unfoldable pub send_calls : Inputs → List Call → Inputs × List Sent
send_calls c [] = (c, [])
send_calls c ((msg_type, es) ∷ calls) =
    let (c', sent) = send_input_events c msg_type es in
    let (last, rest) = send_calls c' calls in (last, sent ++ rest)
