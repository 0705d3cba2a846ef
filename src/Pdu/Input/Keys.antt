-- ===== src/Pdu/Input/Keys.antt =====
-- protocol/pdu/data.go and pdu.go: fast-path input as a server reads it.
use grdp.Prelude.{
  ℕ, zero, suc, ◌+◌, ◌*◌, ◌/◌, ◌%◌, ◌^◌, ◌<◌, ◌≡◌, refl, ap, ◌∙◌, List, [], ◌∷◌, ◌++◌, Bool, true,
  false, bit_and, bit_or, ◌==◌, if◌then◌else◌, ◌||◌, Option, none, some, length, ltb, arith, map,
  append_assoc, append-nil, sym, All,
}
use grdp.Pdu.Reads.{has}
use grdp.Pdu.Input.{
  InputEvent, pointer, synchronize, scancode, unicode_key, fast_path_encode, flag_if,
  scancode_flags, unicode_flags, kbdflags_extended, kbdflags_extended1, kbdflags_release,
  encode_all, can_send_fast_path_input, all_encoders, fast_path_buffer, send_input_events, Inputs,
  fast_path,
}

-- What a server makes of an event: the three flags and the make code of a key, a character, or the mouse.
pub data Received : Type 0 where
  key : Bool → Bool → Bool → ℕ → Received
  character : Bool → ℕ → Received
  mouse : ℕ → ℕ → ℕ → Received

abbrev pub read_character : ℕ → List ℕ → Option (Received × List ℕ)
read_character h (a ∷ b ∷ r) = some (character (has h 1) (a + 256 * b), r)
read_character h r = none

abbrev pub read_mouse : List ℕ → Option (Received × List ℕ)
read_mouse (a ∷ b ∷ c ∷ d ∷ e ∷ f ∷ r) = some (mouse (a + 256 * b) (c + 256 * d) (e + 256 * f), r)
read_mouse r = none

abbrev pub read_key : ℕ → List ℕ → Option (Received × List ℕ)
read_key h (a ∷ r) = some (key (has h 1) (has h 2) (has h 4) a, r)
read_key h [] = none

-- The code is in the top three bits of the first byte, and the flags are in the others.
abbrev pub read_event : List ℕ → Option (Received × List ℕ)
read_event [] = none
read_event (h ∷ r) =
    if h / 32 == 0
    then read_key h r
    else if h / 32 == 4
    then read_character h r
    else if h / 32 == 1
    then read_mouse r
    else none

abbrev pub read_events : ℕ → List ℕ → Option (List Received × List ℕ)
read_events zero r = some ([], r)
read_events (suc n) r = elim (read_event r) [
  | none ↦ none
  | some (e, r') ↦ elim (read_events n r') [ none ↦ none | some (es, rest) ↦ some (e ∷ es, rest) ]
]

-- What the client means by an event.
abbrev pub meaning : InputEvent → Received
meaning (pointer p) = mouse p.pointer_flags p.x_pos p.y_pos
meaning (synchronize p) = mouse 0 0 0
meaning (scancode p) =
    key (has p.keyboard_flags kbdflags_release)
      (has p.keyboard_flags kbdflags_extended || (bit_and p.key_code 0xFF00 == 0xE000))
      (has p.keyboard_flags kbdflags_extended1) (p.key_code % 256)
meaning (unicode_key p) = character (has p.keyboard_flags kbdflags_release) p.unicode

-- The fields are 16-bit numbers, and the event is one that the fast path can carry.
abbrev pub IsEncodable : InputEvent → Type 0
IsEncodable (pointer p) = (p.pointer_flags < 65536) × (p.x_pos < 65536) × (p.y_pos < 65536)
IsEncodable (synchronize p) = ⊥
IsEncodable (scancode p) = Unit {0}
IsEncodable (unicode_key p) = p.unicode < 65536

key_read :
    (release extended extended1 : Bool) (code : ℕ) (r : List ℕ)
    → read_event (
        bit_or
          (0 * 2 ^ 5 % 256)
          (flag_if extended1 0x04 (flag_if extended 0x02 (flag_if release 0x01 0)))
        ∷ code
        ∷ r)
      ≡ some (key release extended extended1 code, r)
key_read true true true code r = refl
key_read true true false code r = refl
key_read true false true code r = refl
key_read true false false code r = refl
key_read false true true code r = refl
key_read false true false code r = refl
key_read false false true code r = refl
key_read false false false code r = refl

character_read :
    (release : Bool) (a b : ℕ) (r : List ℕ)
    → read_event (bit_or (4 * 2 ^ 5 % 256) (flag_if release 0x01 0) ∷ a ∷ b ∷ r)
      ≡ some (character release (a + 256 * b), r)
character_read true a b r = refl
character_read false a b r = refl

word_back : (w : ℕ) → w < 65536 → w % 256 + 256 * (w / 256 % 256) ≡ w
word_back w h = omega arith

encoded :
    (e : InputEvent)
    → IsEncodable e
    → (bytes : List ℕ) × (fast_path_encode e ≡ some bytes)
      × ((r : List ℕ) → read_event (bytes ++ r) ≡ some (meaning e, r))
unfolding fast_path_encode scancode_flags unicode_flags
encoded (pointer p) (h, k, l) =
    (_, refl, λ r. rw (word_back p.pointer_flags h, word_back p.x_pos k, word_back p.y_pos l) refl)
encoded (synchronize p) h = absurd h
encoded (scancode p) h = (_, refl, λ r. key_read _ _ _ (p.key_code % 256) r)
encoded (unicode_key p) h = (
  _,
  refl,
  λ r.
      character_read _ (p.unicode % 256) (p.unicode / 256 % 256) r
      ∙ ap (λ (w : ℕ). some (character (has p.keyboard_flags kbdflags_release) w, r))
          (word_back p.unicode h),
)

read_events-encode_all :
    (es : List InputEvent) (r : List ℕ)
    → All IsEncodable es
    → read_events (length es) (encode_all es ++ r) ≡ some (map meaning es, r)
unfolding encode_all
read_events-encode_all [] r h = refl
read_events-encode_all (e ∷ es) r (h, hs) =
    let (bytes, k, back) = encoded e h in
    rw (
      k,
      append_assoc bytes (encode_all es) r,
      back (encode_all es ++ r),
      read_events-encode_all es r hs,
      read_events,
    )

all_encoders-IsEncodable : (es : List InputEvent) → All IsEncodable es → all_encoders es ≡ true
unfolding all_encoders
all_encoders-IsEncodable [] h = refl
all_encoders-IsEncodable (e ∷ es) (h, hs) =
    let (bytes, k, _) = encoded e h in rw (k, all_encoders-IsEncodable es hs)

can_send :
    (es : List InputEvent)
    → 0 < length es
    → length es < 16
    → All IsEncodable es
    → can_send_fast_path_input es ≡ true
unfolding can_send_fast_path_input
can_send es h k l =
    let some_events : (length es == 0) ≡ false = ground arith in
    let few : ltb 15 (length es) ≡ false = ground arith in
    rw (some_events, few, all_encoders-IsEncodable es l)

-- A server that takes fast-path input, behind a sender that says whether it succeeded.
abbrev pub takes_fast : (List ℕ → Bool) → Inputs
takes_fast sender = record { server_fast_path_input = true; fast_path_sender = some sender }

-- One to fifteen events that the fast path can carry, sent to a server that takes them there, are
-- read back as they were meant.
pub send_input_events-read_events :
    (msg_type : ℕ) (es : List InputEvent) (sender : List ℕ → Bool)
    → sender (fast_path_buffer es) ≡ true
    → 0 < length es
    → length es < 16
    → All IsEncodable es
    → (bytes : List ℕ) × (send_input_events (takes_fast sender) msg_type es
        ≡ (takes_fast sender, fast_path (length es ∷ bytes) ∷ []))
      × (read_events (length es) bytes ≡ some (map meaning es, []))
unfolding send_input_events fast_path_buffer
send_input_events-read_events msg_type es sender sent h k l =
    let n : length es % 2 ^ 8 ≡ length es = omega arith in
    (
      encode_all es,
      rw (can_send es h k l, sent)
          (ap (λ (m : ℕ). (takes_fast sender, fast_path (m ∷ encode_all es) ∷ [])) n),
      ap (read_events (length es)) (sym (append-nil (encode_all es)))
          ∙ read_events-encode_all es [] l,
    )
