-- ===== src/Channel.antt =====
-- plugin/channel.go: static virtual channels, their registration, the chunks of an outbound message
-- and the reassembly of an inbound one.
-- `Channels.channels` is an association list from names to options; the transport that a name stands
-- for is the name itself, so `cli.t.Process(s)` is the pair of the name and the bytes. The emitter, the
-- pool of chunk buffers, the log lines and the unused Windows API types have no counterpart.
pub mod Chunks
pub mod Interleaving
use Prim.Native.String.{String}
use text.Mathlib.Text.{◌==◌ as str_eq}
use grdp.Prelude.{
  ℕ, zero, suc, ◌+◌, ◌-◌, ◌*◌, ◌%◌, ◌^◌, bit_and, bit_or, List, [], ◌∷◌, ◌++◌, Option, none, some,
  Bool, true, false, ltb, ◌==◌, if◌then◌else◌, length, take, drop, ◌||◌, map,
}
use grdp.Io.{little_endian, write_uint32_le}

abbrev pub channel_chunk_length : ℕ
channel_chunk_length = 1600

abbrev pub channel_flag_first : ℕ
channel_flag_first = 0x01

abbrev pub channel_flag_last : ℕ
channel_flag_last = 0x02

abbrev pub channel_flag_show_protocol : ℕ
channel_flag_show_protocol = 0x10

abbrev pub channel_option_show_protocol : ℕ
channel_option_show_protocol = 0x00200000

-- `channels` and `buff`; one buffer serves every channel.
pub record Channels : Type 0 where
  pub channels : List (String × ℕ)
  pub buff : List ℕ

unfoldable pub lookup : String → List (String × ℕ) → Option ℕ
lookup name [] = none
lookup name ((n, options) ∷ cs) = if str_eq n name then some options else lookup name cs

unfoldable pub new_channels : Channels
new_channels = record { channels = []; buff = [] }

-- A name that is taken stays as it is.
unfoldable pub register : Channels → String → ℕ → Channels
register c name option = elim (lookup name c.channels) [
  | some _ ↦ c
  | none ↦ record c { channels = (name, option) ∷ c.channels }
]

-- `slices.Chunk(s, n)`, with fuel for one piece after another; `length s` pieces are enough.
unfoldable pub chunk : ℕ → ℕ → List ℕ → List (List ℕ)
chunk fuel n [] = []
chunk zero n (b ∷ s) = []
chunk (suc fuel) n (b ∷ s) = take n (b ∷ s) ∷ chunk fuel n (drop n (b ∷ s))

unfoldable pub base_flag : ℕ → ℕ
base_flag options =
    if bit_and options channel_option_show_protocol == 0 then 0 else channel_flag_show_protocol

unfoldable pub chunk_flag : ℕ → Bool → Bool → ℕ
chunk_flag base first last =
    let flag = if first then bit_or base channel_flag_first else base in
    if last then bit_or flag channel_flag_last else flag

-- The eight bytes of the header, and the chunk.
unfoldable pub chunk_pdu : ℕ → ℕ → List ℕ → List ℕ
unfolding write_uint32_le
chunk_pdu total flag payload = write_uint32_le (total % 2 ^ 32) ++ write_uint32_le flag ++ payload

-- The loop over the pieces; `remaining` is what is left before the piece in hand.
unfoldable pub send_chunks : ℕ → ℕ → Bool → ℕ → List (List ℕ) → List (List ℕ)
send_chunks total base first remaining [] = []
send_chunks total base first remaining (p ∷ ps) =
    let left = remaining - length p in
    chunk_pdu total (chunk_flag base first (left == 0)) p ∷ send_chunks total base false left ps

-- The buffers handed to the channel sender, or `none` for a name that is not registered.
unfoldable pub send_to_channel : Channels → String → List ℕ → Option (List (List ℕ))
send_to_channel c channel s = elim (lookup channel c.channels) [
  | none ↦ none
  | some options ↦ some (
      send_chunks (length s) (base_flag options) true (length s)
        (chunk (length s) channel_chunk_length s))
]

-- What the flags of a chunk do to the buffer, and what they hand on.
unfoldable pub reassemble : ℕ → List ℕ → List ℕ → List ℕ × Option (List ℕ)
reassemble flags payload buff =
    let first = bit_and flags channel_flag_first in
    let last = bit_and flags channel_flag_last in
    let buff' = (if first == 0 then buff else []) ++ payload in
    if (first == 0) || (last == 0)
    then (buff', if last == 0 then none else some buff')
    else (buff, some payload)

-- The new state, and what `cli.t.Process` is called on.
unfoldable pub process : Channels → String → List ℕ → Channels × Option (List ℕ)
process c channel s = elim (lookup channel c.channels) [
  | none ↦ (c, none)
  | some _ ↦
      let (buff, out) = reassemble (little_endian (take 4 (drop 4 s))) (drop 8 s) c.buff in
      if ltb (length s) 8 then (c, none) else (record c { buff = buff }, out)
]

-- What a run of inbound chunks hands to the channels, in order.
unfoldable pub process_all : Channels → List (String × List ℕ) → Channels × List (String × List ℕ)
process_all c [] = (c, [])
process_all c ((channel, s) ∷ rest) =
    let (c', out) = process c channel s in
    let (last, outs) = process_all c' rest in
    (last, elim out [ none ↦ outs | some m ↦ (channel, m) ∷ outs ])
