-- ===== src/Examples/Compression.antt =====
-- The two decompressors on small inputs.
use grdp.Prelude.{
  ℕ, ◌≡◌, ◌≢◌, refl, List, [], ◌∷◌, ◌++◌, Option, none, some, length, arith, bit_and,
}
use grdp.Window.{Tracks, Slides-Tracks}
use grdp.Zgfx.Ring.{
  ZgfxContext, zgfx_history_size, new_zgfx_context, history_write, output_match, output_literal,
}
use grdp.Zgfx.Ring.Write.{IsValid, Writes, history_write-IsValid, history_write-Writes}
use grdp.Zgfx.Ring.Match.{Repeats, output_match-Repeats}
use grdp.Zgfx.Token.{zgfx_token_lut, zgfx_token_table}
use grdp.Zgfx.Token.Lookup.{as_entry, find_token, matches, zgfx_token_lut-find_token}
use grdp.Zgfx.Decompress.{
  decompress, decompress_loop, round, token_round, decode_token, counted_bits, value_round,
}
use grdp.Zgfx.Reader.{
  has_bits_remaining, peek9, gather, consume_bits, skip_bits, get_bits, get_bits_loop,
  new_bit_reader_with_count, Outcome, done, panic, out_of_fuel,
}
use grdp.Zgfx.Decompress.Total.{decompress-ne-out_of_fuel}
use grdp.Zgfx.Decompress.Sound.{decompress-Tracks}
use grdp.Mppc as Mppc
use grdp.Mppc.{
  MppcDecompressor, new_mppc_decompressor, new_mppc_bit_reader, mppc_history_size, mppc_compressed,
  push_all, copy_loop, copy_source,
}
use grdp.Mppc.History.{Holds, Holds-push_all, Echoes, copy_loop-copy_source}
use grdp.Mppc.Total.{kept, decompress-Holds}

abbrev three_bytes : List ℕ
three_bytes = 65 ∷ 66 ∷ 67 ∷ []

new_context-IsValid : IsValid new_zgfx_context
unfolding new_zgfx_context
new_context-IsValid = omega arith

new_context-Tracks :
    Tracks zgfx_history_size new_zgfx_context.history new_zgfx_context.history_idx []
new_context-Tracks k hk hp = absurd (omega arith)

-- A context that has decompressed three bytes.
abbrev filled : ZgfxContext
filled = history_write new_zgfx_context three_bytes

filled-IsValid : IsValid filled
filled-IsValid = history_write-IsValid new_zgfx_context three_bytes new_context-IsValid

history_write-Writes_example : Writes new_zgfx_context filled three_bytes
history_write-Writes_example = history_write-Writes new_zgfx_context three_bytes new_context-IsValid

filled-Writes : Writes new_zgfx_context filled three_bytes
filled-Writes = history_write-Writes new_zgfx_context three_bytes new_context-IsValid

filled-Tracks : Tracks zgfx_history_size filled.history filled.history_idx three_bytes
filled-Tracks =
    Slides-Tracks zgfx_history_size new_zgfx_context.history filled.history
      new_zgfx_context.history_idx filled.history_idx [] three_bytes filled-Writes
      new_context-Tracks

-- Five bytes from two places back: the copy overlaps itself.
output_match-Repeats_example :
    (z' : ZgfxContext) × (block : List ℕ) × (output_match filled 2 5 [] ≡ some (z', [] ++ block))
    × (length block ≡ 5)
    × Repeats three_bytes 2 block
    × IsValid z'
    × Tracks zgfx_history_size z'.history z'.history_idx (three_bytes ++ block)
output_match-Repeats_example =
    output_match-Repeats filled three_bytes 2 filled-IsValid filled-Tracks (omega arith)
      (omega arith) (omega arith) 5 []

-- The literal 0x41 in nine bits, and seven bits of padding.
abbrev one_literal : List ℕ
one_literal = 0x20 ∷ 0x80 ∷ 7 ∷ []

decompress-ne-out_of_fuel_example : decompress new_zgfx_context one_literal ≢ out_of_fuel
decompress-ne-out_of_fuel_example = decompress-ne-out_of_fuel new_zgfx_context one_literal

-- What is appended to the output, if the loop ends with one.
abbrev output_of : Outcome (ZgfxContext × List ℕ) → Option (List ℕ)
output_of (done (z, out)) = some out
output_of panic = none
output_of out_of_fuel = none

one_literal_run : output_of (decompress new_zgfx_context one_literal) ≡ some (0x41 ∷ [])
unfolding decompress decompress_loop round token_round value_round decode_token counted_bits
    has_bits_remaining peek9 gather consume_bits skip_bits get_bits get_bits_loop output_literal
    new_bit_reader_with_count new_zgfx_context zgfx_token_lut
one_literal_run = refl

-- What that run leaves behind.
abbrev after_literal : ZgfxContext
after_literal = (output_literal new_zgfx_context 0x41 []).0

decompress-Tracks_example :
    IsValid after_literal
    × Tracks zgfx_history_size after_literal.history after_literal.history_idx ([] ++ 0x41 ∷ [])
unfolding decompress decompress_loop round token_round value_round decode_token counted_bits
    has_bits_remaining peek9 gather consume_bits skip_bits get_bits get_bits_loop output_literal
    new_bit_reader_with_count new_zgfx_context zgfx_token_lut
decompress-Tracks_example =
    decompress-Tracks [] one_literal new_zgfx_context after_literal (0x41 ∷ []) new_context-IsValid
      new_context-Tracks refl

zgfx_token_lut-find_token_example :
    (zgfx_token_lut 275 ≡ as_entry (find_token zgfx_token_table 275))
    × (matches zgfx_token_table 275 ≡ 1)
zgfx_token_lut-find_token_example = zgfx_token_lut-find_token 275 (omega arith)

new_mppc-Holds : Holds new_mppc_decompressor []
unfolding new_mppc_decompressor
new_mppc-Holds = (omega arith, λ k hk hp. absurd (omega arith))

-- The literal 0x41, then a copy of three bytes from one place back, behind two bytes of padding.
decompress-Holds_example :
    (d' : MppcDecompressor) × (output : List ℕ) × (Mppc.decompress new_mppc_decompressor 0x20
        (0x20 ∷ 0xC0 ∷ 0x00 ∷ [])
      ≡ some (d', output))
    × Holds d' (kept 0x20 new_mppc_decompressor [] ++ output)
    × (bit_and 0x20 mppc_compressed ≡ 0 → output ≡ 0x20 ∷ 0xC0 ∷ 0x00 ∷ [])
decompress-Holds_example =
    decompress-Holds new_mppc_decompressor 0x20 (0x20 ∷ 0xC0 ∷ 0x00 ∷ []) [] new_mppc-Holds

abbrev mppc_filled : MppcDecompressor
mppc_filled = push_all new_mppc_decompressor three_bytes

copy_loop-copy_source_example :
    (d' : MppcDecompressor) × (block : List ℕ) × (copy_loop 5
        (copy_source mppc_filled.offset 1)
        0
        mppc_filled
        three_bytes
      ≡ (d', three_bytes ++ block))
    × (length block ≡ 5)
    × Echoes three_bytes 2 block
    × Holds d' (three_bytes ++ block)
copy_loop-copy_source_example =
    copy_loop-copy_source 5 1 mppc_filled three_bytes three_bytes
      (Holds-push_all new_mppc_decompressor [] three_bytes new_mppc-Holds) (omega arith)
      (omega arith)
