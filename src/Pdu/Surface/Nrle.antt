-- ===== src/Pdu/Surface/Nrle.antt =====
-- protocol/pdu/data.go: the run-length encoding of an NSCodec plane.
-- The output buffer comes from a pool, so that it holds old bytes where nothing is written.
use grdp.Prelude.{
  ℕ, zero, suc, ◌+◌, ◌-◌, List, [], ◌∷◌, ◌++◌, Bool, false, min, ltb, leb, ◌==◌, if◌then◌else◌,
  Option, none, some, length, take, drop, replicate,
}
use grdp.Io.{little_endian}

-- `copy(out[at:], bytes)`, or one byte written.
abbrev pub splice : List ℕ → ℕ → List ℕ → List ℕ
splice out start bytes = take start out ++ bytes ++ drop (start + length bytes) out

-- The copy that doubles: `wrote` bytes of the run stand in the output. `fuel` rounds; n are enough.
unfoldable pub double : ℕ → ℕ → ℕ → ℕ → List ℕ → List ℕ
double zero start n wrote out = out
double (suc fuel) start n wrote out =
    let step = min wrote (n - wrote) in
    let out' = splice out (start + wrote) (take step (drop start out)) in
    let rest = double fuel start n (wrote + step) out' in if ltb wrote n then rest else out

-- The length of a run and the input after it: a byte below 255, or four bytes after the byte 255.
unfoldable pub run_length : List ℕ → ℕ × List ℕ
run_length [] = (0, [])
run_length (b ∷ rest) =
    if ltb b 0xFF
    then (b + 2, rest)
    else if leb 4 (length rest)
    then (little_endian (take 4 rest), drop 4 rest)
    else (0, rest)

-- A run of a value at outPos: its first byte, then the doubling copy. `outPos + left` is the size.
unfoldable pub write_run : ℕ → ℕ → ℕ → List ℕ → List ℕ
unfolding double
write_run value n start out = double n start n 1 (splice out start (value ∷ []))

-- The state of the loop: what is left to write, where to write it, and the output.
pub record Nrle : Type 0 where
  pub left : ℕ
  pub out_pos : ℕ
  pub output : List ℕ

unfoldable pub one_byte : ℕ → Nrle → Nrle
one_byte value s = record {
  left = s.left - 1;
  out_pos = s.out_pos + 1;
  output = splice s.output s.out_pos (value ∷ []);
}

-- `originalSize-outPos` is what is left of the output.
unfoldable pub one_run : ℕ → ℕ → Nrle → Nrle
unfolding write_run
one_run value run_len s =
    let run = min run_len s.left in
    let n = min run (length s.output - s.out_pos) in
    record {
      left = s.left - run;
      out_pos = s.out_pos + n;
      output = write_run value n s.out_pos s.output;
    }

-- Whether the next byte repeats the value.
unfoldable pub repeated : ℕ → List ℕ → Bool
repeated value [] = false
repeated value (b ∷ rest) = value == b

-- The loop, with fuel for one round a byte of the input.
unfoldable pub nrle_loop : ℕ → List ℕ → Nrle → Nrle × List ℕ
unfolding one_byte one_run run_length repeated
nrle_loop zero input s = (s, input)
nrle_loop (suc fuel) [] s = (s, [])
nrle_loop (suc fuel) (value ∷ rest) s =
    let (run, after) = run_length (drop 1 rest) in
    let single = nrle_loop fuel rest (one_byte value s) in
    let run_on = nrle_loop fuel after (one_run value run s) in
    if ltb 4 s.left
    then (if s.left == 5 then single else if repeated value rest then run_on else single)
    else (s, value ∷ rest)

-- The last four bytes are copied as they are.
unfoldable pub copy_last : Nrle → List ℕ → List ℕ
copy_last s rest =
    if leb 4 s.left
    then (if leb 4 (length rest) then splice s.output s.out_pos (take 4 rest) else s.output)
    else s.output

unfoldable pub nrle_decode_into : List ℕ → List ℕ → List ℕ
unfolding nrle_loop copy_last
nrle_decode_into input output =
    let (s, rest) =
      nrle_loop (length input) input
        (record { left = length output; out_pos = 0; output = output }) in
    copy_last s rest

-- `output := make([]byte, originalSize)`
unfoldable nrle_decode : List ℕ → ℕ → List ℕ
unfolding nrle_decode_into
nrle_decode input original_size = nrle_decode_into input (replicate original_size 0)

-- `none` where `input[:originalSize]` or `input[:planeSize]` is out of range.
unfoldable pub nsc_decompress_plane_into : List ℕ → ℕ → List ℕ → Option (List ℕ)
unfolding nrle_decode_into
nsc_decompress_plane_into input plane_size out =
    if plane_size == 0
    then some (replicate (length out) 0xFF)
    else if leb (length out) plane_size
    then (if leb (length out) (length input) then some (take (length out) input) else none)
    else if leb plane_size (length input)
    then some (nrle_decode_into (take plane_size input) out)
    else none

unfoldable nsc_decompress_plane : List ℕ → ℕ → ℕ → Option (List ℕ)
unfolding nsc_decompress_plane_into
nsc_decompress_plane input plane_size original_size =
    nsc_decompress_plane_into input plane_size (replicate original_size 0)
