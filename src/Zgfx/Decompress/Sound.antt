-- ===== src/Zgfx/Decompress/Sound.antt =====
-- The history holds the last bytes of all that was decompressed, whatever the input.
use grdp.Prelude.{
  ℕ, zero, suc, ◌+◌, ◌-◌, ◌*◌, ◌%◌, ◌^◌, ◌≡◌, List, [], ◌∷◌, ◌++◌, none, some, Bool, true, false,
  ltb, leb, ◌==◌, ◌||◌, if◌then◌else◌, length, take, drop, lt-or-le, inl, inr, Bool-cases, Option,
  append_assoc, append-nil, lt→ltb, le→ltb_false,
}
use grdp.Window.{Tracks, Slides-Tracks}
use grdp.Zgfx.Ring.{
  ZgfxContext, zgfx_history_size, history_write, output_literal, output_match, match_block,
}
use grdp.Zgfx.Ring.Write.{
  IsValid, Writes, history_write-IsValid, history_write-Writes, output_literal-IsValid,
  output_literal-Writes,
}
use grdp.Zgfx.Token.{TokenType, literal, match, TokenLutEntry}
use grdp.Zgfx.Reader.{
  BitReader, new_bit_reader_with_count, has_bits_remaining, Outcome, done, panic, out_of_fuel,
}
use grdp.Zgfx.Decompress.{
  decode_token, counted_bits, decode_match_count, with_value, with_token, raw_block, value_round,
  State, Round, continue, break, panics, starved, match_round, align, raw_round, token_round, round,
  decompress_loop, decompress,
}

module _ (past : List ℕ) where
  -- The context holds the end of `past` and of the output behind it.
  abbrev pub Holds : ZgfxContext → List ℕ → Type 0
  Holds z out = IsValid z × Tracks zgfx_history_size z.history z.history_idx (past ++ out)

  Holds-append :
      (z z' : ZgfxContext) (out block : List ℕ)
      → Holds z out
      → IsValid z'
      → Writes z z' block
      → Holds z' (out ++ block)
  Holds-append z z' out block (v, t) v' w = (
    v',
    rw (← append_assoc past out block) (
        Slides-Tracks zgfx_history_size z.history z'.history z.history_idx z'.history_idx
          (past ++ out) block w t),
  )

  Holds-history_write :
      (z : ZgfxContext) (out block : List ℕ)
      → Holds z out
      → Holds (history_write z block) (out ++ block)
  Holds-history_write z out block h =
      let v : IsValid z = h.0 in
      Holds-append z (history_write z block) out block h (history_write-IsValid z block v)
        (history_write-Writes z block v)

  Holds-output_literal :
      (z : ZgfxContext) (out : List ℕ) (b : ℕ)
      → Holds z out
      → Holds (output_literal z b out).0 (output_literal z b out).1
  unfolding output_literal
  Holds-output_literal z out b h =
      Holds-append z (output_literal z b out).0 out (b ∷ []) h (output_literal-IsValid z b out h.0)
        (output_literal-Writes z b out h.0)

  -- What a round leaves behind.
  abbrev Keeps : Round → Type 0
  Keeps (continue (z, br, out)) = Holds z out
  Keeps (break z out) = Holds z out
  Keeps panics = Unit
  Keeps starved = Unit

  Keeps-if : (b : Bool) (r r' : Round) → Keeps r → Keeps r' → Keeps (if b then r else r')
  Keeps-if true r r' h h' = h
  Keeps-if false r r' h h' = h'

  Holds-output_match :
      (z : ZgfxContext) (br : BitReader) (distance count : ℕ) (out : List ℕ)
      → Holds z out
      → Keeps (elim (output_match z distance count out) [
        | none ↦ panics
        | some (z', out') ↦ continue (z', br, out')
      ])
  unfolding output_match
  Holds-output_match z br distance count out h =
      let idx : ℕ = z.history_idx in
      let src : ℕ =
        if ltb idx distance then idx + zgfx_history_size - distance else idx - distance in
      elim (Bool-cases ((distance == 0) || (count == 0))) [
        | inl nothing ↦ rw nothing h
        | inr some' ↦ elim (Bool-cases (ltb (idx + zgfx_history_size) distance)) [
          | inl too_far ↦ rw (some', too_far) tt
          | inr near ↦
              rw (some', near)
                (Holds-history_write z out (match_block z.history src distance count) h)
        ]
      ]

  match_round-Keeps :
      (z : ZgfxContext) (out : List ℕ) (distance : ℕ) (o : Outcome (ℕ × BitReader))
      → Holds z out
      → Keeps (match_round z out distance o)
  unfolding match_round
  match_round-Keeps z out distance (done (count, br)) h = elim (Bool-cases (leb (2 ^ 63) count)) [
    | inl negative ↦ rw negative h
    | inr positive ↦ rw positive (Holds-output_match z br distance count out h)
  ]
  match_round-Keeps z out distance panic h = tt
  match_round-Keeps z out distance out_of_fuel h = tt

  with_value-Keeps :
      (next : ℕ → BitReader → Round) (o : Outcome (ℕ × BitReader))
      → ((value : ℕ) (br : BitReader) → Keeps (next value br))
      → Keeps (with_value next o)
  with_value-Keeps next (done (value, br)) h = h value br
  with_value-Keeps next panic h = tt
  with_value-Keeps next out_of_fuel h = tt

  raw_block-Keeps :
      (z : ZgfxContext) (out : List ℕ) (raw_count : ℕ) (br : BitReader)
      → Holds z out
      → Keeps (raw_block z out raw_count br)
  unfolding raw_block
  raw_block-Keeps z out raw_count br h =
      let br2 : BitReader = align br in
      let raw_bytes : List ℕ = take raw_count (drop br2.byte_pos br2.bytes) in
      let short : Bool =
        ltb (length br2.bytes) (br2.byte_pos + raw_count)
        || ltb br2.bits_remaining (raw_count * 8 % 2 ^ 32) in
      elim (Bool-cases short) [
        | inl cut ↦ rw cut h
        | inr whole ↦ rw whole (Holds-history_write z out raw_bytes h)
      ]

  raw_round-Keeps :
      (z : ZgfxContext) (out : List ℕ) (br : BitReader) → Holds z out → Keeps (raw_round z out br)
  unfolding raw_round
  raw_round-Keeps z out br h =
      Keeps-if (ltb br.bits_remaining 15) (break z out)
        (with_value (raw_block z out) (counted_bits br 15)) h
        (with_value-Keeps (raw_block z out) (counted_bits br 15)
          (λ n br'. raw_block-Keeps z out n br' h))

  by_type-Keeps :
      (t : TokenType) (r r' : Round)
      → Keeps r
      → Keeps r'
      → Keeps (elim t [ literal ↦ r | match ↦ r' ])
  by_type-Keeps literal r r' h h' = h
  by_type-Keeps match r r' h h' = h'

  value_round-Keeps :
      (z : ZgfxContext) (out : List ℕ) (e : TokenLutEntry) (value : ℕ) (br : BitReader)
      → Holds z out
      → Keeps (value_round z out e value br)
  unfolding value_round
  value_round-Keeps z out e value br h =
      let sum : ℕ = (e.value_base + value) % 2 ^ 32 in
      let (z', out') = output_literal z (sum % 256) out in
      let raw : Round = raw_round z out br in
      let copy : Round = match_round z out sum (decode_match_count br) in
      by_type-Keeps e.token_type (continue (z', br, out')) (if sum == 0 then raw else copy)
        (Holds-output_literal z out (sum % 256) h)
        (Keeps-if (sum == 0) raw copy (raw_round-Keeps z out br h)
          (match_round-Keeps z out sum (decode_match_count br) h))

  token_round-Keeps :
      (z : ZgfxContext) (out : List ℕ) (e : TokenLutEntry) (br : BitReader)
      → Holds z out
      → Keeps (token_round z out e br)
  unfolding token_round
  token_round-Keeps z out e br h =
      Keeps-if (ltb br.bits_remaining e.value_bits) (break z out)
        (with_value (value_round z out e) (counted_bits br e.value_bits)) h
        (with_value-Keeps (value_round z out e) (counted_bits br e.value_bits)
          (λ n br'. value_round-Keeps z out e n br' h))

  with_token-Keeps :
      (z : ZgfxContext) (out : List ℕ) (o : Outcome (Option (TokenLutEntry × BitReader)))
      → Holds z out
      → Keeps (with_token z out o)
  with_token-Keeps z out (done none) h = h
  with_token-Keeps z out (done (some (e, br))) h = token_round-Keeps z out e br h
  with_token-Keeps z out panic h = tt
  with_token-Keeps z out out_of_fuel h = tt

  round-Keeps :
      (z : ZgfxContext) (br : BitReader) (out : List ℕ) → Holds z out → Keeps (round (z, br, out))
  unfolding round
  round-Keeps z br out h = elim (Bool-cases (has_bits_remaining br)) [
    | inr over ↦ rw over h
    | inl some' ↦ rw some' (with_token-Keeps z out (decode_token br) h)
  ]

  -- What the loop returns.
  abbrev Returns : Outcome (ZgfxContext × List ℕ) → Type 0
  Returns (done (z, out)) = Holds z out
  Returns panic = Unit
  Returns out_of_fuel = Unit

  by_round-Returns :
      (r : Round) (next : State → Outcome (ZgfxContext × List ℕ))
      → Keeps r
      → ((z : ZgfxContext) (br : BitReader) (out : List ℕ)
          → Holds z out
          → Returns (next (z, br, out)))
      → Returns (elim r [
        | continue s' ↦ next s'
        | break z out ↦ done (z, out)
        | panics ↦ panic
        | starved ↦ out_of_fuel
      ])
  by_round-Returns (continue (z, br, out)) next k ih = ih z br out k
  by_round-Returns (break z out) next k ih = k
  by_round-Returns panics next k ih = tt
  by_round-Returns starved next k ih = tt

  decompress_loop-Returns :
      (fuel : ℕ) (z : ZgfxContext) (br : BitReader) (out : List ℕ)
      → Holds z out
      → Returns (decompress_loop fuel (z, br, out))
  unfolding decompress_loop
  decompress_loop-Returns zero z br out h = tt
  decompress_loop-Returns (suc fuel) z br out h =
      by_round-Returns (round (z, br, out)) (decompress_loop fuel) (round-Keeps z br out h)
        (decompress_loop-Returns fuel)

  decompress-Returns :
      (z : ZgfxContext) (bytes : List ℕ) → Holds z [] → Returns (decompress z bytes)
  unfolding decompress
  decompress-Returns z bytes h = elim (lt-or-le (length bytes) 2) [
    | inl short ↦ rw (lt→ltb (length bytes) 2 short) h
    | inr long ↦
        rw (le→ltb_false (length bytes) 2 long)
          (decompress_loop-Returns (length bytes * 8 + 1) z (new_bit_reader_with_count bytes) [] h)
  ]

-- `past` is all that a context, with its index in the ring, has decompressed, of which it holds the last bytes. Whatever the next
-- input is, if `Decompress` returns an output, then the index is still in the ring, and the context
-- holds the last bytes of `past` with the output behind it.
pub decompress-Tracks :
    (past bytes : List ℕ) (z z' : ZgfxContext) (out : List ℕ)
    → IsValid z
    → Tracks zgfx_history_size z.history z.history_idx past
    → decompress z bytes ≡ done (z', out)
    → IsValid z' × Tracks zgfx_history_size z'.history z'.history_idx (past ++ out)
decompress-Tracks past bytes z z' out v t e =
    let held : Holds past z [] = (v, rw append-nil t) in
    rw e at (decompress-Returns past z bytes held)
