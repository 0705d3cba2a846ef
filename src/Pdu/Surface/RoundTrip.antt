-- ===== src/Pdu/Surface/RoundTrip.antt =====
-- protocol/pdu/data.go: a plane in the run-length encoding of NSCodec, as an encoder writes it.
use grdp.Prelude.{
  ℕ, zero, suc, ◌+◌, ◌-◌, ◌^◌, ◌≤◌, ◌<◌, ◌≡◌, refl, ap, sym, ◌∙◌, List, [], ◌∷◌, ◌++◌, true, false,
  min, ltb, leb, if◌then◌else◌, length, drop, replicate, arith, Bool-cases, inl, inr, append_assoc,
  append-nil, ◌==◌, length-append, length-drop, take-all, ≢→==_false, ==-refl,
}
use grdp.Io.{write_uint32_le}
use grdp.Pdu.Surface.Nrle.{
  run_length, Nrle, one_byte, one_run, repeated, nrle_loop, nrle_decode_into, copy_last,
}
use grdp.Pdu.Surface.Runs.{splice_at, write_run_lem, length-replicate, drop-drop}

-- A byte on its own, or a run of two or more equal bytes.
pub data Token : Type 0 where
  lit : ℕ → Token
  run : ℕ → ℕ → Token

abbrev pub count : ℕ → List ℕ
count k = if ltb k 257 then (k - 2) ∷ [] else 0xFF ∷ write_uint32_le k

abbrev pub value_of : Token → ℕ
value_of (lit v) = v
value_of (run v k) = v

abbrev pub encode : List Token → List ℕ → List ℕ
encode [] rest = rest
encode (lit v ∷ ts) rest = v ∷ encode ts rest
encode (run v k ∷ ts) rest = v ∷ v ∷ (count k ++ encode ts rest)

abbrev pub expand : List Token → List ℕ
expand [] = []
expand (lit v ∷ ts) = v ∷ expand ts
expand (run v k ∷ ts) = replicate k v ++ expand ts

-- A byte on its own differs from the byte that follows, unless it is the last before the raw bytes.
abbrev pub Differs : ℕ → List Token → Type 0
Differs v [] = Unit {0}
Differs v (t ∷ ts) = v ≡ value_of t → ⊥

abbrev pub IsEncoding : List Token → Type 0
IsEncoding [] = Unit {0}
IsEncoding (lit v ∷ ts) = Differs v ts × IsEncoding ts
IsEncoding (run v k ∷ ts) = (2 ≤ k) × (k < 2 ^ 32) × IsEncoding ts

run_length-count :
    (k : ℕ) (rest : List ℕ) → 2 ≤ k → k < 2 ^ 32 → run_length (count k ++ rest) ≡ (k, rest)
unfolding run_length write_uint32_le
run_length-count k rest h l = elim (Bool-cases (ltb k 257)) [
  | inl e ↦
      let small : ltb (k - 2) 0xFF ≡ true = ground arith in
      rw (e, small) (ap (λ m. (m, rest)) (omega arith))
  | inr e ↦
      let four : leb 4 (length (write_uint32_le k ++ rest)) ≡ true = ground arith in
      rw (e, four) (ap (λ m. (m, rest)) (omega arith))
]

-- The loop's state with what is done and what is still to be written over.
abbrev state : List ℕ → List ℕ → Nrle
state done tail = record { left = length tail; out_pos = length done; output = done ++ tail }

abbrev nrle_of : ℕ → ℕ → List ℕ → Nrle
nrle_of l p o = record { left = l; out_pos = p; output = o }

same_state :
    (l p : ℕ) (o done tail : List ℕ)
    → l ≡ length tail
    → p ≡ length done
    → o ≡ done ++ tail
    → nrle_of l p o ≡ state done tail
same_state l p o done tail e f g =
    ap (λ t. nrle_of t p o) e
    ∙ ap (λ t. nrle_of (length tail) t o) f
    ∙ ap (nrle_of (length tail) (length done)) g

one_byte-state :
    (v : ℕ) (done tail : List ℕ)
    → one_byte v (state done tail) ≡ state (done ++ (v ∷ [])) (drop 1 tail)
unfolding one_byte
one_byte-state v done tail =
    same_state _ _ _ (done ++ (v ∷ [])) (drop 1 tail) (omega (arith, length-drop 1 tail))
      (omega (arith, length-append done (v ∷ []))) (splice_at done tail (v ∷ []))

one_run-state :
    (v k : ℕ) (done tail : List ℕ)
    → 0 < k
    → k ≤ length tail
    → one_run v k (state done tail) ≡ state (done ++ replicate k v) (drop k tail)
unfolding one_run
one_run-state v k done tail h l =
    let m : min k (length tail) ≡ k = omega arith in
    let n : min k (length (done ++ tail) - length done) ≡ k =
      omega (arith, length-append done tail) in
    rw (m, n)
      (same_state _ _ _ (done ++ replicate k v) (drop k tail) (omega (arith, length-drop k tail))
        (omega (arith, length-append done (replicate k v), length-replicate k v))
        (write_run_lem done tail v k h l ∙ sym (append_assoc done (replicate k v) (drop k tail))))

-- What the loop leaves: the tokens are written, and the raw bytes still stand in the input.
abbrev Leaves : ℕ → List Token → List ℕ → List ℕ → List ℕ → Type 0
Leaves fuel ts last done tail =
    nrle_loop fuel (encode ts last) (state done tail)
    ≡ (state (done ++ expand ts) (drop (length (expand ts)) tail), last)

Leaves-after :
    (fuel : ℕ) (ts : List Token) (last bytes done tail : List ℕ)
    → Leaves fuel ts last (done ++ bytes) (drop (length bytes) tail)
    → nrle_loop fuel (encode ts last) (state (done ++ bytes) (drop (length bytes) tail))
      ≡ (state (done ++ (bytes ++ expand ts)) (drop (length (bytes ++ expand ts)) tail), last)
Leaves-after fuel ts last bytes done tail h =
    h
    ∙ ap (λ t. (state (done ++ bytes ++ expand ts) t, last))
        (drop-drop (length (expand ts)) (length bytes) tail)
    ∙ ap (λ n. (state (done ++ bytes ++ expand ts) (drop n tail), last))
        (sym (length-append bytes (expand ts)))
    ∙ ap
        (λ o. (
          record {
            left = length (drop (length (bytes ++ expand ts)) tail);
            out_pos = length o;
            output = o ++ drop (length (bytes ++ expand ts)) tail;
          },
          last,
        ))
        (append_assoc done bytes (expand ts))

not_repeated :
    (v : ℕ) (t : Token) (ts : List Token) (last : List ℕ)
    → (v ≡ value_of t → ⊥)
    → repeated v (encode (t ∷ ts) last) ≡ false
unfolding repeated
not_repeated v (lit w) ts last h = ≢→==_false v w h
not_repeated v (run w k) ts last h = ≢→==_false v w h

expands : (t : Token) (ts : List Token) → IsEncoding (t ∷ ts) → 1 ≤ length (expand (t ∷ ts))
expands (lit v) ts h = omega arith
expands (run v k) ts (h, l, e) =
    omega (arith, length-append (replicate k v) (expand ts), length-replicate k v)

one_lit :
    (fuel v : ℕ) (ts : List Token) (last done tail : List ℕ)
    → Differs v ts
    → IsEncoding ts
    → length tail ≡ suc (length (expand ts)) + 4
    → nrle_loop (suc fuel) (v ∷ encode ts last) (state done tail)
      ≡ nrle_loop fuel (encode ts last) (state (done ++ (v ∷ [])) (drop 1 tail))
unfolding nrle_loop
one_lit fuel v [] last done tail h k l =
    let more : ltb 4 (length tail) ≡ true = ground arith in
    let five : (length tail == 5) ≡ true = ground arith in
    rw (more, five, one_byte-state v done tail)
one_lit fuel v (t ∷ ts) last done tail h k l =
    let n = expands t ts k in
    let more : ltb 4 (length tail) ≡ true = ground arith in
    let five : (length tail == 5) ≡ false = ground arith in
    rw (more, five, not_repeated v t ts last h, one_byte-state v done tail)

one_run_on :
    (fuel v k : ℕ) (rest done tail : List ℕ)
    → 2 ≤ k
    → k < 2 ^ 32
    → k + 4 ≤ length tail
    → nrle_loop (suc fuel) (v ∷ v ∷ (count k ++ rest)) (state done tail)
      ≡ nrle_loop fuel rest (state (done ++ replicate k v) (drop k tail))
unfolding nrle_loop repeated
one_run_on fuel v k rest done tail h l m =
    let more : ltb 4 (length tail) ≡ true = ground arith in
    let five : (length tail == 5) ≡ false = ground arith in
    rw (
      more,
      five,
      ==-refl v,
      run_length-count k rest h l,
      one_run-state v k done tail (omega arith) (omega arith),
    )

nrle_loop-Leaves :
    (ts : List Token) (fuel : ℕ) (last done tail : List ℕ)
    → IsEncoding ts
    → length last ≡ 4
    → length tail ≡ length (expand ts) + 4
    → length (encode ts last) ≤ fuel
    → Leaves fuel ts last done tail
unfolding nrle_loop
nrle_loop-Leaves [] zero last done tail h k l m = absurd (omega arith)
nrle_loop-Leaves [] (suc fuel) [] done tail h k l m = absurd (omega arith)
nrle_loop-Leaves [] (suc fuel) (b ∷ last) done tail h k l m =
    let four : ltb 4 (length tail) ≡ false = ground arith in rw (four, append-nil done)
nrle_loop-Leaves (lit v ∷ ts) zero last done tail h k l m = absurd (omega arith)
nrle_loop-Leaves (lit v ∷ ts) (suc fuel) last done tail (d, h) k l m =
    one_lit fuel v ts last done tail d h l
    ∙ Leaves-after fuel ts last (v ∷ []) done tail (
        nrle_loop-Leaves ts fuel last (done ++ (v ∷ [])) (drop 1 tail) h k
          (omega (arith, length-drop 1 tail)) (omega arith))
nrle_loop-Leaves (run v k ∷ ts) zero last done tail h e l m = absurd (omega arith)
nrle_loop-Leaves (run v k ∷ ts) (suc fuel) last done tail (g, u, h) e l m =
    let n = length-replicate k v in
    let both = length-append (replicate k v) (expand ts) in
    one_run_on fuel v k (encode ts last) done tail g u (omega (arith, n, both))
    ∙ ap (λ i. nrle_loop fuel (encode ts last) (state (done ++ replicate k v) (drop i tail)))
        (sym n)
    ∙ Leaves-after fuel ts last (replicate k v) done tail (
        nrle_loop-Leaves ts fuel last (done ++ replicate k v) (drop (length (replicate k v)) tail) h
          e (omega (arith, n, both, length-drop (length (replicate k v)) tail))
          (omega (arith, length-append (count k) (encode ts last))))

none_left : (n : ℕ) (xs : List ℕ) → length xs ≤ n → drop n xs ≡ []
none_left zero [] h = refl
none_left zero (x ∷ xs) h = absurd (omega arith)
none_left (suc n) [] h = refl
none_left (suc n) (x ∷ xs) h = none_left n xs (omega arith)

copy_last-state :
    (done tail last : List ℕ)
    → length tail ≡ 4
    → length last ≡ 4
    → copy_last (state done tail) last ≡ done ++ last
unfolding copy_last
copy_last-state done tail last h k =
    let some_left : leb 4 (length tail) ≡ true = ground arith in
    let four : leb 4 (length last) ≡ true = ground arith in
    rw (
      some_left,
      four,
      take-all 4 last (omega arith),
      splice_at done tail last,
      none_left (length last) tail (omega arith),
      append-nil (done ++ last),
    )

-- A plane that an encoder wrote as tokens and four raw bytes is decoded to their bytes, whatever the
-- output buffer held.
pub nrle_decode_into-encode :
    (ts : List Token) (last output : List ℕ)
    → IsEncoding ts
    → length last ≡ 4
    → length output ≡ length (expand ts) + 4
    → nrle_decode_into (encode ts last) output ≡ expand ts ++ last
unfolding nrle_decode_into
nrle_decode_into-encode ts last output h k l =
    ap (λ (t : Nrle × List ℕ). copy_last t.0 t.1)
      (nrle_loop-Leaves ts (length (encode ts last)) last [] output h k l (omega arith))
    ∙ copy_last-state (expand ts) (drop (length (expand ts)) output) last
        (omega (arith, length-drop (length (expand ts)) output)) k
