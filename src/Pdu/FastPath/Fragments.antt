-- ===== src/Pdu/FastPath/Fragments.antt =====
-- protocol/pdu/pdu.go: messages that come in fragments are handled as whole messages.
use grdp.Prelude.{
  ℕ, zero, suc, ◌*◌, ◌≤◌, ◌<◌, ◌≡◌, refl, ap, ◌∙◌, List, [], ◌∷◌, ◌++◌, length, Option, none, some,
  arith, All, length-append,
}
use grdp.Mppc.{MppcDecompressor}
use grdp.Pdu.FastPath.{
  Client, Struc, unpacked, handle, round, updates, recv_fast_path, then_on, and_then, Handled,
  collect,
}
use grdp.Pdu.FastPath.Wire.{
  update_bytes, Message, tail_bytes, pieces_bytes, stream_of, joined, buff_after, IsPiece,
  IsMessage, header_of, update_back,
}

unpacked_zero : (m : Option MppcDecompressor) (bytes : List ℕ) → unpacked 0 m bytes ≡ (m, bytes)
unfolding unpacked
unpacked_zero none bytes = refl
unpacked_zero (some d) bytes = refl

module _ (struc : Struc) (rfx : Option (List ℕ → ℕ → ℕ → Option (List ℕ)))
    (pool : ℕ → ℕ → List ℕ) where
  -- Each message is handled whole; the buffer is left as its last fragments made it.
  abbrev pub deliver : Client → List Message → Handled struc rfx pool
  deliver c [] = some (c, [])
  deliver c (m ∷ ms) =
      then_on struc rfx pool
        (handle struc rfx pool (record c { buff = buff_after c m.first m.more }) m.code
          (joined m.first m.more))
        (λ c'. deliver c' ms)

  and_then-nil : (h : Handled struc rfx pool) → and_then struc rfx pool [] h ≡ h
  and_then-nil none = refl
  and_then-nil (some (c, es)) = refl

  then_on_same :
      (h : Handled struc rfx pool) (f g : Client → Handled struc rfx pool)
      → ((c : Client) → f c ≡ g c)
      → then_on struc rfx pool h f ≡ then_on struc rfx pool h g
  then_on_same none f g e = refl
  then_on_same (some (c, es)) f g e = ap (and_then struc rfx pool es) (e c)

  step :
      (fuel : ℕ) (c : Client) (code k : ℕ) (p rest : List ℕ)
      → code < 16
      → k < 4
      → IsPiece p
      → updates struc rfx pool (suc fuel) c (update_bytes code (k * 16) p rest)
        ≡ then_on struc rfx pool
            (round struc rfx pool c (header_of code (k * 16)) p)
            (λ c'. updates struc rfx pool fuel c' rest)
  unfolding updates
  step fuel c code k p rest hc hk hp = rw (update_back code k p rest hc hk hp, updates)

  round_last :
      (c : Client) (code : ℕ) (p : List ℕ)
      → round struc rfx pool c (header_of code 16) p
        ≡ handle struc rfx pool (record c { buff = c.buff ++ p }) code (c.buff ++ p)
  unfolding round collect
  round_last c code p =
      ap
        (λ (t : Option MppcDecompressor × List ℕ).
          handle struc rfx pool (record c { buff = c.buff ++ p; mppc = t.0 }) code t.1)
        (unpacked_zero c.mppc (c.buff ++ p))

  round_single :
      (c : Client) (code : ℕ) (p : List ℕ)
      → round struc rfx pool c (header_of code 0) p ≡ handle struc rfx pool c code p
  unfolding round collect
  round_single c code p =
      ap
        (λ (t : Option MppcDecompressor × List ℕ).
          handle struc rfx pool (record c { mppc = t.0 }) code t.1)
        (unpacked_zero c.mppc p)

  module _ (rest : List ℕ) (next : Client → Handled struc rfx pool)
      (goes_on : (f : ℕ) (c : Client)
        → length rest ≤ f
        → updates struc rfx pool f c rest ≡ next c) where
    ends :
        (fuel : ℕ) (c c' : Client) (code k : ℕ) (p whole : List ℕ)
        → code < 16
        → k < 4
        → IsPiece p
        → length (update_bytes code (k * 16) p rest) ≤ fuel
        → round struc rfx pool c (header_of code (k * 16)) p ≡ handle struc rfx pool c' code whole
        → updates struc rfx pool fuel c (update_bytes code (k * 16) p rest)
          ≡ then_on struc rfx pool (handle struc rfx pool c' code whole) next
    ends zero c c' code k p whole hc hk hp l e = absurd (omega arith)
    ends (suc fuel) c c' code k p whole hc hk hp l e =
        step fuel c code k p rest hc hk hp
        ∙ ap (λ h. then_on struc rfx pool h (λ d. updates struc rfx pool fuel d rest)) e
        ∙ then_on_same (handle struc rfx pool c' code whole) _ next
            (λ d. goes_on fuel d (omega (arith, length-append p rest)))

    goes_to :
        (fuel : ℕ) (c c' : Client) (code k : ℕ) (p more : List ℕ) (result : Handled struc rfx pool)
        → code < 16
        → k < 4
        → IsPiece p
        → length (update_bytes code (k * 16) p more) ≤ fuel
        → round struc rfx pool c (header_of code (k * 16)) p ≡ some (c', [])
        → ((f : ℕ) → length more ≤ f → updates struc rfx pool f c' more ≡ result)
        → updates struc rfx pool fuel c (update_bytes code (k * 16) p more) ≡ result
    goes_to zero c c' code k p more result hc hk hp l e h = absurd (omega arith)
    goes_to (suc fuel) c c' code k p more result hc hk hp l e h =
        step fuel c code k p more hc hk hp
        ∙ ap (λ t. then_on struc rfx pool t (λ d. updates struc rfx pool fuel d more)) e
        ∙ and_then-nil (updates struc rfx pool fuel c' more)
        ∙ h fuel (omega (arith, length-append p more))

    tail_joined :
        (ps : List (List ℕ)) (fuel : ℕ) (c : Client) (code : ℕ) (p : List ℕ)
        → code < 16
        → IsPiece p
        → All IsPiece ps
        → length (tail_bytes code p ps rest) ≤ fuel
        → updates struc rfx pool fuel c (tail_bytes code p ps rest)
          ≡ then_on struc rfx pool
              (handle struc rfx pool
                (record c { buff = joined (c.buff ++ p) ps })
                code
                (joined (c.buff ++ p) ps))
              next
    unfolding round collect
    tail_joined [] fuel c code p hc hp hs l =
        ends fuel c (record c { buff = c.buff ++ p }) code 1 p (c.buff ++ p) hc (omega arith) hp l
          (round_last c code p)
    tail_joined (q ∷ ps) fuel c code p hc hp (hq, hs) l =
        goes_to fuel c (record c { buff = c.buff ++ p }) code 3 p (tail_bytes code q ps rest) _ hc
          (omega arith) hp l refl
          (λ f k. tail_joined ps f (record c { buff = c.buff ++ p }) code q hc hq hs k)

    pieces_joined :
        (ps : List (List ℕ)) (fuel : ℕ) (c : Client) (code : ℕ) (p : List ℕ)
        → code < 16
        → IsPiece p
        → All IsPiece ps
        → length (pieces_bytes code p ps rest) ≤ fuel
        → updates struc rfx pool fuel c (pieces_bytes code p ps rest)
          ≡ then_on struc rfx pool
              (handle struc rfx pool (record c { buff = buff_after c p ps }) code (joined p ps))
              next
    unfolding round collect
    pieces_joined [] fuel c code p hc hp hs l =
        ends fuel c c code 0 p p hc (omega arith) hp l (round_single c code p)
    pieces_joined (q ∷ ps) fuel c code p hc hp (hq, hs) l =
        goes_to fuel c (record c { buff = p }) code 2 p (tail_bytes code q ps rest) _ hc
          (omega arith) hp l refl
          (λ f k. tail_joined ps f (record c { buff = p }) code q hc hq hs k)

  stream_delivered :
      (ms : List Message) (fuel : ℕ) (c : Client)
      → All IsMessage ms
      → length (stream_of ms) ≤ fuel
      → updates struc rfx pool fuel c (stream_of ms) ≡ deliver c ms
  unfolding updates
  stream_delivered [] zero c h l = refl
  stream_delivered [] (suc fuel) c h l = refl
  stream_delivered (m ∷ ms) fuel c ((hc, hp, hs), h) l =
      pieces_joined (stream_of ms) (λ d. deliver d ms) (λ f d k. stream_delivered ms f d h k) m.more
        fuel c m.code m.first hc hp hs l

  -- A stream of uncompressed messages, each whole or cut into a first, any number of next and a last
  -- fragment, is handled message by message, with the pieces of each put together.
  pub recv_fast_path-deliver :
      (ms : List Message) (c : Client)
      → All IsMessage ms
      → recv_fast_path struc rfx pool c (stream_of ms) ≡ deliver c ms
  unfolding recv_fast_path
  recv_fast_path-deliver ms c h = stream_delivered ms (length (stream_of ms)) c h (omega arith)
