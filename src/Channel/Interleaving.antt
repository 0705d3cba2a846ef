-- ===== src/Channel/Interleaving.antt =====
-- One buffer serves every channel: what two channels' chunks do to one another.
use Prim.Native.String.{String}
use grdp.Prelude.{ℕ, ◌≡◌, List, [], ◌∷◌, ◌++◌, some, Bool, true, false, ◌∙◌, ap}
use grdp.Channel.{Channels, lookup, chunk_flag, chunk_pdu, process_all}
use grdp.Channel.Chunks.{
  show, process-chunk_pdu, process_all-quiet, process_all-loud, process_all-nil,
}

-- On two registered channels: where the chunks of a message of two chunks on channel `a` have a first chunk of a message on
-- channel `b` between them, the channel `a` is handed the beginning of the message of `b` in place of
-- its own, and nothing else is handed on.
pub process_all_interleaved :
    (c : Channels) (a b : String) (oa ob ta tb : ℕ) (sa sb : Bool) (a1 a2 b1 : List ℕ)
    → lookup a c.channels ≡ some oa
    → lookup b c.channels ≡ some ob
    → (process_all c (
        (a, chunk_pdu ta (chunk_flag (show sa) true false) a1)
        ∷ (b, chunk_pdu tb (chunk_flag (show sb) true false) b1)
        ∷ (a, chunk_pdu ta (chunk_flag (show sa) false true) a2)
        ∷ [])).1
      ≡ (a, b1 ++ a2) ∷ []
process_all_interleaved c a b oa ob ta tb sa sb a1 a2 b1 ha hb =
    let c1 : Channels = record c { buff = a1 } in
    let c2 : Channels = record c { buff = b1 } in
    let c3 : Channels = record c { buff = b1 ++ a2 } in
    process_all-quiet c c1 a _ _ (process-chunk_pdu c a oa ta sa true false a1 ha)
    ∙ process_all-quiet c1 c2 b _ _ (process-chunk_pdu c1 b ob tb sb true false b1 hb)
    ∙ process_all-loud c2 c3 a _ _ [] (process-chunk_pdu c2 a oa ta sa false true a2 ha)
    ∙ ap (λ r. (a, b1 ++ a2) ∷ r) (process_all-nil c3)
