-- ===== src/Pdu/Redirection/RoundTrip.antt =====
-- protocol/pdu/data.go: a server redirection PDU as a server writes it.
use grdp.Prelude.{
  ℕ, ◌<◌, ◌^◌, ◌≡◌, refl, ap, sym, ◌∙◌, List, [], ◌++◌, some, Bool, true, false, length,
}
use grdp.Io.{write_uint16_le, write_uint32_le, read_bytes}
use grdp.Io.Laws.{read_uint16_le-write, read_uint32_le-write, read_full-append}
use grdp.Pdu.Reads.{has}
use grdp.Pdu.Redirection.{
  checked, ServerRedirectionPdu, continue_with, ◌>>=◌, word, long, bytes_of, field_if,
  read_server_redirection_pdu, lb_target_net_address, lb_load_balance_info,
}

-- A field behind its length, if its flag is set, before the bytes of what follows.
abbrev pub put_field : Bool → List ℕ → List ℕ → List ℕ
put_field false bs rest = rest
put_field true bs rest = write_uint32_le (length bs) ++ (bs ++ rest)

-- A field that is not sent is empty.
abbrev pub IsField : Bool → List ℕ → Type 0
IsField false bs = bs ≡ []
IsField true bs = length bs < 2 ^ 32

abbrev pub redirection_bytes : ℕ → List ℕ → ServerRedirectionPdu → List ℕ → List ℕ
redirection_bytes pad target p rest =
    write_uint16_le pad
    ++ (write_uint16_le p.flags
        ++ (write_uint16_le p.length
            ++ (write_uint32_le p.session_id
                ++ (write_uint32_le p.redir_flags
                    ++ put_field (has p.redir_flags lb_target_net_address) target (
                        put_field (has p.redir_flags lb_load_balance_info) p.load_balance_info
                          rest)))))

word_back : (n : ℕ) (rest : List ℕ) → n < 65536 → word (write_uint16_le n ++ rest) ≡ some (n, rest)
unfolding word
word_back n rest h = rw (read_uint16_le-write n rest h, word) refl

long_back :
    (n : ℕ) (rest : List ℕ) → n < 4294967296 → long (write_uint32_le n ++ rest) ≡ some (n, rest)
unfolding long
long_back n rest h = rw (read_uint32_le-write n rest h, long) refl

field_back :
    (b : Bool) (bs rest : List ℕ)
    → IsField b bs
    → field_if b (put_field b bs rest) ≡ some (bs, rest)
unfolding field_if ◌>>=◌ bytes_of read_bytes
field_back false bs rest h = ap (λ (t : List ℕ). some (t, rest)) (sym h)
field_back true bs rest h =
    ap (λ t. continue_with t bytes_of) (long_back (length bs) (bs ++ rest) h)
    ∙ ap checked (read_full-append bs rest)

-- The fields are numbers of their widths, and a field that is not announced is empty.
abbrev pub IsRedirection : ℕ → List ℕ → ServerRedirectionPdu → Type 0
IsRedirection pad target p =
    (pad < 65536)
    × (p.flags < 65536)
    × (p.length < 65536)
    × (p.session_id < 4294967296)
    × (p.redir_flags < 4294967296)
    × IsField (has p.redir_flags lb_target_net_address) target
    × IsField (has p.redir_flags lb_load_balance_info) p.load_balance_info

-- A redirection is read back as the server wrote it, its routing token with it, whether or not the
-- target address stands before the token.
pub read_server_redirection_pdu-bytes :
    (pad : ℕ) (target : List ℕ) (p : ServerRedirectionPdu) (rest : List ℕ)
    → IsRedirection pad target p
    → read_server_redirection_pdu (redirection_bytes pad target p rest) ≡ some (p, rest)
unfolding read_server_redirection_pdu ◌>>=◌
read_server_redirection_pdu-bytes pad target p rest (h0, h1, h2, h3, h4, h5, h6) =
    let t6 = put_field (has p.redir_flags lb_load_balance_info) p.load_balance_info rest in
    let t5 = put_field (has p.redir_flags lb_target_net_address) target t6 in
    let t4 = write_uint32_le p.redir_flags ++ t5 in
    let t3 = write_uint32_le p.session_id ++ t4 in
    let t2 = write_uint16_le p.length ++ t3 in
    rw (
      word_back pad (write_uint16_le p.flags ++ t2) h0,
      word_back p.flags t2 h1,
      word_back p.length t3 h2,
      long_back p.session_id t4 h3,
      long_back p.redir_flags t5 h4,
      field_back (has p.redir_flags lb_target_net_address) target t6 h5,
      field_back (has p.redir_flags lb_load_balance_info) p.load_balance_info rest h6,
    )
