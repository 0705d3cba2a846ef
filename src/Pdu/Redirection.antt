-- ===== src/Pdu/Redirection.antt =====
-- protocol/pdu/data.go: the server redirection PDU, whose reads all check their error.
pub mod RoundTrip
use grdp.Prelude.{ℕ, List, [], ◌∷◌, Option, none, some, Bool, true, false, ◌==◌}
use grdp.Io.{Read, read_bytes, read_uint16_le, read_uint32_le}
use grdp.Pdu.Reads.{has}

-- `if v, err := …; err != nil { return nil, … }`: the value and the rest, or `none` for an error.
abbrev pub Checked : Type 0 → Type 0
Checked A = List ℕ → Option (A × List ℕ)

module _ {A B : Type 0} where
  abbrev pub continue_with : Option (A × List ℕ) → (A → Checked B) → Option (B × List ℕ)
  continue_with none f = none
  continue_with (some (a, r)) f = f a r

  infixl 10 ◌>>=◌
  unfoldable pub ◌>>=◌ : Checked A → (A → Checked B) → Checked B
  (m >>= f) r = continue_with (m r) f

abbrev pub succeed : {A : Type 0} → A → Checked A
succeed a r = some (a, r)

abbrev pub checked : {A : Type 0} → Read A → Option (A × List ℕ)
checked (a, none, r) = some (a, r)
checked (a, some e, r) = none

unfoldable pub word : Checked ℕ
word r = checked (read_uint16_le r)

unfoldable pub long : Checked ℕ
long r = checked (read_uint32_le r)

unfoldable pub bytes_of : ℕ → Checked (List ℕ)
bytes_of n r = checked (read_bytes n r)

abbrev pub lb_target_net_address : ℕ
lb_target_net_address = 0x00000001

abbrev pub lb_load_balance_info : ℕ
lb_load_balance_info = 0x00000002

pub record ServerRedirectionPdu : Type 0 where
  pub flags : ℕ
  pub length : ℕ
  pub session_id : ℕ
  pub redir_flags : ℕ
  pub load_balance_info : List ℕ

-- A field with its 32-bit length, if its flag is set.
unfoldable pub field_if : Bool → Checked (List ℕ)
unfolding ◌>>=◌ long bytes_of
field_if false = succeed []
field_if true = long >>= (λ len. bytes_of len)

-- The pad comes first; the target address is skipped.
unfoldable pub read_server_redirection_pdu : Checked ServerRedirectionPdu
unfolding ◌>>=◌ word long field_if
read_server_redirection_pdu = do
  _ ← word
  flags ← word
  length ← word
  session_id ← long
  redir_flags ← long
  _ ← field_if (has redir_flags lb_target_net_address)
  info ← field_if (has redir_flags lb_load_balance_info)
  succeed (record {
    flags = flags;
    length = length;
    session_id = session_id;
    redir_flags = redir_flags;
    load_balance_info = info;
  })
