-- ===== src/Pdu/Orders/Blits.antt =====
-- protocol/pdu/orders.go: screen-to-screen blits, each encoded relative to the one before it.
use grdp.Prelude.{
  ℕ, ◌*◌, ◌%◌, ◌^◌, ◌<◌, ◌≡◌, refl, ap, ◌∙◌, List, [], ◌∷◌, Bool, true, false, bit_or, arith, some,
  Option, length,
}
use grdp.Prelude.Bits.{agree_below, agree_below→eq}
use grdp.Io.{read_uint8, read_full}
use grdp.Pdu.Reads.{◌>>=◌, done, when, uint8, has}
use grdp.Pdu.Orders.Primary.{Scrblt, unpack_scrblt}
use grdp.Pdu.Orders.Process.{
  Globals, Primary, scrblt, PrimaryOrder, field_bytes, full_size, present_loop, read_bounds,
  unpack_order, process_primary_order, no_bounds,
}
use grdp.Pdu.Orders.Stream.{OrderPdu, primary, read_order, read_orders}
use grdp.Pdu.Orders.Encoded.{
  coord_bytes, put_if, Follows, FollowsByte, coord_field-put_if, byte_field-put_if,
}

-- One blit as a server encodes it: which fields it sends, whether as changes, and the values meant.
pub record Sent : Type 0 where
  pub present : ℕ
  pub delta : Bool
  pub target : Scrblt

-- The fields on the wire, before the bytes of what follows.
abbrev pub scrblt_fields : ℕ → Bool → Scrblt → Scrblt → List ℕ → List ℕ
scrblt_fields p delta old new rest = put_if (has p 0x01) (coord_bytes delta old.x new.x) (
    put_if (has p 0x02) (coord_bytes delta old.y new.y) (
      put_if (has p 0x04) (coord_bytes delta old.cx new.cx) (
        put_if (has p 0x08) (coord_bytes delta old.cy new.cy) (
          put_if (has p 0x10) (new.opcode ∷ []) (
            put_if (has p 0x20) (coord_bytes delta old.srcx new.srcx)
              (put_if (has p 0x40) (coord_bytes delta old.srcy new.srcy) rest))))))

-- A field that is not sent keeps its value, and a field that is sent fits.
abbrev pub Encodable : ℕ → Bool → Scrblt → Scrblt → Type 0
Encodable p delta old new =
    Follows (has p 0x01) delta old.x new.x
    × Follows (has p 0x02) delta old.y new.y
    × Follows (has p 0x04) delta old.cx new.cx
    × Follows (has p 0x08) delta old.cy new.cy
    × FollowsByte (has p 0x10) old.opcode new.opcode
    × Follows (has p 0x20) delta old.srcx new.srcx
    × Follows (has p 0x40) delta old.srcy new.srcy

pub unpack_scrblt-fields :
    (p : ℕ) (delta : Bool) (old new : Scrblt) (rest : List ℕ)
    → Encodable p delta old new
    → unpack_scrblt p delta old (scrblt_fields p delta old new rest) ≡ (new, rest)
unfolding unpack_scrblt ◌>>=◌ done
unpack_scrblt-fields p delta old new rest (hx, hy, hcx, hcy, ho, hsx, hsy) = rw (
  coord_field-put_if (has p 0x01) delta old.x new.x _ hx,
  coord_field-put_if (has p 0x02) delta old.y new.y _ hy,
  coord_field-put_if (has p 0x04) delta old.cx new.cx _ hcx,
  coord_field-put_if (has p 0x08) delta old.cy new.cy _ hcy,
  byte_field-put_if (has p 0x10) old.opcode new.opcode _ ho,
  coord_field-put_if (has p 0x20) delta old.srcx new.srcx _ hsx,
  coord_field-put_if (has p 0x40) delta old.srcy new.srcy _ hsy,
)

-- The control flags: a standard primary order with its type, as changes or not.
abbrev pub control_of : Bool → ℕ
control_of true = 0x19
control_of false = 0x09

abbrev pub scrblt_bytes : Scrblt → Sent → List ℕ → List ℕ
scrblt_bytes old s rest =
    control_of s.delta ∷ 0x02 ∷ s.present ∷ scrblt_fields s.present s.delta old s.target rest

abbrev pub stream_bytes : Scrblt → List Sent → List ℕ → List ℕ
stream_bytes old [] rest = rest
stream_bytes old (s ∷ ss) rest = scrblt_bytes old s (stream_bytes s.target ss rest)

abbrev pub AllEncodable : Scrblt → List Sent → Type 0
AllEncodable old [] = Unit {0}
AllEncodable old (s ∷ ss) =
    (s.present < 256) × Encodable s.present s.delta old s.target × AllEncodable s.target ss

-- The order that the client is handed for a blit.
abbrev pub order_of : Sent → OrderPdu
order_of s = record {
  control_flags = control_of s.delta;
  order = primary (record { bounds = no_bounds; order = some (scrblt s.target) });
}

-- The package's variables after a blit and after all of them.
abbrev after : Globals → Sent → Globals
after g s = record g { order_type = 2; d = s.target }

abbrev pub last_globals : Globals → List Sent → Globals
last_globals g [] = g
last_globals g (s ∷ ss) = last_globals (after g s) ss

abbrev pub orders_of : List Sent → List OrderPdu
orders_of [] = []
orders_of (s ∷ ss) = order_of s ∷ orders_of ss

or_zero : (p : ℕ) → p < 256 → bit_or 0 p ≡ p
unfolding agree_below
or_zero = agree_below→eq _ _ 256 refl

present_one : (p : ℕ) (rest : List ℕ) → p < 256 → present_loop 1 0 0 (p ∷ rest) ≡ (p, rest)
unfolding present_loop uint8 ◌>>=◌ done read_uint8 read_full
present_one p rest h = let e : p * 2 ^ (0 * 8) % 2 ^ 32 ≡ p = omega arith in rw (e, or_zero p h)

unpack_blit :
    (g : Globals) (p : ℕ) (delta : Bool) (new : Scrblt) (rest : List ℕ)
    → Encodable p delta g.d new
    → unpack_order p delta (record g { order_type = 2 }) (scrblt_fields p delta g.d new rest)
      ≡ ((record g { order_type = 2; d = new }, some (scrblt new)), rest)
unfolding unpack_order ◌>>=◌ done
unpack_blit g p delta new rest h =
    ap (λ (t : Scrblt × List ℕ). ((record g { order_type = 2; d = t.0 }, some (scrblt t.0)), t.1))
      (unpack_scrblt-fields p delta g.d new rest h)

abbrev ordered : (Globals × Option PrimaryOrder) × List ℕ → (Globals × Primary) × List ℕ
ordered t = ((t.0.0, record { bounds = no_bounds; order = t.0.1 }), t.1)

process_blit :
    (g : Globals) (p : ℕ) (delta : Bool) (new : Scrblt) (rest : List ℕ)
    → p < 256
    → Encodable p delta g.d new
    → process_primary_order (control_of delta) g (0x02 ∷ p ∷ scrblt_fields p delta g.d new rest) ≡ (
      (
        record g { order_type = 2; d = new },
        record { bounds = no_bounds; order = some (scrblt new) },
      ),
      rest,
    )
unfolding process_primary_order read_bounds field_bytes full_size uint8 ◌>>=◌ done when read_uint8
    read_full
process_blit g p true new rest h k =
    ap (λ (t : ℕ × List ℕ). ordered (unpack_order t.0 true (record g { order_type = 2 }) t.1))
      (present_one p (scrblt_fields p true g.d new rest) h)
    ∙ ap ordered (unpack_blit g p true new rest k)
process_blit g p false new rest h k =
    ap (λ (t : ℕ × List ℕ). ordered (unpack_order t.0 false (record g { order_type = 2 }) t.1))
      (present_one p (scrblt_fields p false g.d new rest) h)
    ∙ ap ordered (unpack_blit g p false new rest k)

read_blit :
    (g : Globals) (p : ℕ) (delta : Bool) (new : Scrblt) (rest : List ℕ)
    → p < 256
    → Encodable p delta g.d new
    → read_order g (control_of delta ∷ 0x02 ∷ p ∷ scrblt_fields p delta g.d new rest)
      ≡ some (
        record g { order_type = 2; d = new },
        order_of (record { present = p; delta = delta; target = new }),
        rest,
      )
unfolding read_order uint8 read_uint8 read_full
read_blit g p true new rest h k = rw (process_blit g p true new rest h k)
read_blit g p false new rest h k = rw (process_blit g p false new rest h k)

-- The blits of an update, each encoded relative to the one before, are the ones the server meant.
pub read_orders-stream_bytes :
    (g : Globals) (ss : List Sent) (rest : List ℕ)
    → AllEncodable g.d ss
    → read_orders (length ss) g (stream_bytes g.d ss rest)
      ≡ some (last_globals g ss, orders_of ss, rest)
unfolding read_orders
read_orders-stream_bytes g [] rest h = refl
read_orders-stream_bytes g (s ∷ ss) rest (h, k, hs) = rw (
  read_blit g s.present s.delta s.target (stream_bytes s.target ss rest) h k,
  read_orders-stream_bytes (after g s) ss rest hs,
  read_orders,
)
