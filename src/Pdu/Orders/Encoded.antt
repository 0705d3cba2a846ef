-- ===== src/Pdu/Orders/Encoded.antt =====
-- protocol/pdu/orders.go: order fields as a server writes them, and what the reads make of them.
use grdp.Prelude.{
  ℕ, ◌+◌, ◌-◌, ◌*◌, ◌/◌, ◌%◌, ◌^◌, ◌≤◌, ◌<◌, ◌≡◌, refl, ap, List, [], ◌∷◌, ◌++◌, Bool, true, false,
  bit_or, if◌then◌else◌, ◌⊎◌, inl, inr, arith, ltb, ◌∙◌,
}
use grdp.Prelude.Bits.{agree_below, agree_below→eq}
use grdp.Io.{read_uint8, read_uint16_le, read_full}
use grdp.Pdu.Reads.{◌>>=◌, done, when, uint8, uint16, has, sign8, sign16}
use grdp.Pdu.Orders.Fields.{read_order_coord, parse_delta, delta_start}

-- A coordinate on the wire: its low 16 bits, or the low 8 bits of the change.
abbrev pub coord_bytes : Bool → ℕ → ℕ → List ℕ
coord_bytes true old new = ((new + 2 ^ 32 - old) % 256) ∷ []
coord_bytes false old new = (new % 256) ∷ (new / 256 % 256) ∷ []

-- The coordinate can be written so: as a signed 16-bit number, or as a signed 8-bit change.
abbrev pub Fits : Bool → ℕ → ℕ → Type 0
Fits true old new =
    (new < 2 ^ 32)
    × (old < 2 ^ 32)
    × (((new + 2 ^ 32 - old) % 2 ^ 32 < 128) ⊎ (2 ^ 32 - 128 ≤ (new + 2 ^ 32 - old) % 2 ^ 32))
Fits false old new = (new < 2 ^ 32) × ((new < 32768) ⊎ (2 ^ 32 - 32768 ≤ new))

pub read_order_coord-coord_bytes :
    (delta : Bool) (old new : ℕ) (rest : List ℕ)
    → Fits delta old new
    → read_order_coord delta old (coord_bytes delta old new ++ rest) ≡ (new, rest)
unfolding read_order_coord uint8 uint16 sign8 sign16 ◌>>=◌ done read_uint8 read_uint16_le read_full
read_order_coord-coord_bytes true old new rest (h, k, inl l) =
    ap (λ (v : ℕ). (v, rest)) (ground arith)
read_order_coord-coord_bytes true old new rest (h, k, inr l) =
    ap (λ (v : ℕ). (v, rest)) (ground arith)
read_order_coord-coord_bytes false old new rest (h, inl l) =
    ap (λ (v : ℕ). (v, rest)) (ground arith)
read_order_coord-coord_bytes false old new rest (h, inr l) =
    ap (λ (v : ℕ). (v, rest)) (ground arith)

-- A field is written only if its flag is set.
abbrev pub put_if : Bool → List ℕ → List ℕ → List ℕ
put_if true bs rest = bs ++ rest
put_if false bs rest = rest

-- A field that is not written keeps its value.
abbrev pub Follows : Bool → Bool → ℕ → ℕ → Type 0
Follows true delta old new = Fits delta old new
Follows false delta old new = old ≡ new

pub coord_field-put_if :
    (b delta : Bool) (old new : ℕ) (rest : List ℕ)
    → Follows b delta old new
    → when b old (read_order_coord delta old) (put_if b (coord_bytes delta old new) rest)
      ≡ (new, rest)
unfolding when done
coord_field-put_if true delta old new rest h = read_order_coord-coord_bytes delta old new rest h
coord_field-put_if false delta old new rest h = ap (λ (v : ℕ). (v, rest)) h

abbrev pub FollowsByte : Bool → ℕ → ℕ → Type 0
FollowsByte true old new = Unit {0}
FollowsByte false old new = old ≡ new

pub byte_field-put_if :
    (b : Bool) (old new : ℕ) (rest : List ℕ)
    → FollowsByte b old new
    → when b old uint8 (put_if b (new ∷ []) rest) ≡ (new, rest)
unfolding when done uint8 read_uint8 read_full
byte_field-put_if true old new rest h = refl
byte_field-put_if false old new rest h = ap (λ (v : ℕ). (v, rest)) h

-- A change of a polygon's point: seven bits, or fifteen in two bytes, the top bit of the first saying which.
abbrev pub delta_bytes : Bool → ℕ → List ℕ
delta_bytes false v = (v % 128) ∷ []
delta_bytes true v = (128 + v / 256 % 128) ∷ (v % 256) ∷ []

-- The change is a signed 7-bit or 15-bit number.
abbrev pub FitsDelta : Bool → ℕ → Type 0
FitsDelta false v = (v < 64) ⊎ ((2 ^ 32 - 64 ≤ v) × (v < 2 ^ 32))
FitsDelta true v = (v < 16384) ⊎ ((2 ^ 32 - 16384 ≤ v) × (v < 2 ^ 32))

abbrev seven_bits : ℕ → ℕ
seven_bits b = if ltb (b % 128) 64 then b % 128 else b % 128 + (2 ^ 32 - 128)

delta_start_eq : (b : ℕ) → b < 256 → delta_start b ≡ seven_bits b
unfolding agree_below delta_start
delta_start_eq = agree_below→eq _ _ 256 refl

abbrev bit_number : Bool → ℕ
bit_number true = 1
bit_number false = 0

has_top : (b : ℕ) → b < 256 → bit_number (has b 0x80) ≡ b / 128
unfolding agree_below
has_top = agree_below→eq _ _ 256 refl

low_byte_table :
    (n : ℕ)
    → n < 65536
    → bit_or (seven_bits (n / 256) * 2 ^ 8 % 2 ^ 32) (n % 256)
      ≡ seven_bits (n / 256) * 2 ^ 8 % 2 ^ 32 + n % 256
unfolding agree_below
low_byte_table = agree_below→eq _ _ 65536 refl

long_delta :
    (b low : ℕ)
    → b < 256
    → low < 256
    → bit_or (delta_start b * 2 ^ 8 % 2 ^ 32) low ≡ seven_bits b * 2 ^ 8 % 2 ^ 32 + low
long_delta b low h k =
    let hi : (b * 256 + low) / 256 ≡ b = omega arith in
    let lo : (b * 256 + low) % 256 ≡ low = omega arith in
    let e = low_byte_table (b * 256 + low) (omega arith) in
    rw (delta_start_eq b h) (rw (hi, lo) at e)

parse_short : (b : ℕ) (rest : List ℕ) → b < 128 → parse_delta (b ∷ rest) ≡ (seven_bits b, rest)
unfolding parse_delta uint8 ◌>>=◌ when done read_uint8 read_full
parse_short b rest h =
    let t : has b 0x80 ≡ false = ground (arith, has_top b (omega arith)) in
    rw (t, delta_start_eq b (omega arith))

parse_long :
    (b low : ℕ) (rest : List ℕ)
    → 128 ≤ b
    → b < 256
    → low < 256
    → parse_delta (b ∷ low ∷ rest) ≡ (seven_bits b * 2 ^ 8 % 2 ^ 32 + low, rest)
unfolding parse_delta uint8 ◌>>=◌ when done read_uint8 read_full
parse_long b low rest h k l =
    let t : has b 0x80 ≡ true = ground (arith, has_top b k) in rw (t, long_delta b low k l)

-- The delta of a polygon's point is read back as it was written, in one byte or in two.
pub parse_delta-delta_bytes :
    (long : Bool) (v : ℕ) (rest : List ℕ)
    → FitsDelta long v
    → parse_delta (delta_bytes long v ++ rest) ≡ (v, rest)
parse_delta-delta_bytes false v rest h =
    let e : seven_bits (v % 128) ≡ v = ground arith in
    parse_short (v % 128) rest (omega arith) ∙ ap (λ (k : ℕ). (k, rest)) e
parse_delta-delta_bytes true v rest h =
    let e : seven_bits (128 + v / 256 % 128) * 2 ^ 8 % 2 ^ 32 + v % 256 ≡ v = ground arith in
    parse_long (128 + v / 256 % 128) (v % 256) rest (omega arith) (omega arith) (omega arith)
    ∙ ap (λ (k : ℕ). (k, rest)) e
