-- ===== src/Zgfx/Token/Lookup.antt =====
-- The lookup table against a search of the token table.
use grdp.Prelude.{
  ℕ, ◌+◌, ◌-◌, ◌/◌, ◌^◌, ◌<◌, ◌≡◌, refl, List, [], ◌∷◌, Bool, true, false, ◌==◌, ltb, leb,
  if◌then◌else◌, ◌&&◌, ◌||◌, arith, Option, none, some,
}
use grdp.Prelude.Bits.{all_below, all_below_sound}
use grdp.Zgfx.Token.{
  TokenType, literal, match, ZgfxToken, TokenLutEntry, zgfx_token_table, zgfx_token_lut,
}

-- The first token whose prefix is the beginning of the window of nine bits.
unfoldable pub find_token : List ZgfxToken → ℕ → Option ZgfxToken
find_token [] w = none
find_token (t ∷ ts) w =
    if (w / 2 ^ (9 - t.prefix_len)) == t.prefix_code then some t else find_token ts w

-- What the lookup table says of a window for which the search found that token.
abbrev pub as_entry : Option ZgfxToken → TokenLutEntry
as_entry none = record { prefix_len = 0; value_bits = 0; token_type = literal; value_base = 0 }
as_entry (some t) = record {
  prefix_len = t.prefix_len;
  value_bits = t.value_bits;
  token_type = t.token_type;
  value_base = t.value_base;
}

same_type : TokenType → TokenType → Bool
same_type literal literal = true
same_type match match = true
same_type literal match = false
same_type match literal = false

same_entry : TokenLutEntry → TokenLutEntry → Bool
unfolding same_type
same_entry a b =
    (a.prefix_len == b.prefix_len)
    && ((a.value_bits == b.value_bits)
        && ((a.value_base == b.value_base) && same_type a.token_type b.token_type))

same_entry→eq : (a b : TokenLutEntry) → same_entry a b ≡ true → a ≡ b
unfolding same_entry
same_entry→eq a b h = ground arith

-- How many tokens a window begins with.
unfoldable pub matches : List ZgfxToken → ℕ → ℕ
matches [] w = 0
matches (t ∷ ts) w =
    let rest = matches ts w in
    if (w / 2 ^ (9 - t.prefix_len)) == t.prefix_code then rest + 1 else rest

-- The windows that begin with no token.
abbrev pub unassigned : ℕ → Bool
unassigned w = (leb 256 w && ltb w 272) || (w == 383)

window_test : ℕ → Bool
window_test w =
    same_entry (zgfx_token_lut w) (as_entry (find_token zgfx_token_table w))
    && (matches zgfx_token_table w == (if unassigned w then 0 else 1))

windows : all_below 512 window_test ≡ true
unfolding all_below window_test zgfx_token_lut zgfx_token_table find_token same_entry matches
windows = refl

-- For each window of nine bits, the lookup table that `init` builds holds what a search of the token
-- table finds; the table is prefix-free, since exactly one token fits the window, but for
-- the windows 256 to 271 and 383, which no token fits.
pub zgfx_token_lut-find_token :
    (w : ℕ)
    → w < 512
    → (zgfx_token_lut w ≡ as_entry (find_token zgfx_token_table w))
      × (matches zgfx_token_table w ≡ (if unassigned w then 0 else 1))
zgfx_token_lut-find_token w h =
    let test : window_test w ≡ true = all_below_sound 512 window_test w windows h in
    (
      same_entry→eq _ _ (unfold window_test in ground (arith, test)),
      unfold window_test in ground (arith, test),
    )
