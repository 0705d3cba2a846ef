-- ===== src/Zgfx/Token.antt =====
-- plugin/rdpgfx/zgfx.go: the fixed Huffman table, and the lookup table that `init` builds from it.
pub mod Lookup
use grdp.Prelude.{
  ℕ, zero, suc, ◌+◌, ◌-◌, ◌*◌, ◌/◌, ◌^◌, bit_or, List, [], ◌∷◌, Bool, true, false, ◌==◌,
  if◌then◌else◌,
}

pub data TokenType : Type 0 where
  literal match : TokenType

pub record ZgfxToken : Type 0 where
  pub prefix_len : ℕ
  pub prefix_code : ℕ
  pub value_bits : ℕ
  pub token_type : TokenType
  pub value_base : ℕ

-- `prefix_len` 0 means that no token fits.
pub record TokenLutEntry : Type 0 where
  pub prefix_len : ℕ
  pub value_bits : ℕ
  pub token_type : TokenType
  pub value_base : ℕ

abbrev entry : ℕ → ℕ → ℕ → TokenType → ℕ → ZgfxToken
entry len code bits type base = record {
  prefix_len = len;
  prefix_code = code;
  value_bits = bits;
  token_type = type;
  value_base = base;
}

unfoldable pub zgfx_token_table : List ZgfxToken
zgfx_token_table =
    entry 1 0 8 literal 0
    ∷ entry 5 17 5 match 0
    ∷ entry 5 18 7 match 32
    ∷ entry 5 19 9 match 160
    ∷ entry 5 20 10 match 672
    ∷ entry 5 21 12 match 1696
    ∷ entry 5 24 0 literal 0x00
    ∷ entry 5 25 0 literal 0x01
    ∷ entry 6 44 14 match 5792
    ∷ entry 6 45 15 match 22176
    ∷ entry 6 52 0 literal 0x02
    ∷ entry 6 53 0 literal 0x03
    ∷ entry 6 54 0 literal 0xFF
    ∷ entry 7 92 18 match 54944
    ∷ entry 7 93 20 match 317088
    ∷ entry 7 110 0 literal 0x04
    ∷ entry 7 111 0 literal 0x05
    ∷ entry 7 112 0 literal 0x06
    ∷ entry 7 113 0 literal 0x07
    ∷ entry 7 114 0 literal 0x08
    ∷ entry 7 115 0 literal 0x09
    ∷ entry 7 116 0 literal 0x0A
    ∷ entry 7 117 0 literal 0x0B
    ∷ entry 7 118 0 literal 0x3A
    ∷ entry 7 119 0 literal 0x3B
    ∷ entry 7 120 0 literal 0x3C
    ∷ entry 7 121 0 literal 0x3D
    ∷ entry 7 122 0 literal 0x3E
    ∷ entry 7 123 0 literal 0x3F
    ∷ entry 7 124 0 literal 0x40
    ∷ entry 7 125 0 literal 0x80
    ∷ entry 8 188 20 match 1365664
    ∷ entry 8 189 21 match 2414240
    ∷ entry 8 252 0 literal 0x0C
    ∷ entry 8 253 0 literal 0x38
    ∷ entry 8 254 0 literal 0x39
    ∷ entry 8 255 0 literal 0x66
    ∷ entry 9 380 22 match 4511392
    ∷ entry 9 381 23 match 8705696
    ∷ entry 9 382 24 match 17094304
    ∷ []

abbrev pub Lut : Type 0
Lut = ℕ → TokenLutEntry

unfoldable pub empty_lut : Lut
empty_lut i = record { prefix_len = 0; value_bits = 0; token_type = literal; value_base = 0 }

-- `if zgfxTokenLut[idx].prefixLen == 0 { zgfxTokenLut[idx] = … }`
unfoldable pub fill_entry : ZgfxToken → ℕ → Lut → Lut
fill_entry t idx lut i =
    if i == idx
    then (if (lut i).prefix_len == 0
        then record {
          prefix_len = t.prefix_len;
          value_bits = t.value_bits;
          token_type = t.token_type;
          value_base = t.value_base;
        }
        else lut i)
    else lut i

-- `for j := range span`, from `j` on, with `rounds` left.
unfoldable pub fill_span : ZgfxToken → ℕ → ℕ → ℕ → Lut → Lut
fill_span t base zero j lut = lut
fill_span t base (suc rounds) j lut =
    fill_span t base rounds (j + 1) (fill_entry t (bit_or base j) lut)

unfoldable pub fill_table : List ZgfxToken → Lut → Lut
unfolding fill_span fill_entry
fill_table [] lut = lut
fill_table (t ∷ ts) lut =
    let shift = 9 - t.prefix_len in
    fill_table ts (fill_span t (t.prefix_code * 2 ^ shift) (2 ^ shift) 0 lut)

unfoldable pub zgfx_token_lut : Lut
unfolding fill_table zgfx_token_table empty_lut
zgfx_token_lut = fill_table zgfx_token_table empty_lut
