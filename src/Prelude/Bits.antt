-- ===== src/Prelude/Bits.antt =====
-- Masks on one byte as arithmetic; each is a table of at most 256 entries, checked by evaluation.
use Prim.Native.Nat.{ℕ, zero, ◌+◌, suc, ◌-◌, ◌*◌, ◌/◌, ◌%◌, ◌<◌, bit_and, bit_or}
use mathlib.Core.Path.{◌≡◌, refl}
use mathlib.Core.Bool.{Bool, true, false, ◌&&◌}
use mathlib.Core.Logic.{ite}
use native.Mathlib.Decide.{ℕ_discrete}
use native.Mathlib.Omega.{arith}

-- Go's `a &^ m`.
abbrev pub bit_clear : ℕ → ℕ → ℕ
bit_clear a m = a - bit_and a m

module _ (f g : ℕ → ℕ) where
  unfoldable pub agree_below : ℕ → Bool
  unfolding ℕ_discrete
  agree_below zero = true
  agree_below (suc n) = ite (ℕ_discrete (f n) (g n)) (agree_below n) false

  pub agree_below→eq : (n : ℕ) → agree_below n ≡ true → (i : ℕ) → i < n → f i ≡ g i
  unfolding agree_below
  agree_below→eq zero e i h = absurd (omega arith)
  agree_below→eq (suc n) e i h = ground (arith, agree_below→eq n (ground arith) i)

pub top_bit : (b : ℕ) → b < 256 → bit_and b 0x80 ≡ b / 128 * 128
unfolding agree_below
top_bit = agree_below→eq _ _ 256 refl

pub low_seven : (b : ℕ) → b < 256 → bit_and b 0x7f ≡ b % 128
unfolding agree_below
low_seven = agree_below→eq _ _ 256 refl

pub low_nibble : (b : ℕ) → b < 256 → bit_and b 0x0f ≡ b % 16
unfolding agree_below
low_nibble = agree_below→eq _ _ 256 refl

pub low_five : (b : ℕ) → b < 256 → bit_and 0x1f b ≡ b % 32
unfolding agree_below
low_five = agree_below→eq _ _ 256 refl

pub set_top_bit : (n : ℕ) → n < 32768 → bit_or n 0x8000 ≡ n + 32768
unfolding agree_below
set_top_bit = agree_below→eq _ _ 32768 refl

pub low_two : (b : ℕ) → b < 256 → bit_and b 0x3 ≡ b % 4
unfolding agree_below
low_two = agree_below→eq _ _ 256 refl

-- Over a small range, every value checked by evaluation.
unfoldable pub all_below : ℕ → (ℕ → Bool) → Bool
all_below zero p = true
all_below (suc n) p = p n && all_below n p

pub all_below_sound : (n : ℕ) (p : ℕ → Bool) (x : ℕ) → all_below n p ≡ true → x < n → p x ≡ true
unfolding all_below
all_below_sound zero p x h k = absurd (omega arith)
all_below_sound (suc n) p x h k = ground (arith, all_below_sound n p x)
