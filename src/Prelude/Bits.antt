-- ===== src/Prelude/Bits.antt =====
-- Masks on one byte, checked by evaluation, and the bitwise or of two numbers that share no bit.
use Prim.Native.Nat.{ℕ, zero, suc, ◌+◌, ◌*◌, ◌/◌, ◌%◌, ◌^◌, ◌<◌, ◌≤◌, bit_and, bit_or}
use Prim.Native.Nat.{max, digits, bit_or-bitwise}
use native.Mathlib.Nat.{pow-suc}
use mathlib.Core.Path.{◌≡◌, refl, ap}
use mathlib.Core.Bool.{Bool, true, ◌&&◌}
use native.Mathlib.Omega.{arith}
use clickhouse_rs.Prelude.Tests.{◌==◌}

-- `f` and `g` agree on every number below the bound.
agree : (f g : ℕ → ℕ) → ℕ → Bool
agree f g zero = true
agree f g (suc n) = f n == g n && agree f g n

agree_sound : (f g : ℕ → ℕ) (n : ℕ) → agree f g n ≡ true → (x : ℕ) → x < n → f x ≡ g x
unfolding agree
agree_sound f g zero e x h = absurd (omega arith)
agree_sound f g (suc n) e x h = ground (arith, agree_sound f g n (ground arith) x)

pub low_group : (b : ℕ) → b < 256 → bit_and b 0x7f ≡ b % 128
unfolding agree
low_group = agree_sound _ _ 256 refl

pub set_top : (b : ℕ) → b < 256 → bit_or b 0x80 ≡ b % 128 + 128
unfolding agree
set_top = agree_sound _ _ 256 refl

-- The digit recursion behind the native `bit_or`, on a low field and a field above it.
or_digits : (n s a b : ℕ) → a ≤ n → a < 2 ^ s → digits (λ c. c) max n a (b * 2 ^ s) ≡ a + b * 2 ^ s
or_digits zero s zero b p q = omega arith
or_digits zero s (suc a) b p q = absurd (omega arith)
or_digits (suc n) s zero b p q = omega arith
or_digits (suc n) zero (suc a) b p q = absurd (omega arith)
or_digits (suc n) (suc s) (suc a) b p q =
    let doubled : b * 2 ^ suc s ≡ 2 * (b * 2 ^ s) =
      omega (arith, ap (λ (t : ℕ). b * t) (pow-suc 2 s)) in
    let half : b * 2 ^ suc s / 2 ≡ b * 2 ^ s = omega arith in
    omega (
      arith,
      ap (λ (t : ℕ). digits (λ c. c) max n (suc a / 2) t) half,
      or_digits n s (suc a / 2) b (omega arith) (omega (arith, pow-suc 2 s)),
    )

-- `x | (b << s)` is a sum where `x` fits below the shift.
pub or_shifted : (s x b : ℕ) → x < 2 ^ s → bit_or x (b * 2 ^ s) ≡ x + b * 2 ^ s
or_shifted s x b h = simp bit_or-bitwise (or_digits x s x b (omega arith) h)
