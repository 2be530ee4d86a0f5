-- ===== src/Prelude/Int.antt =====
-- Signed integers over the native numbers, and their two's complement words.
use Prim.Native.Nat.{ℕ, ◌-◌, ◌+◌, ◌%◌, ◌<◌}
use native.Mathlib.Nat.{mod-eq_of_lt}
use mathlib.Core.Path.{◌≡◌}
use native.Mathlib.Omega.{arith}
use clickhouse_rs.Prelude.Tests.{ltb, if◌then◌else◌}

-- `negsuc n` is -(n + 1).
pub data ℤ : Type 0 where
  pos : ℕ → ℤ
  negsuc : ℕ → ℤ

-- The word below `m` that stands for an integer, and back: `m` is 2 ^ width.
abbrev pub to_word : ℕ → ℤ → ℕ
to_word m (pos n) = n % m
to_word m (negsuc n) = m - 1 - n % m

abbrev pub of_word : ℕ → ℕ → ℤ
of_word m x = if ltb (x + x) m then pos x else negsuc (m - 1 - x)

-- The integers from -m/2 to m/2 - 1.
abbrev pub Fits : ℕ → ℤ → Type 0
Fits m (pos n) = n + n < m
Fits m (negsuc n) = n + n + 1 < m

pub to_word-lt : (m : ℕ) (z : ℤ) → 0 < m → to_word m z < m
to_word-lt m (pos n) h = grind arith
to_word-lt m (negsuc n) h = grind arith

pub of_word-to_word : (m : ℕ) (z : ℤ) → Fits m z → of_word m (to_word m z) ≡ z
of_word-to_word m (pos n) h = rw (mod-eq_of_lt {n = n} {m = m} (omega arith)) (ground arith)
of_word-to_word m (negsuc n) h = rw (mod-eq_of_lt {n = n} {m = m} (omega arith)) (ground arith)
