-- ===== src/Decimal.antt =====
-- src/types/decimal.rs: decimals with a scale, how they are compared, scaled and printed.
pub mod Scaling
pub mod Texts
use clickhouse_rs.Prelude.{
  ℕ, zero, suc, ◌+◌, ◌-◌, ◌*◌, ◌/◌, ◌^◌, ltb, ◌==◌, if◌then◌else◌, Bool, false, List, [], ◌∷◌, ◌++◌,
  Bytes, length, take, drop, get_elem?, Option, some, none,
}
use clickhouse_rs.Prelude.Int.{ℤ, pos, negsuc, to_word, of_word}
use clickhouse_rs.Text.{codes, starts_with, show_signed}
use clickhouse_rs.Column.Concat.{with_elem}
use clickhouse_rs.Column.Names.{NoBits, n64}

-- `FACTORS10`
unfoldable pub factors10 : List ℕ
factors10 =
    1 ∷ 10 ∷ 100 ∷ 1000 ∷ 10000 ∷ 100000 ∷ 1000000 ∷ 10000000 ∷ 100000000 ∷ 1000000000 ∷ 10000000000
    ∷ 100000000000 ∷ 1000000000000 ∷ 10000000000000 ∷ 100000000000000 ∷ 1000000000000000
    ∷ 10000000000000000 ∷ 100000000000000000 ∷ 1000000000000000000 ∷ []

-- A negative number by its size.
abbrev pub minus : ℕ → ℤ
minus zero = pos 0
minus (suc n) = negsuc n

-- The product with a factor, and the quotient, which is cut towards zero.
abbrev pub times : ℕ → ℤ → ℤ
times f (pos n) = pos (n * f)
times f (negsuc n) = minus (suc n * f)

abbrev pub quotient : ℤ → ℕ → ℤ
quotient (pos n) f = pos (n / f)
quotient (negsuc n) f = minus (suc n / f)

abbrev pub int_eq : ℤ → ℤ → Bool
int_eq (pos a) (pos b) = a == b
int_eq (negsuc a) (negsuc b) = a == b
int_eq (pos a) (negsuc b) = false
int_eq (negsuc a) (pos b) = false

-- A product of i64 numbers, which wraps around.
unfoldable pub mul_i64 : ℤ → ℕ → ℤ
mul_i64 z f = of_word (2 ^ 64) (to_word (2 ^ 64) (times f z))

pub record Decimal : Type 0 where
  pub underlying : ℤ
  pub nobits : NoBits
  pub precision : ℕ
  pub scale : ℕ

-- `Decimal::new`; here and below `none` is a panic.
unfoldable pub new_decimal : ℤ → ℕ → Option Decimal
new_decimal underlying scale =
    if ltb 18 scale
    then none
    else some (record { underlying = underlying; nobits = n64; precision = 18; scale = scale })

-- `PartialEq`
unfoldable pub decimal_eq : Decimal → Decimal → Option Bool
unfolding factors10 mul_i64
decimal_eq a b =
    if ltb a.scale b.scale
    then with_elem (get_elem? factors10 (b.scale - a.scale))
        (λ f. some (int_eq b.underlying (mul_i64 a.underlying f)))
    else if a.scale == b.scale
    then some (int_eq a.underlying b.underlying)
    else with_elem (get_elem? factors10 (a.scale - b.scale))
        (λ f. some (int_eq a.underlying (mul_i64 b.underlying f)))

unfoldable pub set_scale : Decimal → ℕ → Option Decimal
unfolding factors10 mul_i64
set_scale d scale =
    if ltb scale d.scale
    then with_elem (get_elem? factors10 (d.scale - scale))
        (λ f. some (record d { underlying = quotient d.underlying f; scale = scale }))
    else if scale == d.scale
    then some d
    else with_elem (get_elem? factors10 (scale - d.scale))
        (λ f. some (record d { underlying = mul_i64 d.underlying f; scale = scale }))

-- The loop of `decimal2str`, which has `scale` rounds at most.
unfoldable pub pad : ℕ → ℕ → Bytes → Bytes
pad zero scale r = r
pad (suc fuel) scale r =
    let more = pad fuel scale (b'0' ∷ r) in if ltb (length r) scale then more else r

-- The insertion of the point, and of a zero in front of it.
unfoldable pub with_point : ℕ → Bytes → Bytes
with_point at r =
    let pointed = take at r ++ (b'.' ∷ drop at r) in
    if starts_with pointed (codes ".") then b'0' ∷ pointed else pointed

unfoldable pub decimal2str : Decimal → Bytes
unfolding pad with_point
decimal2str d =
    let r = pad d.scale d.scale (show_signed d.underlying) in with_point (length r - d.scale) r
