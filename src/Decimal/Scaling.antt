-- ===== src/Decimal/Scaling.antt =====
-- src/types/decimal.rs: a decimal with more digits is the same one.
use clickhouse_rs.Prelude.{
  ℕ, zero, suc, ◌+◌, ◌-◌, ◌*◌, ◌/◌, ◌^◌, ◌<◌, ◌≡◌, refl, ap, ◌∙◌, arith, ltb, ◌==◌, true, false,
  List, [], ◌∷◌, get_elem?, some,
}
use clickhouse_rs.Prelude.Int.{ℤ, pos, negsuc, Fits, of_word-to_word}
use clickhouse_rs.Decimal.{
  factors10, minus, times, quotient, int_eq, mul_i64, Decimal, decimal_eq, set_scale,
}
use native.Mathlib.Nat.{mul-div_cancel, one-le-pow, pow-suc, mul_assoc}

-- The powers of ten from `k` on.
abbrev powers : ℕ → ℕ → List ℕ
powers zero k = []
powers (suc count) k = k ∷ powers count (k * 10)

get_elem?-powers : (count i k : ℕ) → i < count → get_elem? (powers count k) i ≡ some (k * 10 ^ i)
get_elem?-powers zero i k h = absurd (omega arith)
get_elem?-powers (suc count) zero k h = (let e : k ≡ k * 10 ^ 0 = omega arith in ap some e)
get_elem?-powers (suc count) (suc i) k h =
    get_elem?-powers count i (k * 10) (omega arith)
    ∙ ap some (mul_assoc k 10 (10 ^ i) ∙ ap (◌*◌ k) (omega (arith, pow-suc 10 i)))

get_elem?-factors10 : (i : ℕ) → i < 19 → get_elem? factors10 i ≡ some (10 ^ i)
unfolding factors10
get_elem?-factors10 i h =
    get_elem?-powers 19 i 1 h ∙ ap some (let e : 1 * 10 ^ i ≡ 10 ^ i = omega arith in e)

int_eq_refl : (z : ℤ) → int_eq z z ≡ true
int_eq_refl (pos n) = ground arith
int_eq_refl (negsuc n) = ground arith

-- The product that fits, and the quotient of it.
mul_i64-Fits : (z : ℤ) (f : ℕ) → Fits (2 ^ 64) (times f z) → mul_i64 z f ≡ times f z
unfolding mul_i64
mul_i64-Fits z f h = of_word-to_word (2 ^ 64) (times f z) h

quotient-minus : (m f : ℕ) → 0 < m → quotient (minus m) f ≡ minus (m / f)
quotient-minus zero f h = absurd (omega arith)
quotient-minus (suc m) f h = refl

quotient-times : (z : ℤ) (f : ℕ) → 0 < f → quotient (times f z) f ≡ z
quotient-times (pos n) f h = ap pos (mul-div_cancel n h)
quotient-times (negsuc n) f h =
    let positive : 0 < suc n * f = (let e : suc n * f ≡ n * f + f = omega arith in omega arith) in
    quotient-minus (suc n * f) f positive ∙ ap minus (mul-div_cancel (suc n) h)

module _ (d : Decimal) (scale : ℕ) (h : d.scale < scale) (near : scale - d.scale < 19)
    (fits : Fits (2 ^ 64) (times (10 ^ (scale - d.scale)) d.underlying)) where
  abbrev grown : Decimal
  grown = record d { underlying = times (10 ^ (scale - d.scale)) d.underlying; scale = scale }

  less : ltb d.scale scale ≡ true
  less = ground arith

  not_less : ltb scale d.scale ≡ false
  not_less = ground arith

  factor : get_elem? factors10 (scale - d.scale) ≡ some (10 ^ (scale - d.scale))
  factor = get_elem?-factors10 (scale - d.scale) near

  product : mul_i64 d.underlying (10 ^ (scale - d.scale)) ≡ grown.underlying
  product = mul_i64-Fits d.underlying (10 ^ (scale - d.scale)) fits

  set_scale-grown : set_scale d scale ≡ some grown
  unfolding set_scale
  set_scale-grown =
      let other : (scale == d.scale) ≡ false = ground arith in rw (not_less, other, factor, product)

  decimal_eq-grown : decimal_eq d grown ≡ some true
  unfolding decimal_eq
  decimal_eq-grown = rw (less, factor, product, int_eq_refl grown.underlying)

  decimal_eq-back : decimal_eq grown d ≡ some true
  unfolding decimal_eq
  decimal_eq-back =
      let other : (scale == d.scale) ≡ false = ground arith in
      rw (not_less, other, factor, product, int_eq_refl grown.underlying)

  set_scale-back : set_scale grown d.scale ≡ some d
  unfolding set_scale
  set_scale-back =
      let positive : 0 < 10 ^ (scale - d.scale) = one-le-pow (scale - d.scale) 10 (omega arith) in
      rw (less, factor, quotient-times d.underlying (10 ^ (scale - d.scale)) positive)

-- When the scale grows to at most 18 digits more and the number stays an i64, `set_scale` answers a decimal that is
-- equal to the one before, from either side, and taking the digits away again gives back the very same decimal.
pub set_scale-grows :
    (d : Decimal) (scale : ℕ)
    → d.scale < scale
    → scale - d.scale < 19
    → Fits (2 ^ 64) (times (10 ^ (scale - d.scale)) d.underlying)
    → (e : Decimal) × (set_scale d scale ≡ some e)
      × (e.scale ≡ scale)
      × (decimal_eq d e ≡ some true)
      × (decimal_eq e d ≡ some true)
      × (set_scale e d.scale ≡ some d)
set_scale-grows d scale h near fits = (
  grown d scale h near fits,
  set_scale-grown d scale h near fits,
  refl,
  decimal_eq-grown d scale h near fits,
  decimal_eq-back d scale h near fits,
  set_scale-back d scale h near fits,
)
