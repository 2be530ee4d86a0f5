-- ===== src/Decimal/Texts.antt =====
-- src/types/decimal.rs: the text of a decimal.
use clickhouse_rs.Prelude.{
  ℕ, zero, suc, ◌+◌, ◌-◌, ◌^◌, ◌≤◌, ◌<◌, ◌≡◌, refl, sym, ap, ◌∙◌, arith, ltb, ◌==◌, false,
  Bool-cases, inl, inr, [], ◌∷◌, ◌++◌, Bytes, length, take, drop, replicate, some, All,
  length-append, length-replicate, length-drop,
}
use clickhouse_rs.Prelude.Int.{pos}
use clickhouse_rs.Text.{show, show_signed, scan, parse}
use clickhouse_rs.Text.Numbers.{
  IsDigit, IsNumeral, cons_digit, show-IsNumeral, parse-IsNumeral, parse-show,
}
use clickhouse_rs.Decimal.{Decimal, pad, with_point, decimal2str}

replicate_snoc : (k c : ℕ) (s : Bytes) → replicate k c ++ c ∷ s ≡ c ∷ (replicate k c ++ s)
replicate_snoc zero c s = refl
replicate_snoc (suc k) c s = ap (◌∷◌ c) (replicate_snoc k c s)

-- Zeros in front, so that there are as many characters as the scale says.
pad-zeros :
    (fuel scale : ℕ) (r : Bytes)
    → scale ≤ fuel + length r
    → (k : ℕ) × (pad fuel scale r ≡ replicate k b'0' ++ r) × (scale ≤ k + length r)
unfolding pad
pad-zeros zero scale r h = (0, refl, omega arith)
pad-zeros (suc fuel) scale r h = elim (Bool-cases (ltb (length r) scale)) [
  | inl e ↦
      let (k, shape, enough) = pad-zeros fuel scale (b'0' ∷ r) (omega arith) in
      rw e (suc k, shape ∙ replicate_snoc k b'0' r, omega arith)
  | inr e ↦ let done : scale ≤ length r = ground arith in rw e (0, refl, omega arith)
]

zeros-IsNumeral : (k : ℕ) (s : Bytes) → IsNumeral s → IsNumeral (replicate k b'0' ++ s)
zeros-IsNumeral zero s h = h
zeros-IsNumeral (suc k) s h =
    cons_digit b'0' (replicate k b'0' ++ s) (omega arith, omega arith) (zeros-IsNumeral k s h).all

scan-zeros : (max k : ℕ) (s : Bytes) → scan max 0 (replicate k b'0' ++ s) ≡ scan max 0 s
unfolding scan
scan-zeros max zero s = refl
scan-zeros max (suc k) s =
    let room : ltb max 0 ≡ false = ground arith in rw (room, scan-zeros max k s)

parse-zeros :
    (max k : ℕ) (s : Bytes) → IsNumeral s → parse max (replicate k b'0' ++ s) ≡ parse max s
parse-zeros max k s h =
    parse-IsNumeral max (replicate k b'0' ++ s) (zeros-IsNumeral k s h)
    ∙ scan-zeros max k s
    ∙ sym (parse-IsNumeral max s h)

take-drop : (n : ℕ) (s : Bytes) → take n s ++ drop n s ≡ s
take-drop zero s = refl
take-drop (suc n) [] = refl
take-drop (suc n) (c ∷ s) = ap (◌∷◌ c) (take-drop n s)

-- A text with a point: the characters in front of it, and those behind it.
pub record Pointed (text before after : Bytes) : Type 0 where
  pub shape : text ≡ before ++ b'.' ∷ after
  pub nonempty : 0 < length before

-- Digits with the point at a place inside of them: the front has a zero of its own where it would be empty.
with_point-cases :
    (at : ℕ) (r : Bytes)
    → at ≤ length r
    → All IsDigit r
    → (k : ℕ) × (before : Bytes) × Pointed (with_point at r) before (drop at r)
      × (before ++ drop at r ≡ replicate k b'0' ++ r)
unfolding with_point
with_point-cases zero r h digits =
    (1, b'0' ∷ [], record { shape = refl; nonempty = omega arith }, refl)
with_point-cases (suc at) [] h digits = absurd (omega arith)
with_point-cases (suc at) (c ∷ r) h digits =
    let digit = digits.0 in
    let other : (c == b'.') ≡ false = ground arith in
    rw other (
      0,
      c ∷ take at r,
      record { shape = refl; nonempty = omega arith },
      ap (◌∷◌ c) (take-drop at r),
    )

-- The text of a decimal that is not negative has as many digits behind its point as the scale says and one at least
-- in front of it; all of them without the point are parsed as the decimal's number.
pub decimal2str-parse :
    (d : Decimal) (n : ℕ)
    → d.underlying ≡ pos n
    → n < 2 ^ 63
    → (before after : Bytes) × Pointed (decimal2str d) before after
      × (length after ≡ d.scale)
      × (parse (2 ^ 63 - 1) (before ++ after) ≡ some n)
unfolding decimal2str show_signed
decimal2str-parse d n sign small =
    let (k, shape, enough) = pad-zeros d.scale d.scale (show n) (omega arith) in
    let padded : Bytes = replicate k b'0' ++ show n in
    let size : length padded ≡ k + length (show n) =
      omega (arith, length-append (replicate k b'0') (show n), length-replicate {A = ℕ} k b'0') in
    let numeral = zeros-IsNumeral k (show n) (show-IsNumeral n) in
    let (j, before, pointed, zeros) =
      with_point-cases (length padded - d.scale) padded (omega arith) numeral.all in
    let after : Bytes = drop (length padded - d.scale) padded in
    rw (sign, shape)
      (
        before,
        after,
        pointed,
        omega (arith, length-drop (length padded - d.scale) padded, size, enough),
        ap (parse (2 ^ 63 - 1)) zeros
            ∙ parse-zeros (2 ^ 63 - 1) j padded numeral
            ∙ parse-zeros (2 ^ 63 - 1) k (show n) (show-IsNumeral n)
            ∙ parse-show (2 ^ 63 - 1) n (omega arith) (omega arith),
      )
