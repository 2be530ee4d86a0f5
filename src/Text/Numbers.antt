-- ===== src/Text/Numbers.antt =====
-- The text of a number is digits, and is parsed back.
use clickhouse_rs.Prelude.{
  ℕ, zero, suc, ◌+◌, ◌/◌, ◌%◌, ◌^◌, ◌≤◌, ◌<◌, ◌≡◌, refl, ◌∙◌, arith, ltb, ◌==◌, false, [], ◌∷◌,
  Bytes, some, All, Bool-cases, inl, inr,
}
use clickhouse_rs.Text.{digits, show, scan, parse}
use native.Mathlib.Nat.{pow-suc}
use mathlib.Core.Path.{subst}

abbrev pub IsDigit : ℕ → Type 0
IsDigit c = (b'0' ≤ c) × (c ≤ b'9')

-- One digit at least, and nothing but digits.
pub record IsNumeral (s : Bytes) : Type 0 where
  pub first : ℕ
  pub more : Bytes
  pub shape : s ≡ first ∷ more
  pub all : All IsDigit s

abbrev pub cons_digit : (c : ℕ) (out : Bytes) → IsDigit c → All IsDigit out → IsNumeral (c ∷ out)
cons_digit c out hc h = record { first = c; more = out; shape = refl; all = (hc, h) }

digits-IsNumeral : (fuel n : ℕ) (out : Bytes) → IsNumeral out → IsNumeral (digits fuel n out)
unfolding digits
digits-IsNumeral zero n out h = h
digits-IsNumeral (suc fuel) n out h =
    let more =
      digits-IsNumeral fuel (n / 10) ((b'0' + n % 10) ∷ out)
        (cons_digit (b'0' + n % 10) out (omega arith, omega arith) h.all) in
    elim (Bool-cases (ltb n 10)) [
      | inl e ↦
          (let small : n < 10 = ground arith in
            rw e (cons_digit (b'0' + n) out (omega arith, omega arith) h.all))
      | inr e ↦ rw e more
    ]

scan_last :
    (max n : ℕ) (out : Bytes) → n ≤ max → scan max (n / 10) ((b'0' + n % 10) ∷ out) ≡ scan max n out
unfolding scan
scan_last max n out h = ground arith

pub scan-digits :
    (max fuel n : ℕ) (out : Bytes)
    → n ≤ max
    → n < 10 ^ fuel
    → scan max 0 (digits fuel n out) ≡ scan max n out
unfolding digits
scan-digits max zero n out h k = let e : n ≡ 0 = omega arith in rw e
scan-digits max (suc fuel) n out h k = grind (
  arith,
  pow-suc 10 fuel,
  scan_last max n out h,
  scan-digits max fuel (n / 10) ((b'0' + n % 10) ∷ out),
)

pub show-IsNumeral : (n : ℕ) → IsNumeral (show n)
unfolding show digits
show-IsNumeral n = elim (Bool-cases (ltb n 10)) [
  | inl e ↦
      (let small : n < 10 = ground arith in
        rw e (cons_digit (b'0' + n) [] (omega arith, omega arith) tt))
  | inr e ↦ rw e (
      digits-IsNumeral 19 (n / 10) ((b'0' + n % 10) ∷ [])
        (cons_digit (b'0' + n % 10) [] (omega arith, omega arith) tt))
]

pub parse-IsNumeral : (max : ℕ) (s : Bytes) → IsNumeral s → parse max s ≡ scan max 0 s
unfolding parse
parse-IsNumeral max s h =
    let (d, ds) = subst (All IsDigit) h.shape h.all in
    let sign : (h.first == b'+') ≡ false = ground arith in rw (h.shape, sign)

-- A number of at most twenty digits that its type can hold is parsed back from its text.
pub parse-show : (max n : ℕ) → n ≤ max → n < 10 ^ 20 → parse max (show n) ≡ some n
unfolding show scan
parse-show max n h k = parse-IsNumeral max (show n) (show-IsNumeral n) ∙ scan-digits max 20 n [] h k
