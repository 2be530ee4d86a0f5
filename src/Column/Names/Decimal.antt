-- ===== src/Column/Names/Decimal.antt =====
-- `parse_decimal` and `parse_low_cardinality` on the names that `to_string` prints.
use clickhouse_rs.Prelude.{
  All-append, ℕ, suc, ◌+◌, ◌-◌, ◌≤◌, ◌≡◌, ◌≢◌, refl, ap, ◌∙◌, arith, leb, ltb, ◌==◌, true, false,
  [], ◌∷◌, ◌++◌, Bytes, length, length-append, some, none, All,
}
use clickhouse_rs.Text.{codes, slice, show, trim, starts_char, split}
use clickhouse_rs.Text.Slices.{All-imp, trim-Solid, slice_middle}
use clickhouse_rs.Text.Numbers.{IsNumeral, show-IsNumeral, parse-show}
use clickhouse_rs.SqlType.{applied, comma}
use clickhouse_rs.SqlType.Names.{IsName, IsName-starts_char}
use clickhouse_rs.Column.Names.{
  parsed, max_u8, NoBits, from_precision, DecimalScan, on_open, scan_decimal, decimal_params,
  decimal_result, decimal_args, parse_decimal, seek_open, seek_close, parse_low_cardinality,
}
use clickhouse_rs.Column.Names.RoundTrip.{between, IsNumeral-starts_char}
use clickhouse_rs.Column.Names.Pairs.{trim-IsName}
use mathlib.Core.List.{append_assoc}

-- A byte that the loop passes by.
abbrev Passed : ℕ → Type 0
Passed c = (c ≢ b'(') × (c ≢ b')')

scan_decimal-Passed :
    (source : Bytes) (i : ℕ) (s rest : Bytes) (d : DecimalScan)
    → All Passed s
    → scan_decimal source i (s ++ rest) d ≡ scan_decimal source (i + length s) rest d
unfolding scan_decimal
scan_decimal-Passed source i [] rest d h = ap (λ n. scan_decimal source n rest d) (omega arith)
scan_decimal-Passed source i (c ∷ s) rest d (hc, hs) =
    let opening : (c == b'(') ≡ false = ground (arith, hc.0) in
    let closing : (c == b')') ≡ false = ground (arith, hc.1) in
    rw (opening, closing, scan_decimal)
      (scan_decimal-Passed source (i + 1) s rest d hs
        ∙ ap (λ n. scan_decimal source n rest d) (omega arith))

numeral-Passed : (s : Bytes) → IsNumeral s → All Passed s
numeral-Passed s h =
    All-imp s (λ c d. (λ e. absurd (omega (arith, d.0)), λ e. absurd (omega (arith, d.0)))) h.all

numeral-trim : (s : Bytes) → IsNumeral s → trim s ≡ s
numeral-trim s h = trim-Solid s (All-imp s (λ c d. omega (arith, d.0)) h.all)

split_none : (c : ℕ) (s : Bytes) → All (λ b. b ≢ c) s → split c s ≡ s ∷ []
split_none c [] h = refl
split_none c (b ∷ s) (hb, hs) =
    let e : (b == c) ≡ false = ground (arith, hb) in rw (split_none c s hs, e)

split-append : (c : ℕ) (s t : Bytes) → All (λ b. b ≢ c) s → split c (s ++ c ∷ t) ≡ s ∷ split c t
split-append c [] t h = let e : (c == c) ≡ true = ground arith in rw e
split-append c (b ∷ s) t (hb, hs) =
    let e : (b == c) ≡ false = ground (arith, hb) in rw (split-append c s t hs, e)

numeral-no_comma : (s : Bytes) → IsNumeral s → All (λ b. b ≢ b',') s
numeral-no_comma s h = All-imp s (λ c d e. absurd (omega (arith, d.0))) h.all

decimal_args-comma :
    (precision scale : ℕ) (nobits : NoBits)
    → from_precision precision ≡ some nobits
    → precision ≤ 18
    → scale ≤ precision
    → decimal_args none (comma (show precision) (show scale)) ≡ some (precision, scale, nobits)
unfolding decimal_args decimal_params decimal_result
decimal_args-comma precision scale nobits hp small hs =
    let np = show-IsNumeral precision in
    let ns = show-IsNumeral scale in
    let second : split b',' (b' ' ∷ show scale) ≡ (b' ' ∷ show scale) ∷ [] =
      split_none b',' (b' ' ∷ show scale) (λ e. absurd (cc), numeral-no_comma _ ns) in
    let fits : ltb precision scale ≡ false = ground arith in
    rw (
      split-append b',' (show precision) (b' ' ∷ show scale) (numeral-no_comma _ np),
      second,
      numeral-trim (show precision) np,
      numeral-trim (show scale) ns,
      parse-show max_u8 precision (omega arith) (omega arith),
      parse-show max_u8 scale (omega arith) (omega arith),
      fits,
      hp,
      decimal_args,
      decimal_result,
    )

from_precision_le :
    (precision : ℕ) (nobits : NoBits) → from_precision precision ≡ some nobits → precision ≤ 18
unfolding from_precision
from_precision_le precision nobits h = ground arith

module _ (precision scale : ℕ) where
  abbrev decimal_name : Bytes
  decimal_name = applied (codes "Decimal") (comma (show precision) (show scale))

  abbrev start_scan : DecimalScan
  start_scan = record { nobits = none; start = none; end = none }

  abbrev found : DecimalScan
  found = record { nobits = none; start = some 7; end = some (length decimal_name - 1) }

  decimal_length : length decimal_name ≡ 8 + (length (comma (show precision) (show scale)) + 1)
  decimal_length = omega (arith, length-append (comma (show precision) (show scale)) (b')' ∷ []))

  args-Passed : All Passed (comma (show precision) (show scale))
  args-Passed =
      All-append Passed (show precision) (b',' ∷ b' ' ∷ show scale)
        (numeral-Passed _ (show-IsNumeral precision))
        (
          (λ e. absurd (cc), λ e. absurd (cc)),
          ((λ e. absurd (cc), λ e. absurd (cc)), numeral-Passed _ (show-IsNumeral scale)),
        )

  scan_decimal-name : scan_decimal decimal_name 0 decimal_name start_scan ≡ some found
  unfolding scan_decimal on_open
  scan_decimal-name =
      scan_decimal-Passed decimal_name 8 (comma (show precision) (show scale)) (b')' ∷ [])
        (record { nobits = none; start = some 7; end = none }) args-Passed
      ∙ ap (λ (n : ℕ). some (record { nobits = none; start = some 7; end = some n }))
          (omega (arith, decimal_length))

  -- A decimal type that `from_precision` knows is read back from its name, with its bits.
  pub parse_decimal-applied :
      (nobits : NoBits)
      → from_precision precision ≡ some nobits
      → scale ≤ precision
      → parse_decimal decimal_name ≡ parsed (precision, scale, nobits)
  unfolding parse_decimal
  parse_decimal-applied nobits hp hs =
      let np = show-IsNumeral precision in
      let ns = show-IsNumeral scale in
      let p_length = ap length np.shape in
      let s_length = ap length ns.shape in
      let total = length-append (show precision) (b',' ∷ b' ' ∷ show scale) in
      let long : ltb (length decimal_name) 12 ≡ false = ground (arith, decimal_length) in
      let begins : starts_char (comma (show precision) (show scale) ++ b')' ∷ []) ≡ true =
        ap starts_char (append_assoc (show precision) _ (b')' ∷ []))
        ∙ IsNumeral-starts_char (show precision) _ np in
      rw (
        long,
        scan_decimal-name,
        between (codes "Decimal") (comma (show precision) (show scale)) 8 (omega arith) begins,
        decimal_args-comma precision scale nobits hp (from_precision_le precision nobits hp) hs,
      )

seek_open_here :
    (fuel : ℕ) (s : Bytes) (lo : ℕ)
    → ltb lo (length s) ≡ true
    → slice lo (lo + 1) s ≡ some (codes "(")
    → seek_open (suc fuel) s lo ≡ some lo
unfolding seek_open
seek_open_here fuel s lo h e = rw (h, e)

seek_close_here :
    (fuel : ℕ) (s : Bytes) (lo hi : ℕ)
    → ltb lo hi ≡ true
    → slice hi (hi + 1) s ≡ some (codes ")")
    → seek_close (suc fuel) s lo hi ≡ some hi
unfolding seek_close
seek_close_here fuel s lo hi h e = rw (h, e)

module _ (inner : Bytes) where
  abbrev low_name : Bytes
  low_name = applied (codes "LowCardinality") inner

  low_length : length low_name ≡ 16 + length inner
  low_length = omega (arith, length-append inner (b')' ∷ []))

  open_at : IsName inner → slice 14 15 low_name ≡ some (codes "(")
  open_at h =
      slice_middle (codes "LowCardinality") (codes "(") (inner ++ b')' ∷ []) 14 15 refl refl refl
        (IsName-starts_char inner _ h)

  close_at : slice (length low_name - 1) (length low_name - 1 + 1) low_name ≡ some (codes ")")
  close_at =
      slice_middle (codes "LowCardinality(" ++ inner) (codes ")") [] _ _
        (omega (arith, low_length, length-append (codes "LowCardinality(") inner))
        (omega (arith, low_length, length-append (codes "LowCardinality(") inner)) refl refl

  -- A type of low cardinality is read back from its name.
  pub parse_low_cardinality-applied : IsName inner → parse_low_cardinality low_name ≡ parsed inner
  unfolding parse_low_cardinality
  parse_low_cardinality-applied h =
      let opened : ltb 14 (length low_name) ≡ true = ground (arith, low_length) in
      let closed : ltb 14 (length low_name - 1) ≡ true = ground (arith, low_length) in
      let apart : leb (length low_name - 1) 14 ≡ false = ground (arith, low_length) in
      rw (
        seek_open_here _ low_name 14 opened (open_at h),
        seek_close_here _ low_name 14 (length low_name - 1) closed close_at,
        apart,
        between (codes "LowCardinality") inner 15 (omega arith) (IsName-starts_char inner _ h),
        trim-IsName inner h,
      )
