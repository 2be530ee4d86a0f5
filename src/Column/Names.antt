-- ===== src/Column/Names.antt =====
-- src/types/column/factory.rs: the parsers of type names that are written by hand.
pub mod RoundTrip
pub mod Pairs
pub mod Decimal
use clickhouse_rs.Prelude.{
  ℕ, zero, suc, ◌+◌, ◌-◌, ◌^◌, ltb, leb, ◌==◌, ◌&&◌, ◌||◌, not, if◌then◌else◌, Bool, List, [], ◌∷◌,
  Bytes, length, take, Option, some, none,
}
use clickhouse_rs.SqlType.{SimpleAggFunc, func_from_str}
use clickhouse_rs.Text.{
  codes, bytes_eq, starts_with, ends_with_char, slice, trim, trim_matches, find, position, split,
  parse,
}

-- The result of a parser of the source, an `Option`, or a panic.
pub data Parsed {ℓ} (A : Type ℓ) : Type ℓ where
  panicked rejected : Parsed A
  parsed : A → Parsed A

abbrev pub of_option {ℓ} : {A : Type ℓ} → Option A → Parsed A
of_option none = rejected
of_option (some a) = parsed a

-- A slice of a text, which can panic.
abbrev pub sliced {ℓ κ} : {A : Type ℓ} {B : Type κ} → Option A → (A → Parsed B) → Parsed B
sliced none f = panicked
sliced (some a) f = f a

-- The operator `?` on an `Option`.
abbrev pub question {ℓ κ} : {A : Type ℓ} {B : Type κ} → Option A → (A → Parsed B) → Parsed B
question none f = rejected
question (some a) f = f a

abbrev pub max_usize : ℕ
max_usize = 2 ^ 64 - 1

abbrev pub max_u8 : ℕ
max_u8 = 255

unfoldable pub parse_fixed_string : Bytes → Parsed ℕ
parse_fixed_string source =
    if starts_with source (codes "FixedString")
    then sliced (slice 12 (length source - 1) source)
        (λ inner_size. of_option (parse max_usize inner_size))
    else rejected

unfoldable pub parse_nullable_type : Bytes → Parsed Bytes
parse_nullable_type source =
    if starts_with source (codes "Nullable")
    then sliced (slice 9 (length source - 1) source) (λ inner_type.
      if starts_with inner_type (codes "Nullable") then rejected else parsed inner_type)
    else rejected

unfoldable pub parse_array_type : Bytes → Parsed Bytes
parse_array_type source =
    if starts_with source (codes "Array")
    then sliced (slice 6 (length source - 1) source) parsed
    else rejected

-- `comma_pos` counts characters, and is used as a number of bytes.
unfoldable pub parse_map_type : Bytes → Parsed (Bytes × Bytes)
parse_map_type source =
    if starts_with source (codes "Map")
    then sliced (slice 4 (length source - 1) source) (λ body.
      question (position b',' body) (λ comma_pos. sliced (slice 0 comma_pos body) (λ key.
        sliced (slice (comma_pos + 1) (length body) body)
          (λ value. parsed (trim key, trim value)))))
    else rejected

abbrev pub is_parenthesis : ℕ → Bool
is_parenthesis c = c == b'(' || c == b')'

unfoldable pub parse_simple_agg_fun : Bytes → Parsed (SimpleAggFunc × Bytes)
parse_simple_agg_fun source =
    if starts_with source (codes "SimpleAggregateFunction(") && ends_with_char source b')'
    then sliced (slice 23 (length source) source) (λ tail.
      let args = trim_matches is_parenthesis tail in
      question (find b',' args) (λ sep_index. sliced (slice 0 sep_index args) (λ agg_func.
        sliced (slice (sep_index + 1) (length args) args) (λ agg_type.
          question (func_from_str (trim agg_func)) (λ func. parsed (func, trim agg_type))))))
    else rejected

-- src/types/decimal.rs
pub data NoBits : Type 0 where
  n32 n64 : NoBits

unfoldable pub from_precision : ℕ → Option NoBits
from_precision precision =
    if leb precision 9 then some n32 else if leb precision 18 then some n64 else none

-- What the loop over the bytes of a decimal's name keeps.
pub record DecimalScan : Type 0 where
  pub nobits : Option NoBits
  pub start : Option ℕ
  pub end : Option ℕ

-- An opening parenthesis, with the name in front of it.
unfoldable pub on_open : Bytes → ℕ → DecimalScan → Option DecimalScan
on_open before idx d =
    if bytes_eq before (codes "Decimal")
    then some (record d { start = some idx })
    else if bytes_eq before (codes "Decimal32")
    then some (record d { nobits = some n32; start = some idx })
    else if bytes_eq before (codes "Decimal64")
    then some (record d { nobits = some n64; start = some idx })
    else none

abbrev pub on_close : ℕ → ℕ → DecimalScan → DecimalScan
on_close byte idx d = if byte == b')' then record d { end = some idx } else d

-- The loop; `none` is its early return.
unfoldable pub scan_decimal : Bytes → ℕ → Bytes → DecimalScan → Option DecimalScan
unfolding on_open
scan_decimal source idx [] d = some d
scan_decimal source idx (byte ∷ bytes) d =
    elim (if byte == b'(' then on_open (take idx source) idx d else some d) [
      | none ↦ none
      | some d' ↦ scan_decimal source (idx + 1) bytes (on_close byte idx d')
    ]

-- The loop over the parameters: precision and scale, and no third; `none` is its early return.
unfoldable pub decimal_params : List Bytes → Option (Option ℕ × Option ℕ)
decimal_params [] = some (none, none)
decimal_params (p ∷ []) = some (parse max_u8 (trim p), none)
decimal_params (p ∷ s ∷ []) = some (parse max_u8 (trim p), parse max_u8 (trim s))
decimal_params (p ∷ s ∷ q ∷ more) = none

abbrev pub bits_precision : NoBits → ℕ
bits_precision n32 = 9
bits_precision n64 = 18

-- The last `match` of `parse_decimal`.
unfoldable pub decimal_result : Option ℕ → Option ℕ → Option NoBits → Option (ℕ × ℕ × NoBits)
unfolding from_precision
decimal_result (some precision) (some scale) none =
    if ltb precision scale
    then none
    else elim (from_precision precision) [ none ↦ none | some b ↦ some (precision, scale, b) ]
decimal_result none (some scale) (some b) = some (bits_precision b, scale, b)
decimal_result (some precision) (some scale) (some b) = none
decimal_result (some precision) none b = none
decimal_result none none b = none
decimal_result none (some scale) none = none

-- The parameters between the parentheses, by the bits that the name gives.
unfoldable pub decimal_args : Option NoBits → Bytes → Option (ℕ × ℕ × NoBits)
unfolding decimal_params decimal_result
decimal_args (some b) args = decimal_result none (parse max_u8 args) (some b)
decimal_args none args = elim (decimal_params (split b',' args)) [
  | none ↦ none
  | some p ↦ decimal_result p.0 p.1 none
]

unfoldable pub parse_decimal : Bytes → Parsed (ℕ × ℕ × NoBits)
unfolding scan_decimal decimal_args
parse_decimal source =
    if ltb (length source) 12
    then rejected
    else if not (starts_with source (codes "Decimal"))
    then rejected
    else question
        (scan_decimal source 0 source (record { nobits = none; start = none; end = none }))
        (λ d. question d.start (λ start. question d.end (λ end.
          sliced (slice (start + 1) end source) (λ args. of_option (decimal_args d.nobits args)))))

-- The two loops of `parse_low_cardinality`; `none` is a panic of a slice, or the end of the fuel.
unfoldable pub seek_open : ℕ → Bytes → ℕ → Option ℕ
seek_open zero source lo = none
seek_open (suc fuel) source lo =
    let next = seek_open fuel source (lo + 1) in
    if ltb lo (length source)
    then elim (slice lo (lo + 1) source) [
      | none ↦ none
      | some c ↦ if bytes_eq c (codes "(") then some lo else next
    ]
    else some lo

unfoldable pub seek_close : ℕ → Bytes → ℕ → ℕ → Option ℕ
seek_close zero source lo hi = none
seek_close (suc fuel) source lo hi =
    let next = seek_close fuel source lo (hi - 1) in
    if ltb lo hi
    then elim (slice hi (hi + 1) source) [
      | none ↦ none
      | some c ↦ if bytes_eq c (codes ")") then some hi else next
    ]
    else some hi

unfoldable pub parse_low_cardinality : Bytes → Parsed Bytes
unfolding seek_open seek_close
parse_low_cardinality source =
    if starts_with source (codes "LowCardinality")
    then sliced (seek_open (length source) source 14) (λ lo.
      sliced (seek_close (suc (length source)) source lo (length source - 1)) (λ hi.
        if leb hi lo
        then rejected
        else sliced (slice (lo + 1) hi source) (λ inner. parsed (trim inner))))
    else rejected
