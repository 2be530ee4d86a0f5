-- ===== src/Column/Names/RoundTrip.antt =====
-- The parsers of type names, on the names that `to_string` prints.
use clickhouse_rs.Prelude.{
  ℕ, ◌+◌, ◌-◌, ◌^◌, ◌≤◌, ◌<◌, ◌≡◌, refl, sym, ap, ◌∙◌, arith, true, false, [], ◌∷◌, ◌++◌, Bytes,
  length, length-append, some, All,
}
use clickhouse_rs.Text.{codes, starts_with, slice, show, starts_char}
use clickhouse_rs.Text.Slices.{slice_middle}
use clickhouse_rs.Text.Numbers.{IsNumeral, show-IsNumeral, parse-show}
use clickhouse_rs.SqlType.{applied}
use clickhouse_rs.SqlType.Names.{IsName, IsName-starts_char}
use clickhouse_rs.Column.Names.{
  parsed, sliced, max_usize, parse_nullable_type, parse_array_type, parse_fixed_string,
}
use mathlib.Core.Path.{subst}
use mathlib.Core.List.{append_assoc}

-- What stands between the parentheses.
pub between :
    (name args : Bytes) (from : ℕ)
    → from ≡ length name + 1
    → starts_char (args ++ b')' ∷ []) ≡ true
    → slice from (length (applied name args) - 1) (applied name args) ≡ some args
between name args from h hs =
    let total = length-append name (b'(' ∷ (args ++ b')' ∷ [])) in
    let inner = length-append args (b')' ∷ []) in
    let open_len = length-append name (b'(' ∷ []) in
    ap (slice from _) (sym (append_assoc name (b'(' ∷ []) (args ++ b')' ∷ [])))
    ∙ slice_middle (name ++ b'(' ∷ []) args (b')' ∷ []) from _ (omega arith) (omega arith) hs refl

pub parse_array_type-applied :
    (inner : Bytes) → IsName inner → parse_array_type (applied (codes "Array") inner) ≡ parsed inner
unfolding parse_array_type
parse_array_type-applied inner h =
    ap (λ o. sliced o parsed)
      (between (codes "Array") inner 6 (omega arith) (IsName-starts_char inner _ h))

-- A `Nullable` that is not within a `Nullable`.
pub parse_nullable_type-applied :
    (inner : Bytes)
    → IsName inner
    → starts_with inner (codes "Nullable") ≡ false
    → parse_nullable_type (applied (codes "Nullable") inner) ≡ parsed inner
unfolding parse_nullable_type
parse_nullable_type-applied inner h k =
    rw (between (codes "Nullable") inner 9 (omega arith) (IsName-starts_char inner _ h), k)

pub IsNumeral-starts_char : (s t : Bytes) → IsNumeral s → starts_char (s ++ t) ≡ true
IsNumeral-starts_char s t h =
    let (d, ds) = subst (All (λ c. (b'0' ≤ c) × (c ≤ b'9'))) h.shape h.all in
    rw h.shape (ground arith)

pub parse_fixed_string-applied :
    (n : ℕ) → n < 2 ^ 64 → parse_fixed_string (applied (codes "FixedString") (show n)) ≡ parsed n
unfolding parse_fixed_string
parse_fixed_string-applied n h = rw (
  between (codes "FixedString") (show n) 12 (omega arith)
      (IsNumeral-starts_char (show n) _ (show-IsNumeral n)),
  parse-show max_usize n (omega arith) (omega arith),
)
