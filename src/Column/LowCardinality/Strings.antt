-- ===== src/Column/LowCardinality/Strings.antt =====
-- src/types/column/string.rs: `push`, `at` and `len` of a column of strings, as the inner column of one with a
-- dictionary.
use clickhouse_rs.Prelude.{
  ℕ, zero, suc, ◌<◌, ◌≡◌, refl, sym, ap, ◌∙◌, arith, true, List, [], ◌∷◌, ◌++◌, Bytes, length,
  get_elem?, some, length-append, inr,
}
use clickhouse_rs.Text.{bytes_eq}
use clickhouse_rs.StringPool.{StringPool, push, get}
use clickhouse_rs.StringPool.Pushes.{Contains, push-Pushed, get-Contains, Contains-length}
use clickhouse_rs.Column.LowCardinality.{InnerColumn}
use clickhouse_rs.Column.LowCardinality.Rows.{InnerColumnLaws}

unfoldable pub string_column : InnerColumn StringPool Bytes
string_column = record { len = λ p. length p.pointers; push = push; at = get; eq = bytes_eq }

-- A pool that has been filled.
abbrev pub IsFilled : StringPool → Type 0
IsFilled p = (xs : List Bytes) × Contains p xs

bytes_eq-≡ : (a b : Bytes) → bytes_eq a b ≡ true → a ≡ b
bytes_eq-≡ [] [] e = refl
bytes_eq-≡ [] (y ∷ b) e = absurd cc
bytes_eq-≡ (x ∷ a) [] e = absurd cc
bytes_eq-≡ (x ∷ a) (y ∷ b) e =
    let heads : x ≡ y = ground (arith, e) in
    let tails : bytes_eq a b ≡ true = ground (arith, e) in let same = bytes_eq-≡ a b tails in cc

at_end : (xs : List Bytes) (v : Bytes) → get_elem? (xs ++ v ∷ []) (length xs) ≡ some v
at_end [] v = refl
at_end (x ∷ xs) v = at_end xs v

before_end :
    (xs : List Bytes) (v : Bytes) (i : ℕ)
    → i < length xs
    → get_elem? (xs ++ v ∷ []) i ≡ get_elem? xs i
before_end [] v i h = absurd (omega arith)
before_end (x ∷ xs) v zero h = refl
before_end (x ∷ xs) v (suc i) h = before_end xs v i (omega arith)

-- A string that is pushed stands behind the others, which stay.
pub string_column_laws : InnerColumnLaws string_column IsFilled (λ v. Unit {0})
unfolding string_column
string_column_laws = record {
  same = bytes_eq-≡;
  pushed = λ v p good ok.
      let (xs, c) = good in
      let (q, e, h) = push-Pushed v xs p c in
      let count = Contains-length p xs c in
      let count' = Contains-length q (xs ++ v ∷ []) (inr h) in
      (
        q,
        e,
        (xs ++ v ∷ [], inr h),
        omega (arith, count, count', length-append xs (v ∷ [])),
        get-Contains q (xs ++ v ∷ []) (length p.pointers) (inr h)
            ∙ ap (get_elem? (xs ++ v ∷ [])) count
            ∙ at_end xs v,
        λ i near.
            get-Contains q (xs ++ v ∷ []) i (inr h)
            ∙ before_end xs v i (omega (arith, near, count))
            ∙ sym (get-Contains p xs i c),
      );
}
