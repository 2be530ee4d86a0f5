-- ===== src/Runs/Dictionaries.antt =====
-- Runs of src/types/column/low_cardinality.rs on inner columns of numbers and of strings.
use clickhouse_rs.Prelude.{
  inl, zero, suc, Bytes, ℕ, ◌≤◌, ◌^◌, ◌≡◌, none, refl, arith, ◌==◌, List, [], ◌∷◌, ◌++◌, length,
  get_elem?, some,
}
use clickhouse_rs.Column.Concat.{with_elem}
use clickhouse_rs.Column.Data.{index_u8, index_size}
use clickhouse_rs.Column.LowCardinality.{
  InnerColumn, LowCardinalityColumnData, empty, index_len, row_at, push_value,
}
use clickhouse_rs.Column.LowCardinality.Rows.{HasRows}
use clickhouse_rs.StringPool.{StringPool, with_capacity}
use clickhouse_rs.Text.{codes}
use clickhouse_rs.Column.LowCardinality.Strings.{string_column, string_column_laws, IsFilled}
use clickhouse_rs.Column.LowCardinality.Pushes.{empty-HasRows, push_values, row_at-push_values}

abbrev inner_numbers : InnerColumn (List ℕ) ℕ
inner_numbers = record { len = length; push = λ v c. some (c ++ v ∷ []); at = get_elem?; eq = ◌==◌ }

-- A value that comes twice is in the dictionary once.
repeated :
    with_elem {B = List ℕ × Bytes}
      (push_values inner_numbers (7 ∷ 5 ∷ 7 ∷ []) (empty inner_numbers []))
      (λ c. some (c.inner, c.index.memory))
    ≡ some (7 ∷ 5 ∷ [], 0 ∷ 1 ∷ 0 ∷ [])
unfolding empty push_value clickhouse_rs.Wire.Scalar.to_le_bytes
repeated = refl

abbrev no_strings : LowCardinalityColumnData StringPool Bytes
no_strings = empty string_column (with_capacity 2)

no_strings-HasRows : HasRows string_column no_strings []
unfolding with_capacity string_column
no_strings-HasRows = empty-HasRows string_column (with_capacity 2) refl

empty_small : string_column.len no_strings.inner ≤ 1
unfolding empty with_capacity string_column
empty_small = omega arith

empty_numbered : string_column.len no_strings.inner ≤ 256 ^ index_size no_strings.index.kind
unfolding empty with_capacity string_column
empty_numbered = omega arith

no_strings-IsFilled : IsFilled no_strings.inner
unfolding empty with_capacity
no_strings-IsFilled = ([], inl (refl, refl, refl, refl))

abbrev some_strings : List Bytes
some_strings = codes "ab" ∷ codes "c" ∷ codes "ab" ∷ []

row_at-push_values_example :
    (c : LowCardinalityColumnData StringPool Bytes) × (push_values string_column some_strings
        no_strings
      ≡ some c)
    × (index_len c.index ≡ 3)
    × ((i : ℕ) → row_at string_column c i ≡ get_elem? some_strings i)
row_at-push_values_example =
    row_at-push_values string_column IsFilled (λ v. Unit {0}) string_column_laws no_strings []
      some_strings no_strings-HasRows empty_small empty_numbered no_strings-IsFilled
      (tt, (tt, (tt, tt))) (omega arith)

abbrev count_up : ℕ → ℕ → List ℕ
count_up zero n = []
count_up (suc k) n = n ∷ count_up k (suc n)

-- A column as it can be loaded, of one row: its index has the narrowest type, and its dictionary 256 values.
abbrev full_dictionary : LowCardinalityColumnData (List ℕ) ℕ
full_dictionary = record {
  inner = count_up 256 0;
  index = record { kind = index_u8; memory = 255 ∷ [] };
  value_map = none;
}

-- The number 256 of a value that is pushed is cut to 0, and the row reads the first value of the dictionary.
number_cut :
    with_elem (push_value inner_numbers 1000 full_dictionary) (λ c. row_at inner_numbers c 1)
    ≡ some 0
unfolding push_value row_at clickhouse_rs.Wire.Scalar.to_le_bytes
    clickhouse_rs.Wire.Scalar.from_le_bytes
number_cut = refl
