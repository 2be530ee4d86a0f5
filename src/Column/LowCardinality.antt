-- ===== src/Column/LowCardinality.antt =====
-- src/types/column/low_cardinality.rs: rows that are added to a column with a dictionary, and read.
pub mod Index
pub mod Widening
pub mod Rows
pub mod Pushes
pub mod Strings
use clickhouse_rs.Prelude.{
  ℕ, zero, suc, ◌+◌, ◌-◌, ◌*◌, ◌/◌, ◌%◌, ◌^◌, ltb, if◌then◌else◌, Bool, List, [], ◌∷◌, ◌++◌, Bytes,
  length, take, drop, Option, some, none,
}
use clickhouse_rs.Wire.Scalar.{from_le_bytes, to_le_bytes}
use clickhouse_rs.Column.Concat.{with_elem}
use clickhouse_rs.Column.Data.{
  IndexType, index_u8, index_u16, index_u32, index_u64, index_size, LowCardinalityIndex, byte_range,
}

-- The `count` elements of a vector, whose element has `width` bytes, and the memory of a vector.
unfoldable pub vector_values : ℕ → ℕ → Bytes → List ℕ
vector_values width zero memory = []
vector_values width (suc count) memory =
    from_le_bytes (take width memory) ∷ vector_values width count (drop width memory)

unfoldable pub vector_memory : ℕ → List ℕ → Bytes
vector_memory width [] = []
vector_memory width (v ∷ vs) = to_le_bytes width v ++ vector_memory width vs

-- `LowCardinalityIndex::len`
unfoldable pub index_len : LowCardinalityIndex → ℕ
unfolding index_size
index_len index = length index.memory / index_size index.kind

-- `none` is a panic.
unfoldable pub get_by_index : LowCardinalityIndex → ℕ → Option ℕ
unfolding byte_range
get_by_index index i =
    with_elem
      (byte_range (i * index_size index.kind) ((i + 1) * index_size index.kind) index.memory)
      λ bs. some (from_le_bytes bs)

unfoldable pub max_len : IndexType → ℕ
max_len index_u8 = 2 ^ 8 - 1
max_len index_u16 = 2 ^ 16 - 1
max_len index_u32 = 2 ^ 32 - 1
max_len index_u64 = 2 ^ 64 - 1

-- The type that `inc_max_len` goes on to; `none` is its `unreachable!`.
unfoldable pub next_type : IndexType → Option IndexType
next_type index_u8 = some index_u16
next_type index_u16 = some index_u32
next_type index_u32 = some index_u64
next_type index_u64 = none

unfoldable pub inc_max_len : LowCardinalityIndex → Option LowCardinalityIndex
unfolding next_type index_len vector_values vector_memory
inc_max_len index = with_elem (next_type index.kind) λ kind. some (record {
  kind = kind;
  memory =
      vector_memory (index_size kind)
        (vector_values (index_size index.kind) (index_len index) index.memory);
})

-- `LowCardinalityIndex::push`: the number is cut to the width of the type.
unfoldable pub push_number : ℕ → LowCardinalityIndex → Option LowCardinalityIndex
unfolding max_len inc_max_len
push_number value index =
    with_elem
      (if ltb (max_len index.kind) (index_len index + 1) then inc_max_len index else some index)
      λ ix. some (record {
        kind = ix.kind;
        memory = ix.memory ++ to_le_bytes (index_size ix.kind) (value % 256 ^ index_size ix.kind);
      })

-- The operations of the inner column and the equality of values that `LowCardinalityColumnData` calls; `none` is
-- a panic, for `push` also that of `Arc::get_mut(..).expect(..)` on an inner column that is shared.
pub record InnerColumn (Inner V : Type 0) : Type 0 where
  pub len : Inner → ℕ
  pub push : V → Inner → Option Inner
  pub at : Inner → ℕ → Option V
  pub eq : V → V → Bool

-- The `value_map` is its entries, the newest first.
pub record LowCardinalityColumnData (Inner V : Type 0) : Type 0 where
  pub inner : Inner
  pub index : LowCardinalityIndex
  pub value_map : Option (List (V × ℕ))

module _ {Inner V : Type 0} (ops : InnerColumn Inner V) where
  -- `HashMap::get_mut`
  unfoldable pub get_value : V → List (V × ℕ) → Option ℕ
  get_value value [] = none
  get_value value ((v, i) ∷ value_map) =
      if ops.eq value v then some i else get_value value value_map

  -- The rows from `index`, `count` of them, collected in front of `value_map`.
  unfoldable pub collect_values :
      LowCardinalityColumnData Inner V → ℕ → ℕ → List (V × ℕ) → Option (List (V × ℕ))
  unfolding get_by_index
  collect_values c zero index value_map = some value_map
  collect_values c (suc count) index value_map =
      with_elem (get_by_index c.index index) λ value_index.
        with_elem (ops.at c.inner value_index)
          λ value. collect_values c count (index + 1) ((value, value_index) ∷ value_map)

  unfoldable pub get_value_map : LowCardinalityColumnData Inner V → Option (List (V × ℕ))
  unfolding index_len collect_values
  get_value_map c = collect_values c (index_len c.index) 0 []

  -- The loop in front of `push`.
  unfoldable pub the_value_map : LowCardinalityColumnData Inner V → Option (List (V × ℕ))
  unfolding get_value_map
  the_value_map c = elim c.value_map [ none ↦ get_value_map c | some value_map ↦ some value_map ]

  -- `push` of a value, with what `value_map` has for it.
  unfoldable pub push_found :
      V
      → List (V × ℕ)
      → LowCardinalityColumnData Inner V
      → Option ℕ
      → Option (LowCardinalityColumnData Inner V)
  unfolding push_number
  push_found value value_map c none = with_elem (ops.push value c.inner) λ inner.
      with_elem (push_number (ops.len c.inner) c.index) λ index. some (record {
        inner = inner;
        index = index;
        value_map = some ((value, ops.len c.inner) ∷ value_map);
      })
  push_found value value_map c (some i) =
      with_elem (push_number i c.index)
        λ index. some (record { inner = c.inner; index = index; value_map = some value_map })

  -- `LowCardinalityColumnData::push`
  unfoldable pub push_value :
      V → LowCardinalityColumnData Inner V → Option (LowCardinalityColumnData Inner V)
  unfolding the_value_map get_value push_found
  push_value value c =
      with_elem (the_value_map c)
        λ value_map. push_found value value_map c (get_value value value_map)

  -- `LowCardinalityColumnData::at`
  unfoldable pub row_at : LowCardinalityColumnData Inner V → ℕ → Option V
  unfolding get_by_index
  row_at c i = with_elem (get_by_index c.index i) (ops.at c.inner)

  -- `empty`, on the empty inner column.
  unfoldable pub empty : Inner → LowCardinalityColumnData Inner V
  empty inner = record {
    inner = inner;
    index = record { kind = index_u8; memory = [] };
    value_map = none;
  }
