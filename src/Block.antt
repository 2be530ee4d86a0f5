-- ===== src/Block.antt =====
-- src/types/block/mod.rs: a block is its columns, all of one length, and the fields in front.
pub mod Info
pub mod Load
pub mod RoundTrip
pub mod Compressed
pub mod Chunks
use clickhouse_rs.Prelude.{ℕ, zero, suc, ◌+◌, ◌≡◌, refl, arith, Bool, true, false, not, ◌==◌, ◌||◌}
use clickhouse_rs.Prelude.{
  if◌then◌else◌, List, [], ◌∷◌, ◌++◌, Bytes, length, get_elem?, Option, some, none,
}
use clickhouse_rs.Errors.{Error, from_sql, out_of_range}
use clickhouse_rs.Wire.Outcome.{Outcome, done, M, Read, pure, panics, ◌>>=◌, ◌>>◌}
use clickhouse_rs.Wire.Encoder.{Encoder, uvarint, string}
use clickhouse_rs.Wire.ReadEx.{read_uvarint}
use clickhouse_rs.Column.{ColumnData, Column, col_len, col_read, col_write}
use clickhouse_rs.Protocol.{client_data}
use Info.{BlockInfo, default, read, write_info}

pub record Block (Data : Type 0) : Type 0 where
  pub info : BlockInfo
  pub columns : List (Column Data)
  pub capacity : ℕ

abbrev pub default_capacity : ℕ
default_capacity = 100

-- `Block::with_capacity` and `Block::new`
abbrev pub with_capacity : {Data : Type 0} → ℕ → Block Data
with_capacity capacity = record { info = default; columns = []; capacity = capacity }

abbrev pub new_block : {Data : Type 0} → Block Data
new_block = with_capacity default_capacity

module _ {Data : Type 0} where
  unfoldable pub column_count : Block Data → ℕ
  column_count b = length b.columns

  unfoldable pub is_empty : List (Column Data) → Bool
  is_empty [] = true
  is_empty (c ∷ cs) = false

module _ {Data Tz : Type 0} (ops : ColumnData Data Tz) where
  unfoldable pub columns_row_count : List (Column Data) → ℕ
  columns_row_count [] = 0
  columns_row_count (c ∷ cs) = col_len ops c

  unfoldable pub row_count : Block Data → ℕ
  unfolding columns_row_count
  row_count b = columns_row_count b.columns

  -- `append_column`; a column of another length is a panic: `none`.
  unfoldable pub append_column : Column Data → Block Data → Option (Block Data)
  append_column c b =
      if is_empty b.columns || row_count b == col_len ops c
      then some (record b { columns = b.columns ++ c ∷ [] })
      else none

  abbrev pub or_panic : {S A : Type 0} → Option A → M S A
  or_panic none = panics
  or_panic (some a) = pure a

  module _ {S : Type 0} ⦃r : Read S⦄ (is_utf8 : Bytes → Bool) where
    -- The loop of `raw_load` over the columns that are still to come.
    unfoldable pub load_columns : ℕ → ℕ → Tz → ℕ → Block Data → M S (Block Data)
    load_columns zero num_rows tz revision b = pure b
    load_columns (suc n) num_rows tz revision b = do
      column ← col_read ops is_utf8 num_rows tz revision
      b' ← or_panic (append_column column b)
      load_columns n num_rows tz revision b'

    unfoldable pub raw_load : Tz → ℕ → M S (Block Data)
    raw_load tz revision = do
      info ← read
      num_columns ← read_uvarint
      num_rows ← read_uvarint
      load_columns num_columns num_rows tz revision (record new_block { info = info })

  unfoldable pub write_columns : List (Column Data) → ℕ → Encoder → Encoder
  write_columns [] revision encoder = encoder
  write_columns (c ∷ cs) revision encoder =
      write_columns cs revision (col_write ops c revision encoder)

  -- `Block::write` without compression.
  unfoldable pub write_block : Block Data → ℕ → Encoder → Encoder
  write_block b revision encoder =
      let e1 = write_info b.info encoder in
      let e2 = uvarint (column_count b) e1 in
      let e3 = uvarint (row_count b) e2 in write_columns b.columns revision e3

  -- `Block::send_data` without compression: the packet tag, the name of no temporary table, the block.
  unfoldable pub send_data : Block Data → ℕ → Encoder → Encoder
  send_data b revision encoder = write_block b revision (string [] (uvarint client_data encoder))
