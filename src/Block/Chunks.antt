-- ===== src/Block/Chunks.antt =====
-- src/types/block/chunk_iterator.rs: a block in pieces of a number of rows.
pub mod Cover
use clickhouse_rs.Prelude.{
  ℕ, zero, suc, ◌+◌, ◌-◌, min, leb, ◌==◌, ◌&&◌, if◌then◌else◌, List, [], ◌∷◌, Option, some, none,
}
use clickhouse_rs.Column.{ColumnData, Column, slice}
use clickhouse_rs.Block.{Block, with_capacity, new_block, row_count, append_column}

pub record ChunkIterator (Data : Type 0) : Type 0 where
  pub position : ℕ
  pub size : ℕ
  pub block : Block Data

-- `Option<Block>` and the iterator afterwards.
pub data Step (Data : Type 0) : Type 0 where
  ended panicked : Step Data
  item : Block Data → ChunkIterator Data → Step Data

module _ {Data : Type 0} where
  abbrev pub and_then :
      Option (Block Data) → (Block Data → Option (Block Data)) → Option (Block Data)
  and_then none f = none
  and_then (some b) f = f b

  abbrev pub sliced : ChunkIterator Data → ℕ → Option (Block Data) → Step Data
  sliced it size none = panicked
  sliced it size (some b) = item b (record it { position = it.position + size })

  -- `ChunkIterator::new`
  unfoldable pub chunks : ℕ → Block Data → ChunkIterator Data
  chunks size block = record { position = 0; size = size; block = block }

  abbrev pub keep : Block Data → Option (List (Block Data)) → Option (List (Block Data))
  keep b none = none
  keep b (some bs) = some (b ∷ bs)

  abbrev pub after_next :
      Step Data → (ChunkIterator Data → Option (List (Block Data))) → Option (List (Block Data))
  after_next ended rest = some []
  after_next panicked rest = none
  after_next (item b it) rest = keep b (rest it)

module _ {Data Tz : Type 0} (ops : ColumnData Data Tz) where
  -- The loop over the columns; a column of another length is a panic.
  unfoldable pub slice_columns : ℕ → ℕ → List (Column Data) → Block Data → Option (Block Data)
  slice_columns from to [] result = some result
  slice_columns from to (c ∷ cs) result =
      and_then (append_column ops (slice ops c from to) result) (λ r. slice_columns from to cs r)

  unfoldable pub next : ChunkIterator Data → Step Data
  unfolding slice_columns
  next it =
      let m = row_count ops it.block in
      let size = min it.size (m - it.position) in
      if m == 0 && it.position == 0
      then item (with_capacity 0) (record it { position = it.position + 1 })
      else (if leb m it.position
          then ended
          else sliced it size
              (slice_columns it.position (it.position + size) it.block.columns new_block))

  -- All that the iterator yields, if it ends.
  unfoldable pub collect : ℕ → ChunkIterator Data → Option (List (Block Data))
  unfolding next
  collect zero it = none
  collect (suc fuel) it = after_next (next it) (λ it'. collect fuel it')
