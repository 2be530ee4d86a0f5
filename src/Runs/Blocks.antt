-- ===== src/Runs/Blocks.antt =====
-- Runs of src/types/block and src/types/column.
use clickhouse_rs.Prelude.{get_elem?}
use clickhouse_rs.Prelude.{some}
use clickhouse_rs.StringPool.{StringPool, from_vec, get}
use clickhouse_rs.StringPool.Pushes.{get-from_vec}
use clickhouse_rs.Prelude.{suc}
use clickhouse_rs.Block.{Block}
use clickhouse_rs.Block.Chunks.{chunks, collect}
use clickhouse_rs.Block.Chunks.Cover.{Covers, chunks-Covers}
use clickhouse_rs.Column.Concat.{concat, at}
use clickhouse_rs.Column.Concat.Rows.{joined, at-concat}
use clickhouse_rs.Prelude.{ℕ, ◌≡◌, refl, arith, true, List, [], ◌∷◌, ◌++◌, Bytes, map}
use clickhouse_rs.Prelude.Int.{pos}
use clickhouse_rs.Wire.ReadEx.{read_uvarint}
use clickhouse_rs.Wire.Outcome.{Cursor, done, cursor_read}
use clickhouse_rs.Column.{whole, col_len, body_len, col_read, col_write}
use clickhouse_rs.Column.Laws.{col_read-col_write}
use clickhouse_rs.Block.{
  default_capacity, raw_load, write_block, column_count, row_count, columns_row_count,
}
use clickhouse_rs.Block.Info.{BlockInfo, read, write_info, read-write_info}
use clickhouse_rs.Block.Load.{Uniform, raw_load-Uniform}
use clickhouse_rs.Block.RoundTrip.{to_column, raw_load-write_block}
use clickhouse_rs.Block.Compressed.{decompress_buffer, write_compressed}
use clickhouse_rs.Block.Compressed.Frame.{decompress_buffer-write_compressed}
use clickhouse_rs.Runs.Sample.{
  byte_column, byte_column_laws, store_codec, store_codec_laws, any_text,
}

abbrev some_info : BlockInfo
some_info = record { is_overflows = true; bucket_num = pos 5 }

abbrev entries : List (Bytes × Bytes)
entries = (97 ∷ [], 1 ∷ 2 ∷ []) ∷ (98 ∷ [], 3 ∷ 4 ∷ []) ∷ []

info_comes_back : read (write_info some_info [] ++ 9 ∷ []) ≡ done some_info (9 ∷ [])
info_comes_back = read-write_info some_info (9 ∷ []) (omega arith)

col_read-col_write_example :
    col_read byte_column any_text 2 0 54454 (
      col_write byte_column (record { name = 97 ∷ []; body = whole (1 ∷ 2 ∷ []) }) 54454 []
      ++ 9 ∷ [])
    ≡ done (record { name = 97 ∷ []; body = whole (1 ∷ 2 ∷ []) }) (9 ∷ [])
col_read-col_write_example =
    col_read-col_write byte_column byte_column_laws any_text (97 ∷ []) (1 ∷ 2 ∷ []) 0 54454 (9 ∷ [])
      (record { fits = omega arith; valid = refl }) (record { fits = omega arith; valid = refl }) tt

raw_load-write_block_example :
    raw_load byte_column any_text 0 54454 (
      write_block byte_column
        (record { info = some_info; columns = map to_column entries; capacity = 2 })
        54454
        []
      ++ 9 ∷ [])
    ≡ done
        (record { info = some_info; columns = map to_column entries; capacity = default_capacity })
        (9 ∷ [])
unfolding columns_row_count col_len body_len
raw_load-write_block_example =
    raw_load-write_block byte_column byte_column_laws any_text some_info entries 2 0 54454 (9 ∷ [])
      (omega arith) (omega arith) (omega arith)
      (
        record {
          named = record { fits = omega arith; valid = refl };
          typed = record { fits = omega arith; valid = refl };
          held = tt;
          sized = refl;
        },
        (
          record {
            named = record { fits = omega arith; valid = refl };
            typed = record { fits = omega arith; valid = refl };
            held = tt;
            sized = refl;
          },
          tt,
        ),
      )

abbrev some_block : Block Bytes
some_block = record {
  info = some_info;
  columns = map to_column entries;
  capacity = default_capacity;
}

raw_load-Uniform_example :
    Uniform byte_column (row_count byte_column some_block) some_block.columns
    × ((info : BlockInfo) × (s1 s2 : Cursor) × (read (
            write_block byte_column
              (record { info = some_info; columns = map to_column entries; capacity = 2 })
              54454
              []
            ++ 9 ∷ [])
          ≡ done info s1)
        × (read_uvarint s1 ≡ done (column_count some_block) s2))
raw_load-Uniform_example =
    raw_load-Uniform byte_column any_text 0 54454 _ some_block (9 ∷ []) raw_load-write_block_example

decompress_buffer-write_compressed_example :
    decompress_buffer store_codec (write_compressed store_codec (1 ∷ 2 ∷ 3 ∷ []) [] ++ 9 ∷ [])
    ≡ done (1 ∷ 2 ∷ 3 ∷ []) (9 ∷ [])
decompress_buffer-write_compressed_example =
    decompress_buffer-write_compressed store_codec store_codec_laws (1 ∷ 2 ∷ 3 ∷ []) (9 ∷ [])
      (omega arith) (omega arith)

-- Three chunks, of which the second is empty.
abbrev three_chunks : List (List ℕ)
three_chunks = (1 ∷ 2 ∷ []) ∷ [] ∷ (3 ∷ []) ∷ []

at-concat_example : at (concat three_chunks) 2 ≡ get_elem? (joined three_chunks) 2
at-concat_example = at-concat three_chunks 2 (omega arith)

abbrev texts : List Bytes
texts = (104 ∷ 105 ∷ []) ∷ [] ∷ (5 ∷ []) ∷ []

get-from_vec_example :
    (p : StringPool) × (from_vec texts ≡ some p) × ((i : ℕ) → get p i ≡ get_elem? texts i)
get-from_vec_example = get-from_vec texts

abbrev three_rows : Block Bytes
three_rows = record {
  info = some_info;
  columns = to_column (97 ∷ [], 1 ∷ 2 ∷ 3 ∷ []) ∷ [];
  capacity = 1;
}

chunks-Covers_example :
    (bs : List (Block Bytes)) × (collect byte_column
        (suc (row_count byte_column three_rows))
        (chunks 2 three_rows)
      ≡ some bs)
    × Covers byte_column 2 (row_count byte_column three_rows) three_rows.columns 0 bs
unfolding row_count columns_row_count col_len body_len
chunks-Covers_example = chunks-Covers byte_column 2 three_rows (omega arith) (omega arith)
