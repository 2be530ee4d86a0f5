-- ===== src/Block/RoundTrip.antt =====
-- A block of loaded columns is read back from what `Block::write` wrote.
use clickhouse_rs.Prelude.{ℕ, ◌^◌, ◌≡◌, refl, sym, ap, ◌∙◌}
use clickhouse_rs.Prelude.{Bool, List, [], ◌∷◌, ◌++◌, Bytes, length, All, map, IsU64, length-map}
use clickhouse_rs.Prelude.Int.{Fits}
use clickhouse_rs.Wire.Outcome.{done, cursor_read}
use clickhouse_rs.Wire.Encoder.{uvarint, string}
use clickhouse_rs.Wire.RoundTrip.{uvarint-rest}
use clickhouse_rs.Wire.Uvarint.Encode.{read_uvarint-uvarint}
use clickhouse_rs.Column.{
  ColumnData, ColumnLaws, Column, whole, col_len, body_len, col_read, col_write, write_marker,
}
use clickhouse_rs.Column.Laws.{IsText, col_read_fields, col_write-rest}
use clickhouse_rs.Block.Info.{BlockInfo, write_info, read-write_info}
use clickhouse_rs.Block.{
  Block, new_block, default_capacity, column_count, row_count, columns_row_count, load_columns,
  raw_load, write_columns, write_block,
}
use clickhouse_rs.Block.Load.{Uniform, append_fits, append-Uniform}
use mathlib.Core.List.{append_assoc, append-nil}
use mathlib.Core.Path.{subst}

-- A column as a client makes it: a name and its data.
abbrev pub to_column : {Data : Type 0} → Bytes × Data → Column Data
to_column (name, d) = record { name = name; body = whole d }

-- The protocol can carry the name, the name of the type and the data, of `rows` rows.
pub record IsLoadable {Data Tz : Type 0} (Holds : Data → Type 0) (ops : ColumnData Data Tz)
    (is_utf8 : Bytes → Bool) (rows : ℕ) (entry : Bytes × Data) : Type 0 where
  pub named : IsText is_utf8 entry.0
  pub typed : IsText is_utf8 (ops.type_name entry.1)
  pub held : Holds entry.1
  pub sized : ops.len entry.1 ≡ rows

module _ {Data Tz : Type 0} {Holds : Tz → Data → Type 0} (ops : ColumnData Data Tz)
    (laws : ColumnLaws Holds ops) (is_utf8 : Bytes → Bool) where
  -- The bytes of the columns in front of `rest`.
  columns_bytes : List (Bytes × Data) → ℕ → Bytes → Bytes
  columns_bytes [] revision rest = rest
  columns_bytes ((name, d) ∷ es) revision rest =
      string name []
      ++ (string (ops.type_name d) []
          ++ (write_marker ops revision []
              ++ (ops.save d 0 (ops.len d) [] ++ columns_bytes es revision rest)))

  write_columns-rest :
      (es : List (Bytes × Data)) (revision : ℕ) (encoder rest : Bytes)
      → write_columns ops (map to_column es) revision encoder ++ rest
        ≡ encoder ++ columns_bytes es revision rest
  unfolding write_columns columns_bytes
  write_columns-rest [] revision encoder rest = refl
  write_columns-rest ((name, d) ∷ es) revision encoder rest =
      write_columns-rest es revision (col_write ops (to_column (name, d)) revision encoder) rest
      ∙ col_write-rest ops laws is_utf8 name d revision encoder (columns_bytes es revision rest)

  load_columns-written :
      (es : List (Bytes × Data)) (rows : ℕ) (tz : Tz) (revision : ℕ) (b : Block Data) (rest : Bytes)
      → Uniform ops rows b.columns
      → All (IsLoadable (Holds tz) ops is_utf8 rows) es
      → load_columns ops is_utf8 (length es) rows tz revision b (columns_bytes es revision rest)
        ≡ done (record b { columns = b.columns ++ map to_column es }) rest
  unfolding load_columns columns_bytes
  load_columns-written [] rows tz revision b rest u h =
      ap (λ cs. done (record b { columns = cs }) rest) (sym (append-nil b.columns))
  load_columns-written ((name, d) ∷ es) rows tz revision b rest u (h, hs) =
      let c : Column Data = to_column (name, d) in
      let len : col_len ops c ≡ rows = unfold col_len body_len in h.sized in
      let next : Block Data = record b { columns = b.columns ++ c ∷ [] } in
      let ih =
        load_columns-written es rows tz revision next rest
          (append-Uniform ops b.columns c rows u len) hs in
      let read_back =
        subst
          (λ n.
            col_read ops is_utf8 n tz revision (columns_bytes ((name, d) ∷ es) revision rest)
            ≡ done c (columns_bytes es revision rest))
          h.sized
          (col_read_fields ops laws is_utf8 name d tz revision (columns_bytes es revision rest)
            h.named h.typed h.held) in
      rw (read_back, append_fits ops c b rows u len)
        (ih ∙ ap (λ cs. done (record b { columns = cs }) rest) (append_assoc b.columns (c ∷ []) _))

  write_block-rest :
      (info : BlockInfo) (es : List (Bytes × Data)) (capacity revision : ℕ) (rest : Bytes)
      → write_block ops
            (record { info = info; columns = map to_column es; capacity = capacity })
            revision
            []
          ++ rest
        ≡ write_info info []
          ++ (uvarint (length es) []
              ++ (uvarint (columns_row_count ops (map to_column es)) []
                  ++ columns_bytes es revision rest))
  unfolding write_block column_count row_count
  write_block-rest info es capacity revision rest = rw (length-map es to_column) (
      write_columns-rest es revision _ rest
      ∙ (uvarint-rest (columns_row_count ops (map to_column es)) _ _
          ∙ uvarint-rest (length es) _ _))

  -- A block whose bucket number is an i32, whose numbers of columns and rows are u64 values, and whose columns
  -- are loadable and of its row count comes back from what `Block::write` wrote without compression: with its
  -- columns, its information and the default capacity, and what follows it is left.
  pub raw_load-write_block :
      (info : BlockInfo) (es : List (Bytes × Data)) (capacity : ℕ) (tz : Tz) (revision : ℕ)
      (rest : Bytes)
      → Fits (256 ^ 4) info.bucket_num
      → IsU64 (length es)
      → IsU64 (columns_row_count ops (map to_column es))
      → All (IsLoadable (Holds tz) ops is_utf8 (columns_row_count ops (map to_column es))) es
      → raw_load ops is_utf8 tz revision (
          write_block ops
            (record { info = info; columns = map to_column es; capacity = capacity })
            revision
            []
          ++ rest)
        ≡ done
            (record { info = info; columns = map to_column es; capacity = default_capacity })
            rest
  unfolding raw_load
  raw_load-write_block info es capacity tz revision rest hi hc hr he =
      rw
        (
          write_block-rest info es capacity revision rest,
          read-write_info info _ hi,
          read_uvarint-uvarint (length es) _ hc,
          read_uvarint-uvarint (columns_row_count ops (map to_column es)) _ hr,
        )
        (load_columns-written es (columns_row_count ops (map to_column es)) tz revision
          (record new_block { info = info }) rest tt he)
