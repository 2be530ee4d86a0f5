-- ===== src/Column.antt =====
-- src/types/column/mod.rs, column_data.rs and chunk.rs: a named column over the trait `ColumnData`.
pub mod Laws
pub mod Concat
pub mod Data
pub mod LowCardinality
pub mod Names
use clickhouse_rs.Prelude.{
  ℕ, ◌+◌, ◌-◌, ◌^◌, ◌≤◌, ◌<◌, ◌≡◌, refl, sym, ap, ◌∙◌, arith, min, Bool, true, false,
}
use clickhouse_rs.Prelude.{
  leb, ◌==◌, if◌then◌else◌, List, [], ◌∷◌, ◌++◌, Bytes, length, IsU64, Bool-cases, inl, inr,
}
use clickhouse_rs.Errors.{driver, unsupported_custom_serialization}
use clickhouse_rs.Wire.Outcome.{
  Outcome, done, fail, stuck, M, Read, Cursor, cursor_read, then_do, pure, throw, ◌>>=◌, ◌>>◌,
}
use clickhouse_rs.Wire.Scalar.{u8, uint-IsCodec}
use clickhouse_rs.Wire.Encoder.{Encoder, string, write}
use clickhouse_rs.Wire.ReadEx.{read_string, read_scalar}
use clickhouse_rs.Wire.Incremental.{
  Incremental, pure-Incremental, throw-Incremental, if-Incremental, >>=-Incremental,
}
use clickhouse_rs.Wire.Reads.{read_string-Incremental, read_scalar-Incremental}
use clickhouse_rs.Wire.RoundTrip.{read_string-string, read_scalar-write, string-rest, write-rest}
use clickhouse_rs.Protocol.{dbms_min_revision_with_custom_serialization}

-- The part of the trait `ColumnData` that a block needs. `load_data` is its constructor from the wire,
-- `type_name` is `sql_type().to_string()`.
pub record ColumnData (Data Tz : Type 0) : Type 1 where
  pub load_data : (S : Type 0) → Read S → Bytes → ℕ → Tz → M S Data
  pub type_name : Data → Bytes
  pub save : Data → ℕ → ℕ → Encoder → Encoder
  pub len : Data → ℕ

-- The data of a column: an implementation of the trait, or `ChunkColumnData` over a range of one.
pub data Body (Data : Type 0) : Type 0 where
  whole : Data → Body Data
  chunk : Body Data → ℕ → ℕ → Body Data

pub record Column (Data : Type 0) : Type 0 where
  pub name : Bytes
  pub body : Body Data

module _ {Data Tz : Type 0} (ops : ColumnData Data Tz) where
  unfoldable pub body_type_name : Body Data → Bytes
  body_type_name (whole d) = ops.type_name d
  body_type_name (chunk b start end) = body_type_name b

  -- `range.len()` is 0 where the range is empty.
  unfoldable pub body_len : Body Data → ℕ
  body_len (whole d) = ops.len d
  body_len (chunk b start end) = end - start

  unfoldable pub body_save : Body Data → ℕ → ℕ → Encoder → Encoder
  body_save (whole d) from to encoder = ops.save d from to encoder
  body_save (chunk b start end) from to encoder =
      body_save b (start + from) (min end (start + to)) encoder

  unfoldable pub col_len : Column Data → ℕ
  col_len c = body_len c.body

  -- `Column::slice(start..end)`
  unfoldable pub slice : Column Data → ℕ → ℕ → Column Data
  slice c start end = record c { body = chunk c.body start end }

  unfoldable pub write_marker : ℕ → Encoder → Encoder
  write_marker revision encoder =
      if leb dbms_min_revision_with_custom_serialization revision
      then write u8 0 encoder
      else encoder

  unfoldable pub col_write : Column Data → ℕ → Encoder → Encoder
  unfolding write_marker col_len
  col_write c revision encoder =
      let header = string (body_type_name c.body) (string c.name encoder) in
      body_save c.body 0 (col_len c) (write_marker revision header)

  module _ {S : Type 0} ⦃r : Read S⦄ (is_utf8 : Bytes → Bool) where
    -- The marker byte of newer servers.
    unfoldable pub read_marker : ℕ → M S (Unit {0})
    read_marker revision =
        if leb dbms_min_revision_with_custom_serialization revision
        then (do
          marker ← read_scalar u8
          if marker == 0 then pure tt else throw (driver unsupported_custom_serialization))
        else pure tt

    unfoldable pub col_read : ℕ → Tz → ℕ → M S (Column Data)
    col_read size tz revision = do
      name ← read_string is_utf8
      type_name ← read_string is_utf8
      read_marker revision
      d ← ops.load_data S r type_name size tz
      pure (record { name = name; body = whole d })

-- What a column implementation owes: it appends what it saves, and loads what it saved. `Holds` are the
-- values that its type can hold, under the time zone of the connection.
pub record ColumnLaws {Data Tz : Type 0} (Holds : Tz → Data → Type 0) (ops : ColumnData Data Tz)
    : Type 1 where
  pub appends :
      (d : Data) (from to : ℕ) (encoder : Encoder)
      → ops.save d from to encoder ≡ encoder ++ ops.save d from to []
  pub loads_back :
      (d : Data) (tz : Tz) (rest : Bytes)
      → Holds tz d
      → ops.load_data Cursor cursor_read
          (ops.type_name d)
          (ops.len d)
          tz
          (ops.save d 0 (ops.len d) [] ++ rest)
        ≡ done d rest

-- What the loading owes for all that can come over the wire: on a part of the input it asks for more or answers
-- as on the whole, with a panic too.
pub record LoadLaws {Data Tz : Type 0} (ops : ColumnData Data Tz) : Type 1 where
  pub incremental :
      (type_name : Bytes) (size : ℕ) (tz : Tz)
      → Incremental (ops.load_data Cursor cursor_read type_name size tz)
