-- ===== src/Column/Laws.antt =====
-- A column read back, and read from a growing buffer.
use clickhouse_rs.Prelude.{ℕ, ◌≡◌, ap, ◌∙◌, arith, Bool, true, IsSize}
use clickhouse_rs.Prelude.{leb, ◌==◌, [], ◌++◌, Bytes, length, Bool-cases, inl, inr}
use clickhouse_rs.Wire.Outcome.{done, Cursor, cursor_read}
use clickhouse_rs.Wire.Scalar.{u8, uint-IsCodec}
use clickhouse_rs.Wire.Encoder.{string}
use clickhouse_rs.Wire.ReadEx.{read_string, read_scalar}
use clickhouse_rs.Wire.Incremental.{
  Incremental, pure-Incremental, throw-Incremental, if-Incremental, >>=-Incremental,
}
use clickhouse_rs.Wire.Reads.{read_string-Incremental, read_scalar-Incremental}
use clickhouse_rs.Wire.RoundTrip.{read_string-string, read_scalar-write, string-rest, write-rest}
use clickhouse_rs.Column.{
  ColumnData, ColumnLaws, LoadLaws, whole, col_write, col_read, write_marker, read_marker,
  body_save, body_len, body_type_name,
}
use clickhouse_rs.Protocol.{dbms_min_revision_with_custom_serialization as marker_revision}
use mathlib.Core.List.{append_assoc}

-- A string that the protocol can carry.
pub record IsText (is_utf8 : Bytes → Bool) (chars : Bytes) : Type 0 where
  pub fits : IsSize (length chars)
  pub valid : is_utf8 chars ≡ true

module _ {Data Tz : Type 0} {Holds : Tz → Data → Type 0} (ops : ColumnData Data Tz)
    (laws : ColumnLaws Holds ops) (is_utf8 : Bytes → Bool) where
  marker_rest :
      (revision : ℕ) (encoder rest : Bytes)
      → write_marker ops revision encoder ++ rest
        ≡ encoder ++ (write_marker ops revision [] ++ rest)
  unfolding write_marker
  marker_rest revision encoder rest = elim (Bool-cases (leb marker_revision revision)) [
    | inl e ↦ rw e (write-rest u8 0 encoder rest)
    | inr e ↦ rw e
  ]

  read_marker-written :
      (revision : ℕ) (rest : Bytes)
      → read_marker ops is_utf8 revision (write_marker ops revision [] ++ rest) ≡ done tt rest
  unfolding write_marker read_marker
  read_marker-written revision rest = elim (Bool-cases (leb marker_revision revision)) [
    | inl e ↦ rw (e, read_scalar-write u8 0 rest (uint-IsCodec 1) (omega arith))
    | inr e ↦ rw e
  ]

  -- The bytes of a column in front of what follows.
  pub col_write-rest :
      (name : Bytes) (d : Data) (revision : ℕ) (encoder rest : Bytes)
      → col_write ops (record { name = name; body = whole d }) revision encoder ++ rest
        ≡ encoder
          ++ (string name []
              ++ (string (ops.type_name d) []
                  ++ (write_marker ops revision [] ++ (ops.save d 0 (ops.len d) [] ++ rest))))
  unfolding col_write body_save body_len body_type_name
  col_write-rest name d revision encoder rest =
      ap (λ (t : Bytes). t ++ rest) (laws.appends d 0 (ops.len d) _)
      ∙ (append_assoc _ (ops.save d 0 (ops.len d) []) rest
          ∙ (marker_rest revision _ _
              ∙ (string-rest (ops.type_name d) _ _ ∙ string-rest name encoder _)))

  -- `Column::read` on the fields of a column, one behind the other.
  pub col_read_fields :
      (name : Bytes) (d : Data) (tz : Tz) (revision : ℕ) (rest : Bytes)
      → IsText is_utf8 name
      → IsText is_utf8 (ops.type_name d)
      → Holds tz d
      → col_read ops is_utf8 (ops.len d) tz revision (
          string name []
          ++ (string (ops.type_name d) []
              ++ (write_marker ops revision [] ++ (ops.save d 0 (ops.len d) [] ++ rest))))
        ≡ done (record { name = name; body = whole d }) rest
  unfolding col_read
  col_read_fields name d tz revision rest hn ht hd = rw (
    read_string-string is_utf8 name _ hn.fits hn.valid,
    read_string-string is_utf8 (ops.type_name d) _ ht.fits ht.valid,
    read_marker-written revision _,
    laws.loads_back d tz rest hd,
  )

  -- When its name and the name of its type are texts that the protocol can carry, and its type can hold its
  -- data, `Column::read` gives back the column that `Column::write` wrote, under the same revision, and
  -- leaves what follows it.
  pub col_read-col_write :
      (name : Bytes) (d : Data) (tz : Tz) (revision : ℕ) (rest : Bytes)
      → IsText is_utf8 name
      → IsText is_utf8 (ops.type_name d)
      → Holds tz d
      → col_read ops is_utf8
          (ops.len d)
          tz
          revision
          (col_write ops (record { name = name; body = whole d }) revision [] ++ rest)
        ≡ done (record { name = name; body = whole d }) rest
  col_read-col_write name d tz revision rest hn ht hd =
      rw (col_write-rest name d revision [] rest) (col_read_fields name d tz revision rest hn ht hd)

module _ {Data Tz : Type 0} (ops : ColumnData Data Tz) (laws : LoadLaws ops)
    (is_utf8 : Bytes → Bool) where
  read_marker-Incremental : (revision : ℕ) → Incremental (read_marker ops is_utf8 revision)
  unfolding read_marker
  read_marker-Incremental revision =
      if-Incremental (leb marker_revision revision) _ _
        (>>=-Incremental (read_scalar u8) _ (read_scalar-Incremental u8)
          λ m. if-Incremental (m == 0) _ _ (pure-Incremental tt) (throw-Incremental _))
        (pure-Incremental tt)

  pub col_read-Incremental :
      (size : ℕ) (tz : Tz) (revision : ℕ) → Incremental (col_read ops is_utf8 size tz revision)
  unfolding col_read
  col_read-Incremental size tz revision =
      >>=-Incremental (read_string is_utf8) _ (read_string-Incremental is_utf8) λ name.
        >>=-Incremental (read_string is_utf8) _ (read_string-Incremental is_utf8) λ tn.
          >>=-Incremental (read_marker ops is_utf8 revision) _ (read_marker-Incremental revision)
            λ u.
              >>=-Incremental (ops.load_data Cursor cursor_read tn size tz) _
                (laws.incremental tn size tz)
                λ d. pure-Incremental (record { name = name; body = whole d })
