-- ===== src/Column/Data/Combine/RoundTrip.antt =====
-- src/types/column: a column that is saved and loaded, with the parsers of its type's name.
use clickhouse_rs.Prelude.{ℕ, suc, ◌≡◌, [], ◌++◌, Bytes, length, some, ◌⊎◌}
use clickhouse_rs.Wire.Outcome.{done, cursor_read}
use clickhouse_rs.Column.Data.{AnyColumnData, len, save}
use clickhouse_rs.Column.Data.Load.{load_data}
use clickhouse_rs.Column.Data.Holds.{Holds, name_of}
use clickhouse_rs.Column.Data.LoadBack.{load_data-saved}
use clickhouse_rs.Column.Data.Combine.{Combine, type_parsers}
use clickhouse_rs.Column.Data.Combine.Laws.{CombineLaws, type_parsers_laws}

module _ (combine : Combine) (laws : CombineLaws combine) {Tz : Type 0}
    (parse_tz : Bytes → Bytes ⊎ Tz) (show_tz : Tz → Bytes) (tz : Tz) where
  -- With a crate `combine` that keeps its laws, a column that can be read back has a length, its `save` of all its
  -- rows does not panic, and `load_data`, given the name of its type and its length, reads exactly what it wrote
  -- and gives the column back. Each kind of column but `DateTime64` can be, if its memories have whole elements,
  -- its parts as many rows as it says, its dates the zone of the connection, and its lengths and offsets fit
  -- a u64; but not one with a `FixedString(0)`, a `Nullable` of a `Nullable`, a `Map` whose key's name has a comma,
  -- a `SimpleAggregateFunction` over a type whose name ends with a parenthesis, or an enum with a name that
  -- its own parser does not read back.
  pub load_data-save :
      (d : AnyColumnData Tz)
      → Holds (type_parsers combine parse_tz show_tz) tz d
      → (n : ℕ) × (bs : Bytes) × (len d ≡ some n)
        × (save d 0 n [] ≡ some bs)
        × ((rest : Bytes)
            → load_data
                (type_parsers combine parse_tz show_tz)
                (suc (length (name_of (type_parsers combine parse_tz show_tz) d)))
                (name_of (type_parsers combine parse_tz show_tz) d)
                n
                tz
                (bs ++ rest)
              ≡ done d rest)
  load_data-save d h =
      load_data-saved (type_parsers combine parse_tz show_tz)
        (type_parsers_laws combine laws parse_tz show_tz) tz d h
