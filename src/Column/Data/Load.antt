-- ===== src/Column/Data/Load.antt =====
-- src/types/column/factory.rs: `load_data`, and `load` of each column implementation.
use clickhouse_rs.Prelude.{
  ℕ, zero, suc, ◌*◌, ◌==◌, not, if◌then◌else◌, List, [], ◌++◌, Bytes, Option, some, none, ◌⊎◌,
  bit_and,
}
use clickhouse_rs.Prelude.Int.{ℤ}
use clickhouse_rs.Errors.{driver, other, deserialize, text}
use clickhouse_rs.Wire.Outcome.{M, Read, pure, throw, panics, out_of_fuel, ◌>>=◌, ◌>>◌}
use clickhouse_rs.Wire.Scalar.{u64}
use clickhouse_rs.Wire.ReadEx.{read_bytes, read_scalar}
use clickhouse_rs.SqlType.{match_text}
use clickhouse_rs.Text.{codes, eq_ignore_ascii_case}
use clickhouse_rs.Column.Names.{
  of_option, NoBits, parse_fixed_string, parse_nullable_type, parse_array_type, parse_map_type,
  parse_simple_agg_fun, parse_decimal, parse_low_cardinality,
}
use clickhouse_rs.Column.Data.{
  index_u8, get_flags, AnyColumnData, fixed_strings, date_times, date_times64, nullables, arrays,
  maps, decimals, enums8, enums16, simple_aggregates, low_cardinalities,
}
use clickhouse_rs.Column.Data.Plain.{
  Plain, plain_names, words, last_offset, nobits_name, from_flags, if_parsed, load_fixed,
  load_plain, get_timezone, read_prefix, load_index, or_deserialize,
}

-- The parsers of type names that are built with the crate `combine`, as Column.Data.Combine has them, and of
-- chrono_tz: the parser of a time zone, which answers an error's text or the zone, and the `Debug` text of one.
pub record TypeParsers (Tz : Type 0) : Type 0 where
  pub parse_enum8 : Bytes → Option (List (Bytes × ℤ))
  pub parse_enum16 : Bytes → Option (List (Bytes × ℤ))
  pub parse_date_time : Bytes → Option (Option Bytes)
  pub parse_date_time64 : Bytes → Option (ℕ × Option Bytes)
  pub parse_tz : Bytes → Bytes ⊎ Tz
  pub show_tz : Tz → Bytes

module _ {Tz S : Type 0} ⦃r : Read S⦄ where
  module _ (parsers : TypeParsers Tz) (load_data : Bytes → ℕ → Tz → M S (AnyColumnData Tz)) where
    unfoldable pub load_nullable : Bytes → ℕ → Tz → M S (AnyColumnData Tz)
    load_nullable type_name size tz = do
      nulls ← read_bytes size
      inner ← load_data type_name size tz
      pure (nullables nulls inner)

    unfoldable pub load_array : Bytes → ℕ → Tz → M S (AnyColumnData Tz)
    load_array type_name rows tz = do
      memory ← read_bytes (rows * 8)
      inner ← load_data type_name (last_offset (words rows memory)) tz
      pure (arrays (words rows memory) inner)

    unfoldable pub load_map : Bytes × Bytes → ℕ → Tz → M S (AnyColumnData Tz)
    load_map types rows tz = do
      memory ← read_bytes (rows * 8)
      keys ← load_data types.0 (last_offset (words rows memory)) tz
      values ← load_data types.1 (last_offset (words rows memory)) tz
      pure (maps (last_offset (words rows memory)) (words rows memory) keys values)

    unfoldable pub load_decimal : ℕ × ℕ × NoBits → ℕ → Tz → M S (AnyColumnData Tz)
    load_decimal (precision, scale, nobits) size tz = do
      inner ← load_data (nobits_name nobits) size tz
      pure (decimals precision scale nobits inner)

    -- `read_inner`, where there are rows.
    unfoldable pub read_dictionary : Bytes → Tz → M S (AnyColumnData Tz)
    unfolding read_prefix from_flags load_index get_flags
    read_dictionary inner_type tz = do
      read_prefix
      flags ← read_scalar u64
      or_deserialize (codes "Invalid index serialization version value") (from_flags flags)
          λ index_type.
            (if not (bit_and flags 0x100 == 0)
              then throw (driver (deserialize (codes "Global dictionary is not supported.")))
              else if bit_and flags 0x200 == 0
              then throw (driver (deserialize (codes "HasAdditionalKeysBit is missing.")))
              else (do
                new_index_column ← read_scalar u64
                inner ← load_data inner_type new_index_column tz
                keys_rows ← read_scalar u64
                keys ← load_index keys_rows index_type
                if flags == get_flags keys.kind
                    then pure (low_cardinalities keys inner)
                    else panics))

    unfoldable pub read_inner : Bytes → ℕ → Tz → M S (AnyColumnData Tz)
    unfolding read_dictionary
    read_inner inner_type size tz =
        if size == 0
        then (do
          inner ← load_data inner_type size tz
          keys ← load_index size index_u8
          pure (low_cardinalities keys inner))
        else read_dictionary inner_type tz

    -- The names with parts, in the order in which they are tried.
    unfoldable pub load_parts : Bytes → ℕ → Tz → M S (AnyColumnData Tz)
    unfolding load_nullable load_array load_map load_decimal get_timezone read_inner load_fixed
    load_parts type_name size tz =
        if_parsed (parse_nullable_type type_name) (λ inner. load_nullable inner size tz)
          (if_parsed (parse_fixed_string type_name)
            (λ str_len. do buffer ← load_fixed size str_len []; pure (fixed_strings buffer str_len))
            (if_parsed (parse_array_type type_name) (λ inner. load_array inner size tz)
              (if_parsed (parse_map_type type_name) (λ types. load_map types size tz)
                (if_parsed (parse_decimal type_name) (λ d. load_decimal d size tz)
                  (if_parsed (of_option (parsers.parse_enum8 type_name))
                    (λ items. do
                      inner ← load_data (codes "Int8") size tz
                      pure (enums8 items inner))
                    (if_parsed (of_option (parsers.parse_enum16 type_name))
                      (λ items. do
                        inner ← load_data (codes "Int16") size tz
                        pure (enums16 items inner))
                      (if_parsed (of_option (parsers.parse_date_time type_name))
                        (λ timezone. do
                          zone ← get_timezone parsers.parse_tz timezone tz
                          memory ← read_bytes (size * 4)
                          pure (date_times memory zone))
                        (if_parsed (of_option (parsers.parse_date_time64 type_name))
                          (λ p. do
                            zone ← get_timezone parsers.parse_tz p.1 tz
                            memory ← read_bytes (size * 8)
                            pure (date_times64 memory p.0 zone))
                          (if_parsed (parse_simple_agg_fun type_name)
                            (λ p. do
                              inner ← load_data p.1 size tz
                              pure (simple_aggregates p.0 inner))
                            (if_parsed (parse_low_cardinality type_name)
                              (λ inner. read_inner inner size tz)
                              (throw (
                                other (
                                  text (
                                    codes "Unsupported column type \""
                                    ++ (type_name ++ codes "\".")))))))))))))))

    abbrev pub load_named : Option Plain → Bytes → ℕ → Tz → M S (AnyColumnData Tz)
    load_named (some p) type_name size tz = load_plain p size tz
    load_named none type_name size tz = load_parts type_name size tz

    -- One call of `load_data`, which calls itself for a part.
    unfoldable pub load_step : Bytes → ℕ → Tz → M S (AnyColumnData Tz)
    unfolding load_plain load_parts
    load_step type_name size tz =
        load_named (match_text eq_ignore_ascii_case plain_names type_name) type_name size tz

  -- `load_data`; a part has a shorter name, so one call more than the name has bytes is enough.
  unfoldable pub load_data : TypeParsers Tz → ℕ → Bytes → ℕ → Tz → M S (AnyColumnData Tz)
  unfolding load_step
  load_data parsers zero type_name size tz = out_of_fuel
  load_data parsers (suc fuel) type_name size tz =
      load_step parsers (load_data parsers fuel) type_name size tz
