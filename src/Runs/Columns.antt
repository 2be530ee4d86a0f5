-- ===== src/Runs/Columns.antt =====
-- Runs of src/types/column and of the parsers of type names.
use clickhouse_rs.Prelude.{
  ltb, ℕ, suc, ◌≡◌, refl, arith, inr, true, List, [], ◌∷◌, ◌++◌, Bytes, length, some, none, All,
}
use clickhouse_rs.Text.{show, digits}
use clickhouse_rs.Column.{col_len, body_len}
use clickhouse_rs.Block.{raw_load, write_block, default_capacity, columns_row_count}
use clickhouse_rs.Block.Info.{default}
use clickhouse_rs.Block.RoundTrip.{to_column, raw_load-write_block}
use clickhouse_rs.Runs.Sample.{any_text}
use clickhouse_rs.Prelude.{map}
use clickhouse_rs.Wire.Outcome.{done, cursor_read}
use clickhouse_rs.Text.Slices.{Other}
use clickhouse_rs.Text.{codes}
use clickhouse_rs.SqlType.{to_string, SimpleAggFunc, func_name}
use clickhouse_rs.Column.Names.{from_precision, parsed, n32, parse_simple_agg_fun}
use clickhouse_rs.Column.Names.Pairs.{parse_simple_agg_fun-applied}
use clickhouse_rs.Column.Data.{
  number_type, sql_type, AnyColumnData, vector, nullables, arrays, maps, decimals, num_u8, num_i32,
  num_u16, num_i8, enums8, len, save, size_of,
}
use clickhouse_rs.Column.Data.Load.{TypeParsers, load_data}
use clickhouse_rs.Column.Data.Holds.{TypeParserLaws, Holds, name_of}
use clickhouse_rs.Prelude.Int.{ℤ, pos, negsuc}
use clickhouse_rs.Text.{parse, scan, show_signed}
use clickhouse_rs.SqlType.{SqlType}
use clickhouse_rs.Runs.Parsers.{some_combine, some_combine_laws}
use clickhouse_rs.Column.Data.Combine.{
  type_parsers, parse_enum, parse_enum8, parse_date_time, parse_date_time64,
}
use clickhouse_rs.Column.Data.Combine.Laws.{type_parsers_laws}
use clickhouse_rs.Column.Data.Combine.RoundTrip.{load_data-save}
use clickhouse_rs.Column.Data.LoadBack.{column_data, column_data_laws}
use clickhouse_rs.Column.Data.Chunked.{save-behind}
use clickhouse_rs.Column.Data.Whole.{words_bytes}
use clickhouse_rs.Column.Concat.{with_elem}

-- The parsers over a `combine` that runs; a time zone is a number.
abbrev pub some_parsers : TypeParsers ℕ
some_parsers = type_parsers some_combine (λ s. inr (length s)) (λ z. codes "UTC")

pub some_parsers_laws : TypeParserLaws some_parsers
some_parsers_laws =
    type_parsers_laws some_combine some_combine_laws (λ s. inr (length s)) (λ z. codes "UTC")

-- A map from UInt8 to arrays of Nullable(Decimal(9, 4)), of two rows: {7: [], 8: [null]} and {9: [1, 2]}.
abbrev some_column : AnyColumnData ℕ
some_column = maps 3 (2 ∷ 3 ∷ []) (vector num_u8 (7 ∷ 8 ∷ 9 ∷ [])) (
    arrays (0 ∷ 1 ∷ 3 ∷ []) (
      nullables (1 ∷ 0 ∷ 0 ∷ [])
        (decimals 9 4 n32 (vector num_i32 (0 ∷ 0 ∷ 0 ∷ 0 ∷ 1 ∷ 0 ∷ 0 ∷ 0 ∷ 2 ∷ 0 ∷ 0 ∷ 0 ∷ [])))))

no_comma : (b : ℕ) → ltb b'-' b ≡ true → ltb b 128 ≡ true → Other b',' b
no_comma b h k = (λ e. absurd (ground arith), ground arith)

key_name : All (Other b',') (codes "UInt8")
key_name = (
  no_comma b'U' refl refl,
  (
    no_comma b'I' refl refl,
    (no_comma b'n' refl refl, (no_comma b't' refl refl, (no_comma b'8' refl refl, tt))),
  ),
)

some_column-Holds : Holds some_parsers 0 some_column
unfolding Holds len sql_type number_type to_string size_of from_precision
some_column-Holds = (
  ((3, refl), refl, key_name),
  (
    (
      ((refl, omega arith, (_, refl, (3, refl))), refl, refl),
      refl,
      (omega arith, (omega arith, (omega arith, tt))),
    ),
    refl,
  ),
  refl,
  (omega arith, (omega arith, tt)),
)

-- An enum that is read back from its name.
abbrev some_enum : List (Bytes × ℤ)
some_enum = (codes "on", negsuc 0) ∷ (codes "off", pos 12) ∷ []

enum_read_back :
    some_parsers.parse_enum8 (to_string some_parsers.show_tz (SqlType.enum8 some_enum))
    ≡ some some_enum
unfolding parse_enum8 parse_enum to_string parse scan show show_signed digits
enum_read_back = refl

-- A quote in the name of a value is read with its backslash, but printed without one, and then not read.
abbrev quoted_enum : List (Bytes × ℤ)
quoted_enum = (codes "it's", pos 1) ∷ []

quote_read : some_parsers.parse_enum8 (codes "Enum8('it\\'s' = 1)") ≡ some quoted_enum
unfolding parse_enum8 parse_enum parse scan
quote_read = refl

quote_lost :
    some_parsers.parse_enum8 (to_string some_parsers.show_tz (SqlType.enum8 quoted_enum)) ≡ none
unfolding parse_enum8 parse_enum to_string parse scan show show_signed digits
quote_lost = refl

-- A map from UInt8 to arrays of that enum, of two rows.
abbrev enum_column : AnyColumnData ℕ
enum_column =
    maps 2 (1 ∷ 2 ∷ []) (vector num_u8 (7 ∷ 8 ∷ []))
      (arrays (0 ∷ 3 ∷ []) (enums8 some_enum (vector num_i8 (255 ∷ 12 ∷ 12 ∷ []))))

enum_column-Holds : Holds some_parsers 0 enum_column
unfolding Holds len sql_type number_type to_string size_of
enum_column-Holds = (
  ((2, refl), refl, key_name),
  (((enum_read_back, (_, refl, (3, refl))), refl, (omega arith, (omega arith, tt))), refl),
  refl,
  (omega arith, (omega arith, tt)),
)

load_data-save_example :
    (n : ℕ) × (bs : Bytes) × (len enum_column ≡ some n)
    × (save enum_column 0 n [] ≡ some bs)
    × ((rest : Bytes)
        → load_data some_parsers
            (suc (length (name_of some_parsers enum_column)))
            (name_of some_parsers enum_column)
            n
            0
            (bs ++ rest)
          ≡ done enum_column rest)
load_data-save_example =
    load_data-save some_combine some_combine_laws (λ s. inr (length s)) (λ z. codes "UTC") 0
      enum_column enum_column-Holds

zone_read :
    some_parsers.parse_date_time (codes "DateTime('Asia/Tokyo')") ≡ some (some (codes "Asia/Tokyo"))
unfolding parse_date_time
zone_read = refl

precision_read : some_parsers.parse_date_time64 (codes "DateTime64(3)") ≡ some (3, none)
unfolding parse_date_time64 parse scan
precision_read = refl

-- The inner type's own parenthesis is lost.
parse_simple_agg_fun-applied_example :
    parse_simple_agg_fun (codes "SimpleAggregateFunction(groupArrayArray, Array(UInt8))")
    ≡ parsed (SimpleAggFunc.group_array_array, codes "Array(UInt8")
unfolding func_name
parse_simple_agg_fun-applied_example =
    parse_simple_agg_fun-applied SimpleAggFunc.group_array_array (codes "Array(UInt8") (b')' ∷ [])
      (record { upper = refl; tight = refl }) refl (refl, tt)

-- Two rows of arrays, of which the second is sent on its own.
abbrev some_numbers : AnyColumnData ℕ
some_numbers = vector num_u8 (1 ∷ 2 ∷ 3 ∷ [])

save-behind_example :
    (save (arrays ((2 ∷ []) ++ 3 ∷ []) some_numbers) 1 2 []
      ≡ save some_numbers 0 3 ([] ++ words_bytes (3 ∷ [])))
    × (save (maps 3 ((2 ∷ []) ++ 3 ∷ []) some_numbers some_numbers) 1 2 []
        ≡ with_elem
            (save some_numbers 0 3 ([] ++ words_bytes (3 ∷ [])))
            (λ written. save some_numbers 0 3 written))
save-behind_example = save-behind (2 ∷ []) (3 ∷ []) some_numbers some_numbers some_numbers 3 []

-- A block of that column and of numbers, written and loaded by the implementations.
abbrev some_entries : List (Bytes × AnyColumnData ℕ)
some_entries = (codes "m", some_column) ∷ (codes "n", vector num_u16 (1 ∷ 0 ∷ 2 ∷ 1 ∷ [])) ∷ []

block_of_columns :
    raw_load (column_data some_parsers) any_text 0 54454 (
      write_block
        (column_data some_parsers)
        (record { info = default; columns = map to_column some_entries; capacity = 2 })
        54454
        []
      ++ 9 ∷ [])
    ≡ done
        (record {
          info = default;
          columns = map to_column some_entries;
          capacity = default_capacity;
        })
        (9 ∷ [])
unfolding columns_row_count col_len body_len len size_of to_string sql_type number_type Holds show
    digits
block_of_columns =
    raw_load-write_block (column_data some_parsers)
      (column_data_laws some_parsers some_parsers_laws) any_text default some_entries 2 0 54454
      (9 ∷ []) (omega arith) (omega arith) (omega arith)
      (
        record {
          named = record { fits = omega arith; valid = refl };
          typed = record { fits = omega arith; valid = refl };
          held = some_column-Holds;
          sized = refl;
        },
        (
          record {
            named = record { fits = omega arith; valid = refl };
            typed = record { fits = omega arith; valid = refl };
            held = (2, refl);
            sized = refl;
          },
          tt,
        ),
      )
