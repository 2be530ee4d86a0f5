-- ===== src/Column/Data/Named.antt =====
-- Which loader the name of a type leads to.
use clickhouse_rs.Prelude.{
  ℕ, ◌*◌, ◌^◌, ◌≤◌, ◌<◌, ◌≡◌, ◌≢◌, refl, arith, ltb, false, List, [], ◌∷◌, ◌++◌, Bytes, length,
  some, none, All, Bool-cases, inl, inr,
}
use clickhouse_rs.Prelude.Int.{ℤ}
use mathlib.Core.Path.{subst}
use mathlib.Core.List.{append-nil}
use clickhouse_rs.Wire.Outcome.{M, Cursor, cursor_read, then_do, pure}
use clickhouse_rs.Wire.ReadEx.{read_bytes}
use clickhouse_rs.Text.{codes, starts_with, show}
use clickhouse_rs.Text.Slices.{Other, last_of}
use clickhouse_rs.SqlType.{applied, comma, SimpleAggFunc, func_name, enum_pairs}
use clickhouse_rs.SqlType.Names.{IsName}
use clickhouse_rs.Column.Names.{
  rejected, parsed, NoBits, from_precision, is_parenthesis, parse_fixed_string, parse_nullable_type,
  parse_array_type, parse_map_type, parse_simple_agg_fun, parse_decimal,
}
use clickhouse_rs.Column.Names.RoundTrip.{
  parse_array_type-applied, parse_nullable_type-applied, parse_fixed_string-applied,
}
use clickhouse_rs.Column.Names.Pairs.{parse_map_type-applied, parse_simple_agg_fun-applied}
use clickhouse_rs.Column.Names.Decimal.{parse_decimal-applied, parse_low_cardinality-applied}
use clickhouse_rs.Column.Data.{
  AnyColumnData, fixed_strings, simple_aggregates, date_times, enums8, enums16,
}
use clickhouse_rs.Column.Data.Plain.{plain_names, load_fixed, get_timezone}
use clickhouse_rs.Column.Data.Load.{
  TypeParsers, load_step, load_parts, load_nullable, load_array, load_map, load_decimal, read_inner,
}
use clickhouse_rs.Column.Data.Holds.{TypeParserLaws}

abbrev Differ : ℕ → ℕ → Type 0
Differ a b = a ≢ b

-- The first letters of the keywords.
d_not_e : Differ b'D' b'E'
d_not_e e = absurd (omega arith)

s_not_e : Differ b'S' b'E'
s_not_e e = absurd (omega arith)

s_not_d : Differ b'S' b'D'
s_not_d e = absurd (omega arith)

s_not_t : Differ b'S' b'T'
s_not_t e = absurd (omega arith)

l_not_e : Differ b'L' b'E'
l_not_e e = absurd (omega arith)

l_not_d : Differ b'L' b'D'
l_not_d e = absurd (omega arith)

l_not_t : Differ b'L' b'T'
l_not_t e = absurd (omega arith)

module _ {Tz : Type 0} (parsers : TypeParsers Tz) (laws : TypeParserLaws parsers)
    (load : Bytes → ℕ → Tz → M Cursor (AnyColumnData Tz)) (size : ℕ) (tz : Tz) where
  abbrev step : Bytes → M Cursor (AnyColumnData Tz)
  step name = load_step parsers load name size tz

  pub nullable_step :
      (inner : Bytes)
      → IsName inner
      → starts_with inner (codes "Nullable") ≡ false
      → step (applied (codes "Nullable") inner) ≡ load_nullable parsers load inner size tz
  unfolding load_step load_parts plain_names
  nullable_step inner h k = rw (parse_nullable_type-applied inner h k)

  pub fixed_step :
      (n : ℕ)
      → n < 2 ^ 64
      → (s : Cursor)
      → step (applied (codes "FixedString") (show n)) s
        ≡ then_do (load_fixed size n [] s) (λ buffer. pure (fixed_strings buffer n))
  unfolding load_step load_parts plain_names parse_nullable_type
  fixed_step n h s = rw (parse_fixed_string-applied n h)

  pub array_step :
      (inner : Bytes)
      → IsName inner
      → step (applied (codes "Array") inner) ≡ load_array parsers load inner size tz
  unfolding load_step load_parts plain_names parse_nullable_type parse_fixed_string
  array_step inner h = rw (parse_array_type-applied inner h)

  pub map_step :
      (k v : Bytes)
      → IsName k
      → IsName v
      → All (Other b',') k
      → step (applied (codes "Map") (comma k v)) ≡ load_map parsers load (k, v) size tz
  unfolding load_step load_parts plain_names parse_nullable_type parse_fixed_string parse_array_type
  map_step k v hk hv h = rw (parse_map_type-applied k v hk hv h)

  pub decimal_step :
      (precision scale : ℕ) (nobits : NoBits)
      → from_precision precision ≡ some nobits
      → scale ≤ precision
      → step (applied (codes "Decimal") (comma (show precision) (show scale)))
        ≡ load_decimal parsers load (precision, scale, nobits) size tz
  unfolding load_step load_parts plain_names parse_nullable_type parse_fixed_string parse_array_type
      parse_map_type
  decimal_step precision scale nobits hp hs =
      rw (parse_decimal-applied precision scale nobits hp hs)

  parse_decimal_other :
      (s : Bytes) → starts_with s (codes "Decimal") ≡ false → parse_decimal s ≡ rejected
  unfolding parse_decimal
  parse_decimal_other s h = elim (Bool-cases (ltb (length s) 12)) [
    | inl e ↦ rw e
    | inr e ↦ rw (e, h)
  ]

  pub enum8_step :
      (values : List (Bytes × ℤ)) (s : Cursor)
      → parsers.parse_enum8 (applied (codes "Enum8") (enum_pairs values)) ≡ some values
      → step (applied (codes "Enum8") (enum_pairs values)) s
        ≡ then_do (load (codes "Int8") size tz s) (λ inner. pure (enums8 values inner))
  unfolding load_step load_parts plain_names parse_nullable_type parse_fixed_string parse_array_type
      parse_map_type
  enum8_step values s h =
      rw (parse_decimal_other (applied (codes "Enum8") (enum_pairs values)) refl, h)

  pub enum16_step :
      (values : List (Bytes × ℤ)) (s : Cursor)
      → parsers.parse_enum8 (applied (codes "Enum16") (enum_pairs values)) ≡ none
      → parsers.parse_enum16 (applied (codes "Enum16") (enum_pairs values)) ≡ some values
      → step (applied (codes "Enum16") (enum_pairs values)) s
        ≡ then_do (load (codes "Int16") size tz s) (λ inner. pure (enums16 values inner))
  unfolding load_step load_parts plain_names parse_nullable_type parse_fixed_string parse_array_type
      parse_map_type
  enum16_step values s n h =
      rw (parse_decimal_other (applied (codes "Enum16") (enum_pairs values)) refl, n, h)

  pub date_time_step :
      (s : Cursor)
      → step (codes "DateTime") s
        ≡ then_do (read_bytes (size * 4) s) (λ memory. pure (date_times memory tz))
  unfolding load_step load_parts plain_names parse_nullable_type parse_fixed_string parse_array_type
      parse_map_type parse_decimal get_timezone
  date_time_step s = rw (
    laws.enum8_keyword b'D' (codes "ateTime") refl d_not_e,
    laws.enum16_keyword b'D' (codes "ateTime") refl d_not_e,
    laws.date_time_alone,
  )

  pub aggregate_step :
      (f : SimpleAggFunc) (t : Bytes) (s : Cursor)
      → IsName t
      → is_parenthesis (last_of t) ≡ false
      → step (applied (codes "SimpleAggregateFunction") (comma (func_name f) t)) s
        ≡ then_do (load t size tz s) (λ inner. pure (simple_aggregates f inner))
  unfolding load_step load_parts plain_names parse_nullable_type parse_fixed_string parse_array_type
      parse_map_type
  aggregate_step f t s ht hl =
      let args : Bytes =
        b'i' ∷ (codes "mpleAggregateFunction(" ++ (comma (func_name f) t ++ b')' ∷ [])) in
      let read_back =
        subst
          (λ (u : Bytes).
            parse_simple_agg_fun (applied (codes "SimpleAggregateFunction") (comma (func_name f) u))
            ≡ parsed (f, t))
          (append-nil t) (parse_simple_agg_fun-applied f t [] ht hl tt) in
      rw (
        parse_decimal_other (applied (codes "SimpleAggregateFunction") (comma (func_name f) t))
            refl,
        laws.enum8_keyword b'S' args refl s_not_e,
        laws.enum16_keyword b'S' args refl s_not_e,
        laws.date_time_keyword b'S' args refl s_not_d s_not_t,
        laws.date_time64_keyword b'S' args refl s_not_d,
        read_back,
      )

  pub low_cardinality_step :
      (inner : Bytes)
      → IsName inner
      → step (applied (codes "LowCardinality") inner) ≡ read_inner parsers load inner size tz
  unfolding load_step load_parts plain_names parse_nullable_type parse_fixed_string parse_array_type
      parse_map_type parse_simple_agg_fun
  low_cardinality_step inner h =
      let args : Bytes = codes "owCardinality(" ++ (inner ++ b')' ∷ []) in
      rw (
        parse_decimal_other (applied (codes "LowCardinality") inner) refl,
        laws.enum8_keyword b'L' args refl l_not_e,
        laws.enum16_keyword b'L' args refl l_not_e,
        laws.date_time_keyword b'L' args refl l_not_d l_not_t,
        laws.date_time64_keyword b'L' args refl l_not_d,
        parse_low_cardinality-applied inner h,
      )
