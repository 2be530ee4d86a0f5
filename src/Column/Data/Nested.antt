-- ===== src/Column/Data/Nested.antt =====
-- The columns with parts are loaded back, if their parts are.
use clickhouse_rs.Prelude.{
  ℕ, zero, suc, ◌-◌, ◌*◌, ◌≤◌, ◌<◌, ◌≡◌, ◌∙◌, arith, false, List, [], ◌∷◌, ◌++◌, Bytes, length,
  length-append, some, none, All, IsU64,
}
use clickhouse_rs.Wire.Outcome.{done, cursor_read}
use clickhouse_rs.Prelude.Int.{ℤ}
use clickhouse_rs.Text.Slices.{Other, last_of}
use clickhouse_rs.Text.{codes, starts_with}
use clickhouse_rs.SqlType.{SimpleAggFunc, SqlType, to_string, applied, comma, func_name}
use clickhouse_rs.SqlType.Names.{to_string-IsName}
use clickhouse_rs.Column.Names.{is_parenthesis, from_precision, NoBits, n32, n64}
use clickhouse_rs.Column.Data.{
  Number, AnyColumnData, vector, nullables, arrays, maps, decimals, enums8, enums16,
  simple_aggregates, size_of, number_type, sql_type, save, num_i8, num_i16, num_i32, num_i64,
}
use clickhouse_rs.Column.Data.Plain.{last_offset}
use clickhouse_rs.Column.Data.Load.{
  TypeParsers, load_data, load_nullable, load_array, load_map, load_decimal,
}
use clickhouse_rs.Column.Data.Appends.{save-AppendsTo}
use clickhouse_rs.Column.Data.Whole.{
  save_data-whole, read_bytes-whole, words_bytes, length-words_bytes, words-words_bytes,
  save_offsets-whole,
}
use clickhouse_rs.Column.Data.Holds.{TypeParserLaws, nobits_number, nobits_size, name_of}
use clickhouse_rs.Column.Data.Named.{
  nullable_step, array_step, map_step, decimal_step, enum8_step, enum16_step, aggregate_step,
}
use mathlib.Core.List.{append_assoc}
use clickhouse_rs.Column.Data.Leaves.{Loads, by_step, vector_named}

module _ {Tz : Type 0} (parsers : TypeParsers Tz) (laws : TypeParserLaws parsers) (tz : Tz) where
  -- The name of a part is shorter.
  applied_longer :
      (name inner : Bytes) (fuel : ℕ) → length (applied name inner) ≤ fuel → length inner < fuel
  applied_longer name inner fuel h =
      omega
        (arith, length-append name (b'(' ∷ (inner ++ b')' ∷ [])), length-append inner (b')' ∷ []))

  -- So is each of two arguments.
  first_shorter :
      (name a b : Bytes) (fuel : ℕ) → length (applied name (comma a b)) ≤ fuel → length a < fuel
  first_shorter name a b fuel h =
      let inner = applied_longer name (comma a b) fuel h in
      omega (arith, length-append a (b',' ∷ b' ' ∷ b))

  second_shorter :
      (name a b : Bytes) (fuel : ℕ) → length (applied name (comma a b)) ≤ fuel → length b < fuel
  second_shorter name a b fuel h =
      let inner = applied_longer name (comma a b) fuel h in
      omega (arith, length-append a (b',' ∷ b' ' ∷ b))

  pub nullable_Loads :
      (nulls : Bytes) (inner : AnyColumnData Tz) (n : ℕ)
      → length nulls ≡ n
      → starts_with (name_of parsers inner) (codes "Nullable") ≡ false
      → Loads parsers laws tz inner n
      → Loads parsers laws tz (nullables nulls inner) n
  unfolding save sql_type to_string load_nullable
  nullable_Loads nulls inner n hn hs (bs, saved, back) =
      by_step parsers laws tz (nullables nulls inner) n (nulls ++ bs)
        (rw (save_data-whole 1 n nulls [] (omega arith), save-AppendsTo inner 0 n nulls, saved))
        λ fuel rest k. rw (
          nullable_step parsers laws (load_data parsers fuel) n tz (name_of parsers inner)
              (to_string-IsName parsers.show_tz (sql_type inner)) hs,
          append_assoc nulls bs rest,
          read_bytes-whole n nulls (bs ++ rest) hn,
          back fuel rest (applied_longer (codes "Nullable") (name_of parsers inner) fuel k),
        )

  pub array_Loads :
      (os : List ℕ) (inner : AnyColumnData Tz)
      → All IsU64 os
      → Loads parsers laws tz inner (last_offset os)
      → Loads parsers laws tz (arrays os inner) (length os)
  unfolding save sql_type to_string load_array
  array_Loads os inner hu (bs, saved, back) =
      let count : length os - 0 ≡ length os = omega arith in
      by_step parsers laws tz (arrays os inner) (length os) (words_bytes os ++ bs)
        (rw (
          count,
          save_offsets-whole os [],
          save-AppendsTo inner 0 (last_offset os) (words_bytes os),
          saved,
        ))
        λ fuel rest k. rw (
          array_step parsers laws (load_data parsers fuel) (length os) tz (name_of parsers inner)
              (to_string-IsName parsers.show_tz (sql_type inner)),
          append_assoc (words_bytes os) bs rest,
          read_bytes-whole (length os * 8) (words_bytes os) (bs ++ rest) (length-words_bytes os),
          words-words_bytes os hu,
          back fuel rest (applied_longer (codes "Array") (name_of parsers inner) fuel k),
        )

  pub map_Loads :
      (size : ℕ) (os : List ℕ) (keys values : AnyColumnData Tz)
      → size ≡ last_offset os
      → All IsU64 os
      → All (Other b',') (name_of parsers keys)
      → Loads parsers laws tz keys (last_offset os)
      → Loads parsers laws tz values (last_offset os)
      → Loads parsers laws tz (maps size os keys values) (length os)
  unfolding save sql_type to_string load_map
  map_Loads size os keys values hs hu hc (ks, saved_k, back_k) (vs, saved_v, back_v) =
      let count : length os - 0 ≡ length os = omega arith in
      let kn = name_of parsers keys in
      let vn = name_of parsers values in
      by_step parsers laws tz (maps size os keys values) (length os) (words_bytes os ++ (ks ++ vs))
        (rw (
          count,
          save_offsets-whole os [],
          save-AppendsTo keys 0 (last_offset os) (words_bytes os),
          saved_k,
          save-AppendsTo values 0 (last_offset os) (words_bytes os ++ ks),
          saved_v,
          append_assoc (words_bytes os) ks vs,
        ))
        λ fuel rest k. rw (
          map_step parsers laws (load_data parsers fuel) (length os) tz kn vn
              (to_string-IsName parsers.show_tz (sql_type keys))
              (to_string-IsName parsers.show_tz (sql_type values)) hc,
          append_assoc (words_bytes os) (ks ++ vs) rest,
          append_assoc ks vs rest,
          read_bytes-whole (length os * 8) (words_bytes os) (ks ++ (vs ++ rest))
              (length-words_bytes os),
          words-words_bytes os hu,
          back_k fuel (vs ++ rest) (first_shorter (codes "Map") kn vn fuel k),
          back_v fuel rest (second_shorter (codes "Map") kn vn fuel k),
          hs,
        )

  pub aggregate_Loads :
      (f : SimpleAggFunc) (inner : AnyColumnData Tz) (n : ℕ)
      → is_parenthesis (last_of (name_of parsers inner)) ≡ false
      → Loads parsers laws tz inner n
      → Loads parsers laws tz (simple_aggregates f inner) n
  unfolding save sql_type to_string
  aggregate_Loads f inner n hl (bs, saved, back) =
      by_step parsers laws tz (simple_aggregates f inner) n bs saved λ fuel rest k.
        aggregate_step parsers laws (load_data parsers fuel) n tz f (name_of parsers inner)
          (bs ++ rest) (to_string-IsName parsers.show_tz (sql_type inner)) hl
        ∙ rw (
            back fuel rest (
              second_shorter (codes "SimpleAggregateFunction") (func_name f) (name_of parsers inner)
                fuel k))

  -- A vector that is read by its own name.
  int_read :
      (t : Number) (n : ℕ) (m rest : Bytes) (fuel : ℕ)
      → length m ≡ n * size_of t
      → 0 < fuel
      → load_data parsers fuel (to_string parsers.show_tz (number_type t)) n tz (m ++ rest)
        ≡ done (vector t m) rest
  unfolding load_data
  int_read t n m rest zero h k = absurd (omega arith)
  int_read t n m rest (suc fuel) h k = rw (
    vector_named parsers laws tz t n (load_data parsers fuel),
    read_bytes-whole (n * size_of t) m rest h,
  )

  pub decimal_Loads :
      (precision scale : ℕ) (nobits : NoBits) (m : Bytes) (n : ℕ)
      → from_precision precision ≡ some nobits
      → scale ≤ precision
      → length m ≡ n * nobits_size nobits
      → Loads parsers laws tz (decimals precision scale nobits (vector (nobits_number nobits) m)) n
  unfolding save sql_type to_string load_decimal size_of number_type
  decimal_Loads precision scale n32 m n hp hs h =
      by_step parsers laws tz _ n m (save_data-whole 4 n m [] h) λ fuel rest k. rw (
        decimal_step parsers laws (load_data parsers fuel) n tz precision scale n32 hp hs,
        int_read num_i32 n m rest fuel h (omega arith),
      )
  decimal_Loads precision scale n64 m n hp hs h =
      by_step parsers laws tz _ n m (save_data-whole 8 n m [] h) λ fuel rest k. rw (
        decimal_step parsers laws (load_data parsers fuel) n tz precision scale n64 hp hs,
        int_read num_i64 n m rest fuel h (omega arith),
      )

  pub enum8_Loads :
      (values : List (Bytes × ℤ)) (m : Bytes) (n : ℕ)
      → parsers.parse_enum8 (to_string parsers.show_tz (SqlType.enum8 values)) ≡ some values
      → length m ≡ n * 1
      → Loads parsers laws tz (enums8 values (vector num_i8 m)) n
  unfolding save sql_type to_string size_of number_type
  enum8_Loads values m n hp h =
      by_step parsers laws tz (enums8 values (vector num_i8 m)) n m (save_data-whole 1 n m [] h)
        λ fuel rest k.
          enum8_step parsers laws (load_data parsers fuel) n tz values (m ++ rest) hp
          ∙ rw (int_read num_i8 n m rest fuel h (omega arith))

  pub enum16_Loads :
      (values : List (Bytes × ℤ)) (m : Bytes) (n : ℕ)
      → parsers.parse_enum8 (to_string parsers.show_tz (SqlType.enum16 values)) ≡ none
      → parsers.parse_enum16 (to_string parsers.show_tz (SqlType.enum16 values)) ≡ some values
      → length m ≡ n * 2
      → Loads parsers laws tz (enums16 values (vector num_i16 m)) n
  unfolding save sql_type to_string size_of number_type
  enum16_Loads values m n hn hp h =
      by_step parsers laws tz (enums16 values (vector num_i16 m)) n m (save_data-whole 2 n m [] h)
        λ fuel rest k.
          enum16_step parsers laws (load_data parsers fuel) n tz values (m ++ rest) hn hp
          ∙ rw (int_read num_i16 n m rest fuel h (omega arith))
