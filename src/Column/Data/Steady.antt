-- ===== src/Column/Data/Steady.antt =====
-- src/types/column: loading a column from a buffer that grows, of whatever type.
use clickhouse_rs.Prelude.{
  not, bit_and, ◌==◌, [], ◌≡◌, refl, ℕ, zero, suc, ◌*◌, Bytes, length, ◌++◌, Option, some, none,
  inl, inr, ◌⊎◌,
}
use clickhouse_rs.Wire.Outcome.{M, Cursor, cursor_read, then_do, pure}
use clickhouse_rs.Wire.Scalar.{u64}
use clickhouse_rs.Wire.ReadEx.{read_bytes, read_scalar, read_uvarint}
use clickhouse_rs.Wire.Incremental.{
  Incremental, pure-Incremental, throw-Incremental, panics-Incremental, if-Incremental,
  >>=-Incremental,
}
use clickhouse_rs.Wire.Reads.{
  read_bytes-Incremental, read_scalar-Incremental, read_uvarint-Incremental,
}
use clickhouse_rs.StringPool.{StringPool, allocate}
use clickhouse_rs.SqlType.{match_text}
use clickhouse_rs.Text.{eq_ignore_ascii_case}
use clickhouse_rs.Column.{LoadLaws}
use clickhouse_rs.Column.Names.{
  Parsed, panicked, rejected, parsed, NoBits, of_option, parse_fixed_string, parse_nullable_type,
  parse_array_type, parse_map_type, parse_simple_agg_fun, parse_decimal, parse_low_cardinality,
}
use clickhouse_rs.Column.Data.{
  size_of, ip_size, index_size, IndexType, index_u8, get_flags, low_cardinality_version,
  AnyColumnData,
}
use clickhouse_rs.Column.Data.Plain.{
  Plain, plain_vector, plain_strings, plain_dates, plain_ips, plain_names, or_panics, if_parsed,
  or_deserialize, read_str_into_buffer, load_strings, load_fixed, load_plain, get_timezone,
  read_prefix, load_index, words, last_offset, nobits_name, from_flags,
}
use clickhouse_rs.Column.Data.Load.{
  TypeParsers, load_nullable, load_array, load_map, load_decimal, read_dictionary, read_inner,
  load_parts, load_named, load_step, load_data,
}
use clickhouse_rs.Column.Data.LoadBack.{column_data}

or_panics-Incremental :
    {A B : Type 0} (o : Option A) (k : A → M Cursor B)
    → ((a : A) → Incremental (k a))
    → Incremental (or_panics o k)
or_panics-Incremental none k h = panics-Incremental
or_panics-Incremental (some a) k h = h a

or_deserialize-Incremental :
    {A B : Type 0} (message : Bytes) (o : Option A) (k : A → M Cursor B)
    → ((a : A) → Incremental (k a))
    → Incremental (or_deserialize message o k)
or_deserialize-Incremental message none k h = throw-Incremental _
or_deserialize-Incremental message (some a) k h = h a

if_parsed-Incremental :
    {A B : Type 0} (p : Parsed A) (k : A → M Cursor B) (rest : M Cursor B)
    → ((a : A) → Incremental (k a))
    → Incremental rest
    → Incremental (if_parsed p k rest)
if_parsed-Incremental panicked k rest h hr = panics-Incremental
if_parsed-Incremental rejected k rest h hr = hr
if_parsed-Incremental (parsed a) k rest h hr = h a

sum_cases : {A B : Type 0} (x : A ⊎ B) → ((a : A) × (x ≡ inl a)) ⊎ ((b : B) × (x ≡ inr b))
sum_cases (inl a) = inl (a, refl)
sum_cases (inr b) = inr (b, refl)

-- A read, and what is made of it.
reading :
    {B : Type 0} (n : ℕ) (f : Bytes → B)
    → Incremental {A = B} (λ s. then_do (read_bytes {S = Cursor} n s) (λ bs. pure (f bs)))
reading n f =
    >>=-Incremental (read_bytes n) _ (read_bytes-Incremental n) (λ bs. pure-Incremental (f bs))

read_str_into_buffer-Incremental :
    (pool : StringPool) → Incremental (read_str_into_buffer {S = Cursor} pool)
unfolding read_str_into_buffer
read_str_into_buffer-Incremental pool =
    >>=-Incremental read_uvarint _ read_uvarint-Incremental
      λ n. or_panics-Incremental (allocate 2 n pool) _ λ buffer. reading n _

load_strings-Incremental :
    (size : ℕ) (pool : StringPool) → Incremental (load_strings {S = Cursor} size pool)
unfolding load_strings
load_strings-Incremental zero pool = pure-Incremental pool
load_strings-Incremental (suc size) pool =
    >>=-Incremental (read_str_into_buffer pool) _ (read_str_into_buffer-Incremental pool)
      λ pool'. load_strings-Incremental size pool'

load_fixed-Incremental :
    (size str_len : ℕ) (buffer : Bytes) → Incremental (load_fixed {S = Cursor} size str_len buffer)
unfolding load_fixed
load_fixed-Incremental zero str_len buffer = pure-Incremental buffer
load_fixed-Incremental (suc size) str_len buffer =
    >>=-Incremental (read_bytes str_len) _ (read_bytes-Incremental str_len)
      λ bs. load_fixed-Incremental size str_len (buffer ++ bs)

load_index-Incremental : (size : ℕ) (t : IndexType) → Incremental (load_index {S = Cursor} size t)
unfolding load_index
load_index-Incremental size t = reading (size * index_size t) _

read_prefix-Incremental : Incremental (read_prefix {S = Cursor})
unfolding read_prefix
read_prefix-Incremental =
    >>=-Incremental (read_scalar u64) _ (read_scalar-Incremental u64) λ version.
      if-Incremental (version == low_cardinality_version) _ _ (pure-Incremental tt)
        (throw-Incremental _)

module _ {Tz : Type 0} where
  load_plain-Incremental :
      (p : Plain) (size : ℕ) (tz : Tz) → Incremental (load_plain {S = Cursor} p size tz)
  unfolding load_plain
  load_plain-Incremental (plain_vector t) size tz = reading (size * size_of t) _
  load_plain-Incremental plain_strings size tz =
      >>=-Incremental (load_strings size _) _ (load_strings-Incremental size _)
        λ pool. pure-Incremental _
  load_plain-Incremental plain_dates size tz = reading (size * 2) _
  load_plain-Incremental (plain_ips v) size tz = reading (size * ip_size v) _

  get_timezone-Incremental :
      (parse_tz : Bytes → Bytes ⊎ Tz) (t : Option Bytes) (tz : Tz)
      → Incremental (get_timezone {S = Cursor} parse_tz t tz)
  unfolding get_timezone
  get_timezone-Incremental parse_tz none tz = pure-Incremental tz
  get_timezone-Incremental parse_tz (some t) tz = elim (sum_cases (parse_tz t)) [
    | inl (e, q) ↦ rw (get_timezone, q) (throw-Incremental _)
    | inr (z, q) ↦ rw (get_timezone, q) (pure-Incremental z)
  ]

  module _ (parsers : TypeParsers Tz) (load : Bytes → ℕ → Tz → M Cursor (AnyColumnData Tz))
      (steady : (name : Bytes) (size : ℕ) (tz : Tz) → Incremental (load name size tz)) where
    -- A part of a type, and what is made of it.
    part :
        {B : Type 0} (name : Bytes) (size : ℕ) (tz : Tz) (f : AnyColumnData Tz → B)
        → Incremental {A = B} (λ s. then_do (load name size tz s) (λ d. pure (f d)))
    part name size tz f =
        >>=-Incremental (load name size tz) _ (steady name size tz) (λ d. pure-Incremental (f d))

    load_nullable-Incremental :
        (name : Bytes) (size : ℕ) (tz : Tz) → Incremental (load_nullable parsers load name size tz)
    unfolding load_nullable
    load_nullable-Incremental name size tz =
        >>=-Incremental (read_bytes size) _ (read_bytes-Incremental size)
          λ nulls. part name size tz _

    load_array-Incremental :
        (name : Bytes) (rows : ℕ) (tz : Tz) → Incremental (load_array parsers load name rows tz)
    unfolding load_array
    load_array-Incremental name rows tz =
        >>=-Incremental (read_bytes (rows * 8)) _ (read_bytes-Incremental (rows * 8))
          λ memory. part name (last_offset (words rows memory)) tz _

    load_map-Incremental :
        (types : Bytes × Bytes) (rows : ℕ) (tz : Tz)
        → Incremental (load_map parsers load types rows tz)
    unfolding load_map
    load_map-Incremental types rows tz =
        >>=-Incremental (read_bytes (rows * 8)) _ (read_bytes-Incremental (rows * 8)) λ memory.
          >>=-Incremental (load types.0 (last_offset (words rows memory)) tz) _
            (steady types.0 (last_offset (words rows memory)) tz)
            λ keys. part types.1 (last_offset (words rows memory)) tz _

    load_decimal-Incremental :
        (d : ℕ × ℕ × NoBits) (size : ℕ) (tz : Tz)
        → Incremental (load_decimal parsers load d size tz)
    unfolding load_decimal
    load_decimal-Incremental (precision, scale, nobits) size tz =
        part (nobits_name nobits) size tz _

    read_dictionary-Incremental :
        (name : Bytes) (tz : Tz) → Incremental (read_dictionary parsers load name tz)
    unfolding read_dictionary
    read_dictionary-Incremental name tz = >>=-Incremental read_prefix _ read_prefix-Incremental λ u.
        >>=-Incremental (read_scalar u64) _ (read_scalar-Incremental u64) λ flags.
          or_deserialize-Incremental _ (from_flags flags) _ λ t.
            if-Incremental (not (bit_and flags 0x100 == 0)) _ _ (throw-Incremental _) (
              if-Incremental (bit_and flags 0x200 == 0) _ _ (throw-Incremental _) (
                >>=-Incremental (read_scalar u64) _ (read_scalar-Incremental u64) λ n.
                  >>=-Incremental (load name n tz) _ (steady name n tz) λ inner.
                    >>=-Incremental (read_scalar u64) _ (read_scalar-Incremental u64) λ rows.
                      >>=-Incremental (load_index rows t) _ (load_index-Incremental rows t) λ keys.
                        if-Incremental (flags == get_flags keys.kind) _ _ (pure-Incremental _)
                          panics-Incremental))

    read_inner-Incremental :
        (name : Bytes) (size : ℕ) (tz : Tz) → Incremental (read_inner parsers load name size tz)
    unfolding read_inner
    read_inner-Incremental name size tz =
        if-Incremental (size == 0) _ _
          (>>=-Incremental (load name size tz) _ (steady name size tz) λ inner.
            >>=-Incremental (load_index size index_u8) _ (load_index-Incremental size index_u8)
              λ keys. pure-Incremental _)
          (read_dictionary-Incremental name tz)

    zoned :
        {B : Type 0} (t : Option Bytes) (tz : Tz) (n : ℕ) (f : Tz → Bytes → B)
        → Incremental {A = B} (λ s.
          then_do
            (get_timezone parsers.parse_tz t tz s)
            (λ zone u. then_do (read_bytes n u) (λ m. pure (f zone m))))
    zoned t tz n f =
        >>=-Incremental (get_timezone parsers.parse_tz t tz) _
          (get_timezone-Incremental parsers.parse_tz t tz) (λ zone. reading n (f zone))

    load_parts-Incremental :
        (name : Bytes) (size : ℕ) (tz : Tz) → Incremental (load_parts parsers load name size tz)
    unfolding load_parts
    load_parts-Incremental name size tz =
        if_parsed-Incremental (parse_nullable_type name) _ _
          (λ i. load_nullable-Incremental i size tz)
          (if_parsed-Incremental (parse_fixed_string name) _ _
            (λ n.
              >>=-Incremental (load_fixed size n []) _ (load_fixed-Incremental size n [])
                (λ b. pure-Incremental _))
            (if_parsed-Incremental (parse_array_type name) _ _
              (λ i. load_array-Incremental i size tz)
              (if_parsed-Incremental (parse_map_type name) _ _ (λ t. load_map-Incremental t size tz)
                (if_parsed-Incremental (parse_decimal name) _ _
                  (λ d. load_decimal-Incremental d size tz)
                  (if_parsed-Incremental (of_option (parsers.parse_enum8 name)) _ _
                    (λ items. part _ size tz _)
                    (if_parsed-Incremental (of_option (parsers.parse_enum16 name)) _ _
                      (λ items. part _ size tz _)
                      (if_parsed-Incremental (of_option (parsers.parse_date_time name)) _ _
                        (λ t. zoned t tz (size * 4) _)
                        (if_parsed-Incremental (of_option (parsers.parse_date_time64 name)) _ _
                          (λ p. zoned p.1 tz (size * 8) _)
                          (if_parsed-Incremental (parse_simple_agg_fun name) _ _
                            (λ p. part p.1 size tz _)
                            (if_parsed-Incremental (parse_low_cardinality name) _ _
                              (λ i. read_inner-Incremental i size tz)
                              (throw-Incremental _)))))))))))

    load_named-Incremental :
        (p : Option Plain) (name : Bytes) (size : ℕ) (tz : Tz)
        → Incremental (load_named parsers load p name size tz)
    load_named-Incremental none name size tz = load_parts-Incremental name size tz
    load_named-Incremental (some p) name size tz = load_plain-Incremental p size tz

  load_data-Incremental :
      (parsers : TypeParsers Tz) (fuel : ℕ) (name : Bytes) (size : ℕ) (tz : Tz)
      → Incremental (load_data {S = Cursor} parsers fuel name size tz)
  unfolding load_data load_step
  load_data-Incremental parsers zero name size tz = panics-Incremental
  load_data-Incremental parsers (suc fuel) name size tz =
      load_named-Incremental parsers (load_data parsers fuel) (load_data-Incremental parsers fuel)
        (match_text eq_ignore_ascii_case plain_names name) name size tz

-- The columns of the program keep the contract of loading.
pub column_data_load_laws :
    {Tz : Type 0} (parsers : TypeParsers Tz) → LoadLaws (column_data parsers)
column_data_load_laws parsers = record {
  incremental = λ name size tz. load_data-Incremental parsers (suc (length name)) name size tz;
}
