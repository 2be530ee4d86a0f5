-- ===== src/Column/Data/Plain.antt =====
-- src/types/column: `load` of the column implementations, the types without parts first.
use clickhouse_rs.Prelude.{
  ℕ, zero, suc, ◌*◌, ◌==◌, if◌then◌else◌, List, [], ◌∷◌, ◌++◌, Bytes, take, drop, Option, some,
  none, ◌⊎◌, inl, inr, bit_and,
}
use clickhouse_rs.Errors.{driver, other, deserialize, text}
use clickhouse_rs.Wire.Outcome.{M, Read, pure, throw, panics, ◌>>=◌}
use clickhouse_rs.Wire.Scalar.{u64, from_le_bytes}
use clickhouse_rs.Wire.ReadEx.{read_bytes, read_scalar, read_uvarint}
use clickhouse_rs.StringPool.{StringPool, with_capacity, allocate, write_all}
use clickhouse_rs.Text.{codes}
use clickhouse_rs.Column.Names.{Parsed, panicked, rejected, parsed, NoBits, n32, n64}
use clickhouse_rs.Column.Data.{
  Number, num_bool, num_u8, num_u16, num_u32, num_u64, num_u128, num_i8, num_i16, num_i32, num_i64,
  num_i128, num_f32, num_f64, size_of, IpVersion, ip_v4, ip_v6, ip_uuid, ip_size, IndexType,
  index_u8, index_u16, index_u32, index_u64, index_size, LowCardinalityIndex,
  low_cardinality_version, AnyColumnData, vector, strings, dates, ips,
}

-- The columns whose type's name has no parts.
pub data Plain : Type 0 where
  plain_vector : Number → Plain
  plain_strings plain_dates : Plain
  plain_ips : IpVersion → Plain

-- The literals of `match_str!`, in order.
unfoldable pub plain_names : List (Bytes × Plain)
plain_names =
    (codes "Bool", plain_vector num_bool)
    ∷ (codes "UInt8", plain_vector num_u8)
    ∷ (codes "UInt16", plain_vector num_u16)
    ∷ (codes "UInt32", plain_vector num_u32)
    ∷ (codes "UInt64", plain_vector num_u64)
    ∷ (codes "UInt128", plain_vector num_u128)
    ∷ (codes "Int8", plain_vector num_i8)
    ∷ (codes "TinyInt", plain_vector num_i8)
    ∷ (codes "Int16", plain_vector num_i16)
    ∷ (codes "SmallInt", plain_vector num_i16)
    ∷ (codes "Int32", plain_vector num_i32)
    ∷ (codes "Int", plain_vector num_i32)
    ∷ (codes "Integer", plain_vector num_i32)
    ∷ (codes "Int64", plain_vector num_i64)
    ∷ (codes "BigInt", plain_vector num_i64)
    ∷ (codes "Int128", plain_vector num_i128)
    ∷ (codes "Float32", plain_vector num_f32)
    ∷ (codes "Float", plain_vector num_f32)
    ∷ (codes "Float64", plain_vector num_f64)
    ∷ (codes "Double", plain_vector num_f64)
    ∷ (codes "String", plain_strings)
    ∷ (codes "Char", plain_strings)
    ∷ (codes "Varchar", plain_strings)
    ∷ (codes "Text", plain_strings)
    ∷ (codes "TinyText", plain_strings)
    ∷ (codes "MediumText", plain_strings)
    ∷ (codes "LongText", plain_strings)
    ∷ (codes "Blob", plain_strings)
    ∷ (codes "TinyBlob", plain_strings)
    ∷ (codes "MediumBlob", plain_strings)
    ∷ (codes "LongBlob", plain_strings)
    ∷ (codes "Date", plain_dates)
    ∷ (codes "IPv4", plain_ips ip_v4)
    ∷ (codes "IPv6", plain_ips ip_v6)
    ∷ (codes "UUID", plain_ips ip_uuid)
    ∷ []

-- The memory of `count` u64 values.
abbrev pub words : ℕ → Bytes → List ℕ
words zero memory = []
words (suc count) memory = from_le_bytes (take 8 memory) ∷ words count (drop 8 memory)

abbrev pub last_or : ℕ → List ℕ → ℕ
last_or o [] = o
last_or o (o' ∷ os) = last_or o' os

-- The last offset, 0 without rows.
abbrev pub last_offset : List ℕ → ℕ
last_offset os = last_or 0 os

abbrev pub nobits_name : NoBits → Bytes
nobits_name n32 = codes "Int32"
nobits_name n64 = codes "Int64"

-- `from_flags`, which looks at the lowest byte.
unfoldable pub from_flags : ℕ → Option IndexType
from_flags flags =
    if bit_and flags 0xff == 0
    then some index_u8
    else if bit_and flags 0xff == 1
    then some index_u16
    else if bit_and flags 0xff == 2
    then some index_u32
    else if bit_and flags 0xff == 3
    then some index_u64
    else none

module _ {S : Type 0} ⦃r : Read S⦄ where
  abbrev pub or_panics : {A B : Type 0} → Option A → (A → M S B) → M S B
  or_panics none k = panics
  or_panics (some a) k = k a

  -- `if let Some(a) = parser(type_name) { k a } else { rest }`
  abbrev pub if_parsed : {A B : Type 0} → Parsed A → (A → M S B) → M S B → M S B
  if_parsed panicked k rest = panics
  if_parsed rejected k rest = rest
  if_parsed (parsed a) k rest = k a

  unfoldable pub read_str_into_buffer : StringPool → M S StringPool
  read_str_into_buffer pool = do
    str_len ← read_uvarint
    or_panics (allocate 2 str_len pool)
        λ buffer. do bs ← read_bytes str_len; pure (write_all bs buffer)

  unfoldable pub load_strings : ℕ → StringPool → M S StringPool
  unfolding read_str_into_buffer
  load_strings zero pool = pure pool
  load_strings (suc size) pool = do pool' ← read_str_into_buffer pool; load_strings size pool'

  -- One read for each string, behind what the buffer has.
  unfoldable pub load_fixed : ℕ → ℕ → Bytes → M S Bytes
  load_fixed zero str_len buffer = pure buffer
  load_fixed (suc size) str_len buffer = do
    bs ← read_bytes str_len
    load_fixed size str_len (buffer ++ bs)

  unfoldable pub load_plain : {Tz : Type 0} → Plain → ℕ → Tz → M S (AnyColumnData Tz)
  unfolding load_strings size_of ip_size with_capacity
  load_plain (plain_vector t) size tz = do
    memory ← read_bytes (size * size_of t)
    pure (vector t memory)
  load_plain plain_strings size tz = do
    pool ← load_strings size (with_capacity size)
    pure (strings pool)
  load_plain plain_dates size tz = do memory ← read_bytes (size * 2); pure (dates memory tz)
  load_plain (plain_ips v) size tz = do inner ← read_bytes (size * ip_size v); pure (ips v inner)

  unfoldable pub get_timezone : {Tz : Type 0} → (Bytes → Bytes ⊎ Tz) → Option Bytes → Tz → M S Tz
  get_timezone parse_tz none tz = pure tz
  get_timezone parse_tz (some t) tz = elim (parse_tz t) [
    | inl e ↦ throw (other (text (codes "invalid timezone: " ++ e)))
    | inr zone ↦ pure zone
  ]

  unfoldable pub read_prefix : M S (Unit {0})
  read_prefix = do
    version ← read_scalar u64
    if version == low_cardinality_version
        then pure tt
        else throw (driver (deserialize (codes "Invalid low cardinality version")))

  unfoldable pub load_index : ℕ → IndexType → M S LowCardinalityIndex
  unfolding index_size
  load_index size type_ = do
    memory ← read_bytes (size * index_size type_)
    pure (record { kind = type_; memory = memory })

  abbrev pub or_deserialize : {A B : Type 0} → Bytes → Option A → (A → M S B) → M S B
  or_deserialize message none k = throw (driver (deserialize message))
  or_deserialize message (some a) k = k a
