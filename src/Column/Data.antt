-- ===== src/Column/Data.antt =====
-- src/types/column: the implementations of `ColumnData`: numeric.rs, string.rs, fixed_string.rs, date.rs,
-- datetime64.rs, ip.rs, nullable.rs, array.rs, map.rs, decimal.rs, enums.rs, simple_agg_func.rs and
-- low_cardinality.rs. The memory of a vector is its bytes, on a little-endian machine. The index from a
-- value to its number that `LowCardinalityColumnData` keeps is not there after a load.
pub mod Plain
pub mod Load
pub mod Appends
pub mod Whole
pub mod Holds
pub mod Named
pub mod Leaves
pub mod Nested
pub mod Dictionary
pub mod LoadBack
pub mod Chunked
pub mod Steady
pub mod Combine
use clickhouse_rs.Prelude.{
  ℕ, zero, suc, ◌+◌, ◌-◌, ◌*◌, ◌/◌, ltb, leb, ◌==◌, ◌&&◌, if◌then◌else◌, Bool, true, false, List,
  [], ◌∷◌, Bytes, length, take, drop, get_elem?, Option, some, none,
}
use clickhouse_rs.Prelude.Int.{ℤ}
use clickhouse_rs.Wire.Scalar.{u64}
use clickhouse_rs.Wire.Encoder.{Encoder, write, write_bytes, byte_string}
use clickhouse_rs.StringPool.{StringPool, get}
use clickhouse_rs.SqlType.{SqlType, SimpleAggFunc, DateTimeType}
use clickhouse_rs.Column.Concat.{with_elem}
use clickhouse_rs.Column.Names.{NoBits}

-- The type parameter of `VectorColumnData`.
pub data Number : Type 0 where
  num_bool num_u8 num_u16 num_u32 num_u64 num_u128 : Number
  num_i8 num_i16 num_i32 num_i64 num_i128 num_f32 num_f64 : Number

unfoldable pub size_of : Number → ℕ
size_of num_bool = 1
size_of num_u8 = 1
size_of num_u16 = 2
size_of num_u32 = 4
size_of num_u64 = 8
size_of num_u128 = 16
size_of num_i8 = 1
size_of num_i16 = 2
size_of num_i32 = 4
size_of num_i64 = 8
size_of num_i128 = 16
size_of num_f32 = 4
size_of num_f64 = 8

-- `HasSqlType`
unfoldable pub number_type : {Tz : Type 0} → Number → SqlType Tz
number_type num_bool = SqlType.bool
number_type num_u8 = SqlType.uint8
number_type num_u16 = SqlType.uint16
number_type num_u32 = SqlType.uint32
number_type num_u64 = SqlType.uint64
number_type num_u128 = SqlType.uint128
number_type num_i8 = SqlType.int8
number_type num_i16 = SqlType.int16
number_type num_i32 = SqlType.int32
number_type num_i64 = SqlType.int64
number_type num_i128 = SqlType.int128
number_type num_f32 = SqlType.float32
number_type num_f64 = SqlType.float64

-- The implementations of `IpVersion`.
pub data IpVersion : Type 0 where
  ip_v4 ip_v6 ip_uuid : IpVersion

unfoldable pub ip_size : IpVersion → ℕ
ip_size ip_v4 = 4
ip_size ip_v6 = 16
ip_size ip_uuid = 16

unfoldable pub ip_type : {Tz : Type 0} → IpVersion → SqlType Tz
ip_type ip_v4 = SqlType.ipv4
ip_type ip_v6 = SqlType.ipv6
ip_type ip_uuid = SqlType.uuid

pub data IndexType : Type 0 where
  index_u8 index_u16 index_u32 index_u64 : IndexType

unfoldable pub index_size : IndexType → ℕ
index_size index_u8 = 1
index_size index_u16 = 2
index_size index_u32 = 4
index_size index_u64 = 8

-- `LowCardinalityIndex`: which vector it is, and the vector's memory.
pub record LowCardinalityIndex : Type 0 where
  pub kind : IndexType
  pub memory : Bytes

-- `HAS_ADDITIONAL_KEYS_BIT | NEED_UPDATE_DICTIONARY_BIT` and the number of the type.
unfoldable pub get_flags : IndexType → ℕ
get_flags index_u8 = 0 + 1536
get_flags index_u16 = 1 + 1536
get_flags index_u32 = 2 + 1536
get_flags index_u64 = 3 + 1536

abbrev pub low_cardinality_version : ℕ
low_cardinality_version = 1

-- The types that implement the trait; a field `inner` comes last.
pub data AnyColumnData (Tz : Type 0) : Type 0 where
  vector : Number → Bytes → AnyColumnData Tz
  strings : StringPool → AnyColumnData Tz
  fixed_strings : Bytes → ℕ → AnyColumnData Tz
  dates date_times : Bytes → Tz → AnyColumnData Tz
  date_times64 : Bytes → ℕ → Tz → AnyColumnData Tz
  ips : IpVersion → Bytes → AnyColumnData Tz
  nullables : Bytes → AnyColumnData Tz → AnyColumnData Tz
  arrays : List ℕ → AnyColumnData Tz → AnyColumnData Tz
  maps : ℕ → List ℕ → AnyColumnData Tz → AnyColumnData Tz → AnyColumnData Tz
  decimals : ℕ → ℕ → NoBits → AnyColumnData Tz → AnyColumnData Tz
  enums8 enums16 : List (Bytes × ℤ) → AnyColumnData Tz → AnyColumnData Tz
  simple_aggregates : SimpleAggFunc → AnyColumnData Tz → AnyColumnData Tz
  low_cardinalities : LowCardinalityIndex → AnyColumnData Tz → AnyColumnData Tz

-- `&data[from..to]` of bytes; `none` is a panic.
unfoldable pub byte_range : ℕ → ℕ → Bytes → Option Bytes
byte_range from to bs =
    if leb from to && leb to (length bs) then some (take (to - from) (drop from bs)) else none

-- `save_data`, on elements of `width` bytes.
unfoldable pub save_data : ℕ → Bytes → ℕ → ℕ → Encoder → Option Encoder
unfolding byte_range write_bytes
save_data width memory start end encoder =
    with_elem (byte_range (start * width) (end * width) memory) λ bs. some (write_bytes bs encoder)

-- `strings.skip(start).take(count)`, where `index` has been skipped to.
unfoldable pub save_strings : StringPool → ℕ → ℕ → Encoder → Option Encoder
unfolding get byte_string
save_strings pool index zero encoder = some encoder
save_strings pool index (suc count) encoder =
    if ltb index (length pool.pointers)
    then with_elem (get pool index)
        (λ v. save_strings pool (index + 1) count (byte_string v encoder))
    else some encoder

-- The loop over the offsets from `i`, `count` of them: the last one is handed on.
unfoldable pub save_offsets : List ℕ → ℕ → ℕ → ℕ → Encoder → Option (ℕ × Encoder)
unfolding write
save_offsets offsets i zero offset encoder = some (offset, encoder)
save_offsets offsets i (suc count) offset encoder =
    with_elem (get_elem? offsets i) λ o. save_offsets offsets (i + 1) count o (write u64 o encoder)

-- The quotient of a length, which panics at 0.
unfoldable pub checked_div : ℕ → ℕ → Option ℕ
checked_div n zero = none
checked_div n (suc d) = some (n / suc d)

-- `save` of each implementation with an `inner`, given the `save` of the `inner`.
abbrev pub Save : Type 0
Save = ℕ → ℕ → Encoder → Option Encoder

unfoldable pub save_nullable : Bytes → Save → Save
unfolding save_data
save_nullable nulls inner start end encoder =
    with_elem (save_data 1 nulls start end encoder) λ e. inner start end e

unfoldable pub save_array : List ℕ → Save → Save
unfolding save_offsets
save_array offsets inner start end encoder =
    with_elem (save_offsets offsets start (end - start) 0 encoder) λ r. inner 0 r.0 r.1

unfoldable pub save_map : List ℕ → Save → Save → Save
unfolding save_offsets
save_map offsets keys values start end encoder =
    with_elem (save_offsets offsets start (end - start) 0 encoder)
      λ r. with_elem (keys 0 r.0 r.1) λ e. values 0 r.0 e

-- `end - start` underflows where the range is upside down, a panic.
unfoldable pub save_pool : StringPool → Save
unfolding save_strings
save_pool pool start end encoder =
    if leb start end then save_strings pool start (end - start) encoder else none

-- The numbers of the values, after the dictionary.
unfoldable pub save_index : LowCardinalityIndex → Save
unfolding save_data index_size
save_index index start end encoder =
    save_data (index_size index.kind) index.memory start end encoder

unfoldable pub save_low_cardinality : LowCardinalityIndex → Option ℕ → Save → Save
unfolding save_index get_flags
save_low_cardinality index inner_len inner start end encoder =
    let header = write u64 (get_flags index.kind) (write u64 low_cardinality_version encoder) in
    if start == end
    then some encoder
    else with_elem inner_len (λ n.
      with_elem (inner 0 n (write u64 n header))
        (λ e. save_index index start end (write u64 (end - start) e)))

-- `NullableColumnData::len`, which compares the two lengths.
unfoldable pub nullable_len : Bytes → Option ℕ → Option ℕ
nullable_len nulls inner_len = with_elem inner_len λ n. if length nulls == n then some n else none

module _ {Tz : Type 0} where
  unfoldable pub sql_type : AnyColumnData Tz → SqlType Tz
  unfolding number_type ip_type
  sql_type (vector t memory) = number_type t
  sql_type (strings pool) = SqlType.string
  sql_type (fixed_strings buffer str_len) = SqlType.fixed_string str_len
  sql_type (dates memory tz) = SqlType.date
  sql_type (date_times memory tz) = SqlType.date_time DateTimeType.date_time32
  sql_type (date_times64 memory precision tz) =
      SqlType.date_time (DateTimeType.date_time64 precision tz)
  sql_type (ips v inner) = ip_type v
  sql_type (nullables nulls inner) = SqlType.nullable (sql_type inner)
  sql_type (arrays offsets inner) = SqlType.array (sql_type inner)
  sql_type (maps size offsets keys values) = SqlType.map (sql_type keys) (sql_type values)
  sql_type (decimals precision scale nobits inner) = SqlType.decimal precision scale
  sql_type (enums8 values inner) = SqlType.enum8 values
  sql_type (enums16 values inner) = SqlType.enum16 values
  sql_type (simple_aggregates func inner) = SqlType.simple_aggregate_function func (sql_type inner)
  sql_type (low_cardinalities index inner) = SqlType.low_cardinality (sql_type inner)

  -- `len`; `none` is a panic.
  unfoldable pub len : AnyColumnData Tz → Option ℕ
  unfolding size_of ip_size index_size checked_div nullable_len
  len (vector t memory) = some (length memory / size_of t)
  len (strings pool) = some (length pool.pointers)
  len (fixed_strings buffer str_len) = checked_div (length buffer) str_len
  len (dates memory tz) = some (length memory / 2)
  len (date_times memory tz) = some (length memory / 4)
  len (date_times64 memory precision tz) = some (length memory / 8)
  len (ips v inner) = some (length inner / ip_size v)
  len (nullables nulls inner) = nullable_len nulls (len inner)
  len (arrays offsets inner) = some (length offsets)
  len (maps size offsets keys values) = some (length offsets)
  len (decimals precision scale nobits inner) = len inner
  len (enums8 values inner) = len inner
  len (enums16 values inner) = len inner
  len (simple_aggregates func inner) = len inner
  len (low_cardinalities index inner) = some (length index.memory / index_size index.kind)

  -- `save(start, end)`; `none` is a panic.
  unfoldable pub save : AnyColumnData Tz → ℕ → ℕ → Encoder → Option Encoder
  unfolding save_data save_pool save_nullable save_array save_map save_low_cardinality len size_of
      ip_size
  save (vector t memory) start end encoder = save_data (size_of t) memory start end encoder
  save (strings pool) start end encoder = save_pool pool start end encoder
  save (fixed_strings buffer str_len) start end encoder = save_data str_len buffer start end encoder
  save (dates memory tz) start end encoder = save_data 2 memory start end encoder
  save (date_times memory tz) start end encoder = save_data 4 memory start end encoder
  save (date_times64 memory precision tz) start end encoder = none
  save (ips v inner) start end encoder = save_data (ip_size v) inner start end encoder
  save (nullables nulls inner) start end encoder =
      save_nullable nulls (save inner) start end encoder
  save (arrays offsets inner) start end encoder = save_array offsets (save inner) start end encoder
  save (maps size offsets keys values) start end encoder =
      save_map offsets (save keys) (save values) start end encoder
  save (decimals precision scale nobits inner) start end encoder = save inner start end encoder
  save (enums8 values inner) start end encoder = save inner start end encoder
  save (enums16 values inner) start end encoder = save inner start end encoder
  save (simple_aggregates func inner) start end encoder = save inner start end encoder
  save (low_cardinalities index inner) start end encoder =
      save_low_cardinality index (len inner) (save inner) start end encoder
