-- ===== src/SqlType.antt =====
-- src/types/mod.rs: the types of ClickHouse and their names.
pub mod Names
use clickhouse_rs.Prelude.{
  ℕ, ◌+◌, List, [], ◌∷◌, ◌++◌, Bytes, Bool, true, false, if◌then◌else◌, Option, some, none,
}
use clickhouse_rs.Prelude.Int.{ℤ}
use clickhouse_rs.Text.{codes, bytes_eq, show, show_signed}

module _ (Tz : Type 0) where
  pub data DateTimeType : Type 0 where
    date_time32 chrono : DateTimeType
    date_time64 : ℕ → Tz → DateTimeType

pub data SimpleAggFunc : Type 0 where
  any any_last min max sum sum_with_overflow group_bit_and group_bit_or group_bit_xor :
      SimpleAggFunc
  group_array_array group_uniq_array_array sum_map min_map max_map arg_min arg_max : SimpleAggFunc

-- `From<SimpleAggFunc> for &str`
unfoldable pub func_name : SimpleAggFunc → Bytes
func_name any = codes "any"
func_name any_last = codes "anyLast"
func_name min = codes "min"
func_name max = codes "max"
func_name sum = codes "sum"
func_name sum_with_overflow = codes "sumWithOverflow"
func_name group_bit_and = codes "groupBitAnd"
func_name group_bit_or = codes "groupBitOr"
func_name group_bit_xor = codes "groupBitXor"
func_name group_array_array = codes "groupArrayArray"
func_name group_uniq_array_array = codes "groupUniqArrayArray"
func_name sum_map = codes "sumMap"
func_name min_map = codes "minMap"
func_name max_map = codes "maxMap"
func_name arg_min = codes "argMin"
func_name arg_max = codes "argMax"

-- A `match` on a text is its literals in order.
abbrev pub match_text {ℓ} :
    {A : Type ℓ} → (Bytes → Bytes → Bool) → List (Bytes × A) → Bytes → Option A
match_text eq [] s = none
match_text eq ((literal, a) ∷ cases) s = if eq s literal then some a else match_text eq cases s

-- `FromStr for SimpleAggFunc`
unfoldable pub func_from_str : Bytes → Option SimpleAggFunc
func_from_str s =
    match_text bytes_eq
      ((codes "any", any)
        ∷ (codes "anyLast", any_last)
        ∷ (codes "min", min)
        ∷ (codes "max", max)
        ∷ (codes "sum", sum)
        ∷ (codes "sumWithOverflow", sum_with_overflow)
        ∷ (codes "groupBitAnd", group_bit_and)
        ∷ (codes "groupBitOr", group_bit_or)
        ∷ (codes "groupBitXor", group_bit_xor)
        ∷ (codes "groupArrayArray", group_array_array)
        ∷ (codes "groupUniqArrayArray", group_uniq_array_array)
        ∷ (codes "sumMap", sum_map)
        ∷ (codes "minMap", min_map)
        ∷ (codes "maxMap", max_map)
        ∷ (codes "argMin", arg_min)
        ∷ (codes "argMax", arg_max)
        ∷ [])
      s

pub data SqlType (Tz : Type 0) : Type 0 where
  bool uint8 uint16 uint32 uint64 uint128 int8 int16 int32 int64 int128 string : SqlType Tz
  float32 float64 date ipv4 ipv6 uuid : SqlType Tz
  fixed_string : ℕ → SqlType Tz
  date_time : DateTimeType Tz → SqlType Tz
  nullable array low_cardinality : SqlType Tz → SqlType Tz
  decimal : ℕ → ℕ → SqlType Tz
  enum8 enum16 : List (Bytes × ℤ) → SqlType Tz
  simple_aggregate_function : SimpleAggFunc → SqlType Tz → SqlType Tz
  map : SqlType Tz → SqlType Tz → SqlType Tz

-- One value of an enum, `'{name}' = {value}`.
unfoldable pub enum_pair : Bytes × ℤ → Bytes
enum_pair (name, value) = b'\'' ∷ (name ++ (codes "' = " ++ show_signed value))

-- `join(",")`
unfoldable pub enum_pairs : List (Bytes × ℤ) → Bytes
unfolding enum_pair
enum_pairs [] = []
enum_pairs (p ∷ []) = enum_pair p
enum_pairs (p ∷ q ∷ ps) = enum_pair p ++ (b',' ∷ enum_pairs (q ∷ ps))

-- A name with its arguments.
abbrev pub applied : Bytes → Bytes → Bytes
applied name args = name ++ (b'(' ∷ (args ++ b')' ∷ []))

-- Arguments as `{a}, {b}`.
abbrev pub comma : Bytes → Bytes → Bytes
comma a b = a ++ (b',' ∷ b' ' ∷ b)

module _ {Tz : Type 0} (show_tz : Tz → Bytes) where
  -- `to_string`; `show_tz` is the `Debug` text of a time zone.
  unfoldable pub to_string : SqlType Tz → Bytes
  unfolding enum_pairs func_name
  to_string bool = codes "Bool"
  to_string uint8 = codes "UInt8"
  to_string uint16 = codes "UInt16"
  to_string uint32 = codes "UInt32"
  to_string uint64 = codes "UInt64"
  to_string uint128 = codes "UInt128"
  to_string int8 = codes "Int8"
  to_string int16 = codes "Int16"
  to_string int32 = codes "Int32"
  to_string int64 = codes "Int64"
  to_string int128 = codes "Int128"
  to_string string = codes "String"
  to_string (fixed_string str_len) = applied (codes "FixedString") (show str_len)
  to_string (low_cardinality inner) = applied (codes "LowCardinality") (to_string inner)
  to_string float32 = codes "Float32"
  to_string float64 = codes "Float64"
  to_string date = codes "Date"
  to_string (date_time (date_time64 precision tz)) =
      applied (codes "DateTime64") (comma (show precision) (b'\'' ∷ (show_tz tz ++ b'\'' ∷ [])))
  to_string (date_time date_time32) = codes "DateTime"
  to_string (date_time chrono) = codes "DateTime"
  to_string ipv4 = codes "IPv4"
  to_string ipv6 = codes "IPv6"
  to_string uuid = codes "UUID"
  to_string (nullable nested) = applied (codes "Nullable") (to_string nested)
  to_string (simple_aggregate_function func nested) =
      applied (codes "SimpleAggregateFunction") (comma (func_name func) (to_string nested))
  to_string (array nested) = applied (codes "Array") (to_string nested)
  to_string (decimal precision scale) =
      applied (codes "Decimal") (comma (show precision) (show scale))
  to_string (enum8 values) = applied (codes "Enum8") (enum_pairs values)
  to_string (enum16 values) = applied (codes "Enum16") (enum_pairs values)
  to_string (map k v) = applied (codes "Map") (comma (to_string k) (to_string v))
