-- ===== src/Column/Data/Holds.antt =====
-- The columns that can be read back, and what their loading takes from outside.
use clickhouse_rs.Prelude.{
  ℕ, ◌*◌, ◌≤◌, ◌<◌, ◌≡◌, ◌≢◌, ◌⊎◌, leb, ◌&&◌, Bool, true, false, List, [], ◌∷◌, Bytes, length, some,
  none, All, IsU64,
}
use clickhouse_rs.Text.{codes, starts_with}
use clickhouse_rs.Text.Slices.{Other, last_of}
use clickhouse_rs.SqlType.{SqlType, to_string}
use clickhouse_rs.StringPool.{from_vec}
use clickhouse_rs.Column.Names.{NoBits, n32, n64, from_precision, is_parenthesis}
use clickhouse_rs.Column.Data.{
  Number, num_i8, num_i16, num_i32, num_i64, AnyColumnData, vector, strings, fixed_strings, dates,
  date_times, date_times64, ips, nullables, arrays, maps, decimals, enums8, enums16,
  simple_aggregates, low_cardinalities, size_of, ip_size, index_size, index_u8, len, sql_type,
}
use clickhouse_rs.Column.Data.Plain.{last_offset}
use clickhouse_rs.Column.Data.Load.{TypeParsers}

abbrev pub is_capital : ℕ → Bool
is_capital c = leb b'A' c && leb c b'Z'

-- What the parsers of `combine` answer on names that begin with a capital letter, but not with that of their
-- keyword: each takes white space, of which a letter is none, then the keyword of its type. And a `DateTime`
-- without a zone is one. Column.Data.Combine.Laws shows it of them.
pub record TypeParserLaws {Tz : Type 0} (parsers : TypeParsers Tz) : Type 0 where
  pub enum8_keyword :
      (c : ℕ) (s : Bytes) → is_capital c ≡ true → c ≢ b'E' → parsers.parse_enum8 (c ∷ s) ≡ none
  pub enum16_keyword :
      (c : ℕ) (s : Bytes) → is_capital c ≡ true → c ≢ b'E' → parsers.parse_enum16 (c ∷ s) ≡ none
  pub date_time_keyword :
      (c : ℕ) (s : Bytes)
      → is_capital c ≡ true
      → c ≢ b'D'
      → c ≢ b'T'
      → parsers.parse_date_time (c ∷ s) ≡ none
  pub date_time64_keyword :
      (c : ℕ) (s : Bytes)
      → is_capital c ≡ true
      → c ≢ b'D'
      → parsers.parse_date_time64 (c ∷ s) ≡ none
  pub date_time_alone : parsers.parse_date_time (codes "DateTime") ≡ some none

-- A memory of `n` elements.
abbrev pub Elements : Bytes → ℕ → Type 0
Elements memory width = (n : ℕ) × (length memory ≡ n * width)

-- The vector in a decimal or an enum.
abbrev pub IsVector : {Tz : Type 0} → AnyColumnData Tz → Number → ℕ → Type 0
IsVector d t width = (memory : Bytes) × (d ≡ vector t memory) × Elements memory width

abbrev pub nobits_number : NoBits → Number
nobits_number n32 = num_i32
nobits_number n64 = num_i64

abbrev pub nobits_size : NoBits → ℕ
nobits_size n32 = 4
nobits_size n64 = 8

module _ {Tz : Type 0} (parsers : TypeParsers Tz) where
  -- `sql_type().to_string()`
  abbrev pub name_of : AnyColumnData Tz → Bytes
  name_of d = to_string parsers.show_tz (sql_type d)

  -- A column that can be read back on a connection of a time zone. Each memory is of whole elements and each
  -- part of as many rows as its column says. Not among them are, since the code does not read or write them:
  -- fixed strings of length 0, a `Nullable` of a `Nullable`, `DateTime64`, a map whose key's name has a comma,
  -- and an aggregate over a type whose name ends with a parenthesis.
  unfoldable pub Holds : Tz → AnyColumnData Tz → Type 0
  Holds tz (vector t memory) = Elements memory (size_of t)
  Holds tz (strings pool) =
      (ss : List Bytes) × (from_vec ss ≡ some pool) × All (λ s. IsU64 (length s)) ss
  Holds tz (fixed_strings buffer str_len) = Elements buffer str_len × (0 < str_len) × IsU64 str_len
  Holds tz (dates memory zone) = Elements memory 2 × (zone ≡ tz)
  Holds tz (date_times memory zone) = Elements memory 4 × (zone ≡ tz)
  Holds tz (date_times64 memory precision zone) = ⊥
  Holds tz (ips v memory) = Elements memory (ip_size v)
  Holds tz (nullables nulls inner) =
      Holds tz inner
      × (len inner ≡ some (length nulls))
      × (starts_with (name_of inner) (codes "Nullable") ≡ false)
  Holds tz (arrays offsets inner) =
      Holds tz inner × (len inner ≡ some (last_offset offsets)) × All IsU64 offsets
  Holds tz (maps size offsets keys values) =
      (Holds tz keys × (len keys ≡ some (last_offset offsets)) × All (Other b',') (name_of keys))
      × (Holds tz values × (len values ≡ some (last_offset offsets)))
      × (size ≡ last_offset offsets)
      × All IsU64 offsets
  Holds tz (decimals precision scale nobits inner) =
      (from_precision precision ≡ some nobits)
      × (scale ≤ precision)
      × IsVector inner (nobits_number nobits) (nobits_size nobits)
  Holds tz (enums8 values inner) =
      (parsers.parse_enum8 (to_string parsers.show_tz (SqlType.enum8 values)) ≡ some values)
      × IsVector inner num_i8 1
  Holds tz (enums16 values inner) =
      (parsers.parse_enum8 (to_string parsers.show_tz (SqlType.enum16 values)) ≡ none)
      × (parsers.parse_enum16 (to_string parsers.show_tz (SqlType.enum16 values)) ≡ some values)
      × IsVector inner num_i16 2
  Holds tz (simple_aggregates func inner) =
      Holds tz inner × (is_parenthesis (last_of (name_of inner)) ≡ false)
  Holds tz (low_cardinalities index inner) =
      Holds tz inner
      × ((index.memory ≡ []) × (index.kind ≡ index_u8) × (len inner ≡ some 0)
          ⊎ ((n : ℕ) × (length index.memory ≡ n * index_size index.kind)
              × (0 < n)
              × IsU64 n
              × ((k : ℕ) × (len inner ≡ some k) × IsU64 k)))
