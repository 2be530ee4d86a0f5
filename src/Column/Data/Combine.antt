-- ===== src/Column/Data/Combine.antt =====
-- src/types/column/factory.rs: the parsers of type names that are built with the crate `combine`, which is a
-- parameter: a type of parsers with the functions that are called. A character is its bytes.
pub mod Laws
pub mod RoundTrip
use clickhouse_rs.Prelude.{
  ℕ, zero, suc, ◌+◌, ◌^◌, ◌-◌, ◌≡◌, ◌≢◌, ◌==◌, if◌then◌else◌, true, false, List, [], ◌∷◌, Bytes,
  Option, some, none, map, ◌⊎◌,
}
use clickhouse_rs.Prelude.Int.{ℤ, pos, negsuc, to_word, of_word}
use clickhouse_rs.Text.{codes, parse}
use clickhouse_rs.Column.Data.Load.{TypeParsers}
use clickhouse_rs.Column.Data.Holds.{is_capital, TypeParserLaws}

abbrev pub Parsed : Type 0 → Type 0
Parsed A = Option (A × Bytes)

-- `parse` answers the value and the input that is left, or an error.
pub record Combine : Type 1 where
  pub Parser : Type 0 → Type 0
  pub parse : {A : Type 0} → Parser A → Bytes → Parsed A
  pub spaces : Parser (Unit {0})
  pub token : ℕ → Parser ℕ
  pub string : Bytes → Parser Bytes
  pub digit : Parser Bytes
  pub any : Parser Bytes
  pub none_of : Bytes → Parser Bytes
  pub optional : {A : Type 0} → Parser A → Parser (Option A)
  pub many : Parser Bytes → Parser Bytes
  pub many1 : Parser Bytes → Parser Bytes
  pub or : {A : Type 0} → Parser A → Parser A → Parser A
  pub and : {A B : Type 0} → Parser A → Parser B → Parser (A × B)
  pub before : {A B : Type 0} → Parser A → Parser B → Parser B
  pub skip : {A B : Type 0} → Parser A → Parser B → Parser A
  pub and_then : {A B : Type 0} → Parser A → (A → Option B) → Parser B
  pub sep_by1 : {A B : Type 0} → Parser A → Parser B → Parser (List A)

-- `parse::<i16>` on digits that a minus sign may stand before.
abbrev pub opposite : ℕ → ℤ
opposite zero = pos 0
opposite (suc n) = negsuc n

abbrev pub signed : Option ℕ → (ℕ → ℤ) → Option ℤ
signed none f = none
signed (some n) f = some (f n)

abbrev pub parse_i16 : Bytes → Option ℤ
parse_i16 [] = none
parse_i16 (c ∷ s) =
    if c == b'-'
    then signed (parse (2 ^ 15) s) opposite
    else signed (parse (2 ^ 15 - 1) (c ∷ s)) pos

-- The result when nothing is left.
abbrev pub all_of : {A : Type 0} → Parsed A → Option A
all_of none = none
all_of (some (res, [])) = some res
all_of (some (res, c ∷ remain)) = none

module _ (combine : Combine) where
  open combine use {
    Parser, spaces, token, string, digit, any, none_of, optional, many, many1, or, and, before,
    skip, and_then, sep_by1,
  }

  -- `p.with(q)` of `combine` is `before p q`.
  abbrev pub word_syms : Parser Bytes
  word_syms = or (before (token b'\\') any) (none_of (b'\'' ∷ []))

  abbrev pub word : Parser Bytes
  word = skip (before (token b'\'') (many word_syms)) (token b'\'')

  abbrev pub with_sign : Option ℕ × Bytes → Bytes
  with_sign (none, digits) = digits
  with_sign (some x, digits) = x ∷ digits

  abbrev pub integer : Parser ℤ
  integer = and_then (and (optional (token b'-')) (many1 digit)) λ r. parse_i16 (with_sign r)

  abbrev pub pair : Parser (Bytes × ℤ)
  pair =
      skip (and (skip (skip (skip (before spaces word) spaces) (token b'=')) spaces) integer) spaces

  abbrev pub enum_body : Parser (List (Bytes × ℤ))
  enum_body = sep_by1 pair (token b',')

  abbrev pub enum_parser : Bytes → Parser (List (Bytes × ℤ))
  enum_parser size =
      skip
        (before (skip (skip (skip (before spaces (string size)) spaces) (token b'(')) spaces)
          enum_body)
        (token b')')

  unfoldable pub parse_enum : Bytes → Bytes → Option (List (Bytes × ℤ))
  parse_enum size input = all_of (combine.parse (enum_parser size) input)

  abbrev pub as_i8 : Bytes × ℤ → Bytes × ℤ
  as_i8 (key, val) = (key, of_word (2 ^ 8) (to_word (2 ^ 8) val))

  abbrev pub mapped : Option (List (Bytes × ℤ)) → Option (List (Bytes × ℤ))
  mapped none = none
  mapped (some result) = some (map as_i8 result)

  unfoldable pub parse_enum8 : Bytes → Option (List (Bytes × ℤ))
  unfolding parse_enum
  parse_enum8 input = mapped (parse_enum (codes "Enum8") input)

  unfoldable pub parse_enum16 : Bytes → Option (List (Bytes × ℤ))
  unfolding parse_enum
  parse_enum16 input = parse_enum (codes "Enum16") input

  abbrev pub zone_parser : Parser Bytes
  zone_parser =
      skip (skip (skip (before (skip (skip spaces (token b'(')) spaces) word) spaces) (token b')'))
        spaces

  abbrev pub date_time_parser : Parser (Option Bytes)
  date_time_parser =
      before (before spaces (or (string (codes "DateTime")) (string (codes "Timestamp"))))
        (optional zone_parser)

  unfoldable pub parse_date_time : Bytes → Option (Option Bytes)
  parse_date_time source = all_of (combine.parse date_time_parser source)

  abbrev pub precision_parser : Parser ℕ
  precision_parser = and_then (many1 digit) λ digits. parse (2 ^ 32 - 1) digits

  abbrev pub timezone_parser : Parser (Option Bytes)
  timezone_parser = optional (before (skip (skip spaces (token b',')) spaces) word)

  abbrev pub precision_pair : Parser (ℕ × Option Bytes)
  precision_pair = skip (and (skip (before spaces precision_parser) spaces) timezone_parser) spaces

  abbrev pub date_time64_parser : Parser (ℕ × Option Bytes)
  date_time64_parser =
      skip
        (skip
          (before
            (skip (skip (skip (before spaces (string (codes "DateTime64"))) spaces) (token b'('))
              spaces)
            precision_pair)
          spaces)
        (token b')')

  unfoldable pub parse_date_time64 : Bytes → Option (ℕ × Option Bytes)
  parse_date_time64 source = all_of (combine.parse date_time64_parser source)

  -- With the time zones of chrono_tz.
  abbrev pub type_parsers : {Tz : Type 0} → (Bytes → Bytes ⊎ Tz) → (Tz → Bytes) → TypeParsers Tz
  type_parsers parse_tz show_tz = record {
    parse_enum8 = parse_enum8;
    parse_enum16 = parse_enum16;
    parse_date_time = parse_date_time;
    parse_date_time64 = parse_date_time64;
    parse_tz = parse_tz;
    show_tz = show_tz;
  }
