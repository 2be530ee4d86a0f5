-- ===== src/Query.antt =====
-- src/types/query.rs: a query and its parameters.
pub mod Quoting
pub mod Names
use clickhouse_rs.Prelude.{
  ℕ, ltb, leb, ◌==◌, ◌&&◌, ◌||◌, not, if◌then◌else◌, Bool, true, false, List, [], ◌∷◌, ◌++◌, Bytes,
  ◌⊎◌, inl, inr,
}
use clickhouse_rs.Errors.{Error, driver, invalid_parameter_name}
use clickhouse_rs.Text.{codes, starts_with}

-- `QueryParameterValue`; the conversions from numbers and booleans store their `Display` text.
pub record QueryParameterValue : Type 0 where
  pub raw : Bytes

-- The round of `write_quoted` on a character. A character outside ASCII is several bytes, which all stay.
unfoldable pub escape : ℕ → Bytes
escape ch =
    if ch == b'\''
    then b'\\' ∷ b'\'' ∷ []
    else if ch == b'\\'
    then b'\\' ∷ b'\\' ∷ []
    else if ch == 10
    then b'\\' ∷ b'n' ∷ []
    else if ch == 13
    then b'\\' ∷ b'r' ∷ []
    else if ch == 9
    then b'\\' ∷ b't' ∷ []
    else if ch == 0
    then b'\\' ∷ b'0' ∷ []
    else ch ∷ []

-- The loop, up to the closing quote.
unfoldable pub quote_rest : Bytes → Bytes
unfolding escape
quote_rest [] = b'\'' ∷ []
quote_rest (ch ∷ s) = escape ch ++ quote_rest s

unfoldable pub write_quoted : QueryParameterValue → Bytes
unfolding quote_rest
write_quoted v = b'\'' ∷ quote_rest v.raw

abbrev pub is_ascii_alphabetic : ℕ → Bool
is_ascii_alphabetic c = (leb b'a' c && leb c b'z') || (leb b'A' c && leb c b'Z')

abbrev pub is_ascii_alphanumeric : ℕ → Bool
is_ascii_alphanumeric c = is_ascii_alphabetic c || (leb b'0' c && leb c b'9')

-- `chars.all(…)`
abbrev pub all_name_chars : Bytes → Bool
all_name_chars [] = true
all_name_chars (c ∷ s) = (is_ascii_alphanumeric c || c == b'_') && all_name_chars s

unfoldable pub validate_parameter_name : Bytes → Bool
validate_parameter_name [] = false
validate_parameter_name (first ∷ chars) =
    if starts_with (first ∷ chars) (codes "param_")
    then false
    else if not (is_ascii_alphabetic first) && not (first == b'_')
    then false
    else all_name_chars chars

pub record Query : Type 0 where
  pub sql : Bytes
  pub id : Bytes
  pub parameters : List (Bytes × QueryParameterValue)

unfoldable pub new_query : Bytes → Query
new_query sql = record { sql = sql; id = []; parameters = [] }

unfoldable pub set_id : Bytes → Query → Query
set_id id q = record q { id = id }

unfoldable pub with_parameter : Bytes → QueryParameterValue → Query → Error ⊎ Query
unfolding validate_parameter_name
with_parameter name value q =
    if not (validate_parameter_name name)
    then inl (driver (invalid_parameter_name name))
    else inr (record q { parameters = q.parameters ++ (name, value) ∷ [] })

unfoldable pub has_parameters : Query → Bool
has_parameters q = elim q.parameters [ [] ↦ false | p ∷ ps ↦ true ]

unfoldable pub map_sql : (Bytes → Bytes) → Query → Query
map_sql f q = record q { sql = f q.sql }
