-- ===== src/Runs/Commands.antt =====
-- Runs of src/types/query.rs and src/types/cmd.rs.
use clickhouse_rs.Prelude.{
  ltb, ◌&&◌, ℕ, ◌≡◌, ◌⊎◌, inl, inr, refl, arith, true, false, [], ◌∷◌, ◌++◌, Bytes, some,
}
use clickhouse_rs.Errors.{driver, invalid_parameter_name}
use clickhouse_rs.Wire.Outcome.{done}
use clickhouse_rs.Text.{codes, show, digits}
use clickhouse_rs.Block.{new_block}
use clickhouse_rs.Query.{Query, QueryParameterValue, with_parameter, write_quoted, has_parameters}
use clickhouse_rs.Query.Quoting.{read_quoted, read_quoted-write_quoted}
use clickhouse_rs.Query.Names.{IsParameterName, with_parameter_iff}
use clickhouse_rs.Command.{
  Context, Options, setting_uint64, ping, cancel, union, send_block, encode_query, encode_command,
  show_setting,
}
use clickhouse_rs.Command.QueryPacket.{read_query}
use clickhouse_rs.Command.QueryPacket.Parsed.{QueryFits, asked}
use clickhouse_rs.Command.Encode.{encode_query-parsed, encode_all, encode_command-leaves}
use clickhouse_rs.Runs.Sample.{byte_column, store_codec, any_text}

abbrev a_value : QueryParameterValue
a_value = record { raw = codes "O'Reilly\\" }

read_quoted-write_quoted_example :
    read_quoted (write_quoted a_value ++ codes ",") ≡ some (codes "O'Reilly\\", codes ",")
read_quoted-write_quoted_example = read_quoted-write_quoted a_value (codes ",")

abbrev a_query : Query
a_query = record { sql = codes "SELECT {a:String}"; id = []; parameters = [] }

with_parameter_iff_example :
    ((IsParameterName (codes "a"))
      × (with_parameter (codes "a") a_value a_query
          ≡ inr (record a_query { parameters = [] ++ (codes "a", a_value) ∷ [] })))
    ⊎ ((IsParameterName (codes "a") → ⊥)
        × (with_parameter (codes "a") a_value a_query
            ≡ inl (driver (invalid_parameter_name (codes "a")))))
with_parameter_iff_example = with_parameter_iff (codes "a") a_value a_query

abbrev bound : Query
bound = record a_query { parameters = (codes "a", a_value) ∷ [] }

abbrev some_options : Options
some_options = record {
  database = codes "default";
  username = codes "default";
  password = [];
  compression = true;
  settings = (codes "max_threads", record { value = setting_uint64 4; is_important = true }) ∷ [];
}

abbrev a_context : Context
a_context = record { revision = 54459; hostname = codes "host"; options = inr some_options }

abbrev no_floats : ℕ → Bytes
no_floats bits = []

bound_fits : QueryFits no_floats 54459 2 bound (codes "host") some_options
unfolding show_setting write_quoted show digits
bound_fits = record {
  id = omega arith;
  host = omega arith;
  sql = omega arith;
  settings = ((tt, omega arith, omega arith), tt);
  params = ((tt, omega arith, omega arith), tt);
  no_old_settings = inl refl;
  fuel_settings = omega arith;
  fuel_params = omega arith;
}

bound_supported : (has_parameters bound && ltb 54459 54459) ≡ false
unfolding has_parameters
bound_supported = refl

encode_query-parsed_example :
    (bytes : Bytes) × (encode_query no_floats store_codec byte_column any_text bound a_context
      ≡ inr bytes)
    × (read_query 2 54459 bytes
        ≡ done
            (asked no_floats 54459 2 bound (codes "host") some_options)
            (send_block store_codec byte_column any_text new_block true 54459 []))
encode_query-parsed_example =
    encode_query-parsed store_codec byte_column any_text no_floats bound a_context some_options 2
      refl bound_supported bound_fits

encode_command-leaves_example :
    encode_command no_floats store_codec byte_column any_text (union (union ping cancel) ping)
    ≡ encode_all store_codec byte_column any_text no_floats (ping ∷ cancel ∷ ping ∷ [])
encode_command-leaves_example =
    encode_command-leaves store_codec byte_column any_text no_floats
      (union (union ping cancel) ping)
