-- ===== src/Command.antt =====
-- src/types/cmd.rs and src/client_info.rs: the packets of the client. `Options` has the fields that these use;
-- a `HashMap` is the list of its entries in the order of its iteration.
pub mod Parts
pub mod QueryPacket
pub mod Encode
use clickhouse_rs.Prelude.{
  ℕ, ltb, leb, ◌==◌, ◌&&◌, if◌then◌else◌, Bool, true, false, List, [], ◌∷◌, ◌++◌, Bytes, ◌⊎◌, inl,
  inr,
}
use clickhouse_rs.Errors.{Error, driver, query_parameters_unsupported}
use clickhouse_rs.Wire.Scalar.{bool, u8, u64}
use clickhouse_rs.Wire.Encoder.{Encoder, uvarint, string, write}
use clickhouse_rs.Text.{codes, show}
use clickhouse_rs.Column.{ColumnData}
use clickhouse_rs.Block.{Block, new_block}
use clickhouse_rs.Block.Compressed.{Codec, write_any}
use clickhouse_rs.Query.{Query, QueryParameterValue, write_quoted, has_parameters}
use clickhouse_rs.Protocol.{
  client_hello, client_query, client_data, client_cancel, client_ping, compress_enable,
  compress_disable, state_complete, dbms_min_revision_with_quota_key_in_client_info,
  dbms_min_revision_with_version_patch, dbms_min_revision_with_settings_serialized_as_strings,
  dbms_min_revision_with_interserver_secret, dbms_min_revision_with_opentelemetry,
  dbms_min_revision_with_distributed_depth, dbms_min_revision_with_initial_query_start_time,
  dbms_min_revision_with_parallel_replicas, dbms_min_revision_with_parameters,
}

-- src/types/options.rs: a float is its bits.
pub data SettingType : Type 0 where
  setting_string : Bytes → SettingType
  setting_bool : Bool → SettingType
  setting_uint64 setting_float64 : ℕ → SettingType

pub record SettingValue : Type 0 where
  pub value : SettingType
  pub is_important : Bool

pub record Options : Type 0 where
  pub database : Bytes
  pub username : Bytes
  pub password : Bytes
  pub compression : Bool
  pub settings : List (Bytes × SettingValue)

-- `OptionsSource::get` fails where the options are a URL that is wrong.
pub record Context : Type 0 where
  pub revision : ℕ
  pub hostname : Bytes
  pub options : Error ⊎ Options

pub data Cmd (Data : Type 0) : Type 0 where
  hello : Context → Cmd Data
  ping cancel : Cmd Data
  send_query : Query → Context → Cmd Data
  send_data : Block Data → Context → Cmd Data
  union : Cmd Data → Cmd Data → Cmd Data

abbrev pub client_name : Bytes
client_name = codes "Rust SQLDriver"

abbrev pub click_house_revision : ℕ
click_house_revision = 54459

abbrev pub click_house_dbmsversion_major : ℕ
click_house_dbmsversion_major = 1

abbrev pub click_house_dbmsversion_minor : ℕ
click_house_dbmsversion_minor = 1

-- `client_info::write`
unfoldable pub write_client_info : Encoder → Encoder
write_client_info encoder =
    let e1 = string client_name encoder in
    let e2 = uvarint click_house_dbmsversion_major e1 in
    let e3 = uvarint click_house_dbmsversion_minor e2 in uvarint click_house_revision e3

-- What servers from a revision on read.
abbrev pub since : ℕ → ℕ → (Encoder → Encoder) → Encoder → Encoder
since min_revision revision f encoder = if leb min_revision revision then f encoder else encoder

-- The operator `?`.
abbrev pub or_error : {A B : Type 0} → Error ⊎ A → (A → Error ⊎ B) → Error ⊎ B
or_error (inl e) k = inl e
or_error (inr a) k = k a

unfoldable pub encode_hello : Context → Error ⊎ Bytes
unfolding write_client_info
encode_hello context =
    let e1 = write_client_info (uvarint client_hello []) in
    or_error context.options λ options.
      inr (string options.password (string options.username (string options.database e1)))

unfoldable pub encode_ping : Bytes
encode_ping = uvarint client_ping []

unfoldable pub encode_cancel : Bytes
encode_cancel = uvarint client_cancel []

-- The part of `encode_query` on who asks.
unfoldable pub write_initial : ℕ → Query → Bytes → Encoder → Encoder
write_initial revision query hostname encoder =
    let e1 = string query.id (uvarint client_query encoder) in
    let e2 = string [] (uvarint 1 e1) in
    let e3 = string (codes "[::ffff:127.0.0.1]:0") (string query.id e2) in
    let e4 = since dbms_min_revision_with_initial_query_start_time revision (write u64 0) e3 in
    string hostname (string hostname (uvarint 1 e4))

-- The fields behind the client's name that newer servers read.
unfoldable pub write_since : ℕ → Encoder → Encoder
write_since revision encoder =
    let e1 = since dbms_min_revision_with_quota_key_in_client_info revision (string []) encoder in
    let e2 = since dbms_min_revision_with_distributed_depth revision (uvarint 0) e1 in
    let e3 = since dbms_min_revision_with_version_patch revision (uvarint 0) e2 in
    let e4 = since dbms_min_revision_with_opentelemetry revision (write u8 0) e3 in
    since dbms_min_revision_with_parallel_replicas revision
      (λ e. uvarint 0 (uvarint 0 (uvarint 0 e))) e4

-- The loop of `serialize_query_params`; 2 is the flag of a custom setting.
unfoldable pub write_params : List (Bytes × QueryParameterValue) → Encoder → Encoder
write_params [] encoder = encoder
write_params ((name, value) ∷ params) encoder =
    write_params params (string (write_quoted value) (uvarint 2 (string name encoder)))

unfoldable pub serialize_query_params : List (Bytes × QueryParameterValue) → Encoder → Encoder
unfolding write_params
serialize_query_params params encoder = string [] (write_params params encoder)

module _ {Data Tz : Type 0} (codec : Codec) (ops : ColumnData Data Tz)
    (is_utf8 : Bytes → Bool) where
  -- `Block::send_data`
  unfoldable pub send_block : Block Data → Bool → ℕ → Encoder → Encoder
  send_block block compress revision encoder =
      write_any codec ops is_utf8 block compress revision (string [] (uvarint client_data encoder))

-- `show_f64` is the standard library's text of a float.
module _ (show_f64 : ℕ → Bytes) where
  -- `Display` of a setting.
  unfoldable pub show_setting : SettingType → Bytes
  show_setting (setting_string val) = val
  show_setting (setting_bool true) = codes "true"
  show_setting (setting_bool false) = codes "false"
  show_setting (setting_uint64 val) = show val
  show_setting (setting_float64 val) = show_f64 val

  -- One setting for old servers.
  unfoldable pub write_old : SettingType → Encoder → Encoder
  write_old (setting_string val) encoder = string val encoder
  write_old (setting_bool val) encoder = uvarint (if val then 1 else 0) encoder
  write_old (setting_uint64 val) encoder = uvarint val encoder
  write_old (setting_float64 val) encoder = string (show_f64 val) encoder

  -- The loops of `serialize_settings`, for `SettingsBinaryFormat::Old` and for `Strings`.
  unfoldable pub write_old_settings : List (Bytes × SettingValue) → Encoder → Encoder
  unfolding write_old
  write_old_settings [] encoder = encoder
  write_old_settings ((name, v) ∷ settings) encoder =
      write_old_settings settings (write_old v.value (string name encoder))

  unfoldable pub write_settings : List (Bytes × SettingValue) → Encoder → Encoder
  unfolding show_setting
  write_settings [] encoder = encoder
  write_settings ((name, v) ∷ settings) encoder =
      write_settings settings
        (string (show_setting v.value) (write bool v.is_important (string name encoder)))

  -- `serialize_settings`, in the format of the revision, with the marker of its end.
  unfoldable pub serialize_settings : ℕ → List (Bytes × SettingValue) → Encoder → Encoder
  unfolding write_old_settings write_settings
  serialize_settings revision settings encoder = string [] (
      if leb dbms_min_revision_with_settings_serialized_as_strings revision
      then write_settings settings encoder
      else write_old_settings settings encoder)

  -- `encode_query` in front of its empty block.
  unfoldable pub write_query : ℕ → Query → Bytes → Options → Encoder → Encoder
  unfolding write_initial write_client_info write_since serialize_settings serialize_query_params
  write_query revision query hostname options encoder =
      let e1 = write_client_info (write_initial revision query hostname encoder) in
      let e2 = serialize_settings revision options.settings (write_since revision e1) in
      let e3 = since dbms_min_revision_with_interserver_secret revision (string []) e2 in
      let e4 = uvarint state_complete e3 in
      let e5 = uvarint (if options.compression then compress_enable else compress_disable) e4 in
      let e6 = string query.sql e5 in
      since dbms_min_revision_with_parameters revision (serialize_query_params query.parameters) e6

  module _ {Data Tz : Type 0} (codec : Codec) (ops : ColumnData Data Tz)
      (is_utf8 : Bytes → Bool) where
    unfoldable pub encode_query : Query → Context → Error ⊎ Bytes
    unfolding write_query send_block has_parameters
    encode_query query context =
        if has_parameters query && ltb context.revision dbms_min_revision_with_parameters
        then inl (
            driver
              (query_parameters_unsupported context.revision dbms_min_revision_with_parameters))
        else or_error context.options λ options. inr (
            send_block codec ops is_utf8 new_block options.compression context.revision
              (write_query context.revision query context.hostname options []))

    unfoldable pub encode_data : Block Data → Context → Error ⊎ Bytes
    unfolding send_block
    encode_data block context =
        or_error context.options λ options.
          inr (send_block codec ops is_utf8 block options.compression context.revision [])

    -- `encode_command`, with `encode_union`.
    unfoldable pub encode_command : Cmd Data → Error ⊎ Bytes
    unfolding encode_hello encode_ping encode_query encode_data encode_cancel
    encode_command (hello context) = encode_hello context
    encode_command ping = inr encode_ping
    encode_command (send_query query context) = encode_query query context
    encode_command (send_data block context) = encode_data block context
    encode_command (union first second) =
        let result = encode_command first in
        let other = encode_command second in
        or_error result (λ a. or_error other (λ b. inr (a ++ b)))
    encode_command cancel = inr encode_cancel
