-- ===== src/Command/QueryPacket/Parsed.antt =====
-- A server that reads a query packet gets the fields of the query and of the options.
use clickhouse_rs.Prelude.{
  ℕ, zero, suc, ◌≤◌, ◌<◌, ◌≡◌, ◌⊎◌, inl, inr, arith, leb, Bool, true, false, if◌then◌else◌, List,
  [], ◌∷◌, Bytes, length, All, map, IsSize,
}
use clickhouse_rs.Wire.Outcome.{cursor_read, pure}
use clickhouse_rs.Wire.Scalar.{bool, u8, u64, uint-IsCodec, bool-IsCodec}
use clickhouse_rs.Wire.Encoder.{uvarint, string}
use clickhouse_rs.Text.{codes}
use clickhouse_rs.Query.{Query, QueryParameterValue, write_quoted}
use clickhouse_rs.Command.{
  SettingValue, Options, show_setting, write_settings, write_old_settings, serialize_settings,
  write_params, serialize_query_params, write_initial, write_client_info, write_since, write_query,
  client_name,
}
use clickhouse_rs.Command.Parts.{
  Part, then-Part, pure-Part, uvarint-Part, write-Part, string-Part, since-Part,
}
use clickhouse_rs.Command.QueryPacket.{
  SettingText, ParamText, settings_loop, params_loop, Initial, read_initial, ClientInfo,
  read_client, Newer, read_replicas, read_newer, Asked, read_query,
}
use clickhouse_rs.Protocol.{
  dbms_min_revision_with_settings_serialized_as_strings as strings_revision, state_complete,
  compress_enable, compress_disable, client_query,
}

abbrev Fits : Bytes → Type 0
Fits s = IsSize (length s)

abbrev NonEmpty : Bytes → Type 0
NonEmpty [] = ⊥
NonEmpty (c ∷ s) = Unit

module _ (show_f64 : ℕ → Bytes) where
  abbrev pub setting_text : Bytes × SettingValue → SettingText
  setting_text (name, v) = record {
    name = name;
    is_important = v.is_important;
    text = show_setting show_f64 v.value;
  }

  -- A setting that can be sent: its name is not empty, since an empty one ends the settings.
  abbrev pub SettingFits : Bytes × SettingValue → Type 0
  SettingFits (name, v) = NonEmpty name × Fits name × Fits (show_setting show_f64 v.value)

  settings-Part :
      (ss : List (Bytes × SettingValue)) (fuel : ℕ)
      → length ss < fuel
      → All SettingFits ss
      → Part
          (λ e. string [] (write_settings show_f64 ss e))
          (settings_loop fuel)
          (map setting_text ss)
  unfolding write_settings settings_loop
  settings-Part ss zero h fits = absurd (omega arith)
  settings-Part [] (suc fuel) h fits = then-Part _ (string-Part [] (omega arith)) (pure-Part [])
  settings-Part (([], v) ∷ ss) (suc fuel) h fits = absurd fits.0.0
  settings-Part ((c ∷ name, v) ∷ ss) (suc fuel) h ((full, fn, ft), fits) =
      then-Part _ (string-Part (c ∷ name) fn) (
        then-Part _ (write-Part bool v.is_important bool-IsCodec tt) (
          then-Part _ (string-Part (show_setting show_f64 v.value) ft)
            (then-Part _ (settings-Part ss fuel (omega arith) fits) (pure-Part _))))

abbrev pub param_text : Bytes × QueryParameterValue → ParamText
param_text (name, v) = record { name = name; flags = 2; quoted = write_quoted v }

abbrev pub ParamFits : Bytes × QueryParameterValue → Type 0
ParamFits (name, v) = NonEmpty name × Fits name × Fits (write_quoted v)

params-Part :
    (ps : List (Bytes × QueryParameterValue)) (fuel : ℕ)
    → length ps < fuel
    → All ParamFits ps
    → Part (serialize_query_params ps) (params_loop fuel) (map param_text ps)
unfolding serialize_query_params write_params params_loop
params-Part ps zero h fits = absurd (omega arith)
params-Part [] (suc fuel) h fits = then-Part _ (string-Part [] (omega arith)) (pure-Part [])
params-Part (([], v) ∷ ps) (suc fuel) h fits = absurd fits.0.0
params-Part ((c ∷ name, v) ∷ ps) (suc fuel) h ((full, fn, fq), fits) =
    then-Part _ (string-Part (c ∷ name) fn) (
      then-Part _ (uvarint-Part 2 (omega arith)) (
        then-Part _ (string-Part (write_quoted v) fq)
          (then-Part _ (params-Part ps fuel (omega arith) fits) (pure-Part _))))

-- In either format, if there are no settings in the old one.
either_settings-Part :
    (show_f64 : ℕ → Bytes) (new : Bool) (ss : List (Bytes × SettingValue)) (fuel : ℕ)
    → length ss < fuel
    → All (SettingFits show_f64) ss
    → (new ≡ true) ⊎ (ss ≡ [])
    → Part
        (λ e.
          string []
            (if new then write_settings show_f64 ss e else write_old_settings show_f64 ss e))
        (settings_loop fuel)
        (map (setting_text show_f64) ss)
unfolding write_old_settings write_settings
either_settings-Part show_f64 true ss fuel h fits c = settings-Part show_f64 ss fuel h fits
either_settings-Part show_f64 false [] fuel h fits c = settings-Part show_f64 [] fuel h tt
either_settings-Part show_f64 false (s ∷ ss) fuel h fits (inl e) = absurd (cc)
either_settings-Part show_f64 false (s ∷ ss) fuel h fits (inr e) = absurd (cc)

either_params-Part :
    (known : Bool) (ps : List (Bytes × QueryParameterValue)) (fuel : ℕ)
    → length ps < fuel
    → All ParamFits ps
    → (known ≡ true) ⊎ (ps ≡ [])
    → Part
        (λ e. if known then serialize_query_params ps e else e)
        (if known then params_loop fuel else pure [])
        (map param_text ps)
either_params-Part true ps fuel h fits c = params-Part ps fuel h fits
either_params-Part false [] fuel h fits c = pure-Part []
either_params-Part false (p ∷ ps) fuel h fits (inl e) = absurd (cc)
either_params-Part false (p ∷ ps) fuel h fits (inr e) = absurd (cc)

replicas-Part : Part (λ e. uvarint 0 (uvarint 0 (uvarint 0 e))) read_replicas (0, 0, 0)
unfolding read_replicas
replicas-Part = then-Part _ (uvarint-Part 0 (omega arith)) (
    then-Part _ (uvarint-Part 0 (omega arith))
      (then-Part _ (uvarint-Part 0 (omega arith)) (pure-Part _)))

abbrev pub no_newer : Newer
no_newer = record {
  quota_key = [];
  distributed_depth = 0;
  version_patch = 0;
  open_telemetry = 0;
  replicas = (0, 0, 0);
}

newer-Part : (revision : ℕ) → Part (write_since revision) (read_newer revision) no_newer
unfolding write_since read_newer
newer-Part revision = then-Part _ (since-Part _ revision (string-Part [] (omega arith))) (
    then-Part _ (since-Part _ revision (uvarint-Part 0 (omega arith))) (
      then-Part _ (since-Part _ revision (uvarint-Part 0 (omega arith))) (
        then-Part _ (since-Part _ revision (write-Part u8 0 (uint-IsCodec 1) (omega arith)))
          (then-Part _ (since-Part _ revision replicas-Part) (pure-Part _)))))

abbrev pub the_client : ClientInfo
the_client = record { name = client_name; major = 1; minor = 1; revision = 54459 }

client-Part : Part write_client_info read_client the_client
unfolding write_client_info read_client
client-Part = then-Part _ (string-Part client_name (omega arith)) (
    then-Part _ (uvarint-Part 1 (omega arith)) (
      then-Part _ (uvarint-Part 1 (omega arith))
        (then-Part _ (uvarint-Part 54459 (omega arith)) (pure-Part _))))

abbrev pub initial_of : Query → Bytes → Initial
initial_of query hostname = record {
  packet = client_query;
  id = query.id;
  kind = 1;
  user = [];
  query_id = query.id;
  address = codes "[::ffff:127.0.0.1]:0";
  start_time = 0;
  interface = 1;
  os_user = hostname;
  client_hostname = hostname;
}

initial-Part :
    (revision : ℕ) (query : Query) (hostname : Bytes)
    → Fits query.id
    → Fits hostname
    → Part
        (write_initial revision query hostname)
        (read_initial revision)
        (initial_of query hostname)
unfolding write_initial read_initial
initial-Part revision query hostname hi hh = then-Part _ (uvarint-Part client_query (omega arith)) (
    then-Part _ (string-Part query.id hi) (
      then-Part _ (uvarint-Part 1 (omega arith)) (
        then-Part _ (string-Part [] (omega arith)) (
          then-Part _ (string-Part query.id hi) (
            then-Part _ (string-Part (codes "[::ffff:127.0.0.1]:0") (omega arith)) (
              then-Part _ (since-Part _ revision (write-Part u64 0 (uint-IsCodec 8) (omega arith)))
                (then-Part _ (uvarint-Part 1 (omega arith)) (
                  then-Part _ (string-Part hostname hh)
                    (then-Part _ (string-Part hostname hh) (pure-Part _))))))))))

module _ (show_f64 : ℕ → Bytes) (revision fuel : ℕ) (query : Query) (hostname : Bytes)
    (options : Options) where
  -- A query that a server of the revision can read: its texts are shorter than 2^63 bytes, and what the
  -- revision has no place for is not there.
  pub record QueryFits : Type 0 where
    pub id : Fits query.id
    pub host : Fits hostname
    pub sql : Fits query.sql
    pub settings : All (SettingFits show_f64) options.settings
    pub params : All ParamFits query.parameters
    pub no_old_settings : (leb strings_revision revision ≡ true) ⊎ (options.settings ≡ [])
    pub fuel_settings : length options.settings < fuel
    pub fuel_params : length query.parameters < fuel

  abbrev pub compress_number : ℕ
  compress_number = if options.compression then compress_enable else compress_disable

  abbrev pub asked : Asked
  asked = record {
    initial = initial_of query hostname;
    client = the_client;
    newer = no_newer;
    settings = map (setting_text show_f64) options.settings;
    secret = [];
    stage = state_complete;
    compression = compress_number;
    sql = query.sql;
    params = map param_text query.parameters;
  }

  compress_number_le : compress_number ≤ 1
  compress_number_le = ground arith

  all_settings-Part :
      QueryFits
      → Part
          (serialize_settings show_f64 revision options.settings)
          (settings_loop fuel)
          (map (setting_text show_f64) options.settings)
  unfolding serialize_settings
  all_settings-Part h =
      either_settings-Part show_f64 (leb strings_revision revision) options.settings fuel
        h.fuel_settings h.settings h.no_old_settings

  pub write_query-Part :
      QueryFits
      → (leb 54459 revision ≡ true) ⊎ (query.parameters ≡ [])
      → Part (write_query show_f64 revision query hostname options) (read_query fuel revision) asked
  unfolding write_query read_query
  write_query-Part h supported = then-Part _ (initial-Part revision query hostname h.id h.host) (
      then-Part _ client-Part (
        then-Part _ (newer-Part revision) (
          then-Part _ (all_settings-Part h) (
            then-Part _ (since-Part _ revision (string-Part [] (omega arith))) (
              then-Part _ (uvarint-Part state_complete (omega arith)) (
                then-Part _ (uvarint-Part compress_number (omega (arith, compress_number_le))) (
                  then-Part _ (string-Part query.sql h.sql) (
                    then-Part _
                      (either_params-Part (leb 54459 revision) query.parameters fuel h.fuel_params
                        h.params supported)
                      (pure-Part _)))))))))
