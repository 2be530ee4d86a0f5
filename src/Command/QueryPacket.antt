-- ===== src/Command/QueryPacket.antt =====
-- The query packet as a server reads it, and that it reads what `encode_query` wrote.
pub mod Parsed
use clickhouse_rs.Prelude.{
  ℕ, zero, suc, ◌+◌, ◌^◌, ◌≤◌, ◌<◌, ◌≡◌, refl, sym, ap, ◌∙◌, arith, leb, ◌==◌, Bool, true, false,
  if◌then◌else◌, List, [], ◌∷◌, ◌++◌, Bytes, length, IsU64, All, map,
}
use clickhouse_rs.Wire.Outcome.{
  Outcome, done, M, Cursor, cursor_read, then_do, pure, out_of_fuel, ◌>>=◌,
}
use clickhouse_rs.Wire.Scalar.{bool, u8, u64}
use clickhouse_rs.Wire.ReadEx.{read_uvarint, read_scalar, read_string}
use clickhouse_rs.Command.Parts.{any_bytes, read_since}
use clickhouse_rs.Protocol.{
  dbms_min_revision_with_quota_key_in_client_info, dbms_min_revision_with_version_patch,
  dbms_min_revision_with_settings_serialized_as_strings, dbms_min_revision_with_interserver_secret,
  dbms_min_revision_with_opentelemetry, dbms_min_revision_with_distributed_depth,
  dbms_min_revision_with_initial_query_start_time, dbms_min_revision_with_parallel_replicas,
  dbms_min_revision_with_parameters,
}

-- A setting: its name, whether it is important, and its text.
pub record SettingText : Type 0 where
  pub name : Bytes
  pub is_important : Bool
  pub text : Bytes

-- A parameter: its name, its flags, and its quoted value.
pub record ParamText : Type 0 where
  pub name : Bytes
  pub flags : ℕ
  pub quoted : Bytes

abbrev pub read_text : M Cursor Bytes
read_text = read_string any_bytes

-- Settings up to one with no name; `fuel` bounds how many are read.
unfoldable pub settings_loop : ℕ → M Cursor (List SettingText)
settings_loop zero = out_of_fuel
settings_loop (suc fuel) = do
  name ← read_text
  let more = (do
    is_important ← read_scalar bool
    text ← read_text
    others ← settings_loop fuel
    pure (record { name = name; is_important = is_important; text = text } ∷ others))
  elim name [ [] ↦ pure [] | c ∷ s ↦ more ]

unfoldable pub params_loop : ℕ → M Cursor (List ParamText)
params_loop zero = out_of_fuel
params_loop (suc fuel) = do
  name ← read_text
  let more = (do
    flags ← read_uvarint
    quoted ← read_text
    others ← params_loop fuel
    pure (record { name = name; flags = flags; quoted = quoted } ∷ others))
  elim name [ [] ↦ pure [] | c ∷ s ↦ more ]

-- Who asks.
pub record Initial : Type 0 where
  pub packet : ℕ
  pub id : Bytes
  pub kind : ℕ
  pub user : Bytes
  pub query_id : Bytes
  pub address : Bytes
  pub start_time : ℕ
  pub interface : ℕ
  pub os_user : Bytes
  pub client_hostname : Bytes

unfoldable pub read_initial : ℕ → M Cursor Initial
read_initial revision = do
  packet ← read_uvarint
  id ← read_text
  kind ← read_uvarint
  user ← read_text
  query_id ← read_text
  address ← read_text
  start_time ←
      read_since dbms_min_revision_with_initial_query_start_time revision (read_scalar u64) 0
  interface ← read_uvarint
  os_user ← read_text
  client_hostname ← read_text
  pure (record {
    packet = packet;
    id = id;
    kind = kind;
    user = user;
    query_id = query_id;
    address = address;
    start_time = start_time;
    interface = interface;
    os_user = os_user;
    client_hostname = client_hostname;
  })

pub record ClientInfo : Type 0 where
  pub name : Bytes
  pub major : ℕ
  pub minor : ℕ
  pub revision : ℕ

unfoldable pub read_client : M Cursor ClientInfo
read_client = do
  name ← read_text
  major ← read_uvarint
  minor ← read_uvarint
  revision ← read_uvarint
  pure (record { name = name; major = major; minor = minor; revision = revision })

-- The fields of newer revisions, each with what stands for it before.
pub record Newer : Type 0 where
  pub quota_key : Bytes
  pub distributed_depth : ℕ
  pub version_patch : ℕ
  pub open_telemetry : ℕ
  pub replicas : ℕ × ℕ × ℕ

unfoldable pub read_replicas : M Cursor (ℕ × ℕ × ℕ)
read_replicas = do
  offset ← read_uvarint
  count ← read_uvarint
  rows ← read_uvarint
  pure (offset, count, rows)

unfoldable pub read_newer : ℕ → M Cursor Newer
unfolding read_replicas
read_newer revision = do
  quota_key ← read_since dbms_min_revision_with_quota_key_in_client_info revision read_text []
  distributed_depth ← read_since dbms_min_revision_with_distributed_depth revision read_uvarint 0
  version_patch ← read_since dbms_min_revision_with_version_patch revision read_uvarint 0
  open_telemetry ← read_since dbms_min_revision_with_opentelemetry revision (read_scalar u8) 0
  replicas ← read_since dbms_min_revision_with_parallel_replicas revision read_replicas (0, 0, 0)
  pure (record {
    quota_key = quota_key;
    distributed_depth = distributed_depth;
    version_patch = version_patch;
    open_telemetry = open_telemetry;
    replicas = replicas;
  })

pub record Asked : Type 0 where
  pub initial : Initial
  pub client : ClientInfo
  pub newer : Newer
  pub settings : List SettingText
  pub secret : Bytes
  pub stage : ℕ
  pub compression : ℕ
  pub sql : Bytes
  pub params : List ParamText

-- The packet in front of its block. Before the revision with settings as strings it knows no settings.
unfoldable pub read_query : ℕ → ℕ → M Cursor Asked
unfolding read_initial read_client read_newer settings_loop params_loop
read_query fuel revision = do
  initial ← read_initial revision
  client ← read_client
  newer ← read_newer revision
  settings ← settings_loop fuel
  secret ← read_since dbms_min_revision_with_interserver_secret revision read_text []
  stage ← read_uvarint
  compression ← read_uvarint
  sql ← read_text
  params ← read_since dbms_min_revision_with_parameters revision (params_loop fuel) []
  pure (record {
    initial = initial;
    client = client;
    newer = newer;
    settings = settings;
    secret = secret;
    stage = stage;
    compression = compression;
    sql = sql;
    params = params;
  })
