-- ===== src/Packet.antt =====
-- src/types/mod.rs (the packets of the server) and src/binary/parser.rs (their parser).
pub mod Incremental
use clickhouse_rs.Prelude.{
  ℕ, leb, ◌==◌, ◌||◌, Bool, true, false, if◌then◌else◌, Bytes, Option, some, none, [],
}
use clickhouse_rs.Errors.{
  Error, ServerError, io, driver, other_kind, unexpected_packet, unknown_packet,
}
use clickhouse_rs.Wire.Outcome.{
  Outcome, done, fail, stuck, M, Read, then_do, pure, throw, ◌>>=◌, ◌>>◌,
}
use clickhouse_rs.Wire.Scalar.{bool, u32}
use clickhouse_rs.Wire.ReadEx.{read_uvarint, read_scalar, read_string, skip_string}
use clickhouse_rs.Column.{ColumnData}
use clickhouse_rs.Block.{Block}
use clickhouse_rs.Block.Compressed.{Codec, load}
use clickhouse_rs.Protocol.{
  dbms_min_revision_with_total_rows_in_progress, dbms_min_revision_with_server_timezone,
  dbms_min_revision_with_server_display_name, dbms_min_revision_with_version_patch,
  dbms_min_revision_with_client_write_info, server_hello, server_data, server_exception,
  server_progress, server_pong, server_end_of_stream, server_profile_info, server_totals,
  server_extremes, server_table_columns, server_profile_events,
}

pub record Progress : Type 0 where
  pub rows : ℕ
  pub bytes : ℕ
  pub total_rows : ℕ
  pub written_rows : ℕ
  pub written_bytes : ℕ

pub record ProfileInfo : Type 0 where
  pub rows : ℕ
  pub bytes : ℕ
  pub blocks : ℕ
  pub applied_limit : Bool
  pub rows_before_limit : ℕ
  pub calculated_rows_before_limit : Bool

pub record TableColumns : Type 0 where
  pub table_name : Bytes
  pub columns : Bytes

pub record ServerInfo (Tz : Type 0) : Type 0 where
  pub name : Bytes
  pub revision : ℕ
  pub minor_version : ℕ
  pub major_version : ℕ
  pub timezone : Tz
  pub display_name : Bytes
  pub patch_version : ℕ

-- `S` is the transport that a packet hands back, `()` in the parser.
pub data Packet (Data Tz S : Type 0) : Type 0 where
  hello : S → ServerInfo Tz → Packet Data Tz S
  pong : S → Packet Data Tz S
  progress : Progress → Packet Data Tz S
  profile_info : ProfileInfo → Packet Data Tz S
  profile_events : Block Data → Packet Data Tz S
  table_columns : TableColumns → Packet Data Tz S
  exception : ServerError → Packet Data Tz S
  block : Block Data → Packet Data Tz S
  eof : S → Packet Data Tz S

-- What the transport knows of the server.
pub record TransportInfo (Tz : Type 0) : Type 0 where
  pub timezone : Option Tz
  pub revision : ℕ
  pub compress : Bool

-- The code outside the repository: `String::from_utf8`'s check, the parser and the constant `Tz::UTC` of
-- chrono_tz, and the C libraries.
pub record Externals (Tz : Type 0) : Type 0 where
  pub is_utf8 : Bytes → Bool
  pub parse_tz : Bytes → Option Tz
  pub utc : Tz
  pub codec : Codec

module _ {Data Tz : Type 0} (ops : ColumnData Data Tz) (ext : Externals Tz) {S : Type 0}
    ⦃r : Read S⦄ where
  -- A block before the server's greeting is unexpected.
  abbrev pub with_timezone :
      Option Tz → (Tz → M S (Packet Data Tz (Unit {0}))) → M S (Packet Data Tz (Unit {0}))
  with_timezone none k = throw (driver unexpected_packet)
  with_timezone (some tz) k = k tz

  unfoldable pub parse_block : TransportInfo Tz → M S (Packet Data Tz (Unit {0}))
  parse_block info = with_timezone info.timezone λ tz. do
    skip_string
    b ← load ext.codec ops ext.is_utf8 tz info.compress info.revision
    pure (block b)

  -- Profile events come uncompressed whatever the connection uses.
  unfoldable pub parse_profile_events : TransportInfo Tz → M S (Packet Data Tz (Unit {0}))
  parse_profile_events info = with_timezone info.timezone λ tz. do
    skip_string
    b ← load ext.codec ops ext.is_utf8 tz false info.revision
    pure (profile_events b)

  abbrev pub or_invalid_tz : Option Tz → M S Tz
  or_invalid_tz none = throw (io other_kind)
  or_invalid_tz (some tz) = pure tz

  unfoldable pub parse_timezone : ℕ → M S Tz
  parse_timezone revision =
      if leb dbms_min_revision_with_server_timezone revision
      then (do zone ← read_string ext.is_utf8; or_invalid_tz (ext.parse_tz zone))
      else pure ext.utc

  unfoldable pub parse_display_name : ℕ → M S Bytes
  parse_display_name revision =
      if leb dbms_min_revision_with_server_display_name revision
      then read_string ext.is_utf8
      else pure []

  -- A number that servers below a revision do not send, and that is 0 then.
  unfoldable pub since : ℕ → ℕ → M S ℕ
  since min_revision revision = if leb min_revision revision then read_uvarint else pure 0

  unfoldable pub parse_server_info : M S (Packet Data Tz (Unit {0}))
  parse_server_info = do
    name ← read_string ext.is_utf8
    major_version ← read_uvarint
    minor_version ← read_uvarint
    revision ← read_uvarint
    timezone ← parse_timezone revision
    display_name ← parse_display_name revision
    patch_version ← since dbms_min_revision_with_version_patch revision
    pure (
        hello tt (record {
          name = name;
          revision = revision;
          minor_version = minor_version;
          major_version = major_version;
          timezone = timezone;
          display_name = display_name;
          patch_version = patch_version;
        }))

  unfoldable pub parse_progress : ℕ → M S (Packet Data Tz (Unit {0}))
  parse_progress revision = do
    rows ← read_uvarint
    bytes ← read_uvarint
    total_rows ← since dbms_min_revision_with_total_rows_in_progress revision
    written_rows ← since dbms_min_revision_with_client_write_info revision
    written_bytes ← since dbms_min_revision_with_client_write_info revision
    pure (
        progress (record {
          rows = rows;
          bytes = bytes;
          total_rows = total_rows;
          written_rows = written_rows;
          written_bytes = written_bytes;
        }))

  unfoldable pub parse_profile_info : M S (Packet Data Tz (Unit {0}))
  parse_profile_info = do
    rows ← read_uvarint
    blocks ← read_uvarint
    bytes ← read_uvarint
    applied_limit ← read_scalar bool
    rows_before_limit ← read_uvarint
    calculated_rows_before_limit ← read_scalar bool
    pure (
        profile_info (record {
          rows = rows;
          bytes = bytes;
          blocks = blocks;
          applied_limit = applied_limit;
          rows_before_limit = rows_before_limit;
          calculated_rows_before_limit = calculated_rows_before_limit;
        }))

  unfoldable pub parse_table_columns : M S (Packet Data Tz (Unit {0}))
  parse_table_columns = do
    table_name ← read_string ext.is_utf8
    columns ← read_string ext.is_utf8
    pure (table_columns (record { table_name = table_name; columns = columns }))

  unfoldable pub parse_exception : M S (Packet Data Tz (Unit {0}))
  parse_exception = do
    code ← read_scalar u32
    name ← read_string ext.is_utf8
    message ← read_string ext.is_utf8
    stack_trace ← read_string ext.is_utf8
    pure (
        exception
          (record { code = code; name = name; message = message; stack_trace = stack_trace }))

  -- The `match` of `parse_packet` on the packet's number.
  unfoldable pub parse_body : TransportInfo Tz → ℕ → ℕ → M S (Packet Data Tz (Unit {0}))
  parse_body info revision packet =
      if packet == server_hello
      then parse_server_info
      else (if packet == server_pong
          then pure (pong tt)
          else (if packet == server_progress
              then parse_progress revision
              else (if packet == server_profile_info
                  then parse_profile_info
                  else (if packet == server_table_columns
                      then parse_table_columns
                      else (if packet == server_exception
                          then parse_exception
                          else (if packet == server_data
                                || (packet == server_totals || packet == server_extremes)
                              then parse_block info
                              else (if packet == server_profile_events
                                  then parse_profile_events info
                                  else (if packet == server_end_of_stream
                                      then pure (eof tt)
                                      else throw (driver (unknown_packet packet))))))))))

  unfoldable pub parse_packet : TransportInfo Tz → ℕ → M S (Packet Data Tz (Unit {0}))
  parse_packet info revision = do packet ← read_uvarint; parse_body info revision packet
