-- ===== src/Packet/Incremental.antt =====
-- The parser of packets does not change its mind when more bytes arrive.
use clickhouse_rs.Prelude.{ℕ, ◌≡◌, refl, Bool, false, Option, some, none, [], ◌==◌, ◌||◌}
use clickhouse_rs.Errors.{io, driver, other_kind, unexpected_packet, unknown_packet}
use clickhouse_rs.Wire.Outcome.{M, Cursor, cursor_read}
use clickhouse_rs.Wire.Scalar.{bool, u32}
use clickhouse_rs.Wire.ReadEx.{read_uvarint, read_scalar, read_string, skip_string}
use clickhouse_rs.Wire.Incremental.{
  Incremental, pure-Incremental, throw-Incremental, if-Incremental, >>=-Incremental,
}
use clickhouse_rs.Wire.Reads.{
  read_uvarint-Incremental, read_scalar-Incremental, read_string-Incremental,
  skip_string-Incremental,
}
use clickhouse_rs.Column.{ColumnData, LoadLaws}
use clickhouse_rs.Block.Load.{raw_load-Incremental}
use clickhouse_rs.Block.Compressed.{load}
use clickhouse_rs.Packet.{
  Externals, TransportInfo, Packet, parse_block, parse_profile_events, parse_timezone,
  or_invalid_tz, parse_display_name, since, parse_server_info, parse_progress, parse_profile_info,
  parse_table_columns, parse_exception, parse_body, parse_packet, with_timezone, pong, eof,
}

module _ {Data Tz : Type 0} (ops : ColumnData Data Tz) (laws : LoadLaws ops)
    (ext : Externals Tz) where
  text : Incremental (read_string {S = Cursor} ext.is_utf8)
  text = read_string-Incremental ext.is_utf8

  since-Incremental : (m revision : ℕ) → Incremental (since ops ext {S = Cursor} m revision)
  unfolding since
  since-Incremental m revision = if-Incremental _ _ _ read_uvarint-Incremental (pure-Incremental 0)

  or_invalid_tz-Incremental : (o : Option Tz) → Incremental (or_invalid_tz ops ext {S = Cursor} o)
  or_invalid_tz-Incremental none = throw-Incremental (io other_kind)
  or_invalid_tz-Incremental (some tz) = pure-Incremental tz

  parse_timezone-Incremental :
      (revision : ℕ) → Incremental (parse_timezone ops ext {S = Cursor} revision)
  unfolding parse_timezone
  parse_timezone-Incremental revision =
      if-Incremental _ _ _
        (>>=-Incremental (read_string ext.is_utf8) _ text
          λ zone. or_invalid_tz-Incremental (ext.parse_tz zone))
        (pure-Incremental ext.utc)

  parse_display_name-Incremental :
      (revision : ℕ) → Incremental (parse_display_name ops ext {S = Cursor} revision)
  unfolding parse_display_name
  parse_display_name-Incremental revision = if-Incremental _ _ _ text (pure-Incremental [])

  parse_server_info-Incremental : Incremental (parse_server_info ops ext {S = Cursor})
  unfolding parse_server_info
  parse_server_info-Incremental = >>=-Incremental (read_string ext.is_utf8) _ text λ name.
      >>=-Incremental read_uvarint _ read_uvarint-Incremental λ major.
        >>=-Incremental read_uvarint _ read_uvarint-Incremental λ minor.
          >>=-Incremental read_uvarint _ read_uvarint-Incremental λ revision.
            >>=-Incremental (parse_timezone ops ext revision) _
              (parse_timezone-Incremental revision)
              λ tz.
                >>=-Incremental (parse_display_name ops ext revision) _
                  (parse_display_name-Incremental revision)
                  λ dn.
                    >>=-Incremental (since ops ext _ revision) _ (since-Incremental _ revision)
                      λ patch. pure-Incremental _

  parse_progress-Incremental :
      (revision : ℕ) → Incremental (parse_progress ops ext {S = Cursor} revision)
  unfolding parse_progress
  parse_progress-Incremental revision =
      >>=-Incremental read_uvarint _ read_uvarint-Incremental λ rows.
        >>=-Incremental read_uvarint _ read_uvarint-Incremental λ bytes.
          >>=-Incremental (since ops ext _ revision) _ (since-Incremental _ revision) λ total.
            >>=-Incremental (since ops ext _ revision) _ (since-Incremental _ revision) λ wr.
              >>=-Incremental (since ops ext _ revision) _ (since-Incremental _ revision)
                λ wb. pure-Incremental _

  parse_profile_info-Incremental : Incremental (parse_profile_info ops ext {S = Cursor})
  unfolding parse_profile_info
  parse_profile_info-Incremental = >>=-Incremental read_uvarint _ read_uvarint-Incremental λ rows.
      >>=-Incremental read_uvarint _ read_uvarint-Incremental λ blocks.
        >>=-Incremental read_uvarint _ read_uvarint-Incremental λ bytes.
          >>=-Incremental (read_scalar bool) _ (read_scalar-Incremental bool) λ limit.
            >>=-Incremental read_uvarint _ read_uvarint-Incremental λ before.
              >>=-Incremental (read_scalar bool) _ (read_scalar-Incremental bool)
                λ calculated. pure-Incremental _

  parse_table_columns-Incremental : Incremental (parse_table_columns ops ext {S = Cursor})
  unfolding parse_table_columns
  parse_table_columns-Incremental =
      >>=-Incremental (read_string ext.is_utf8) _ text
        λ name. >>=-Incremental (read_string ext.is_utf8) _ text λ columns. pure-Incremental _

  parse_exception-Incremental : Incremental (parse_exception ops ext {S = Cursor})
  unfolding parse_exception
  parse_exception-Incremental =
      >>=-Incremental (read_scalar u32) _ (read_scalar-Incremental u32) λ code.
        >>=-Incremental (read_string ext.is_utf8) _ text λ name.
          >>=-Incremental (read_string ext.is_utf8) _ text
            λ message. >>=-Incremental (read_string ext.is_utf8) _ text λ trace. pure-Incremental _

  load-Incremental :
      (tz : Tz) (compress : Bool) (revision : ℕ)
      → compress ≡ false
      → Incremental (load ext.codec ops ext.is_utf8 {S = Cursor} tz compress revision)
  unfolding load
  load-Incremental tz compress revision e =
      rw e (raw_load-Incremental ops laws ext.is_utf8 tz revision)

  with_timezone-Incremental :
      (zone : Option Tz) (k : Tz → M Cursor (Packet Data Tz (Unit {0})))
      → ((tz : Tz) → Incremental (k tz))
      → Incremental (with_timezone ops ext zone k)
  with_timezone-Incremental none k h = throw-Incremental (driver unexpected_packet)
  with_timezone-Incremental (some tz) k h = h tz

  parse_block-Incremental :
      (info : TransportInfo Tz)
      → info.compress ≡ false
      → Incremental (parse_block ops ext {S = Cursor} info)
  unfolding parse_block
  parse_block-Incremental info e = with_timezone-Incremental info.timezone _ λ tz.
      >>=-Incremental skip_string _ skip_string-Incremental λ u.
        >>=-Incremental (load ext.codec ops ext.is_utf8 tz info.compress info.revision) _
          (load-Incremental tz info.compress info.revision e) λ b. pure-Incremental _

  parse_profile_events-Incremental :
      (info : TransportInfo Tz) → Incremental (parse_profile_events ops ext {S = Cursor} info)
  unfolding parse_profile_events
  parse_profile_events-Incremental info = with_timezone-Incremental info.timezone _ λ tz.
      >>=-Incremental skip_string _ skip_string-Incremental λ u.
        >>=-Incremental (load ext.codec ops ext.is_utf8 tz false info.revision) _
          (load-Incremental tz false info.revision refl) λ b. pure-Incremental _

  parse_body-Incremental :
      (info : TransportInfo Tz) (revision packet : ℕ)
      → info.compress ≡ false
      → Incremental (parse_body ops ext {S = Cursor} info revision packet)
  unfolding parse_body
  parse_body-Incremental info revision packet e =
      if-Incremental (packet == 0) _ _ parse_server_info-Incremental (
        if-Incremental (packet == 4) _ _ (pure-Incremental (pong tt)) (
          if-Incremental (packet == 3) _ _ (parse_progress-Incremental revision) (
            if-Incremental (packet == 6) _ _ parse_profile_info-Incremental (
              if-Incremental (packet == 11) _ _ parse_table_columns-Incremental (
                if-Incremental (packet == 2) _ _ parse_exception-Incremental (
                  if-Incremental (packet == 1 || (packet == 7 || packet == 8)) _ _
                    (parse_block-Incremental info e)
                    (if-Incremental (packet == 14) _ _ (parse_profile_events-Incremental info) (
                      if-Incremental (packet == 5) _ _ (pure-Incremental (eof tt))
                        (throw-Incremental (driver (unknown_packet packet)))))))))))

  -- On an uncompressed connection, over columns that load incrementally, as `load_data` does, the
  -- parser, run on a part of what the server sends, asks for more, or answers as it would on the whole, with the rest behind, or panics as it would
  -- on the whole; an answer leaves a suffix.
  pub parse_packet-Incremental :
      (info : TransportInfo Tz) (revision : ℕ)
      → info.compress ≡ false
      → Incremental (parse_packet ops ext {S = Cursor} info revision)
  unfolding parse_packet
  parse_packet-Incremental info revision e =
      >>=-Incremental read_uvarint _ read_uvarint-Incremental
        λ packet. parse_body-Incremental info revision packet e
