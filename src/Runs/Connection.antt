-- ===== src/Runs/Connection.antt =====
-- Runs of src/binary/parser.rs and of the transport in src/io/transport.rs.
use clickhouse_rs.Prelude.{ℕ, refl, false, List, [], ◌∷◌, ◌++◌, Bytes, some}
use clickhouse_rs.Wire.Outcome.{Cursor, cursor_read}
use clickhouse_rs.Wire.Incremental.{Incremental}
use clickhouse_rs.Packet.{TransportInfo, parse_packet}
use clickhouse_rs.Packet.Incremental.{parse_packet-Incremental}
use clickhouse_rs.Transport.{
  ReadEvent, not_readable, arrived, wrote, not_writable, Transport, ok, send,
}
use clickhouse_rs.Transport.Send.{Sent, unsent, send-Sent}
use clickhouse_rs.Runs.Sample.{outside}
use clickhouse_rs.Column.{ColumnData}
use clickhouse_rs.Column.Data.{AnyColumnData}
use clickhouse_rs.Column.Data.LoadBack.{column_data}
use clickhouse_rs.Column.Data.Steady.{column_data_load_laws}
use clickhouse_rs.Runs.Columns.{some_parsers}

-- The columns of the program.
abbrev some_columns : ColumnData (AnyColumnData ℕ) ℕ
some_columns = column_data some_parsers

abbrev plain_info : TransportInfo ℕ
plain_info = record { timezone = some 0; revision = 54454; compress = false }

parse_packet-Incremental_example :
    Incremental (parse_packet some_columns outside {S = Cursor} plain_info 54454)
parse_packet-Incremental_example =
    parse_packet-Incremental some_columns (column_data_load_laws some_parsers) outside plain_info
      54454 refl

-- A transport whose commands are their bytes.
abbrev greeted : Transport ℕ Bytes
greeted = record {
  at_end = false;
  rd = [];
  buf_is_incomplete = false;
  wr = 9 ∷ 8 ∷ 7 ∷ [];
  wr_pos = 1;
  cmds = (4 ∷ []) ∷ (3 ∷ []) ∷ [];
  info = plain_info;
  inconsistent = false;
}

-- A pong, and the beginning of an exception.
abbrev pong_and_more : List ReadEvent
pong_and_more = arrived (4 ∷ 2 ∷ []) ∷ not_readable ∷ arrived (0 ∷ []) ∷ []

send-Sent_example :
    Sent
      (λ c. ok c)
      (λ c. c)
      ([] ++ unsent (λ c. ok c) (λ c. c) greeted)
      (send (λ c. ok c) (wrote 1 ∷ wrote 5 ∷ not_writable ∷ wrote 1 ∷ []) [] greeted)
send-Sent_example =
    send-Sent (λ c. ok c) (λ c. c) (wrote 1 ∷ wrote 5 ∷ not_writable ∷ wrote 1 ∷ []) [] greeted
      (λ c. refl)
