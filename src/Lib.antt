-- ===== src/Lib.antt =====
-- clickhouse-rs: a client for the native protocol of ClickHouse, over TCP.
--
-- The parts of the program and how they interact. A client takes a handle from the pool (src/pool/mod.rs),
-- which opens connections and hands them out; before a query the handle may be checked and opened again
-- (src/retry_guard.rs). A command is put into the queue of the handle's transport (src/io/transport.rs),
-- which writes it, collects what the server sends in a buffer and runs the packet parser
-- (src/binary/parser.rs) on the buffer each time more has come. The parser reads numbers and strings
-- (src/binary/read_ex.rs) and blocks (src/types/block), which are lists of columns (src/types/column) and
-- may come compressed. A packet stream over the transport gives the packets to the client, and gives the
-- transport back with the last of them.
--
-- Which file models which part:
--   Prelude: numbers, lists, bits and integers that all the parts share.
--   Errors: src/errors/mod.rs. An `io::Error` is its kind; a text of an error is its bytes or a constructor.
--   Wire: src/binary/{read_ex,encoder,uvarint}.rs and src/types/{marshal,unmarshal,stat_buffer}.rs. A byte is
--     a number below 256, a buffer a list of them. A read takes a reader and gives a value or an error
--     together with the reader that is left (Wire.Outcome); `io::Read` is an instance argument, and a cursor
--     is the list of the bytes not yet read. Shifts of a u64 count modulo 64, as in a release build.
--   Protocol: the constants of src/binary/protocol.rs.
--   Column: `Column`, `ColumnData` and `ChunkColumnData` of src/types/column. `ColumnData` is a record of
--     operations, with laws that an implementation owes; Column.Data.LoadBack fills them.
--     Column.Concat is src/types/column/concat.rs, with a chunk as the list of its values.
--   Text: the functions of Rust's standard library on strings and numbers that the names use; a text is its
--     UTF-8 bytes, and `trim` removes ASCII white space.
--   SqlType: `SqlType`, `SimpleAggFunc` and their names, of src/types/mod.rs.
--   Column.Names: the parsers of type names in src/types/column/factory.rs that are written by hand.
--   Column.Data: `len`, `save` and `sql_type` of the implementations of `ColumnData` in src/types/column, which
--     are one data type; Column.Data.Plain and Column.Data.Load are their `load` and `load_data`. A vector is
--     the bytes of its memory, on a little-endian machine. Column.Data.Combine is
--     the parsers of type names that are built with the crate `combine`, which is a parameter, `Combine`, with laws;
--     the time zones of chrono_tz are a parameter too. Column.Data.Steady is about `load_data` on a part of the
--     input, as the packet parser and the transport run it.
--   StringPool: src/types/column/string_pool.rs, the memory of a string column. A slice is its pointer, and a
--     write changes the chunk.
--   Block: src/types/block/{mod,block_info,compressed}.rs. The C functions for LZ4 and CityHash are a
--     parameter, `Codec`. Block.Chunks is src/types/block/chunk_iterator.rs.
--   Packet: the packets of src/types/mod.rs and their parser. `String::from_utf8`, chrono_tz and the codec
--     are a parameter, `Externals`.
--   Column.LowCardinality: `push` and `at` of src/types/column/low_cardinality.rs, over an inner column that is a
--     record of operations with laws, which Column.LowCardinality.Strings fills with src/types/column/string.rs;
--     its HashMap is the list of its entries.
--   BlockStream: src/types/query_result, the stream of a query's blocks and the fold of `fetch_all`, over a packet
--     stream that is a record of operations.
--   Decimal: src/types/decimal.rs. A product of i64 numbers wraps around, as in a release build.
--   Query: src/types/query.rs. Command: src/types/cmd.rs, src/client_info.rs and the settings of
--     src/types/options.rs; a HashMap is the list of its entries, and the text of a float is an argument.
--     Command.QueryPacket is a reader of the packet of a query, written from the protocol, as a server has it.
--   Transport: `ClickhouseTransport` and src/io/read_to_end.rs. What the socket answers is a list with an
--     entry for each call; the commands and their packing are a type and a function. `clear` is left out.
--   PacketStream: `PacketStream` and `Packet::bind`, over a transport with the two operations it calls.
--   Pool: src/pool/mod.rs, `ClientHandle` and `TransportStatus`. A future is a number, and a table says what
--     polling it answers; the counters and queues are fields of one record, and an operation of a task runs
--     as one step. Pool.Steps is the relation of these steps.
--   Retry: `Pool::retry_open` and src/retry_guard.rs. What connecting and the ping answer is given by the
--     number of the call.
--   Runs: instances and runs on concrete inputs.
--
-- Bounds and fuel. A read of n bytes has n rounds, since each round gets a byte at least; a loop over a
-- reader has one round more than the reader's budget, the bytes that can still come. The loop of
-- `poll_next` has a round more than the socket's answers, and each round uses one. A poll of the packet
-- stream has three rounds. `allocate` calls itself once at most. The search of `find_chunk` has as many
-- rounds as the index has entries. `load_data` calls itself for a part of a type's name, which is shorter,
-- so one call more than the name has bytes is enough. The loops of `parse_low_cardinality` move by one byte in
-- each round. Each round of the block stream uses one answer of the packet stream. The loop of `decimal2str`
-- puts a zero in front at most as often as the scale says. The loops that connect again have no bound in the
-- code: their fuel is an argument, and the theorems on them say how much is enough and when none is.
--
-- A `Vec` of more than 2^63 - 1 bytes cannot be allocated, and the strings that are read panic at such a length
-- (`allocated`); the capacities of the vectors of columns and the memory of the machine are not bounded. The
-- readers of the theorems on every reader (`Lawful`) have finitely many bytes to give, which `io::Read` does not
-- ask for; an endless reader of continued bytes is read for ever.
--
-- What is not modelled. Of the columns: `push` and `at` but for those of strings and those with a dictionary, `cast_to`, the access to
-- their memory, the iterators, and the adapters that convert while they save; the `save` of DateTime64 columns
-- is not written in the code either. Values and their conversions, the parsing of connection URLs, and the
-- client's calls in src/lib.rs are not modelled; they stand above or beside the parts here. Sockets and TLS,
-- logging, the printing of blocks and the bindings of the C libraries are calls of other code. The atomics of
-- the pool are read and written in sequence: an interleaving inside one operation is not modelled.
pub mod Prelude
pub mod Errors
pub mod Wire
pub mod Block
pub mod Protocol
pub mod BlockStream
pub mod Decimal
pub mod Query
pub mod Command
pub mod Column
pub mod Packet
pub mod Transport
pub mod PacketStream
pub mod Pool
pub mod Retry
pub mod SqlType
pub mod StringPool
pub mod Text
pub mod Runs
