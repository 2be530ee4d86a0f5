-- ===== src/Transport.antt =====
-- src/io/transport.rs (`ClickhouseTransport`) and src/io/read_to_end.rs: the buffers between the
-- socket and the parser.
-- What the socket answers is given by the environment, a list with an entry for each call of
-- `poll_read` or `poll_write`, and a socket whose list is used up is not ready. `C` is the type of the commands, and `pack`
-- is `get_packed_command`.
pub mod Send
pub mod Receive
pub mod Packets
pub mod Close
pub mod Flush
use clickhouse_rs.Prelude.{
  ℕ, zero, suc, min, ◌+◌, ◌-◌, Bool, true, false, not, ◌==◌, ◌&&◌, if◌then◌else◌,
}
use clickhouse_rs.Prelude.{List, [], ◌∷◌, ◌++◌, length, take, drop, Bytes, Option, some, none}
use clickhouse_rs.Errors.{Error, ErrorKind, is_would_block, to_io_error, io}
use clickhouse_rs.Wire.Outcome.{Outcome, done, fail, stuck, Cursor, cursor_read}
use clickhouse_rs.Column.{ColumnData}
use clickhouse_rs.Packet.{
  Packet, ServerInfo, TransportInfo, Externals, parse_packet, hello, pong, progress, profile_info,
  profile_events, table_columns, exception, block, eof,
}

-- `Poll<io::Result<Bytes>>` of a read, and `Poll<io::Result<usize>>` of a write.
pub data ReadEvent : Type 0 where
  not_readable : ReadEvent
  arrived : Bytes → ReadEvent
  read_failed : ErrorKind → ReadEvent

pub data WriteEvent : Type 0 where
  not_writable : WriteEvent
  wrote : ℕ → WriteEvent
  write_failed : ErrorKind → WriteEvent

-- `ClickhouseTransport`, without the socket and the status; `at_end` is its field `done`, and `wr_pos` the position of `wr`.
pub record Transport (Tz C : Type 0) : Type 0 where
  pub at_end : Bool
  pub rd : Bytes
  pub buf_is_incomplete : Bool
  pub wr : Bytes
  pub wr_pos : ℕ
  pub cmds : List C
  pub info : TransportInfo Tz
  pub inconsistent : Bool

-- `Poll<A>`; `panicked` is no Rust value: the code panicked, or a loop of the model ran out of fuel.
pub data Poll (A : Type 0) : Type 0 where
  ready : A → Poll A
  pending panicked : Poll A

pub data Result (A E : Type 0) : Type 0 where
  ok : A → Result A E
  err : E → Result A E

-- What `send` leaves: its result, the transport, the socket's further answers, and the bytes that
-- the socket has taken.
pub record Sending (T : Type 0) : Type 0 where
  pub result : Poll (Result (Unit {0}) Error)
  pub left : T
  pub events : List WriteEvent
  pub sent : Bytes

-- A buffer is loaded, or there is nothing to send, or a command cannot be packed.
pub data Loaded (T : Type 0) : Type 0 where
  loaded : T → Loaded T
  idle : T → Loaded T
  unpacked : Error → T → Loaded T

-- `Poll<Option<io::Result<P>>>`
abbrev pub Item : Type 0 → Type 0
Item P = Poll (Option (Result P ErrorKind))

abbrev pub is_pending : {P : Type 0} → Item P → Bool
is_pending pending = true
is_pending panicked = false
is_pending (ready x) = false

-- What `poll_next` leaves.
pub record Next (T P : Type 0) : Type 0 where
  pub item : Item P
  pub left : T
  pub events : List ReadEvent

module _ {Tz C : Type 0} where
  unfoldable pub new_transport : Bool → Transport Tz C
  new_transport compress = record {
    at_end = false;
    rd = [];
    buf_is_incomplete = false;
    wr = [];
    wr_pos = 0;
    cmds = [];
    info = record { timezone = none; revision = 0; compress = compress };
    inconsistent = false;
  }

  -- The bytes of `wr` that have not been written.
  abbrev pub wr_rest : Transport Tz C → Bytes
  wr_rest t = drop t.wr_pos t.wr

  module _ (pack : C → Result Bytes Error) where
    abbrev pub load_packed : Transport Tz C → Result Bytes Error → Loaded (Transport Tz C)
    load_packed t (ok bytes) = loaded (record t { wr = bytes; wr_pos = 0 })
    load_packed t (err e) = unpacked e t

    abbrev pub load_command : Transport Tz C → List C → Loaded (Transport Tz C)
    load_command t [] = idle t
    load_command t (c ∷ cs) = load_packed (record t { cmds = cs }) (pack c)

    unfoldable pub load_next : Transport Tz C → Loaded (Transport Tz C)
    load_next t = if length t.wr - t.wr_pos == 0 then load_command t t.cmds else loaded t

    abbrev pub before_flush :
        Loaded (Transport Tz C)
        → List WriteEvent
        → Bytes
        → (Transport Tz C → Sending (Transport Tz C))
        → Sending (Transport Tz C)
    before_flush (loaded t) events sent k = k t
    before_flush (idle t) events sent k = record {
      result = ready (ok tt);
      left = t;
      events = events;
      sent = sent;
    }
    before_flush (unpacked e t) events sent k = record {
      result = ready (err e);
      left = t;
      events = events;
      sent = sent;
    }

    -- `send`, and `wr_flush` in it; a socket that answers `n` takes no more bytes than it is offered.
    unfoldable pub send : List WriteEvent → Bytes → Transport Tz C → Sending (Transport Tz C)
    send [] sent t =
        before_flush (load_next t) [] sent
          λ u. record { result = pending; left = u; events = []; sent = sent }
    send (not_writable ∷ es) sent t =
        before_flush (load_next t) (not_writable ∷ es) sent
          λ u. record { result = pending; left = u; events = es; sent = sent }
    send (write_failed k ∷ es) sent t =
        before_flush (load_next t) (write_failed k ∷ es) sent
          λ u. record { result = ready (err (io k)); left = u; events = es; sent = sent }
    send (wrote n ∷ es) sent t = before_flush (load_next t) (wrote n ∷ es) sent λ u.
        send es (sent ++ take n (wr_rest u))
          (record u { wr_pos = min n (length (wr_rest u)) + u.wr_pos })

-- `read_to_end`: read until the socket has nothing, is at its end, or fails. It gives the number of
-- bytes, the buffer and the socket's further answers.
unfoldable pub read_to_end :
    List ReadEvent → ℕ → Bytes → Poll (Result ℕ ErrorKind) × Bytes × List ReadEvent
read_to_end [] n rd = (pending, rd, [])
read_to_end (not_readable ∷ es) n rd = (pending, rd, es)
read_to_end (read_failed k ∷ es) n rd = (ready (err k), rd, es)
read_to_end (arrived [] ∷ es) n rd = (ready (ok n), rd, es)
read_to_end (arrived (b ∷ bs) ∷ es) n rd = read_to_end es (n + suc (length bs)) (rd ++ b ∷ bs)

-- The buffer is filled, or the socket failed.
pub data Filled (T : Type 0) : Type 0 where
  filled : T → List ReadEvent → Filled T
  fill_failed : ErrorKind → T → List ReadEvent → Filled T
  fill_unfinished : T → List ReadEvent → Filled T

module _ {Tz C : Type 0} where
  abbrev pub after_read :
      Transport Tz C
      → Poll (Result ℕ ErrorKind) × Bytes × List ReadEvent
      → (Transport Tz C → List ReadEvent → Filled (Transport Tz C))
      → Filled (Transport Tz C)
  after_read t (pending, rd, es) again = filled (record t { rd = rd }) es
  after_read t (panicked, rd, es) again = fill_unfinished t es
  after_read t (ready (err k), rd, es) again = fill_failed k (record t { rd = rd }) es
  after_read t (ready (ok zero), rd, es) again = filled (record t { rd = rd; at_end = true }) es
  after_read t (ready (ok (suc n)), rd, es) again = again (record t { rd = rd }) es

  -- The loop `while !*this.done` of `poll_next`.
  unfoldable pub fill : ℕ → Transport Tz C → List ReadEvent → Filled (Transport Tz C)
  unfolding read_to_end
  fill zero t es = fill_unfinished t es
  fill (suc fuel) t es =
      if t.at_end
      then filled t es
      else after_read t (read_to_end es 0 t.rd) (λ u es'. fill fuel u es')

module _ {Data Tz : Type 0} where
  -- A greeting tells the time zone and the revision of the server.
  unfoldable pub learn : Packet Data Tz (Unit {0}) → TransportInfo Tz → TransportInfo Tz
  learn (hello u server) info = record info {
    timezone = some server.timezone;
    revision = server.revision;
  }
  learn (pong u) info = info
  learn (progress p) info = info
  learn (profile_info p) info = info
  learn (profile_events b) info = info
  learn (table_columns c) info = info
  learn (exception e) info = info
  learn (block b) info = info
  learn (eof u) info = info

module _ {Data Tz C : Type 0} (ops : ColumnData Data Tz) (ext : Externals Tz) where
  abbrev pub consume :
      Transport Tz C
      → Outcome Cursor (Packet Data Tz (Unit {0}))
      → Item (Packet Data Tz (Unit {0})) × Transport Tz C
  consume t (done p rest) = (ready (some (ok p)), record t { rd = rest; info = learn p t.info })
  consume t (fail e rest) =
      if is_would_block e
      then (pending, t)
      else (ready (some (err (to_io_error e))), record t { rd = rest })
  consume t stuck = (panicked, t)

  unfoldable pub try_parse_msg : Transport Tz C → Item (Packet Data Tz (Unit {0})) × Transport Tz C
  unfolding learn
  try_parse_msg t = consume t (parse_packet ops ext t.info t.info.revision t.rd)

  abbrev pub finish :
      Item (Packet Data Tz (Unit {0})) × Transport Tz C
      → List ReadEvent
      → Next (Transport Tz C) (Packet Data Tz (Unit {0}))
  finish (i, t) es = record {
    item = i;
    left = record t { buf_is_incomplete = is_pending i };
    events = es;
  }

  abbrev pub after_fill :
      Filled (Transport Tz C) → Next (Transport Tz C) (Packet Data Tz (Unit {0}))
  after_fill (filled t es) =
      if t.at_end
      then record { item = ready none; left = t; events = es }
      else finish (try_parse_msg t) es
  after_fill (fill_failed k t es) = record { item = ready (some (err k)); left = t; events = es }
  after_fill (fill_unfinished t es) = record { item = panicked; left = t; events = es }

  abbrev pub early :
      Item (Packet Data Tz (Unit {0})) × Transport Tz C
      → List ReadEvent
      → (Transport Tz C → Next (Transport Tz C) (Packet Data Tz (Unit {0})))
      → Next (Transport Tz C) (Packet Data Tz (Unit {0}))
  early (pending, t) es k = k t
  early (panicked, t) es k = record { item = panicked; left = t; events = es }
  early (ready x, t) es k = record { item = ready x; left = t; events = es }

  -- `poll_next`: parse what is there, unless it is known to be too little; else read and parse again.
  unfoldable pub poll_next :
      Transport Tz C → List ReadEvent → Next (Transport Tz C) (Packet Data Tz (Unit {0}))
  unfolding try_parse_msg fill
  poll_next t es =
      let first : Item (Packet Data Tz (Unit {0})) × Transport Tz C =
        if not t.buf_is_incomplete && not (length t.rd == 0)
        then try_parse_msg t
        else (pending, t) in
      early first es (λ u. after_fill (fill (suc (length es)) u es))
