-- ===== src/Transport/Packets.antt =====
-- The packets that a transport yields are those of the byte stream, however it is cut into reads.
use clickhouse_rs.Prelude.{◌≡◌, true, ◌⊎◌}
use clickhouse_rs.Prelude.{List, Bytes, some, none}
use clickhouse_rs.Errors.{Error, to_io_error}
use clickhouse_rs.Wire.Outcome.{Outcome, done, fail, stuck, Cursor, cursor_read}
use clickhouse_rs.Wire.Incremental.{Waits}
use clickhouse_rs.Column.{ColumnData, LoadLaws}
use clickhouse_rs.Packet.{Packet, TransportInfo, Externals, parse_packet}
use clickhouse_rs.Transport.{
  ReadEvent, Transport, ready, pending, panicked, ok, err, Next, Item, learn,
}
use clickhouse_rs.Transport.Receive.{stream}

abbrev parse :
    {Data Tz : Type 0}
    → ColumnData Data Tz
    → Externals Tz
    → TransportInfo Tz
    → Bytes
    → Outcome Cursor (Packet Data Tz (Unit {0}))
parse ops ext info bs = parse_packet ops ext info info.revision bs

module _ {Data Tz C : Type 0} (ops : ColumnData Data Tz) (laws : LoadLaws ops)
    (ext : Externals Tz) where
  -- What `poll_next` answers, from the parser's answer on the whole stream `all`; `u` and `fs` are what it
  -- leaves of the transport and of the socket.
  abbrev pub Answers :
      TransportInfo Tz
      → Bytes
      → Item (Packet Data Tz (Unit {0}))
      → Transport Tz C
      → List ReadEvent
      → Type 0
  Answers info all (ready (some (ok p))) u fs =
      (parse ops ext info all ≡ done p (stream u fs)) × (u.info ≡ learn p info)
  Answers info all (ready (some (err k))) u fs =
      ((stream u fs ≡ all) × (u.info ≡ info))
      ⊎ ((e : Error) × (parse ops ext info all ≡ fail e (stream u fs))
          × (to_io_error e ≡ k)
          × (u.info ≡ info))
  Answers info all (ready none) u fs = (stream u fs ≡ all) × (u.info ≡ info) × (u.at_end ≡ true)
  Answers info all pending u fs =
      (stream u fs ≡ all) × (u.info ≡ info) × Waits (parse ops ext info u.rd)
  Answers info all panicked u fs = parse ops ext info all ≡ stuck

  abbrev pub AnswersNext :
      TransportInfo Tz → Bytes → Next (Transport Tz C) (Packet Data Tz (Unit {0})) → Type 0
  AnswersNext info all s = Answers info all s.item s.left s.events
