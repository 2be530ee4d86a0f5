-- ===== src/PacketStream.antt =====
-- src/io/transport.rs (`PacketStream`) and `Packet::bind` of src/types/mod.rs: the stream of the packets
-- that answer a command.
-- The transport inside is a type `T` with the two operations that the stream calls.
pub mod Owner
pub mod ReadBlock
use clickhouse_rs.Prelude.{ℕ, zero, suc, Bool, true, false, ◌&&◌, if◌then◌else◌, Option, some, none}
use clickhouse_rs.Errors.{
  Error, ErrorKind, is_would_block, is_would_block_kind, to_io_error, io, driver, server,
  unexpected_packet,
}
use clickhouse_rs.Block.{Block}
use clickhouse_rs.Packet.{
  Packet, hello, pong, progress, profile_info, profile_events, table_columns, exception, block, eof,
}
use clickhouse_rs.Transport.{Poll, ready, pending, panicked, Result, ok, err, Item}

-- `send` and `poll_next` of `ClickhouseTransport`.
pub record Inner (Data Tz T : Type 0) : Type 0 where
  pub send : T → Poll (Result (Unit {0}) Error) × T
  pub poll_next : T → Item (Packet Data Tz (Unit {0})) × T

-- `PacketStreamState`
pub data PacketStreamState (Data Tz T : Type 0) : Type 0 where
  ask receive finished : PacketStreamState Data Tz T
  yield : Option (Packet Data Tz T) → PacketStreamState Data Tz T

pub record PacketStream (Data Tz T : Type 0) : Type 0 where
  pub inner : Option T
  pub state : PacketStreamState Data Tz T
  pub read_block : Bool

module _ {Data Tz T : Type 0} where
  -- A packet that hands the transport back; `none` is the panic of `unwrap`.
  abbrev pub hand_back : (T → Packet Data Tz T) → Option T → Option (Packet Data Tz T × Option T)
  hand_back p none = none
  hand_back p (some t) = some (p t, none)

  -- `Packet::bind`: the packet, and the transport that stays.
  unfoldable pub bind : Packet Data Tz (Unit {0}) → Option T → Option (Packet Data Tz T × Option T)
  bind (hello u info) transport = hand_back (λ t. hello t info) transport
  bind (pong u) transport = hand_back pong transport
  bind (progress p) transport = some (progress p, transport)
  bind (profile_info p) transport = some (profile_info p, transport)
  bind (profile_events b) transport = some (profile_events b, transport)
  bind (table_columns c) transport = some (table_columns c, transport)
  bind (exception e) transport = some (exception e, transport)
  bind (block b) transport = some (block b, transport)
  bind (eof u) transport = hand_back eof transport

  unfoldable pub is_block : Packet Data Tz T → Bool
  is_block (block b) = true
  is_block (hello t info) = false
  is_block (pong t) = false
  is_block (progress p) = false
  is_block (profile_info p) = false
  is_block (profile_events b) = false
  is_block (table_columns c) = false
  is_block (exception e) = false
  is_block (eof t) = false

-- What a round of the loop does: go on, or return.
pub data Round (Data Tz T : Type 0) : Type 0 where
  go : PacketStream Data Tz T → Round Data Tz T
  answer : Item (Packet Data Tz T) → PacketStream Data Tz T → Round Data Tz T

module _ {Data Tz T : Type 0} (ops : Inner Data Tz T) where
  abbrev pub asked : PacketStream Data Tz T → Poll (Result (Unit {0}) Error) × T → Round Data Tz T
  asked s (ready (ok u), t) = go (record s { inner = some t; state = receive })
  asked s (ready (err e), t) =
      if is_would_block e
      then answer pending (record s { inner = some t })
      else answer (ready (some (err (to_io_error e)))) (record s { inner = some t })
  asked s (pending, t) = answer pending (record s { inner = some t })
  asked s (panicked, t) = answer panicked (record s { inner = some t })

  -- The packet is yielded at once; a block ends the stream of `read_block`.
  abbrev pub yielded :
      PacketStream Data Tz T → Option (Packet Data Tz T × Option T) → Round Data Tz T
  yielded s none = answer panicked s
  yielded s (some (p, transport)) = answer (ready (some (ok p))) (record s {
    inner = transport;
    state = if s.read_block && is_block p then finished else yield none;
  })

  abbrev pub received :
      PacketStream Data Tz T → Item (Packet Data Tz (Unit {0})) × T → Round Data Tz T
  received s (ready (some (ok p)), t) = yielded s (bind p (some t))
  received s (ready (some (err k)), t) =
      if is_would_block_kind k
      then answer pending (record s { inner = some t })
      else answer (ready (some (err k))) (record s { inner = some t })
  received s (ready none, t) = answer (ready none) (record s { inner = some t })
  received s (pending, t) = answer pending (record s { inner = some t })
  received s (panicked, t) = answer panicked (record s { inner = some t })

  abbrev pub ask_inner : PacketStream Data Tz T → Option T → Round Data Tz T
  ask_inner s none = go (record s { state = finished })
  ask_inner s (some t) = asked s (ops.send t)

  abbrev pub receive_inner : PacketStream Data Tz T → Option T → Round Data Tz T
  receive_inner s none = go (record s { state = finished })
  receive_inner s (some t) = received s (ops.poll_next t)

  abbrev pub take_inner : PacketStream Data Tz T → Option T → Round Data Tz T
  take_inner s none = answer (ready none) s
  take_inner s (some t) = answer (ready (some (ok (eof t)))) (record s { inner = none })

  -- The `match` on the state.
  abbrev pub by_state : PacketStream Data Tz T → PacketStreamState Data Tz T → Round Data Tz T
  by_state s ask = ask_inner s s.inner
  by_state s receive = receive_inner s s.inner
  by_state s (yield p) = go (record s { state = receive })
  by_state s finished = take_inner s s.inner

  unfoldable pub round : PacketStream Data Tz T → Round Data Tz T
  unfolding bind is_block
  round s = by_state s s.state

  abbrev pub after_round :
      Round Data Tz T
      → (PacketStream Data Tz T → Item (Packet Data Tz T) × PacketStream Data Tz T)
      → Item (Packet Data Tz T) × PacketStream Data Tz T
  after_round (go s) again = again s
  after_round (answer i s) again = (i, s)

  -- `poll_next` of the stream: the loop, with the number of its rounds bounded.
  unfoldable pub poll_rounds :
      ℕ → PacketStream Data Tz T → Item (Packet Data Tz T) × PacketStream Data Tz T
  unfolding round
  poll_rounds zero s = (panicked, s)
  poll_rounds (suc fuel) s = after_round (round s) (λ u. poll_rounds fuel u)

  unfoldable pub poll_stream :
      PacketStream Data Tz T → Item (Packet Data Tz T) × PacketStream Data Tz T
  unfolding poll_rounds
  poll_stream s = poll_rounds 3 s

-- How an `async` function ends.
pub data Ended (A : Type 0) : Type 0 where
  returned : A → Ended A
  raised : Error → Ended A
  crashed unfinished : Ended A

-- `Ok((h.unwrap(), b))`
abbrev pub unwrap_transport :
    {Data T : Type 0} → Option T → Option (Block Data) → Ended (T × Option (Block Data))
unwrap_transport none b = crashed
unwrap_transport (some t) b = returned (t, b)

abbrev pub woken : {T : Type 0} → (T → T) → Option T → Option T
woken wait none = none
woken wait (some t) = some (wait t)

module _ {Data Tz T : Type 0} where
  abbrev pub on_item :
      Item (Packet Data Tz T)
      → Option T
      → Option (Block Data)
      → (Bool → Option T → Option (Block Data) → Ended (T × Option (Block Data)))
      → Ended (T × Option (Block Data))
  on_item pending h b again = again true h b
  on_item panicked h b again = crashed
  on_item (ready none) h b again = unwrap_transport h b
  on_item (ready (some (err k))) h b again = raised (io k)
  on_item (ready (some (ok (eof t)))) h b again = again false (some t) b
  on_item (ready (some (ok (block c)))) h b again = again false h (some c)
  on_item (ready (some (ok (exception e)))) h b again = raised (server e)
  on_item (ready (some (ok (profile_events c)))) h b again = again false h b
  on_item (ready (some (ok (profile_info p)))) h b again = again false h b
  on_item (ready (some (ok (progress p)))) h b again = again false h b
  on_item (ready (some (ok (table_columns c)))) h b again = again false h b
  on_item (ready (some (ok (hello t info)))) h b again = raised (driver unexpected_packet)
  on_item (ready (some (ok (pong t)))) h b again = raised (driver unexpected_packet)

  abbrev pub after_item :
      Item (Packet Data Tz T) × PacketStream Data Tz T
      → Option T
      → Option (Block Data)
      → (Bool
          → PacketStream Data Tz T
          → Option T
          → Option (Block Data)
          → Ended (T × Option (Block Data)))
      → Ended (T × Option (Block Data))
  after_item (i, s) h b again = on_item i h b (λ suspended h' b'. again suspended s h' b')

  abbrev pub wake_if : (T → T) → Bool → PacketStream Data Tz T → PacketStream Data Tz T
  wake_if wait suspended s = if suspended then record s { inner = woken wait s.inner } else s

  -- The loop of `read_block`; `wait` is what happens to the transport's socket while the task sleeps.
  unfoldable pub read_block_loop :
      Inner Data Tz T
      → (T → T)
      → ℕ
      → PacketStream Data Tz T
      → Option T
      → Option (Block Data)
      → Ended (T × Option (Block Data))
  read_block_loop ops wait zero s h b = unfinished
  read_block_loop ops wait (suc fuel) s h b =
      after_item (poll_stream ops s) h b
        λ suspended u h' b'. read_block_loop ops wait fuel (wake_if wait suspended u) h' b'

  unfoldable pub read_block :
      Inner Data Tz T → (T → T) → ℕ → PacketStream Data Tz T → Ended (T × Option (Block Data))
  unfolding read_block_loop
  read_block ops wait fuel s =
      read_block_loop ops wait fuel (record s { read_block = true }) none none
