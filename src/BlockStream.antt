-- ===== src/BlockStream.antt =====
-- src/types/query_result/stream_blocks.rs and mod.rs: the blocks that a query answers, as a stream.
-- The packet stream is a type `P` with the two operations that are called, and the transport is a type `T`.
pub mod Polls
pub mod Blocks
use clickhouse_rs.Prelude.{
  ℕ, zero, suc, ◌+◌, ltb, ◌||◌, ◌&&◌, not, if◌then◌else◌, Bool, List, [], ◌∷◌, ◌++◌, Option, some,
  none,
}
use clickhouse_rs.Errors.{
  Error, ErrorKind, another_kind, Message, io, driver, server, other, unexpected_packet,
}
use clickhouse_rs.Block.{Block, is_empty}
use clickhouse_rs.Packet.{
  Packet, hello, pong, progress, profile_info, profile_events, table_columns, exception, block, eof,
}
use clickhouse_rs.Transport.{Poll, ready, pending, panicked, Result, ok, err, Item}
use clickhouse_rs.PacketStream.{Ended, returned, raised, crashed, unfinished}
use clickhouse_rs.Pool.{PoolBinding, is_attached, attach, detach}

-- `poll_next` and `take_transport` of the packet stream, and the flag of the transport.
pub record Packets (Data Tz T P : Type 0) : Type 0 where
  pub next_packet : P → Item (Packet Data Tz T) × P
  pub take_transport : P → Option T × P
  pub set_inconsistent : T → T

pub data BlockStreamState : Type 0 where
  reading finished error : BlockStreamState

-- The fields of the client's handle that the stream writes.
pub record Client (T : Type 0) : Type 0 where
  pub inner : Option T
  pub pool : PoolBinding

pub record BlockStream (T P : Type 0) : Type 0 where
  pub client : Client T
  pub inner : P
  pub state : BlockStreamState
  pub block_index : ℕ
  pub skip_first_block : Bool

-- `Poll<Option<Result<A>>>`
abbrev pub Answer : Type 0 → Type 0
Answer A = Poll (Option (Result A Error))

-- What a round of the loop does: go on, or return.
pub data Step (Data T P : Type 0) : Type 0 where
  next_round : BlockStream T P → Step Data T P
  answered : Answer (Block Data) → BlockStream T P → Step Data T P

-- `if !is_attached() { attach() }`; `none` is a panic.
unfoldable pub attach_again : PoolBinding → Option PoolBinding
unfolding is_attached attach
attach_again pool = if is_attached pool then some pool else attach pool

abbrev pub with_binding : {A : Type 0} → A → Option PoolBinding → (PoolBinding → A) → A
with_binding crash none f = crash
with_binding crash (some pool) f = f pool

-- `ErrorKind::UnexpectedEof`, a kind that no code asks for.
abbrev pub unexpected_eof : ErrorKind
unexpected_eof = another_kind 0

module _ {T P : Type 0} where
  unfoldable pub new_stream : Client T → P → Bool → BlockStream T P
  new_stream client inner skip_first_block = record {
    client = client;
    inner = inner;
    state = reading;
    block_index = 0;
    skip_first_block = skip_first_block;
  }

module _ {Data Tz T P : Type 0} (ops : Packets Data Tz T P) (read_error : Message) where
  -- The `match` on a packet.
  unfoldable pub on_packet : Packet Data Tz T → BlockStream T P → Step Data T P
  unfolding attach_again is_empty
  on_packet (eof t) s = with_binding (answered panicked s) (attach_again s.client.pool) λ pool.
      next_round (record s { client = record { inner = some t; pool = pool }; state = finished })
  on_packet (profile_events b) s = next_round s
  on_packet (profile_info p) s = next_round s
  on_packet (progress p) s = next_round s
  on_packet (exception e) s =
      answered (ready (some (err (server e)))) (record s { state = finished })
  on_packet (block b) s =
      let counted : BlockStream T P = record s { block_index = s.block_index + 1 } in
      if (ltb 1 (s.block_index + 1) || not s.skip_first_block) && not (is_empty b.columns)
      then answered (ready (some (ok b))) counted
      else next_round counted
  on_packet (hello t i) s = answered (ready (some (err (driver unexpected_packet)))) s
  on_packet (pong t) s = answered (ready (some (err (driver unexpected_packet)))) s
  on_packet (table_columns c) s = answered (ready (some (err (driver unexpected_packet)))) s

  -- The `match` on what the packet stream answers.
  unfoldable pub on_answer : Item (Packet Data Tz T) → BlockStream T P → Step Data T P
  unfolding on_packet
  on_answer (ready (some (err e))) s = answered (ready (some (err (io e)))) s
  on_answer pending s = answered pending s
  on_answer panicked s = answered panicked s
  on_answer (ready none) s =
      answered (ready (some (err (io unexpected_eof)))) (record s { state = error })
  on_answer (ready (some (ok p))) s = on_packet p s

  abbrev pub on_next : Item (Packet Data Tz T) × P → BlockStream T P → Step Data T P
  on_next (item, inner) s = on_answer item (record s { inner = inner })

  -- One round of the loop; `read_error` is the message of a broken stream.
  unfoldable pub stream_round : BlockStreamState → BlockStream T P → Step Data T P
  unfolding on_answer
  stream_round finished s = answered (ready none) s
  stream_round error s = answered (ready (some (err (other read_error)))) s
  stream_round reading s = on_next (ops.next_packet s.inner) s

  abbrev pub after_step :
      Step Data T P
      → (BlockStream T P → Answer (Block Data) × BlockStream T P)
      → Answer (Block Data) × BlockStream T P
  after_step (next_round u) more = more u
  after_step (answered a u) more = (a, u)

  -- The loop of `poll_next`, one packet in each round.
  unfoldable pub poll_block : ℕ → BlockStream T P → Answer (Block Data) × BlockStream T P
  unfolding stream_round
  poll_block zero s = (panicked, s)
  poll_block (suc fuel) s = after_step (stream_round s.state s) (λ u. poll_block fuel u)

  -- `Drop`; `none` is a panic.
  abbrev pub give_back : Option T × P → PoolBinding → BlockStream T P → BlockStream T P
  give_back (none, inner) pool s = record s {
    client = record { inner = s.client.inner; pool = pool };
    inner = inner;
  }
  give_back (some t, inner) pool s = record s {
    client = record { inner = some (ops.set_inconsistent t); pool = pool };
    inner = inner;
  }

  unfoldable pub drop_stream : BlockStreamState → BlockStream T P → Option (BlockStream T P)
  unfolding attach_again
  drop_stream finished s = some s
  drop_stream error s = some s
  drop_stream reading s =
      with_binding none (attach_again s.client.pool)
        λ pool. some (give_back (ops.take_transport s.inner) pool s)

  -- What `try_fold` does with an answer.
  abbrev pub after_answer :
      Answer (Block Data) × BlockStream T P
      → List (Block Data)
      → (BlockStream T P → List (Block Data) → Ended (List (Block Data) × BlockStream T P))
      → Ended (List (Block Data) × BlockStream T P)
  after_answer (ready none, u) blocks more = returned (blocks, u)
  after_answer (ready (some (err e)), u) blocks more = raised e
  after_answer (ready (some (ok b)), u) blocks more =
      more u (if is_empty b.columns then blocks else blocks ++ b ∷ [])
  after_answer (pending, u) blocks more = more u blocks
  after_answer (panicked, u) blocks more = crashed

  -- The `try_fold` of `fetch_all`, with the polls of the task that runs it.
  unfoldable pub fetch_blocks :
      ℕ → BlockStream T P → List (Block Data) → Ended (List (Block Data) × BlockStream T P)
  unfolding poll_block is_empty
  fetch_blocks zero s blocks = unfinished
  fetch_blocks (suc fuel) s blocks =
      after_answer (poll_block (suc fuel) s) blocks λ u more. fetch_blocks fuel u more
