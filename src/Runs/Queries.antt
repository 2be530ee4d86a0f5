-- ===== src/Runs/Queries.antt =====
-- Runs of src/types/query_result on scripts of what the packet stream answers.
use clickhouse_rs.Prelude.{ℕ, ◌≡◌, refl, arith, true, List, [], ◌∷◌, none, some}
use clickhouse_rs.Errors.{data_was_corrupted}
use clickhouse_rs.Block.{Block}
use clickhouse_rs.Block.Info.{default}
use clickhouse_rs.Block.RoundTrip.{to_column}
use clickhouse_rs.Packet.{Packet, eof}
use clickhouse_rs.Transport.{ready, pending, ok, Item}
use clickhouse_rs.Pool.{attached, detached}
use clickhouse_rs.PacketStream.{returned}
use clickhouse_rs.BlockStream.{Packets, BlockStream, finished, new_stream, fetch_blocks}
use clickhouse_rs.BlockStream.Polls.{Part, waiting, blocks, events, shown, blocks_of, item_of}
use clickhouse_rs.BlockStream.Blocks.{fetch_blocks-new_stream}

-- A packet stream is the list of its answers, and a transport a number.
abbrev Script : Type 0
Script = List (Item (Packet ℕ ℕ ℕ))

abbrev scripted : Packets ℕ ℕ ℕ Script
scripted = record {
  next_packet = λ p. elim p [ [] ↦ (ready none, []) | x ∷ rest ↦ (x, rest) ];
  take_transport = λ p. (none, p);
  set_inconsistent = λ t. t;
}

-- A block with one column, and one without any.
abbrev one_column : Block ℕ
one_column = record { info = default; columns = to_column (97 ∷ [], 7) ∷ []; capacity = 1 }

abbrev no_columns : Block ℕ
no_columns = record { info = default; columns = []; capacity = 1 }

abbrev some_parts : List (Part ℕ)
some_parts =
    blocks one_column ∷ waiting ∷ blocks one_column ∷ events no_columns ∷ blocks no_columns ∷ []

abbrev some_script : Script
some_script =
    item_of scripted (blocks one_column)
    ∷ pending
    ∷ item_of scripted (blocks one_column)
    ∷ item_of scripted (events no_columns)
    ∷ item_of scripted (blocks no_columns)
    ∷ ready (some (ok (eof 5)))
    ∷ []

fetch_blocks-new_stream_example :
    (s : BlockStream ℕ Script) × (fetch_blocks scripted data_was_corrupted 7
        (new_stream (record { inner = none; pool = detached }) some_script true)
        []
      ≡ returned (shown true (blocks_of some_parts), s))
    × (s.state ≡ finished)
    × (s.client.inner ≡ some 5)
    × (s.client.pool ≡ attached)
fetch_blocks-new_stream_example =
    fetch_blocks-new_stream scripted data_was_corrupted 5 (record { inner = none; pool = detached })
      some_script true some_parts 7 refl
      (_, refl, (_, refl, (_, refl, (_, refl, (_, refl, (_, refl)))))) (omega arith)

-- One block of the three is shown.
shown_one : shown true (blocks_of some_parts) ≡ one_column ∷ []
unfolding clickhouse_rs.Block.is_empty
shown_one = refl
