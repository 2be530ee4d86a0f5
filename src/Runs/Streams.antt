-- ===== src/Runs/Streams.antt =====
-- Runs of the packet stream in src/io/transport.rs, over a transport that follows a script.
use clickhouse_rs.Prelude.{ℕ, ◌+◌, ◌≡◌, refl, false, List, [], ◌∷◌, Bytes, Option, some, none}
use clickhouse_rs.Block.{new_block}
use clickhouse_rs.Packet.{Packet, progress, block, pong}
use clickhouse_rs.Transport.{ready, pending, ok, Item}
use clickhouse_rs.PacketStream.{
  Inner, ask, PacketStream, poll_stream, returned, crashed, read_block,
}
use clickhouse_rs.PacketStream.Owner.{Owned, poll_stream-Owned}
use clickhouse_rs.PacketStream.ReadBlock.{here, skips, waits, read_block_answer, read_block_closed}

-- `none` is a poll that is not ready; a script that has ended is a closed connection.
abbrev Script : Type 0
Script = List (Option (Packet Bytes ℕ (Unit {0})))

abbrev play : Script → Item (Packet Bytes ℕ (Unit {0})) × Script
play [] = (ready none, [])
play (none ∷ rest) = (pending, rest)
play (some p ∷ rest) = (ready (some (ok p)), rest)

abbrev scripted : Inner Bytes ℕ Script
scripted = record { send = λ t. (ready (ok tt), t); poll_next = λ t. play t }

abbrev some_progress : Packet Bytes ℕ (Unit {0})
some_progress =
    progress (record { rows = 1; bytes = 2; total_rows = 3; written_rows = 0; written_bytes = 0 })

abbrev answering : Script
answering = some some_progress ∷ none ∷ some (block new_block) ∷ some (pong tt) ∷ []

abbrev called : Script → PacketStream Bytes ℕ Script
called t = record { inner = some t; state = ask; read_block = false }

poll_stream-Owned_example :
    Owned scripted (called answering) (poll_stream scripted (called answering))
poll_stream-Owned_example = poll_stream-Owned scripted (called answering)

read_block_answer_example :
    read_block scripted (λ t. t) (2 + 3) (called answering)
    ≡ returned (some (pong tt) ∷ [], some new_block)
read_block_answer_example =
    read_block_answer scripted (λ t. t) 2 answering answering
      (some (block new_block) ∷ some (pong tt) ∷ []) (some (pong tt) ∷ []) new_block refl
      (skips (none ∷ some (block new_block) ∷ some (pong tt) ∷ []) some_progress refl tt
        (waits (some (block new_block) ∷ some (pong tt) ∷ []) refl here))
      refl

read_block_closed_example : read_block scripted (λ t. t) 10 (called []) ≡ crashed
read_block_closed_example = read_block_closed scripted (λ t. t) [] [] [] 9 refl refl
