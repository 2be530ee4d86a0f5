-- ===== src/BlockStream/Blocks.antt =====
-- src/types/query_result: the blocks of a query that ends.
use clickhouse_rs.Prelude.{
  ℕ, zero, suc, ◌+◌, ◌<◌, ◌≡◌, refl, sym, ap, ◌∙◌, arith, if◌then◌else◌, Bool, true, false, inl,
  inr, List, [], ◌∷◌, ◌++◌, length, Option, some,
}
use clickhouse_rs.Block.{Block}
use clickhouse_rs.Errors.{Message}
use clickhouse_rs.Pool.{PoolBinding, attached, detached}
use clickhouse_rs.PacketStream.{Ended, returned}
use clickhouse_rs.BlockStream.{
  Packets, reading, finished, Client, BlockStream, new_stream, fetch_blocks, after_answer,
}
use mathlib.Core.List.{append_assoc, append-nil}
use clickhouse_rs.BlockStream.Polls.{
  Part, blocks_of, shown, Sends, reader, hides, over_at, Polled, poll_block-Polled,
}

module _ {Data Tz T P : Type 0} (ops : Packets Data Tz T P) (read_error : Message) (t : T)
    (skip : Bool) (o : Option T) where
  -- `fetch_all` on a reader: the blocks that are shown, behind those that are there.
  fetch_blocks-reader :
      (fuel i : ℕ) (p : P) (parts : List (Part Data)) (before : List (Block Data))
      → Sends ops p parts t
      → length parts + 1 < fuel
      → (q : P) × (j : ℕ) × (fetch_blocks ops read_error fuel (reader o p i skip) before
          ≡ returned (before ++ shown (hides i skip) (blocks_of parts), over_at t q j skip))
  unfolding fetch_blocks Polled
  fetch_blocks-reader zero i p parts before h enough = absurd (omega arith)
  fetch_blocks-reader (suc fuel) i p parts before h enough =
      let more : BlockStream T P → List (Block Data) → Ended (List (Block Data) × BlockStream T P) =
        λ u bs. fetch_blocks ops read_error fuel u bs in
      elim (poll_block-Polled ops read_error t skip o (suc fuel) i p parts h enough) [
        | inl (b, rest, q, j, e, sends, less, columns, left) ↦
            let (r, k, same) =
              fetch_blocks-reader fuel j q rest (before ++ b ∷ []) sends (omega arith) in
            (
              r,
              k,
              ap (λ a. after_answer ops read_error a before more) e
                  ∙ ap (λ x. more (reader o q j skip) (if x then before else before ++ b ∷ []))
                      columns
                  ∙ same
                  ∙ ap (λ bs. returned (bs, over_at t r k skip))
                      (append_assoc before (b ∷ []) (shown (hides j skip) (blocks_of rest))
                        ∙ ap (◌++◌ before) (sym left)),
            )
        | inr (inl (rest, q, j, e, sends, less, left)) ↦
            let (r, k, same) = fetch_blocks-reader fuel j q rest before sends (omega arith) in
            (
              r,
              k,
              ap (λ a. after_answer ops read_error a before more) e
                  ∙ same
                  ∙ ap (λ bs. returned (before ++ bs, over_at t r k skip)) (sym left),
            )
        | inr (inr (q, j, e, left)) ↦ (
          q,
          j,
          ap (λ a. after_answer ops read_error a before more) e
              ∙ ap (λ bs. returned (bs, over_at t q j skip)) (sym (append-nil before))
              ∙ ap (λ bs. returned (before ++ bs, over_at t q j skip)) (sym left),
        )
      ]

-- When the packet stream answers blocks, progress, profiles and waiting, and then the end of the stream,
-- `fetch_all` on a new stream ends within as many polls as there are answers, and two more. It has the blocks with
-- columns in order, without the first block of all where that is to be skipped; the stream is finished, the client
-- has the transport again, and its handle is attached to the pool.
pub fetch_blocks-new_stream :
    {Data Tz T P : Type 0} (ops : Packets Data Tz T P) (read_error : Message) (t : T)
    (client : Client T) (p : P) (skip : Bool) (parts : List (Part Data)) (fuel : ℕ)
    → client.pool ≡ detached
    → Sends ops p parts t
    → length parts + 1 < fuel
    → (s : BlockStream T P) × (fetch_blocks ops read_error fuel (new_stream client p skip) []
        ≡ returned (shown skip (blocks_of parts), s))
      × (s.state ≡ finished)
      × (s.client.inner ≡ some t)
      × (s.client.pool ≡ attached)
unfolding new_stream
fetch_blocks-new_stream ops read_error t client p skip parts fuel pool h enough =
    let (q, j, e) =
      fetch_blocks-reader ops read_error t skip client.inner fuel 0 p parts [] h enough in
    let start : new_stream client p skip ≡ reader client.inner p 0 skip =
      ap (λ b. reader_on b client.inner p skip) pool in
    (
      over_at t q j skip,
      ap (λ s. fetch_blocks ops read_error fuel s []) start
          ∙ e
          ∙ ap (λ k. returned (shown k (blocks_of parts), over_at t q j skip)) (first_hidden skip),
      refl,
      refl,
      refl,
    )
  where
    reader_on : {T P : Type 0} → PoolBinding → Option T → P → Bool → BlockStream T P
    reader_on b o p skip = record {
      client = record { inner = o; pool = b };
      inner = p;
      state = reading;
      block_index = 0;
      skip_first_block = skip;
    }

    first_hidden : (skip : Bool) → hides 0 skip ≡ skip
    first_hidden true = refl
    first_hidden false = refl
