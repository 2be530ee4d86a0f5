-- ===== src/BlockStream/Polls.antt =====
-- src/types/query_result/stream_blocks.rs: what a poll answers, for a query that ends.
use clickhouse_rs.Prelude.{
  ℕ, zero, suc, ◌+◌, ◌<◌, ◌≡◌, ◌⊎◌, refl, sym, ap, ◌∙◌, arith, ltb, ◌||◌, ◌&&◌, not, if◌then◌else◌,
  Bool, true, false, inl, inr, List, [], ◌∷◌, length, drop, Option, some, none,
}
use clickhouse_rs.Block.{Block, is_empty}
use clickhouse_rs.Errors.{Message}
use clickhouse_rs.Packet.{
  Progress, ProfileInfo, Packet, progress, profile_info, profile_events, block, eof,
}
use clickhouse_rs.Transport.{ready, pending, ok, Item}
use clickhouse_rs.Pool.{attached, detached}
use clickhouse_rs.BlockStream.{
  Packets, reading, finished, BlockStream, Answer, next_round, answered, on_answer, on_next,
  after_step, poll_block,
}
use mathlib.Core.Path.{subst}

-- What the packet stream answers before the end of the stream: nothing yet, or a packet that a query has.
pub data Part (Data : Type 0) : Type 0 where
  waiting : Part Data
  blocks events : Block Data → Part Data
  progressed : Progress → Part Data
  profiled : ProfileInfo → Part Data

module _ {Data : Type 0} where
  abbrev pub blocks_of : List (Part Data) → List (Block Data)
  blocks_of [] = []
  blocks_of (blocks b ∷ parts) = b ∷ blocks_of parts
  blocks_of (waiting ∷ parts) = blocks_of parts
  blocks_of (events b ∷ parts) = blocks_of parts
  blocks_of (progressed p ∷ parts) = blocks_of parts
  blocks_of (profiled p ∷ parts) = blocks_of parts

  -- The blocks that have columns.
  abbrev pub with_columns : List (Block Data) → List (Block Data)
  with_columns [] = []
  with_columns (b ∷ bs) = if is_empty b.columns then with_columns bs else b ∷ with_columns bs

  -- All of them, or without the first block.
  abbrev pub shown : Bool → List (Block Data) → List (Block Data)
  shown skip bs = with_columns (if skip then drop 1 bs else bs)

  shown_nothing : (skip : Bool) → shown skip [] ≡ []
  shown_nothing true = refl
  shown_nothing false = refl

module _ {Data Tz T P : Type 0} (ops : Packets Data Tz T P) where
  abbrev pub item_of : Part Data → Item (Packet Data Tz T)
  item_of waiting = pending
  item_of (blocks b) = ready (some (ok (block b)))
  item_of (events b) = ready (some (ok (profile_events b)))
  item_of (progressed p) = ready (some (ok (progress p)))
  item_of (profiled p) = ready (some (ok (profile_info p)))

  -- The packet stream answers the parts, and then the end of the stream with the transport.
  abbrev pub Sends : P → List (Part Data) → T → Type 0
  Sends p [] t = (q : P) × (ops.next_packet p ≡ (ready (some (ok (eof t))), q))
  Sends p (x ∷ parts) t = (q : P) × (ops.next_packet p ≡ (item_of x, q)) × Sends q parts t

-- A stream that is reading, on a handle that is detached from its pool.
abbrev pub reader : {T P : Type 0} → Option T → P → ℕ → Bool → BlockStream T P
reader o p i skip = record {
  client = record { inner = o; pool = detached };
  inner = p;
  state = reading;
  block_index = i;
  skip_first_block = skip;
}

-- Is the next block not shown?
abbrev pub hides : ℕ → Bool → Bool
hides i skip = not (ltb 1 (i + 1) || not skip)

abbrev pub over_at : {T P : Type 0} → T → P → ℕ → Bool → BlockStream T P
over_at t p i skip = record {
  client = record { inner = some t; pool = attached };
  inner = p;
  state = finished;
  block_index = i;
  skip_first_block = skip;
}

module _ {Data Tz T P : Type 0} (ops : Packets Data Tz T P) (read_error : Message) (t : T)
    (skip : Bool) (o : Option T) where
  -- What a poll answers: a block, that it waits, or the end; and what is left.
  unfoldable pub Polled : Answer (Block Data) × BlockStream T P → ℕ → List (Part Data) → Type 0
  Polled a i parts =
      ((b : Block Data) × (rest : List (Part Data)) × (p : P) × (j : ℕ) × (a
          ≡ (ready (some (ok b)), reader o p j skip))
        × Sends ops p rest t
        × (length rest < length parts)
        × (is_empty b.columns ≡ false)
        × (shown (hides i skip) (blocks_of parts) ≡ b ∷ shown (hides j skip) (blocks_of rest)))
      ⊎ (((rest : List (Part Data)) × (p : P) × (j : ℕ) × (a ≡ (pending, reader o p j skip))
            × Sends ops p rest t
            × (length rest < length parts)
            × (shown (hides i skip) (blocks_of parts) ≡ shown (hides j skip) (blocks_of rest)))
          ⊎ ((p : P) × (j : ℕ) × (a ≡ (ready none, over_at t p j skip))
              × (shown (hides i skip) (blocks_of parts) ≡ [])))

  -- A round that goes on leaves more parts behind.
  later :
      (a : Answer (Block Data) × BlockStream T P) (i j : ℕ) (x : Part Data)
      (parts : List (Part Data))
      → shown (hides i skip) (blocks_of (x ∷ parts)) ≡ shown (hides j skip) (blocks_of parts)
      → Polled a j parts
      → Polled a i (x ∷ parts)
  unfolding Polled
  later a i j x parts e (inl (b, rest, p, k, h, sends, less, columns, left)) =
      inl (b, rest, p, k, h, sends, omega arith, columns, e ∙ left)
  later a i j x parts e (inr (inl (rest, p, k, h, sends, less, left))) =
      inr (inl (rest, p, k, h, sends, omega arith, e ∙ left))
  later a i j x parts e (inr (inr (p, k, h, left))) = inr (inr (p, k, h, e ∙ left))

  -- A poll begins with a round on what the packet stream answers.
  first_round :
      (fuel i : ℕ) (p q : P) (item : Item (Packet Data Tz T)) (parts : List (Part Data))
      → ops.next_packet p ≡ (item, q)
      → Polled
          (after_step ops read_error
            (on_answer ops read_error item (reader o q i skip))
            (λ u. poll_block ops read_error fuel u))
          i
          parts
      → Polled (poll_block ops read_error (suc fuel) (reader o p i skip)) i parts
  unfolding poll_block
  first_round fuel i p q item parts e =
      subst
        (λ x.
          Polled
            (after_step ops read_error (on_next ops read_error x (reader o p i skip))
              (λ u. poll_block ops read_error fuel u))
            i parts)
        (sym e)

  end_round :
      (i : ℕ) (q : P) (more : BlockStream T P → Answer (Block Data) × BlockStream T P)
      → after_step ops read_error
          (on_answer ops read_error (ready (some (ok (eof t)))) (reader o q i skip))
          more
        ≡ more (over_at t q i skip)
  unfolding on_answer
  end_round i q more = refl

  poll_ended :
      (fuel i : ℕ) (q : P)
      → poll_block ops read_error (suc fuel) (over_at t q i skip) ≡ (ready none, over_at t q i skip)
  unfolding poll_block
  poll_ended fuel i q = refl

  shown_later : (i : ℕ) (bs : List (Block Data)) → shown (hides (i + 1) skip) bs ≡ with_columns bs
  shown_later i bs =
      let next : ltb 1 (i + 1 + 1) ≡ true = ground arith in
      ap (λ x. shown (not (x || not skip)) bs) next

  -- A block is answered if it is to be shown and has columns.
  block_round :
      (fuel i : ℕ) (q : P) (b : Block Data) (parts : List (Part Data)) (shows hollow : Bool)
      → Sends ops q parts t
      → (ltb 1 (i + 1) || not skip) ≡ shows
      → is_empty b.columns ≡ hollow
      → Polled (poll_block ops read_error fuel (reader o q (i + 1) skip)) (i + 1) parts
      → Polled
          (after_step ops read_error
            (if shows && not hollow
              then answered (ready (some (ok b))) (reader o q (i + 1) skip)
              else next_round (reader o q (i + 1) skip))
            (λ u. poll_block ops read_error fuel u))
          i
          (blocks b ∷ parts)
  unfolding Polled
  block_round fuel i q b parts true false h e f after = inl (
    b,
    parts,
    q,
    i + 1,
    refl,
    h,
    omega arith,
    f,
    ap (λ x. shown (not x) (b ∷ blocks_of parts)) e
        ∙ ap (λ x. if x then with_columns (blocks_of parts) else b ∷ with_columns (blocks_of parts))
            f
        ∙ ap (◌∷◌ b) (sym (shown_later i (blocks_of parts))),
  )
  block_round fuel i q b parts true true h e f after =
      later _ i (i + 1) (blocks b) parts
        (ap (λ x. shown (not x) (b ∷ blocks_of parts)) e
          ∙ ap
              (λ x.
                if x then with_columns (blocks_of parts) else b ∷ with_columns (blocks_of parts))
              f
          ∙ sym (shown_later i (blocks_of parts)))
        after
  block_round fuel i q b parts false hollow h e f after =
      later _ i (i + 1) (blocks b) parts
        (ap (λ x. shown (not x) (b ∷ blocks_of parts)) e ∙ sym (shown_later i (blocks_of parts)))
        after

  pub poll_block-Polled :
      (fuel i : ℕ) (p : P) (parts : List (Part Data))
      → Sends ops p parts t
      → length parts + 1 < fuel
      → Polled (poll_block ops read_error fuel (reader o p i skip)) i parts
  unfolding on_answer Polled
  poll_block-Polled zero i p parts h enough = absurd (omega arith)
  poll_block-Polled (suc zero) i p parts h enough = absurd (omega arith)
  poll_block-Polled (suc (suc fuel)) i p [] (q, e) enough =
      first_round (suc fuel) i p q (ready (some (ok (eof t)))) [] e
        (inr (inr (q, i, poll_ended fuel i q, shown_nothing (hides i skip))))
  poll_block-Polled (suc fuel) i p (waiting ∷ parts) (q, e, h) enough =
      first_round fuel i p q pending (waiting ∷ parts) e
        (inr (inl (parts, q, i, refl, h, omega arith, refl)))
  poll_block-Polled (suc fuel) i p (events b ∷ parts) (q, e, h) enough =
      let after = poll_block-Polled fuel i q parts h (omega arith) in
      first_round fuel i p q (ready (some (ok (profile_events b)))) (events b ∷ parts) e
        (later _ i i (events b) parts refl after)
  poll_block-Polled (suc fuel) i p (progressed b ∷ parts) (q, e, h) enough =
      let after = poll_block-Polled fuel i q parts h (omega arith) in
      first_round fuel i p q (ready (some (ok (progress b)))) (progressed b ∷ parts) e
        (later _ i i (progressed b) parts refl after)
  poll_block-Polled (suc fuel) i p (profiled b ∷ parts) (q, e, h) enough =
      let after = poll_block-Polled fuel i q parts h (omega arith) in
      first_round fuel i p q (ready (some (ok (profile_info b)))) (profiled b ∷ parts) e
        (later _ i i (profiled b) parts refl after)
  poll_block-Polled (suc fuel) i p (blocks b ∷ parts) (q, e, h) enough =
      let after = poll_block-Polled fuel (i + 1) q parts h (omega arith) in
      first_round fuel i p q (ready (some (ok (block b)))) (blocks b ∷ parts) e (
        block_round fuel i q b parts (ltb 1 (i + 1) || not skip) (is_empty b.columns) h refl refl
          after)
