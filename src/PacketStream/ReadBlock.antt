-- ===== src/PacketStream/ReadBlock.antt =====
-- How `read_block` ends.
use clickhouse_rs.Prelude.{
  ℕ, suc, ◌+◌, ◌≡◌, refl, sym, ap, ◌∙◌, arith, true, false, some, none, Bool-cases, inl, inr,
}
use clickhouse_rs.Errors.{is_would_block_kind}
use clickhouse_rs.Block.{Block}
use clickhouse_rs.Packet.{
  Packet, hello, pong, progress, profile_info, profile_events, table_columns, exception, block, eof,
}
use clickhouse_rs.Transport.{ready, pending, panicked, ok, err, Item}
use clickhouse_rs.PacketStream.{
  Inner, PacketStreamState, ask, receive, finished, yield, PacketStream, bind, is_block, round,
  poll_rounds, poll_stream, returned, crashed, read_block_loop, read_block, received, after_round,
  after_item, wake_if,
}

module _ {Data Tz T : Type 0} (ops : Inner Data Tz T) (wait : T → T) where
  abbrev pub IsSkipped : Packet Data Tz (Unit {0}) → Type 0
  IsSkipped (hello u info) = ⊥
  IsSkipped (pong u) = ⊥
  IsSkipped (progress p) = Unit
  IsSkipped (profile_info p) = Unit
  IsSkipped (profile_events b) = Unit
  IsSkipped (table_columns c) = Unit
  IsSkipped (exception e) = ⊥
  IsSkipped (block b) = ⊥
  IsSkipped (eof u) = ⊥

  -- From `t` the transport gets to `v` in `n` polls that it is not ready for, or that give a packet which
  -- is neither a block nor an exception nor one that hands the transport back.
  pub data Skips : ℕ → T → T → Type 0 where
    here : {t : T} → Skips 0 t t
    skips :
        {n : ℕ} {t v : T} (u : T) (p : Packet Data Tz (Unit {0}))
        → ops.poll_next t ≡ (ready (some (ok p)), u)
        → IsSkipped p
        → Skips n u v
        → Skips (suc n) t v
    waits :
        {n : ℕ} {t v : T} (u : T)
        → ops.poll_next t ≡ (pending, u)
        → Skips n (wait u) v
        → Skips (suc n) t v

  -- The states in which a poll asks the transport.
  abbrev Asks : PacketStreamState Data Tz T → Type 0
  Asks ask = ⊥
  Asks receive = Unit
  Asks finished = ⊥
  Asks (yield p) = Unit

  loop_block :
      (t v : T) (q : PacketStreamState Data Tz T) (b : Block Data) (fuel : ℕ)
      → Asks q
      → ops.poll_next t ≡ (ready (some (ok (block b))), v)
      → read_block_loop ops wait
          (suc (suc (suc fuel)))
          (record { inner = some t; state = q; read_block = true })
          none
          none
        ≡ returned (v, some b)
  unfolding read_block_loop poll_stream poll_rounds round bind is_block
  loop_block t v ask b fuel a h = absurd a
  loop_block t v receive b fuel a h = rw h refl
  loop_block t v finished b fuel a h = absurd a
  loop_block t v (yield p) b fuel a h = rw h refl

  loop_waits :
      (t u : T) (q : PacketStreamState Data Tz T) (fuel : ℕ)
      → Asks q
      → ops.poll_next t ≡ (pending, u)
      → read_block_loop ops wait
          (suc fuel)
          (record { inner = some t; state = q; read_block = true })
          none
          none
        ≡ read_block_loop ops wait fuel
            (record { inner = some (wait u); state = receive; read_block = true })
            none
            none
  unfolding read_block_loop poll_stream poll_rounds round
  loop_waits t u ask fuel a h = absurd a
  loop_waits t u receive fuel a h = rw h refl
  loop_waits t u finished fuel a h = absurd a
  loop_waits t u (yield p) fuel a h = rw h refl

  loop_skips :
      (t u : T) (q : PacketStreamState Data Tz T) (p : Packet Data Tz (Unit {0})) (fuel : ℕ)
      → Asks q
      → IsSkipped p
      → ops.poll_next t ≡ (ready (some (ok p)), u)
      → read_block_loop ops wait
          (suc fuel)
          (record { inner = some t; state = q; read_block = true })
          none
          none
        ≡ read_block_loop ops wait fuel
            (record { inner = some u; state = yield none; read_block = true })
            none
            none
  unfolding read_block_loop poll_stream poll_rounds round bind is_block
  loop_skips t u ask p fuel a i h = absurd a
  loop_skips t u finished p fuel a i h = absurd a
  loop_skips t u receive (progress p) fuel a i h = rw h refl
  loop_skips t u receive (profile_info p) fuel a i h = rw h refl
  loop_skips t u receive (profile_events p) fuel a i h = rw h refl
  loop_skips t u receive (table_columns p) fuel a i h = rw h refl
  loop_skips t u (yield x) (progress p) fuel a i h = rw h refl
  loop_skips t u (yield x) (profile_info p) fuel a i h = rw h refl
  loop_skips t u (yield x) (profile_events p) fuel a i h = rw h refl
  loop_skips t u (yield x) (table_columns p) fuel a i h = rw h refl
  loop_skips t u q (hello v info) fuel a i h = absurd i
  loop_skips t u q (pong v) fuel a i h = absurd i
  loop_skips t u q (exception e) fuel a i h = absurd i
  loop_skips t u q (block b) fuel a i h = absurd i
  loop_skips t u q (eof v) fuel a i h = absurd i

  loop_answer :
      (n : ℕ) (t u v : T) (q : PacketStreamState Data Tz T) (b : Block Data)
      → Asks q
      → Skips n t u
      → ops.poll_next u ≡ (ready (some (ok (block b))), v)
      → read_block_loop ops wait
          (n + 3)
          (record { inner = some t; state = q; read_block = true })
          none
          none
        ≡ returned (v, some b)
  loop_answer n t u v q b a here h = loop_block t v q b 0 a h
  loop_answer (suc n) t u v q b a (skips w p e i s) h =
      let more : suc n + 3 ≡ suc (n + 3) = omega arith in
      rw more (loop_skips t w q p (n + 3) a i e ∙ loop_answer n w u v (yield none) b tt s h)
  loop_answer (suc n) t u v q b a (waits w e s) h =
      let more : suc n + 3 ≡ suc (n + 3) = omega arith in
      rw more (loop_waits t w q (n + 3) a e ∙ loop_answer n (wait w) u v receive b tt s h)

  received_same :
      (s : PacketStream Data Tz T) (i : Item (Packet Data Tz (Unit {0}))) (t : T)
      → (k k' : PacketStream Data Tz T → Item (Packet Data Tz T) × PacketStream Data Tz T)
      → after_round ops (received ops s (i, t)) k ≡ after_round ops (received ops s (i, t)) k'
  unfolding bind
  received_same s (ready (some (ok (hello u info)))) t k k' = refl
  received_same s (ready (some (ok (pong u)))) t k k' = refl
  received_same s (ready (some (ok (progress p)))) t k k' = refl
  received_same s (ready (some (ok (profile_info p)))) t k k' = refl
  received_same s (ready (some (ok (profile_events b)))) t k k' = refl
  received_same s (ready (some (ok (table_columns c)))) t k k' = refl
  received_same s (ready (some (ok (exception e)))) t k k' = refl
  received_same s (ready (some (ok (block b)))) t k k' = refl
  received_same s (ready (some (ok (eof u)))) t k k' = refl
  received_same s (ready (some (err x))) t k k' = elim (Bool-cases (is_would_block_kind x)) [
    | inl b ↦ rw b refl
    | inr b ↦ rw b refl
  ]
  received_same s (ready none) t k k' = refl
  received_same s pending t k k' = refl
  received_same s panicked t k k' = refl

  read_block_sent :
      (t u : T) (fuel : ℕ)
      → ops.send t ≡ (ready (ok tt), u)
      → read_block ops wait (suc fuel) (record { inner = some t; state = ask; read_block = false })
        ≡ read_block_loop ops wait
            (suc fuel)
            (record { inner = some u; state = receive; read_block = true })
            none
            none
  unfolding read_block read_block_loop poll_stream poll_rounds round
  read_block_sent t u fuel e = rw e (
      ap
        (λ r.
          after_item r none none
            (λ suspended u' h' b'. read_block_loop ops wait fuel (wake_if wait suspended u') h' b'))
        (received_same (record { inner = some u; state = receive; read_block = true })
          (ops.poll_next u).0 (ops.poll_next u).1 _ _))

  -- When a command can be sent, and the transport then gives `n` polls that are not ready or whose packets
  -- are progress, profile or table information, and then a block, `read_block` ends after `n + 3` rounds.
  -- It returns that block, and the transport as it is then.
  pub read_block_answer :
      (n : ℕ) (t u v w : T) (b : Block Data)
      → ops.send t ≡ (ready (ok tt), u)
      → Skips n u v
      → ops.poll_next v ≡ (ready (some (ok (block b))), w)
      → read_block ops wait (n + 3) (record { inner = some t; state = ask; read_block = false })
        ≡ returned (w, some b)
  read_block_answer n t u v w b e s h =
      let more : n + 3 ≡ suc (n + 2) = omega arith in
      rw more (read_block_sent t u (n + 2) e ∙ rw (sym more) (loop_answer n u v w receive b tt s h))

  -- When the server closes the connection after a command was sent, and before any packet of the answer,
  -- then `read_block` panics.
  pub read_block_closed :
      (t u v : T) (fuel : ℕ)
      → ops.send t ≡ (ready (ok tt), u)
      → ops.poll_next u ≡ (ready none, v)
      → read_block ops wait (suc fuel) (record { inner = some t; state = ask; read_block = false })
        ≡ crashed
  unfolding read_block read_block_loop poll_stream poll_rounds round
  read_block_closed t u v fuel e h = rw (e, h) refl
