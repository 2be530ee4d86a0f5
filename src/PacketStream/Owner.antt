-- ===== src/PacketStream/Owner.antt =====
-- One poll of the stream ends, and the transport has one owner.
use clickhouse_rs.Prelude.{
  ℕ, zero, suc, ◌+◌, ◌≤◌, ◌<◌, ◌≡◌, refl, sym, ap, ◌∙◌, arith, Bool, true, false, if◌then◌else◌,
  Option, some, none, ◌⊎◌, inl, inr,
}
use mathlib.Core.Path.{subst}
use clickhouse_rs.Errors.{Error, is_would_block, is_would_block_kind, to_io_error}
use clickhouse_rs.Packet.{
  Packet, hello, pong, progress, profile_info, profile_events, table_columns, exception, block, eof,
}
use clickhouse_rs.Transport.{Poll, ready, pending, panicked, Result, ok, err, Item}
use clickhouse_rs.PacketStream.{
  Inner, PacketStreamState, ask, receive, finished, yield, PacketStream, bind, Round, go, answer,
  asked, yielded, received, ask_inner, receive_inner, take_inner, by_state, round, after_round,
  poll_rounds, poll_stream,
}

abbrev pub NotPanicked : {A : Type 0} → Poll A → Type 0
NotPanicked (ready a) = Unit
NotPanicked pending = Unit
NotPanicked panicked = ⊥

-- The transports in a place.
abbrev pub held : {T : Type 0} → Option T → ℕ
held none = 0
held (some t) = 1

module _ {Data Tz T : Type 0} where
  abbrev pub handed : Packet Data Tz T → ℕ
  handed (hello t info) = 1
  handed (pong t) = 1
  handed (progress p) = 0
  handed (profile_info p) = 0
  handed (profile_events b) = 0
  handed (table_columns c) = 0
  handed (exception e) = 0
  handed (block b) = 0
  handed (eof t) = 1

  abbrev pub carried : Item (Packet Data Tz T) → ℕ
  carried (ready (some (ok p))) = handed p
  carried (ready (some (err k))) = 0
  carried (ready none) = 0
  carried pending = 0
  carried panicked = 0

  -- The calls of the transport that a poll makes from a state, of which one panics.
  abbrev pub Crashes : Inner Data Tz T → PacketStreamState Data Tz T → Option T → Type 0
  Crashes ops q none = ⊥
  Crashes ops ask (some t) =
      ((ops.send t).0 ≡ panicked) ⊎ ((ops.poll_next (ops.send t).1).0 ≡ panicked)
  Crashes ops receive (some t) = (ops.poll_next t).0 ≡ panicked
  Crashes ops (yield p) (some t) = (ops.poll_next t).0 ≡ panicked
  Crashes ops finished (some t) = ⊥

  -- Every transport is with the caller or still in the stream, or a call of the transport panicked.
  abbrev pub Owned :
      Inner Data Tz T
      → PacketStream Data Tz T
      → Item (Packet Data Tz T) × PacketStream Data Tz T
      → Type 0
  Owned ops s (i, u) =
      (NotPanicked i × (carried i + held u.inner ≡ held s.inner))
      ⊎ ((i ≡ panicked) × Crashes ops s.state s.inner)

  -- The rounds that the loop may still go on for.
  abbrev rank : PacketStreamState Data Tz T → ℕ
  rank ask = 2
  rank receive = 1
  rank finished = 0
  rank (yield p) = 2

  abbrev OwnedRound : Inner Data Tz T → PacketStream Data Tz T → Round Data Tz T → Type 0
  OwnedRound ops s (go u) =
      (held u.inner ≡ held s.inner)
      × (rank u.state < rank s.state)
      × (Crashes ops u.state u.inner → Crashes ops s.state s.inner)
  OwnedRound ops s (answer i u) = Owned ops s (i, u)

module _ {Data Tz T : Type 0} (ops : Inner Data Tz T) where
  asked-OwnedRound :
      (s : PacketStream Data Tz T) (r : Poll (Result (Unit {0}) Error)) (t : T)
      → held s.inner ≡ 1
      → rank s.state ≡ 2
      → (r ≡ panicked → Crashes ops s.state s.inner)
      → ((ops.poll_next t).0 ≡ panicked → Crashes ops s.state s.inner)
      → OwnedRound ops s (asked ops s (r, t))
  asked-OwnedRound s (ready (ok u)) t h k c d = (sym h, omega arith, d)
  asked-OwnedRound s (ready (err e)) t h k c d = either (is_would_block e)
    where
      either :
          (b : Bool)
          → OwnedRound ops s (
              if b
              then answer pending (record s { inner = some t })
              else answer (ready (some (err (to_io_error e)))) (record s { inner = some t }))
      either true = inl (tt, sym h)
      either false = inl (tt, sym h)
  asked-OwnedRound s pending t h k c d = inl (tt, sym h)
  asked-OwnedRound s panicked t h k c d = inr (refl, c refl)

  yielded-OwnedRound :
      (s : PacketStream Data Tz T) (p : Packet Data Tz (Unit {0})) (t : T)
      → held s.inner ≡ 1
      → OwnedRound ops s (yielded ops s (bind p (some t)))
  unfolding bind
  yielded-OwnedRound s (hello u info) t h = inl (tt, sym h)
  yielded-OwnedRound s (pong u) t h = inl (tt, sym h)
  yielded-OwnedRound s (progress p) t h = inl (tt, sym h)
  yielded-OwnedRound s (profile_info p) t h = inl (tt, sym h)
  yielded-OwnedRound s (profile_events b) t h = inl (tt, sym h)
  yielded-OwnedRound s (table_columns c) t h = inl (tt, sym h)
  yielded-OwnedRound s (exception e) t h = inl (tt, sym h)
  yielded-OwnedRound s (block b) t h = inl (tt, sym h)
  yielded-OwnedRound s (eof u) t h = inl (tt, sym h)

  received-OwnedRound :
      (s : PacketStream Data Tz T) (i : Item (Packet Data Tz (Unit {0}))) (t : T)
      → held s.inner ≡ 1
      → (i ≡ panicked → Crashes ops s.state s.inner)
      → OwnedRound ops s (received ops s (i, t))
  received-OwnedRound s (ready (some (ok p))) t h c = yielded-OwnedRound s p t h
  received-OwnedRound s (ready (some (err k))) t h c = either (is_would_block_kind k)
    where
      either :
          (b : Bool)
          → OwnedRound ops s (
              if b
              then answer pending (record s { inner = some t })
              else answer (ready (some (err k))) (record s { inner = some t }))
      either true = inl (tt, sym h)
      either false = inl (tt, sym h)
  received-OwnedRound s (ready none) t h c = inl (tt, sym h)
  received-OwnedRound s pending t h c = inl (tt, sym h)
  received-OwnedRound s panicked t h c = inr (refl, c refl)

  -- What crashes is known from the state and the transport.
  Crashes-here :
      (s : PacketStream Data Tz T) (q : PacketStreamState Data Tz T) (o : Option T)
      → s.state ≡ q
      → s.inner ≡ o
      → Crashes ops q o
      → Crashes ops s.state s.inner
  Crashes-here s q o e g c =
      subst (λ x. Crashes ops x s.inner) (sym e) (subst (λ x. Crashes ops q x) (sym g) c)

  Crashes-none : (q : PacketStreamState Data Tz T) → Crashes ops q none → ⊥
  Crashes-none ask c = c
  Crashes-none receive c = c
  Crashes-none finished c = c
  Crashes-none (yield p) c = c

  Crashes-finished : (o : Option T) → Crashes ops finished o → ⊥
  Crashes-finished none c = c
  Crashes-finished (some t) c = c

  ask_inner-OwnedRound :
      (s : PacketStream Data Tz T) (o : Option T)
      → s.inner ≡ o
      → s.state ≡ ask
      → OwnedRound ops s (ask_inner ops s o)
  ask_inner-OwnedRound s none g e =
      (refl, omega (arith, ap rank e), λ c. absurd (Crashes-finished s.inner c))
  ask_inner-OwnedRound s (some t) g e =
      asked-OwnedRound s (ops.send t).0 (ops.send t).1 (ap held g) (ap rank e)
        (λ c. Crashes-here s ask (some t) e g (inl c))
        (λ c. Crashes-here s ask (some t) e g (inr c))

  receive_inner-OwnedRound :
      (s : PacketStream Data Tz T) (o : Option T)
      → s.inner ≡ o
      → s.state ≡ receive
      → OwnedRound ops s (receive_inner ops s o)
  receive_inner-OwnedRound s none g e =
      (refl, omega (arith, ap rank e), λ c. absurd (Crashes-finished s.inner c))
  receive_inner-OwnedRound s (some t) g e =
      received-OwnedRound s (ops.poll_next t).0 (ops.poll_next t).1 (ap held g)
        (λ c. Crashes-here s receive (some t) e g c)

  take_inner-OwnedRound :
      (s : PacketStream Data Tz T) (o : Option T)
      → s.inner ≡ o
      → OwnedRound ops s (take_inner ops s o)
  take_inner-OwnedRound s none g = inl (tt, omega arith)
  take_inner-OwnedRound s (some t) g = inl (tt, sym (ap held g))

  -- After a packet was yielded the transport is asked for the next one.
  Crashes-yield :
      (p : Option (Packet Data Tz T)) (o : Option T)
      → Crashes ops receive o
      → Crashes ops (yield p) o
  Crashes-yield p none c = c
  Crashes-yield p (some t) c = c

  by_state-OwnedRound :
      (s : PacketStream Data Tz T) (q : PacketStreamState Data Tz T)
      → s.state ≡ q
      → OwnedRound ops s (by_state ops s q)
  by_state-OwnedRound s ask e = ask_inner-OwnedRound s s.inner refl e
  by_state-OwnedRound s receive e = receive_inner-OwnedRound s s.inner refl e
  by_state-OwnedRound s (yield p) e = (
    refl,
    omega (arith, ap rank e),
    λ c. Crashes-here s (yield p) s.inner e refl (Crashes-yield p s.inner c),
  )
  by_state-OwnedRound s finished e = take_inner-OwnedRound s s.inner refl

  after_round-Owned :
      (fuel : ℕ) (s : PacketStream Data Tz T) (r : Round Data Tz T)
      → OwnedRound ops s r
      → rank s.state ≤ fuel
      → ((u : PacketStream Data Tz T) → rank u.state < fuel → Owned ops u (poll_rounds ops fuel u))
      → Owned ops s (after_round ops r (λ u. poll_rounds ops fuel u))
  after_round-Owned fuel s (go u) h l next = elim (next u (omega (arith, h.1))) [
    | inl n ↦ inl (n.0, n.1 ∙ h.0)
    | inr n ↦ inr (n.0, h.2 n.1)
  ]
  after_round-Owned fuel s (answer i u) h l next = h

  poll_rounds-Owned :
      (fuel : ℕ) (s : PacketStream Data Tz T)
      → rank s.state < fuel
      → Owned ops s (poll_rounds ops fuel s)
  unfolding poll_rounds round
  poll_rounds-Owned zero s l = absurd (omega arith)
  poll_rounds-Owned (suc fuel) s l =
      after_round-Owned fuel s (by_state ops s s.state) (by_state-OwnedRound s s.state refl)
        (omega arith) (λ u k. poll_rounds-Owned fuel u k)

  rank_bound : (q : PacketStreamState Data Tz T) → rank q < 3
  rank_bound ask = omega arith
  rank_bound receive = omega arith
  rank_bound finished = omega arith
  rank_bound (yield p) = omega arith

  -- A poll of a stream ends within three rounds, and the transport that the stream had before is afterwards in the
  -- stream or in the packet that the caller gets, and in one of them only; or the poll panics, because sending
  -- or polling the transport does, in the calls that the stream's state leads to.
  pub poll_stream-Owned : (s : PacketStream Data Tz T) → Owned ops s (poll_stream ops s)
  unfolding poll_stream
  poll_stream-Owned s = poll_rounds-Owned 3 s (rank_bound s.state)
