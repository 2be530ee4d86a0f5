-- ===== src/Transport/Flush.antt =====
-- src/io/transport.rs: `push_raw_bytes` and `poll_flush_wr`, by which `Client::open` writes the addendum of its
-- `Hello`.
use clickhouse_rs.Prelude.{
  ◌+◌, ◌-◌, ◌≡◌, refl, sym, ap, ◌∙◌, arith, min, Bool, true, false, ◌==◌, if◌then◌else◌, List, [],
  ◌∷◌, ◌++◌, length, take, Bytes, Option, some, none,
}
use clickhouse_rs.Errors.{io}
use clickhouse_rs.Transport.{
  WriteEvent, not_writable, wrote, write_failed, Transport, ready, pending, ok, err, wr_rest,
  Sending,
}
use clickhouse_rs.Prelude.{drop-drop}
use clickhouse_rs.Transport.Send.{drop_none, take-min}
use mathlib.Core.List.{append_assoc}

module _ {Tz C : Type 0} where
  abbrev pub wr_is_empty : Transport Tz C → Bool
  wr_is_empty t = length t.wr - t.wr_pos == 0

  -- `none` is the panic of its `debug_assert!`, in a debug build.
  unfoldable pub push_raw_bytes : Bytes → Transport Tz C → Option (Transport Tz C)
  push_raw_bytes bytes t =
      if wr_is_empty t then some (record t { wr = bytes; wr_pos = 0 }) else none

  abbrev pub flushed_all : Transport Tz C → List WriteEvent → Bytes → Sending (Transport Tz C)
  flushed_all t events sent = record {
    result = ready (ok tt);
    left = t;
    events = events;
    sent = sent;
  }

  unfoldable pub poll_flush_wr : List WriteEvent → Bytes → Transport Tz C → Sending (Transport Tz C)
  poll_flush_wr [] sent t =
      if wr_is_empty t
      then flushed_all t [] sent
      else record { result = pending; left = t; events = []; sent = sent }
  poll_flush_wr (not_writable ∷ es) sent t =
      if wr_is_empty t
      then flushed_all t (not_writable ∷ es) sent
      else record { result = pending; left = t; events = es; sent = sent }
  poll_flush_wr (write_failed k ∷ es) sent t =
      if wr_is_empty t
      then flushed_all t (write_failed k ∷ es) sent
      else record { result = ready (err (io k)); left = t; events = es; sent = sent }
  poll_flush_wr (wrote n ∷ es) sent t =
      if wr_is_empty t
      then flushed_all t (wrote n ∷ es) sent
      else poll_flush_wr es (sent ++ take n (wr_rest t))
          (record t { wr_pos = min n (length (wr_rest t)) + t.wr_pos })

  -- What was sent and what is left make up the whole, and nothing is left when the flush is ready.
  abbrev pub Flushed : Bytes → Sending (Transport Tz C) → Type 0
  Flushed all s =
      (s.sent ++ wr_rest s.left ≡ all) × (s.result ≡ ready (ok tt) → wr_rest s.left ≡ [])

  either-Flushed :
      (all : Bytes) (b : Bool) (x y : Sending (Transport Tz C))
      → (b ≡ true → Flushed all x)
      → Flushed all y
      → Flushed all (if b then x else y)
  either-Flushed all true x y hx hy = hx refl
  either-Flushed all false x y hx hy = hy

  flushed_all-Flushed :
      (t : Transport Tz C) (es : List WriteEvent) (sent : Bytes)
      → wr_is_empty t ≡ true
      → Flushed (sent ++ wr_rest t) (flushed_all t es sent)
  flushed_all-Flushed t es sent e = (refl, λ q. drop_none t.wr_pos t.wr (ground arith))

  poll_flush_wr-Flushed :
      (es : List WriteEvent) (sent : Bytes) (t : Transport Tz C)
      → Flushed (sent ++ wr_rest t) (poll_flush_wr es sent t)
  unfolding poll_flush_wr
  poll_flush_wr-Flushed [] sent t =
      either-Flushed _ (wr_is_empty t) _ _ (flushed_all-Flushed t [] sent) (refl, λ q. absurd cc)
  poll_flush_wr-Flushed (not_writable ∷ es) sent t =
      either-Flushed _ (wr_is_empty t) _ _ (flushed_all-Flushed t (not_writable ∷ es) sent)
        (refl, λ q. absurd cc)
  poll_flush_wr-Flushed (write_failed k ∷ es) sent t =
      either-Flushed _ (wr_is_empty t) _ _ (flushed_all-Flushed t (write_failed k ∷ es) sent)
        (refl, λ q. absurd cc)
  poll_flush_wr-Flushed (wrote n ∷ es) sent t =
      let next : Transport Tz C = record t { wr_pos = min n (length (wr_rest t)) + t.wr_pos } in
      let ih = poll_flush_wr-Flushed es (sent ++ take n (wr_rest t)) next in
      let split : (sent ++ take n (wr_rest t)) ++ wr_rest next ≡ sent ++ wr_rest t =
        append_assoc sent (take n (wr_rest t)) (wr_rest next)
        ∙ ap (◌++◌ sent) (
            ap (◌++◌ (take n (wr_rest t)))
              (sym (drop-drop (min n (length (wr_rest t))) t.wr_pos t.wr))
            ∙ take-min n (wr_rest t)) in
      either-Flushed _ (wr_is_empty t) _ _ (flushed_all-Flushed t (wrote n ∷ es) sent)
        (ih.0 ∙ split, ih.1)

  -- What `push_raw_bytes` puts into an empty buffer is written in order and each byte once.
  push_raw_bytes-Flushed :
      (bytes : Bytes) (es : List WriteEvent) (t : Transport Tz C)
      → wr_is_empty t ≡ true
      → (u : Transport Tz C) × (push_raw_bytes bytes t ≡ some u)
        × Flushed bytes (poll_flush_wr es [] u)
  unfolding push_raw_bytes
  push_raw_bytes-Flushed bytes es t e = rw e (
    record t { wr = bytes; wr_pos = 0 },
    refl,
    poll_flush_wr-Flushed es [] (record t { wr = bytes; wr_pos = 0 }),
  )
