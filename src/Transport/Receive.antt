-- ===== src/Transport/Receive.antt =====
-- What `poll_next` reads from the socket, and that no byte is lost or read twice.
use clickhouse_rs.Prelude.{
  if◌then◌else◌, Bool, true, false, ℕ, zero, suc, ◌+◌, ◌<◌, ◌≡◌, refl, ◌∙◌, arith,
}
use clickhouse_rs.Prelude.{List, [], ◌∷◌, ◌++◌, length, Bytes}
use clickhouse_rs.Errors.{ErrorKind}
use clickhouse_rs.Transport.{
  ReadEvent, not_readable, arrived, read_failed, Transport, Poll, ready, pending, panicked, Result,
  ok, err, read_to_end, Filled, filled, fill_failed, fill_unfinished, after_read, fill,
}
use mathlib.Core.List.{append_assoc}

-- All the bytes that the socket will give.
abbrev pub arrivals : List ReadEvent → Bytes
arrivals [] = []
arrivals (not_readable ∷ es) = arrivals es
arrivals (arrived bs ∷ es) = bs ++ arrivals es
arrivals (read_failed k ∷ es) = arrivals es

abbrev Counted : ℕ → Poll (Result ℕ ErrorKind) → List ReadEvent → Type 0
Counted n pending es = Unit
Counted n panicked es = ⊥
Counted n (ready (err k)) es = Unit
Counted n (ready (ok m)) es = length es < n

Counted-more :
    (n : ℕ) (r : Poll (Result ℕ ErrorKind)) (es : List ReadEvent)
    → Counted n r es
    → Counted (suc n) r es
Counted-more n pending es h = tt
Counted-more n panicked es h = absurd h
Counted-more n (ready (err k)) es h = tt
Counted-more n (ready (ok m)) es h = omega arith

-- Reading moves bytes from the socket to the end of the buffer.
pub read_to_end_moves :
    (es : List ReadEvent) (n : ℕ) (rd : Bytes)
    → ((read_to_end es n rd).1 ++ arrivals (read_to_end es n rd).2 ≡ rd ++ arrivals es)
      × Counted (length es) (read_to_end es n rd).0 (read_to_end es n rd).2
unfolding read_to_end
read_to_end_moves [] n rd = (refl, tt)
read_to_end_moves (not_readable ∷ es) n rd = (refl, tt)
read_to_end_moves (read_failed k ∷ es) n rd = (refl, tt)
read_to_end_moves (arrived [] ∷ es) n rd = (refl, omega arith)
read_to_end_moves (arrived (b ∷ bs) ∷ es) n rd =
    let next = read_to_end_moves es (n + suc (length bs)) (rd ++ b ∷ bs) in
    (
      next.0 ∙ append_assoc rd (b ∷ bs) (arrivals es),
      Counted-more (length es) (read_to_end es (n + suc (length bs)) (rd ++ b ∷ bs)).0
          (read_to_end es (n + suc (length bs)) (rd ++ b ∷ bs)).2 next.1,
    )

pub if_either :
    {A : Type 0} (P : A → Type 0) (b : Bool) (x y : A) → P x → P y → P (if b then x else y)
if_either P true x y hx hy = hx
if_either P false x y hx hy = hy

module _ {Tz C : Type 0} where
  -- What there is to parse, now and later.
  abbrev pub stream : Transport Tz C → List ReadEvent → Bytes
  stream t es = t.rd ++ arrivals es

  abbrev pub Moved : Transport Tz C → List ReadEvent → Transport Tz C → List ReadEvent → Type 0
  Moved t es u fs = (stream u fs ≡ stream t es) × (u.info ≡ t.info)

  abbrev pub FilledFrom : Transport Tz C → List ReadEvent → Filled (Transport Tz C) → Type 0
  FilledFrom t es (filled u fs) = Moved t es u fs
  FilledFrom t es (fill_failed k u fs) = Moved t es u fs
  FilledFrom t es (fill_unfinished u fs) = ⊥

  pub FilledFrom-trans :
      (t u : Transport Tz C) (es fs : List ReadEvent) (f : Filled (Transport Tz C))
      → Moved t es u fs
      → FilledFrom u fs f
      → FilledFrom t es f
  FilledFrom-trans t u es fs (filled v gs) m h = (h.0 ∙ m.0, h.1 ∙ m.1)
  FilledFrom-trans t u es fs (fill_failed k v gs) m h = (h.0 ∙ m.0, h.1 ∙ m.1)
  FilledFrom-trans t u es fs (fill_unfinished v gs) m h = absurd h

  after_read-FilledFrom :
      (t : Transport Tz C) (es : List ReadEvent) (r : Poll (Result ℕ ErrorKind)) (rd : Bytes)
      (fs : List ReadEvent)
      → (again : Transport Tz C → List ReadEvent → Filled (Transport Tz C))
      → rd ++ arrivals fs ≡ stream t es
      → Counted (length es) r fs
      → (length fs < length es
          → FilledFrom (record t { rd = rd }) fs (again (record t { rd = rd }) fs))
      → FilledFrom t es (after_read t (r, rd, fs) again)
  after_read-FilledFrom t es pending rd fs again e c next = (e, refl)
  after_read-FilledFrom t es panicked rd fs again e c next = absurd c
  after_read-FilledFrom t es (ready (err k)) rd fs again e c next = (e, refl)
  after_read-FilledFrom t es (ready (ok zero)) rd fs again e c next = (e, refl)
  after_read-FilledFrom t es (ready (ok (suc n))) rd fs again e c next =
      FilledFrom-trans t (record t { rd = rd }) es fs (again (record t { rd = rd }) fs) (e, refl)
        (next c)

  -- The loop of `poll_next` ends, and moves bytes from the socket to the buffer.
  pub fill-FilledFrom :
      (fuel : ℕ) (t : Transport Tz C) (es : List ReadEvent)
      → length es < fuel
      → FilledFrom t es (fill fuel t es)
  unfolding fill
  fill-FilledFrom zero t es h = absurd (omega arith)
  fill-FilledFrom (suc fuel) t es h =
      if_either (FilledFrom t es) t.at_end (filled t es) _ (refl, refl)
        (after_read-FilledFrom t es (read_to_end es 0 t.rd).0 (read_to_end es 0 t.rd).1
          (read_to_end es 0 t.rd).2 (λ u fs. fill fuel u fs) (read_to_end_moves es 0 t.rd).0
          (read_to_end_moves es 0 t.rd).1
          (λ l.
            fill-FilledFrom fuel (record t { rd = (read_to_end es 0 t.rd).1 })
              (read_to_end es 0 t.rd).2 (omega arith)))
