-- ===== src/Pool/Poll.antt =====
-- The account of `poll` and of dropping a handle.
use clickhouse_rs.Prelude.{ℕ, suc, ◌≡◌, refl, ap, arith, true, false}
use clickhouse_rs.Prelude.{ltb, List, [], ◌∷◌, ◌++◌, length, length-append}
use clickhouse_rs.Prelude.{Option, some, none, All, Bool-cases, inl, inr, ◌⊎◌}
use clickhouse_rs.Errors.{Error}
use clickhouse_rs.Prelude.{◌∙◌}
use clickhouse_rs.Pool.{
  return_conn, ClientHandle, Pool, PollResult, handle_futures, set_inside, Taken, nothing, panicked,
  taken, take_front, take_conn, is_some, Answer, wait, crashed, got, error, reserve_or_wait,
  first_choice, poll, drop_handle,
}
use clickhouse_rs.Pool.Invariant.{
  Connected, Accounts, Opens, push_free, handle_futures-Accounts, return_conn-Accounts,
}

-- A handle in the hands of a client: it has its transport, which lies outside the pool, and it has
-- been marked as used and bound to the pool.
abbrev pub IsLent : ClientHandle → Type 0
IsLent c = Connected c × (c.inside ≡ false) × (c.used ≡ true) × (is_some c.binding ≡ true)

module _ (lent cap : ℕ) where
  abbrev pub Took : Pool × Taken → Type 0
  Took (p, nothing) = Accounts 0 lent cap p
  Took (p, panicked) = ⊥
  Took (p, taken c) = Accounts 0 (suc lent) cap p × IsLent c

  take_front-Took :
      (p : Pool) (q : List ClientHandle)
      → p.idle ≡ q
      → All Connected q
      → Accounts 0 lent cap p
      → Took (take_front p q)
  unfolding set_inside is_some
  take_front-Took p [] e h a = a
  take_front-Took p (c ∷ cs) e h a = rw h.0 (
    record {
      slots = omega (arith, ap length e);
      bound = a.bound;
      alive = h.1;
      out = omega arith;
      capped = a.capped;
    },
    (refl, refl, refl, refl),
  )

  take_conn-Took : (p : Pool) → Accounts 0 lent cap p → Took (take_conn p)
  unfolding take_conn
  take_conn-Took p a = take_front-Took p p.idle refl a.alive a

  -- The task that has to wait will be woken: now, or when the pool changes.
  abbrev pub Registered : ℕ → Pool → Type 0
  Registered waker p =
      ((front : List ℕ) × (p.woken ≡ front ++ waker ∷ []))
      ⊎ ((front : List ℕ) × (p.tasks ≡ front ++ waker ∷ []))

  abbrev pub Polled : ℕ → Pool × Answer → Type 0
  Polled waker (p, wait) = Accounts 0 lent cap p × Registered waker p
  Polled waker (p, crashed) = ⊥
  Polled waker (p, got c) = Accounts 0 (suc lent) cap p × IsLent c
  Polled waker (p, error e) = Accounts 0 lent cap p

  reserve_or_wait-Polled :
      (waker f : ℕ) (p : Pool) → Accounts 0 lent cap p → Polled waker (reserve_or_wait waker f p)
  unfolding reserve_or_wait
  reserve_or_wait-Polled waker f p a = elim (Bool-cases (ltb p.conn_slots p.max_conn)) [
    | inl room ↦
        rw (room, push_free p.max_conn f p.new (ground (arith, a.slots, a.out)))
          (
            record {
              slots = omega (arith, length-append p.new (f ∷ []));
              bound = ground (arith, a.capped);
              alive = a.alive;
              out = a.out;
              capped = a.capped;
            },
            inl (p.woken, refl),
          )
    | inr full ↦ rw full (
        (
          record {
            slots = a.slots;
            bound = a.bound;
            alive = a.alive;
            out = a.out;
            capped = a.capped;
          },
          inr (p.tasks, refl),
        ))
  ]

  first_choice-Polled :
      (waker f : ℕ) (err : Option Error) (t : Pool × Taken)
      → Took t
      → Polled waker (first_choice waker f err t)
  first_choice-Polled waker f err (p, taken c) h = h
  first_choice-Polled waker f none (p, nothing) h = reserve_or_wait-Polled waker f p h
  first_choice-Polled waker f (some e) (p, nothing) h = h
  first_choice-Polled waker f err (p, panicked) h = h

  -- When the connections that are opened are connected, `poll` keeps the account and does not panic: a task that has to wait will be woken, and a handle that
  -- is given out is connected, used, bound to the pool and outside it, and counts as one more lent.
  pub poll-Polled :
      (answer : ℕ → PollResult) (waker f : ℕ) (p : Pool)
      → ((g : ℕ) → Opens (answer g))
      → Accounts 0 lent cap p
      → Polled waker (poll answer waker f p)
  unfolding poll
  poll-Polled answer waker f p o a =
      first_choice-Polled waker f (handle_futures answer p).1
        (take_conn (handle_futures answer p).0)
        (take_conn-Took (handle_futures answer p).0 (handle_futures-Accounts lent cap answer p o a))

  drop_handle_lent :
      (c : ClientHandle) (p : Pool)
      → IsLent c
      → drop_handle c p ≡ return_conn (record c { used = false }) p
  unfolding drop_handle return_conn
  drop_handle_lent c p (h, i, u, b) = rw (h, u, b) refl

  -- While the account holds, dropping a lent handle does not panic, and afterwards it holds with one lent
  -- connection fewer: its slot is given back, or the connection is idle.
  pub drop_handle-Accounts :
      (c : ClientHandle) (p : Pool)
      → IsLent c
      → Accounts 0 (suc lent) cap p
      → (q : Pool) × (drop_handle c p ≡ some q) × Accounts 0 lent cap q
  drop_handle-Accounts c p l a =
      let (q, e, a') = return_conn-Accounts lent cap (record c { used = false }) p l.0 a in
      (q, drop_handle_lent c p l ∙ e, a')
