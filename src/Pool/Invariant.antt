-- ===== src/Pool/Invariant.antt =====
-- The slots of the pool account for every connection, and each operation keeps the account.
use clickhouse_rs.Prelude.{ℕ, zero, suc, ◌+◌, ◌≤◌, ◌<◌, ◌≡◌, refl, ap, arith, Bool, true, false}
use clickhouse_rs.Prelude.{
  ltb, ◌==◌, ◌&&◌, if◌then◌else◌, List, [], ◌∷◌, ◌++◌, length, length-append,
}
use clickhouse_rs.Prelude.{◌∙◌, sym, Option, some, none, All, All-append, Bool-cases, inl, inr, ◌⊎◌}
use clickhouse_rs.Pool.{
  unbound, ClientHandle, Pool, fresh_pool, new_pool, push, release_conn_slot, wake_tasks,
  release_conn, PollResult, pending, ready, failed, Sweep, sweep_round, with_front, sweep_loop,
  handle_futures, is_attached, idle_queue, put_back, return_conn,
}
use mathlib.Core.Path.{subst}

abbrev pub Connected : ClientHandle → Type 0
Connected c = c.connected ≡ true

-- Each reserved slot is a pending connection, an idle one, or one that is lent; the reserved slots are
-- `cap` at most; the idle connections have their transport. `extra` slots are in the hands of a loop.
pub record Accounts (extra lent cap : ℕ) (p : Pool) : Type 0 where
  pub slots : p.conn_slots ≡ length p.new + length p.idle + lent + extra
  pub bound : p.conn_slots ≤ cap
  pub alive : All Connected p.idle
  pub out : p.ongoing ≡ lent
  pub capped : p.max_conn ≡ cap

-- A connection attempt that succeeds gives a connected client.
abbrev pub Opens : PollResult → Type 0
Opens pending = Unit
Opens (ready c) = Connected c
Opens (failed e) = Unit

pub fresh_pool-Accounts :
    (min_idle max_conn : ℕ) → Accounts 0 0 max_conn (fresh_pool min_idle max_conn)
fresh_pool-Accounts min_idle max_conn = record {
  slots = omega arith;
  bound = omega arith;
  alive = tt;
  out = refl;
  capped = refl;
}

pub new_pool-Accounts :
    (min_idle max_conn : ℕ) (p : Pool)
    → new_pool min_idle max_conn ≡ some p
    → Accounts 0 0 max_conn p
unfolding new_pool
new_pool-Accounts min_idle max_conn p e = elim (Bool-cases (max_conn == 0)) [
  | inl zero_max ↦ absurd (
      let bad : none ≡ some p =
        sym (ap (λ b. if b then none else some (fresh_pool min_idle max_conn)) zero_max) ∙ e in
      cc)
  | inr h ↦
      let made : some (fresh_pool min_idle max_conn) ≡ some p =
        sym (ap (λ b. if b then none else some (fresh_pool min_idle max_conn)) h) ∙ e in
      let same : fresh_pool min_idle max_conn ≡ p = cc in
      subst (Accounts 0 0 max_conn) same (fresh_pool-Accounts min_idle max_conn)
]

-- With a slot in hand neither queue is full.
pub push_free :
    {A : Type 0} (cap : ℕ) (a : A) (q : List A) → length q < cap → push cap a q ≡ some (q ++ a ∷ [])
push_free cap a q h = ground arith

-- The idle queue is left alone, or gets the connection at its end.
idle_queue_cases :
    (p : Pool) (b : Bool) (c : ClientHandle)
    → (idle_queue p b c ≡ none) ⊎ (idle_queue p b c ≡ some (p.idle ++ c ∷ []))
unfolding idle_queue
idle_queue_cases p b c = elim (Bool-cases (ltb (length p.idle) p.min_idle && (b && c.connected))) [
  | inl e ↦ rw e (elim (Bool-cases (ltb (length p.idle) p.max_conn)) [
    | inl room ↦ rw room (inr refl)
    | inr full ↦ rw full (inl refl)
  ])
  | inr e ↦ rw e (inl refl)
]

module _ (lent cap : ℕ) where
  pub wake_tasks-Accounts : (p : Pool) → Accounts 0 lent cap p → Accounts 0 lent cap (wake_tasks p)
  unfolding wake_tasks
  wake_tasks-Accounts p a = record {
    slots = a.slots;
    bound = a.bound;
    alive = a.alive;
    out = a.out;
    capped = a.capped;
  }

  sweep_round-Accounts :
      (r : PollResult) (f : ℕ) (w : Sweep)
      → Opens r
      → Accounts 1 lent cap w.pool
      → Accounts 0 lent cap (sweep_round r f w).pool
  unfolding sweep_round release_conn_slot
  sweep_round-Accounts pending f w o a =
      rw (push_free w.pool.max_conn f w.pool.new (omega arith)) (record {
        slots = omega (arith, length-append w.pool.new (f ∷ []));
        bound = a.bound;
        alive = a.alive;
        out = a.out;
        capped = a.capped;
      })
  sweep_round-Accounts (ready c) f w o a =
      rw (push_free w.pool.max_conn c w.pool.idle (omega arith)) (record {
        slots = omega (arith, length-append w.pool.idle (c ∷ []));
        bound = a.bound;
        alive = All-append Connected w.pool.idle (c ∷ []) a.alive (o, tt);
        out = a.out;
        capped = a.capped;
      })
  sweep_round-Accounts (failed e) f w o a = record {
    slots = omega arith;
    bound = omega arith;
    alive = a.alive;
    out = a.out;
    capped = a.capped;
  }

  with_front-Accounts :
      (w : Sweep) (q : List ℕ) (k : ℕ → Sweep → Sweep)
      → w.pool.new ≡ q
      → Accounts 0 lent cap w.pool
      → ((f : ℕ) (w' : Sweep) → Accounts 1 lent cap w'.pool → Accounts 0 lent cap (k f w').pool)
      → Accounts 0 lent cap (with_front w q k).pool
  with_front-Accounts w [] k e a next = a
  with_front-Accounts w (f ∷ fs) k e a next =
      next f (record w { pool = record w.pool { new = fs } })
        (record {
          slots = omega (arith, ap length e);
          bound = a.bound;
          alive = a.alive;
          out = a.out;
          capped = a.capped;
        })

  sweep_loop-Accounts :
      (answer : ℕ → PollResult) (rounds : ℕ) (w : Sweep)
      → ((f : ℕ) → Opens (answer f))
      → Accounts 0 lent cap w.pool
      → Accounts 0 lent cap (sweep_loop answer rounds w).pool
  unfolding sweep_loop
  sweep_loop-Accounts answer zero w o a = a
  sweep_loop-Accounts answer (suc rounds) w o a =
      with_front-Accounts w w.pool.new _ refl a λ f w' a'.
        sweep_loop-Accounts answer rounds (sweep_round (answer f) f w') o
          (sweep_round-Accounts (answer f) f w' (o f) a')

  pub handle_futures-Accounts :
      (answer : ℕ → PollResult) (p : Pool)
      → ((f : ℕ) → Opens (answer f))
      → Accounts 0 lent cap p
      → Accounts 0 lent cap (handle_futures answer p).0
  unfolding handle_futures
  handle_futures-Accounts answer p o a = woken _ _ (
      sweep_loop-Accounts answer _ (record { pool = p; first_err = none; wake_waiters = false }) o
        a)
    where
      woken :
          (b : Bool) (q : Pool)
          → Accounts 0 lent cap q
          → Accounts 0 lent cap (if b then wake_tasks q else q)
      woken true q h = wake_tasks-Accounts q h
      woken false q h = h

  put_back-Accounts :
      (p : Pool) (c : ClientHandle) (o : Option (List ClientHandle))
      → Connected c
      → Accounts 0 (suc lent) cap p
      → (o ≡ none) ⊎ (o ≡ some (p.idle ++ c ∷ []))
      → Accounts 0 lent cap (put_back p o)
  put_back-Accounts p c o h a (inl e) = rw e (record {
    slots = omega arith;
    bound = omega arith;
    alive = a.alive;
    out = omega arith;
    capped = a.capped;
  })
  put_back-Accounts p c o h a (inr e) = rw e (record {
    slots = omega (arith, length-append p.idle (c ∷ []));
    bound = a.bound;
    alive = All-append Connected p.idle (c ∷ []) a.alive (h, tt);
    out = omega arith;
    capped = a.capped;
  })

  -- A connection that comes back: one lent connection fewer.
  pub return_conn-Accounts :
      (c : ClientHandle) (p : Pool)
      → Connected c
      → Accounts 0 (suc lent) cap p
      → (q : Pool) × (return_conn c p ≡ some q) × Accounts 0 lent cap q
  unfolding return_conn
  return_conn-Accounts c p h a =
      let back : ClientHandle = record c { binding = unbound; inside = true } in
      let busy : (p.ongoing == 0) ≡ false = ground arith in
      let q : Option (List ClientHandle) = idle_queue p (is_attached c.binding) back in
      (
        wake_tasks (put_back p q),
        rw (h, busy) refl,
        wake_tasks-Accounts (put_back p q)
            (put_back-Accounts p back q h a (idle_queue_cases p (is_attached c.binding) back)),
      )

  pub release_conn-Accounts :
      (p : Pool) → Accounts 0 (suc lent) cap p → Accounts 0 lent cap (release_conn p)
  unfolding release_conn
  release_conn-Accounts p a =
      let busy : (p.ongoing == 0) ≡ false = ground arith in
      rw busy (record {
        slots = omega arith;
        bound = omega arith;
        alive = a.alive;
        out = omega arith;
        capped = a.capped;
      })
