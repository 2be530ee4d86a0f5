-- ===== src/Pool/Steps.antt =====
-- The pool and the handles that its clients hold, over any sequence of polls and drops.
use clickhouse_rs.Prelude.{ℕ, suc, ◌+◌, ◌≤◌, ◌≡◌, refl, sym, ap, ◌∙◌, arith, true}
use clickhouse_rs.Prelude.{List, [], ◌∷◌, ◌++◌, length, some, All}
use clickhouse_rs.Pool.{
  Pool, ClientHandle, PoolBinding, unbound, attached, detached, attach, detach, is_some, new_pool,
  PollResult, poll, Answer, wait, crashed, got, error, drop_handle, drop_status, release_conn,
}
use clickhouse_rs.Pool.Invariant.{Accounts, Opens, new_pool-Accounts, release_conn-Accounts}
use clickhouse_rs.Pool.Poll.{IsLent, Polled, poll-Polled, drop_handle-Accounts}

-- The handles that clients hold.
pub record World : Type 0 where
  pub pool : Pool
  pub lent : List ClientHandle

abbrev pub answered : List ClientHandle → Pool × Answer → World
answered hs (p, wait) = record { pool = p; lent = hs }
answered hs (p, crashed) = record { pool = p; lent = hs }
answered hs (p, got c) = record { pool = p; lent = c ∷ hs }
answered hs (p, error e) = record { pool = p; lent = hs }

-- One event: a task polls the pool for a handle, a client drops a handle, a client detaches or attaches
-- one, or the transport of a handle is lost and dropped while the handle is held.
pub data Step : World → World → Type 0 where
  polls :
      {w : World}
      → (results : ℕ → PollResult) (waker f : ℕ) → ((g : ℕ) → Opens (results g))
      → Step w (answered w.lent (poll results waker f w.pool))
  drops :
      (front : List ClientHandle) (c : ClientHandle) (back : List ClientHandle) {p q : Pool}
      → drop_handle c p ≡ some q
      → Step
          (record { pool = p; lent = front ++ c ∷ back })
          (record { pool = q; lent = front ++ back })
  detaches :
      (front : List ClientHandle) (c : ClientHandle) (back : List ClientHandle) (b : PoolBinding)
      {p : Pool}
      → detach c.binding ≡ some b
      → Step
          (record { pool = p; lent = front ++ c ∷ back })
          (record { pool = p; lent = front ++ record c { binding = b } ∷ back })
  attaches :
      (front : List ClientHandle) (c : ClientHandle) (back : List ClientHandle) (b : PoolBinding)
      {p : Pool}
      → attach c.binding ≡ some b
      → Step
          (record { pool = p; lent = front ++ c ∷ back })
          (record { pool = p; lent = front ++ record c { binding = b } ∷ back })
  loses :
      (front : List ClientHandle) (c : ClientHandle) (back : List ClientHandle) {p : Pool}
      → Step
          (record { pool = p; lent = front ++ c ∷ back })
          (record { pool = drop_status c.inside p; lent = front ++ back })

-- The worlds that a new pool can get to.
pub data Reach (min_idle max_conn : ℕ) : World → Type 0 where
  start :
      {p : Pool}
      → new_pool min_idle max_conn ≡ some p
      → Reach min_idle max_conn (record { pool = p; lent = [] })
  next : {w w' : World} → Reach min_idle max_conn w → Step w w' → Reach min_idle max_conn w'

pub record Good (cap : ℕ) (w : World) : Type 0 where
  pub accounts : Accounts 0 (length w.lent) cap w.pool
  pub handles : All IsLent w.lent

module _ (cap : ℕ) where
  answered-Good :
      (hs : List ClientHandle) (waker : ℕ) (r : Pool × Answer)
      → All IsLent hs
      → Polled (length hs) cap waker r
      → Good cap (answered hs r)
  answered-Good hs waker (p, wait) l h = record { accounts = h.0; handles = l }
  answered-Good hs waker (p, crashed) l h = elim h [ ]
  answered-Good hs waker (p, got c) l h = record { accounts = h.0; handles = (h.1, l) }
  answered-Good hs waker (p, error e) l h = record { accounts = h; handles = l }

  All-remove :
      (front : List ClientHandle) (c : ClientHandle) (back : List ClientHandle)
      → All IsLent (front ++ c ∷ back)
      → IsLent c × All IsLent (front ++ back)
  All-remove [] c back h = h
  All-remove (d ∷ front) c back h =
      let (lc, rest) = All-remove front c back h.1 in (lc, (h.0, rest))

  All-change :
      (front : List ClientHandle) (c d : ClientHandle) (back : List ClientHandle)
      → IsLent d
      → All IsLent (front ++ c ∷ back)
      → All IsLent (front ++ d ∷ back)
  All-change [] c d back l h = (l, h.1)
  All-change (e ∷ front) c d back l h = (h.0, All-change front c d back l h.1)

  fewer :
      (front : List ClientHandle) (c : ClientHandle) (back : List ClientHandle)
      → length (front ++ c ∷ back) ≡ suc (length (front ++ back))
  fewer [] c back = refl
  fewer (d ∷ front) c back = ap suc (fewer front c back)

  recount : (m n : ℕ) (p : Pool) → m ≡ n → Accounts 0 m cap p → Accounts 0 n cap p
  recount m n p e a = record {
    slots = omega arith;
    bound = a.bound;
    alive = a.alive;
    out = a.out ∙ e;
    capped = a.capped;
  }

  attach-is_some : (b d : PoolBinding) → attach b ≡ some d → is_some d ≡ true
  unfolding attach is_some
  attach-is_some unbound attached e = refl
  attach-is_some unbound detached e = refl
  attach-is_some unbound unbound e = absurd cc
  attach-is_some attached unbound e = absurd cc
  attach-is_some attached attached e = refl
  attach-is_some attached detached e = refl
  attach-is_some detached unbound e = absurd cc
  attach-is_some detached attached e = refl
  attach-is_some detached detached e = refl

  detach-is_some : (b d : PoolBinding) → detach b ≡ some d → is_some d ≡ true
  unfolding detach is_some
  detach-is_some unbound attached e = refl
  detach-is_some unbound detached e = refl
  detach-is_some unbound unbound e = absurd cc
  detach-is_some attached unbound e = absurd cc
  detach-is_some attached attached e = refl
  detach-is_some attached detached e = refl
  detach-is_some detached unbound e = absurd cc
  detach-is_some detached attached e = refl
  detach-is_some detached detached e = refl

  drop_status_lent :
      (c : ClientHandle) (p : Pool) → IsLent c → drop_status c.inside p ≡ release_conn p
  unfolding drop_status
  drop_status_lent c p l = rw l.1 refl

  rebind :
      (front : List ClientHandle) (c : ClientHandle) (back : List ClientHandle) (b : PoolBinding)
      (p : Pool)
      → is_some b ≡ true
      → Good cap (record { pool = p; lent = front ++ c ∷ back })
      → Good cap (record { pool = p; lent = front ++ record c { binding = b } ∷ back })
  rebind front c back b p e g =
      let l : IsLent c = (All-remove front c back g.handles).0 in
      record {
        accounts =
            recount _ _ p (fewer front c back ∙ sym (fewer front (record c { binding = b }) back))
              g.accounts;
        handles = All-change front c (record c { binding = b }) back (l.0, l.1, l.2, e) g.handles;
      }

  removed :
      (front : List ClientHandle) (c : ClientHandle) (back : List ClientHandle) (p q : Pool)
      → Accounts 0 (length (front ++ back)) cap q
      → Good cap (record { pool = p; lent = front ++ c ∷ back })
      → Good cap (record { pool = q; lent = front ++ back })
  removed front c back p q a g = record {
    accounts = a;
    handles = (All-remove front c back g.handles).1;
  }

  pub Step-Good : (w w' : World) → Step w w' → Good cap w → Good cap w'
  Step-Good w w' (polls results waker f o) g =
      answered-Good w.lent waker (poll results waker f w.pool) g.handles
        (poll-Polled (length w.lent) cap results waker f w.pool o g.accounts)
  Step-Good w w' (drops front c back e) g =
      let a = recount _ _ w.pool (fewer front c back) g.accounts in
      let l = (All-remove front c back g.handles).0 in
      let (q, e', a') = drop_handle-Accounts (length (front ++ back)) cap c w.pool l a in
      let same : q ≡ w'.pool = cc in removed front c back w.pool w'.pool (rw (sym same) a') g
  Step-Good w w' (detaches front c back b e) g =
      rebind front c back b w.pool (detach-is_some c.binding b e) g
  Step-Good w w' (attaches front c back b e) g =
      rebind front c back b w.pool (attach-is_some c.binding b e) g
  Step-Good w w' (loses front c back) g =
      let a = recount _ _ w.pool (fewer front c back) g.accounts in
      let l = (All-remove front c back g.handles).0 in
      removed front c back w.pool w'.pool
        (rw (drop_status_lent c w.pool l)
          (release_conn-Accounts (length (front ++ back)) cap w.pool a))
        g

-- In every world that a new pool gets to, the account holds.
pub Reach-Good : (min_idle max_conn : ℕ) (w : World) → Reach min_idle max_conn w → Good max_conn w
Reach-Good min_idle max_conn w (start {p = p} e) = record {
  accounts = new_pool-Accounts min_idle max_conn p e;
  handles = tt;
}
Reach-Good min_idle max_conn w (next {w = v} r s) =
    Step-Good max_conn v w s (Reach-Good min_idle max_conn v r)

-- When every connection that is opened is connected: whatever tasks poll a new pool and whatever clients do
-- with their handles, the connections that are being opened, those that are idle and those that clients
-- hold are together never more than the maximum.
pub Reach-bound :
    (min_idle max_conn : ℕ) (w : World)
    → Reach min_idle max_conn w
    → length w.pool.new + length w.pool.idle + length w.lent ≤ max_conn
Reach-bound min_idle max_conn w r =
    let g = Reach-Good min_idle max_conn w r in omega (arith, g.accounts.slots, g.accounts.bound)
