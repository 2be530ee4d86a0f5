-- ===== src/Pool.antt =====
-- src/pool/mod.rs: the connection pool, as one task sees it between two suspension points.
-- The atomics and the lock-free queues are updated one after the other; a future is its number, and
-- what polling it answers is given by the environment.
pub mod Invariant
pub mod Poll
pub mod Steps
use clickhouse_rs.Prelude.{
  ℕ, zero, suc, ◌+◌, ◌-◌, min, Bool, true, false, ltb, ◌==◌, ◌&&◌, if◌then◌else◌,
}
use clickhouse_rs.Prelude.{List, [], ◌∷◌, ◌++◌, length, Option, some, none}
use clickhouse_rs.Errors.{Error}

-- `PoolBinding`, without the pool that the two last carry: there is one pool.
pub data PoolBinding : Type 0 where
  unbound attached detached : PoolBinding

unfoldable pub is_attached : PoolBinding → Bool
is_attached unbound = false
is_attached attached = true
is_attached detached = false

unfoldable pub is_some : PoolBinding → Bool
is_some unbound = false
is_some attached = true
is_some detached = true

-- `attach` and `detach`; `none` is `unreachable!()`.
unfoldable pub attach : PoolBinding → Option PoolBinding
attach unbound = none
attach attached = none
attach detached = some attached

unfoldable pub detach : PoolBinding → Option PoolBinding
detach unbound = none
detach attached = some detached
detach detached = none

-- A `ClientHandle`: whether it has its transport (`inner`), the transport's `inside` flag, and `used`.
pub record ClientHandle : Type 0 where
  pub connected : Bool
  pub binding : PoolBinding
  pub inside : Bool
  pub used : Bool

-- `Inner`, with the bounds that `Pool` keeps. `woken` is the log of the wakers that were called.
pub record Pool : Type 0 where
  pub new : List ℕ
  pub idle : List ClientHandle
  pub tasks : List ℕ
  pub ongoing : ℕ
  pub conn_slots : ℕ
  pub woken : List ℕ
  pub min_idle : ℕ
  pub max_conn : ℕ

-- The fields of a pool that `Pool::new` makes.
abbrev pub fresh_pool : ℕ → ℕ → Pool
fresh_pool min_idle max_conn = record {
  new = [];
  idle = [];
  tasks = [];
  ongoing = 0;
  conn_slots = 0;
  woken = [];
  min_idle = min_idle;
  max_conn = max_conn;
}

-- `Pool::new` on parsed options; `none` is the panic of `ArrayQueue::new` on a capacity of 0.
unfoldable pub new_pool : ℕ → ℕ → Option Pool
new_pool min_idle max_conn = if max_conn == 0 then none else some (fresh_pool min_idle max_conn)

-- `ArrayQueue::push` on a queue of the given capacity: `none` is the error of a full queue.
abbrev pub push {ℓ} : {A : Type ℓ} → ℕ → A → List A → Option (List A)
push cap a q = if ltb (length q) cap then some (q ++ a ∷ []) else none

-- `checked_sub`: at 0 nothing happens.
unfoldable pub release_conn_slot : Pool → Pool
release_conn_slot p = record p { conn_slots = p.conn_slots - 1 }

unfoldable pub wake_tasks : Pool → Pool
wake_tasks p = record p { tasks = []; woken = p.woken ++ p.tasks }

unfoldable pub release_conn : Pool → Pool
unfolding release_conn_slot wake_tasks
release_conn p =
    if p.ongoing == 0
    then p
    else wake_tasks (release_conn_slot (record p { ongoing = p.ongoing - 1 }))

-- A slot is reserved while there are fewer than `max`.
unfoldable pub try_reserve_conn : Pool → Option Pool
try_reserve_conn p =
    if ltb p.conn_slots p.max_conn then some (record p { conn_slots = p.conn_slots + 1 }) else none

-- What polling a pending connection gives.
pub data PollResult : Type 0 where
  pending : PollResult
  ready : ClientHandle → PollResult
  failed : Error → PollResult

-- The variables of `handle_futures`.
pub record Sweep : Type 0 where
  pub pool : Pool
  pub first_err : Option Error
  pub wake_waiters : Bool

abbrev pub keep_first : Option Error → Error → Option Error
keep_first none e = some e
keep_first (some d) e = some d

-- A ready connection that finds the idle queue full is closed.
abbrev pub add_idle : Pool → Option (List ClientHandle) → Pool
add_idle p none = record p { conn_slots = p.conn_slots - 1 }
add_idle p (some q) = record p { idle = q }

abbrev pub requeue : Sweep → Option (List ℕ) → Sweep
requeue w none = record w { pool = release_conn_slot w.pool; wake_waiters = true }
requeue w (some q) = record w { pool = record w.pool { new = q } }

-- One round of `handle_futures`: the future was taken from the queue and has been polled.
unfoldable pub sweep_round : PollResult → ℕ → Sweep → Sweep
unfolding release_conn_slot
sweep_round pending f w = requeue w (push w.pool.max_conn f w.pool.new)
sweep_round (ready c) f w = record w {
  pool = add_idle w.pool (push w.pool.max_conn c w.pool.idle);
  wake_waiters = true;
}
sweep_round (failed e) f w = record w {
  pool = release_conn_slot w.pool;
  first_err = keep_first w.first_err e;
  wake_waiters = true;
}

-- Take the first future, if there is one.
abbrev pub with_front : Sweep → List ℕ → (ℕ → Sweep → Sweep) → Sweep
with_front w [] k = w
with_front w (f ∷ fs) k = k f (record w { pool = record w.pool { new = fs } })

unfoldable pub sweep_loop : (ℕ → PollResult) → ℕ → Sweep → Sweep
sweep_loop answer zero w = w
sweep_loop answer (suc rounds) w =
    with_front w w.pool.new (λ f w'. sweep_loop answer rounds (sweep_round (answer f) f w'))

abbrev pub pending_open_poll_budget : ℕ
pending_open_poll_budget = 4

-- `handle_futures`: the pool, and the first error.
unfoldable pub handle_futures : (ℕ → PollResult) → Pool → Pool × Option Error
handle_futures answer p =
    let rounds = min (length p.new) pending_open_poll_budget in
    let w =
      sweep_loop answer rounds (record { pool = p; first_err = none; wake_waiters = false }) in
    (if w.wake_waiters then wake_tasks w.pool else w.pool, w.first_err)

-- `set_inside` on a handle with no transport is `unreachable!()`: `none`.
unfoldable pub set_inside : Bool → ClientHandle → Option ClientHandle
set_inside value c = if c.connected then some (record c { inside = value }) else none

-- What `take_conn` and `poll` return; `panicked` is no value of the code.
pub data Taken : Type 0 where
  nothing panicked : Taken
  taken : ClientHandle → Taken

abbrev pub lend : Pool → Option ClientHandle → Pool × Taken
lend p none = (p, panicked)
lend p (some c) = (record p { ongoing = p.ongoing + 1 }, taken (record c { used = true }))

abbrev pub take_front : Pool → List ClientHandle → Pool × Taken
take_front p [] = (p, nothing)
take_front p (c ∷ cs) =
    lend (record p { idle = cs }) (set_inside false (record c { binding = attached }))

unfoldable pub take_conn : Pool → Pool × Taken
unfolding set_inside
take_conn p = take_front p p.idle

-- The queue that `return_conn` puts the connection into, if it does.
unfoldable pub idle_queue : Pool → Bool → ClientHandle → Option (List ClientHandle)
idle_queue p was_attached c =
    if ltb (length p.idle) p.min_idle && (was_attached && c.connected)
    then push p.max_conn c p.idle
    else none

abbrev pub put_back : Pool → Option (List ClientHandle) → Pool
put_back p none = record p { ongoing = p.ongoing - 1; conn_slots = p.conn_slots - 1 }
put_back p (some q) = record p { idle = q; ongoing = p.ongoing - 1 }

abbrev pub return_ready : Pool → Bool → Option ClientHandle → Option Pool
return_ready p was_attached none = none
return_ready p was_attached (some c) =
    if p.ongoing == 0 then some p else some (wake_tasks (put_back p (idle_queue p was_attached c)))

-- `return_conn`; `none` is a panic.
unfoldable pub return_conn : ClientHandle → Pool → Option Pool
unfolding set_inside idle_queue is_attached
return_conn c p =
    return_ready p (is_attached c.binding) (set_inside true (record c { binding = unbound }))

-- `Poll<Result<ClientHandle>>`
pub data Answer : Type 0 where
  wait crashed : Answer
  got : ClientHandle → Answer
  error : Error → Answer

abbrev pub started : ℕ → Pool → Option (List ℕ) → Pool × Answer
started waker p (some q) = (record p { new = q; woken = p.woken ++ waker ∷ [] }, wait)
started waker p none =
    (record p { conn_slots = p.conn_slots - 1; tasks = p.tasks ++ waker ∷ [] }, wait)

-- With a slot reserved a new connection `f` is started, and the task is woken to poll it; with none the
-- task joins the queue.
abbrev pub start_or_wait : ℕ → ℕ → Pool → Option Pool → Pool × Answer
start_or_wait waker f p (some q) = started waker q (push q.max_conn f q.new)
start_or_wait waker f p none = (record p { tasks = p.tasks ++ waker ∷ [] }, wait)

unfoldable pub reserve_or_wait : ℕ → ℕ → Pool → Pool × Answer
unfolding try_reserve_conn
reserve_or_wait waker f p = start_or_wait waker f p (try_reserve_conn p)

abbrev pub or_open : ℕ → ℕ → Pool → Option Error → Pool × Answer
or_open waker f p none = reserve_or_wait waker f p
or_open waker f p (some e) = (p, error e)

abbrev pub first_choice : ℕ → ℕ → Option Error → Pool × Taken → Pool × Answer
first_choice waker f err (p, taken c) = (p, got c)
first_choice waker f err (p, nothing) = or_open waker f p err
first_choice waker f err (p, panicked) = (p, crashed)

-- `poll`, by the task with the given waker; `f` is the number of the future that it may start.
unfoldable pub poll : (ℕ → PollResult) → ℕ → ℕ → Pool → Pool × Answer
poll answer waker f p =
    let (p', err) = handle_futures answer p in first_choice waker f err (take_conn p')

-- `Drop for TransportStatus`
unfoldable pub drop_status : Bool → Pool → Pool
drop_status inside p = if inside then p else release_conn p

-- `Drop for ClientHandle`; the transport of a handle that is not returned is dropped with it.
unfoldable pub drop_handle : ClientHandle → Pool → Option Pool
unfolding drop_status is_some return_conn
drop_handle c p =
    if c.connected
    then (if is_some c.binding && c.used
        then return_conn (record c { used = false }) p
        else some (drop_status c.inside p))
    else some p
