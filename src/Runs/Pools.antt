-- ===== src/Runs/Pools.antt =====
-- Runs of src/pool/mod.rs and src/retry_guard.rs.
use clickhouse_rs.Prelude.{
  ℕ, zero, suc, ◌+◌, ◌≤◌, ◌≡◌, refl, arith, true, false, [], ◌∷◌, ◌++◌, length, Option, some, none,
}
use clickhouse_rs.Errors.{Error, io, connection_refused, other_kind, driver, timeout}
use clickhouse_rs.Pool.{
  Pool, ClientHandle, is_some, attached, unbound, fresh_pool, new_pool, PollResult, ready, poll,
  handle_futures, sweep_loop, sweep_round, take_conn, set_inside, reserve_or_wait, try_reserve_conn,
  wake_tasks, drop_handle,
}
use clickhouse_rs.Pool.Invariant.{Accounts, Opens, fresh_pool-Accounts}
use clickhouse_rs.Pool.Poll.{IsLent, Polled, poll-Polled, drop_handle-Accounts}
use clickhouse_rs.Pool.Steps.{World, Reach, start, next, polls, answered, Reach-bound}
use clickhouse_rs.Retry.{
  Attempt, opened, refused, is_transient, Stopped, Server, retry_open, retry_guard,
}
use clickhouse_rs.Retry.Open.{Settles, Ended, retry_open-Ended, retry_open_spins}
use clickhouse_rs.Retry.Guard.{
  KeptIf, Answers, Ends, retry_guard-KeptIf, retry_guard-Ends, retry_guard_spins,
}

abbrev fresh : ClientHandle
fresh = record { connected = true; binding = unbound; inside = true; used = false }

abbrev connects : ℕ → PollResult
connects f = ready fresh

connects-Opens : (f : ℕ) → Opens (connects f)
connects-Opens f = refl

-- The pool of two connections, in which a task has started one.
abbrev one_started : Pool
one_started = (poll connects 1 0 (fresh_pool 1 2)).0

abbrev world_one : World
world_one = answered [] (poll connects 1 0 (fresh_pool 1 2))

made : new_pool 1 2 ≡ some (fresh_pool 1 2)
unfolding new_pool
made = refl

Reach-one : Reach 1 2 world_one
Reach-one = next (start made) (polls connects 1 0 connects-Opens)

abbrev world_two : World
world_two = answered world_one.lent (poll connects 1 1 world_one.pool)

Reach-two : Reach 1 2 world_two
Reach-two = next Reach-one (polls connects 1 1 connects-Opens)

poll-Polled_example : Polled 0 2 1 (poll connects 1 0 (fresh_pool 1 2))
poll-Polled_example =
    poll-Polled 0 2 connects 1 0 (fresh_pool 1 2) connects-Opens (fresh_pool-Accounts 1 2)

Reach-bound_example :
    length world_two.pool.new + length world_two.pool.idle + length world_two.lent ≤ 2
Reach-bound_example = Reach-bound 1 2 world_two Reach-two

abbrev lent_one : ClientHandle
lent_one = record { connected = true; binding = attached; inside = false; used = true }

abbrev two_of_two : Pool
two_of_two = record (fresh_pool 0 2) { conn_slots = 1; ongoing = 1 }

-- The second poll has lent the connection.
Reach-lent : Reach 1 2 (record { pool = world_two.pool; lent = [] ++ lent_one ∷ [] })
unfolding poll handle_futures sweep_loop sweep_round new_pool take_conn set_inside reserve_or_wait
    try_reserve_conn wake_tasks
Reach-lent = Reach-two

two_of_two-Accounts : Accounts 0 1 2 two_of_two
unfolding new_pool
two_of_two-Accounts = record {
  slots = omega arith;
  bound = omega arith;
  alive = tt;
  out = refl;
  capped = refl;
}

lent_one-IsLent : IsLent lent_one
unfolding is_some
lent_one-IsLent = (refl, refl, refl, refl)

drop_one_lent : (q : Pool) × (drop_handle lent_one two_of_two ≡ some q) × Accounts 0 0 2 q
drop_one_lent = drop_handle-Accounts 0 2 lent_one two_of_two lent_one-IsLent two_of_two-Accounts

abbrev refuses_twice : ℕ → Attempt ℕ
refuses_twice zero = refused (io connection_refused)
refuses_twice (suc zero) = refused (io connection_refused)
refuses_twice (suc (suc n)) = opened 7

refuses_twice-Settles : (i : ℕ) → Settles (refuses_twice i)
unfolding is_transient
refuses_twice-Settles zero = refl
refuses_twice-Settles (suc zero) = refl
refuses_twice-Settles (suc (suc n)) = tt

retry_open-Ended_example :
    (r : Stopped ℕ) × (retry_open refuses_twice 3 4 0 0 ≡ some r) × Ended refuses_twice 3 0 r
retry_open-Ended_example = retry_open-Ended refuses_twice 3 refuses_twice-Settles

abbrev always_other : ℕ → Attempt ℕ
always_other n = refused (io other_kind)

always_other-kind : (i : ℕ) → is_transient other_kind ≡ false
unfolding is_transient
always_other-kind i = refl

retry_open_spins_example : retry_open always_other 3 100 0 0 ≡ none
retry_open_spins_example =
    retry_open_spins always_other (λ i. other_kind) 3 100 0 0 (λ i h. refl)
      (λ i h. always_other-kind i)

-- The first connection is dead, and connecting gives a live one.
abbrev recovers_ping : ℕ → ℕ × Option Error
recovers_ping zero = (0, some (driver timeout))
recovers_ping (suc h) = (suc h, none)

abbrev recovers : Server ℕ
recovers = record { ping = λ n h. recovers_ping h; reopen = λ n. opened 1 }

recovers-Answers : Answers recovers
recovers-Answers n zero e = absurd cc
recovers-Answers n (suc h) e = (suc h, refl)

retry_guard-Ends_example : Ends 3 (retry_guard recovers 3 5 0 0 0 false)
retry_guard-Ends_example = retry_guard-Ends recovers 3 0 recovers-Answers

retry_guard-KeptIf_example : KeptIf recovers 3 (retry_guard recovers 3 5 0 0 0 false)
retry_guard-KeptIf_example = retry_guard-KeptIf recovers 3 5 0 0 0 false

-- Connecting succeeds, and no ping does.
abbrev deaf : Server ℕ
deaf = record { ping = λ n h. (h, some (driver timeout)); reopen = λ n. opened n }

retry_guard_spins_example : retry_guard deaf 3 100 0 0 0 false ≡ none
retry_guard_spins_example =
    retry_guard_spins deaf (λ n. n) (λ n h. h) (driver timeout) 2 100 0 0 (λ n. refl) (λ n h. refl)
