-- ===== src/Retry.antt =====
-- src/pool/mod.rs (`Pool::retry_open`) and src/retry_guard.rs: the loops that connect again.
-- What `Client::open`, `get_handle` and `ping` answer is given by the environment, by the number of the
-- call; the pauses between the calls are counted.
pub mod Open
pub mod Guard
use clickhouse_rs.Prelude.{ℕ, zero, suc, leb, Bool, true, false, if◌then◌else◌, Option, some, none}
use clickhouse_rs.Errors.{
  Error, ErrorKind, would_block, broken_pipe, connection_refused, other_kind, another_kind, driver,
  io, connection, other, server, url, from_sql,
}

-- `Result<A>` of an attempt to connect.
pub data Attempt (A : Type 0) : Type 0 where
  opened : A → Attempt A
  refused : Error → Attempt A

-- The kinds that `retry_open` retries.
unfoldable pub is_transient : ErrorKind → Bool
is_transient would_block = false
is_transient broken_pipe = true
is_transient connection_refused = true
is_transient other_kind = false
is_transient (another_kind n) = false

-- How `retry_open` ended: what it returns, and how many calls and pauses it made.
pub record Stopped (A : Type 0) : Type 0 where
  pub result : Attempt A
  pub calls : ℕ
  pub pauses : ℕ

module _ {A : Type 0} where
  abbrev pub stop : Attempt A → ℕ → ℕ → Option (Stopped A)
  stop a calls attempt = some (record { result = a; calls = calls; pauses = attempt })

  -- The body of the loop: `again` is the next round, with its `attempt`.
  abbrev pub after_open : ℕ → Attempt A → ℕ → ℕ → (ℕ → Option (Stopped A)) → Option (Stopped A)
  after_open max (opened a) calls attempt again = stop (opened a) calls attempt
  after_open max (refused (io k)) calls attempt again =
      if is_transient k
      then (if leb max attempt then stop (refused (io k)) calls attempt else again (suc attempt))
      else again attempt
  after_open max (refused (driver e)) calls attempt again = stop (refused (driver e)) calls attempt
  after_open max (refused (connection e)) calls attempt again =
      stop (refused (connection e)) calls attempt
  after_open max (refused (other e)) calls attempt again = stop (refused (other e)) calls attempt
  after_open max (refused (server e)) calls attempt again = stop (refused (server e)) calls attempt
  after_open max (refused (url e)) calls attempt again = stop (refused (url e)) calls attempt
  after_open max (refused (from_sql e)) calls attempt again =
      stop (refused (from_sql e)) calls attempt

  -- `retry_open`, after `n` calls; `none` is a loop that has not ended.
  unfoldable pub retry_open : (ℕ → Attempt A) → ℕ → ℕ → ℕ → ℕ → Option (Stopped A)
  retry_open opens max zero n attempt = none
  retry_open opens max (suc fuel) n attempt =
      after_open max (opens n) (suc n) attempt
        (λ attempt'. retry_open opens max fuel (suc n) attempt')

-- What the environment answers in a round of `retry_guard`: `ping` also gives the handle that it leaves.
pub record Server (H : Type 0) : Type 0 where
  pub ping : ℕ → H → H × Option Error
  pub reopen : ℕ → Attempt H

-- How `retry_guard` ended: the handle that its caller has, and the error.
pub record Guarded (H : Type 0) : Type 0 where
  pub handle : H
  pub err : Option Error
  pub pauses : ℕ

module _ {H : Type 0} where
  abbrev pub leave : H → Option Error → ℕ → Option (Guarded H)
  leave h err attempt = some (record { handle = h; err = err; pauses = attempt })

  -- A round continues with a handle, an `attempt` and `skip_check`.
  abbrev pub after_reconnect :
      ℕ → H → Attempt H → ℕ → (H → ℕ → Bool → Option (Guarded H)) → Option (Guarded H)
  after_reconnect max h (opened h') attempt again = again h' attempt false
  after_reconnect max h (refused e) attempt again =
      if leb max attempt then leave h (some e) attempt else again h (suc attempt) true

  abbrev pub after_check : ℕ → H × Option Error → ℕ → (H → Option (Guarded H)) → Option (Guarded H)
  after_check max (h, none) attempt reconnect = leave h none attempt
  after_check max (h, some e) attempt reconnect =
      if leb max attempt then leave h (some e) attempt else reconnect h

  -- `retry_guard`, at the beginning of round `n`.
  unfoldable pub retry_guard : Server H → ℕ → ℕ → ℕ → H → ℕ → Bool → Option (Guarded H)
  retry_guard s max zero n h attempt skip_check = none
  retry_guard s max (suc fuel) n h attempt true =
      after_reconnect max h (s.reopen n) attempt
        (λ h' a skip. retry_guard s max fuel (suc n) h' a skip)
  retry_guard s max (suc fuel) n h attempt false = after_check max (s.ping n h) attempt λ h'.
      after_reconnect max h' (s.reopen n) attempt
        (λ k a skip. retry_guard s max fuel (suc n) k a skip)
