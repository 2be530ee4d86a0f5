-- ===== src/Retry/Guard.antt =====
-- What `retry_guard` promises, and when it ends.
use clickhouse_rs.Prelude.{
  ℕ, zero, suc, ◌+◌, ◌≤◌, ◌<◌, ◌≡◌, refl, arith, leb, Bool, true, false, Bool-cases, inl, inr, ◌⊎◌,
  Option, some, none,
}
use clickhouse_rs.Errors.{Error}
use clickhouse_rs.Retry.{
  Attempt, opened, refused, Server, Guarded, after_reconnect, after_check, retry_guard,
}

module _ {H : Type 0} where
  -- A loop that ended gave its caller a handle whose last ping succeeded, or an error after `max` pauses.
  abbrev pub Kept : Server H → ℕ → Guarded H → Type 0
  Kept s max g =
      ((n : ℕ) × (h : H) × (s.ping n h ≡ (g.handle, none)) × (g.err ≡ none))
      ⊎ ((e : Error) × (g.err ≡ some e) × (max ≤ g.pauses))

  abbrev pub KeptIf : Server H → ℕ → Option (Guarded H) → Type 0
  KeptIf s max none = Unit
  KeptIf s max (some g) = Kept s max g

  after_reconnect-KeptIf :
      (s : Server H) (max : ℕ) (h : H) (a : Attempt H) (attempt : ℕ)
      (again : H → ℕ → Bool → Option (Guarded H))
      → ((k : H) (m : ℕ) (skip : Bool) → KeptIf s max (again k m skip))
      → KeptIf s max (after_reconnect max h a attempt again)
  after_reconnect-KeptIf s max h (opened k) attempt again next = next k attempt false
  after_reconnect-KeptIf s max h (refused e) attempt again next =
      elim (Bool-cases (leb max attempt)) [
        | inl full ↦ rw full (inr (e, refl, ground arith))
        | inr room ↦ rw room (next h (suc attempt) true)
      ]

  after_check-KeptIf :
      (s : Server H) (max n : ℕ) (h : H) (p : H × Option Error) (attempt : ℕ)
      (reconnect : H → Option (Guarded H))
      → s.ping n h ≡ p
      → ((k : H) → KeptIf s max (reconnect k))
      → KeptIf s max (after_check max p attempt reconnect)
  after_check-KeptIf s max n h (k, none) attempt reconnect e next = inl (n, h, e, refl)
  after_check-KeptIf s max n h (k, some x) attempt reconnect e next =
      elim (Bool-cases (leb max attempt)) [
        | inl full ↦ rw full (inr (x, refl, ground arith))
        | inr room ↦ rw room (next k)
      ]

  -- Whenever `retry_guard` ends, with whatever answers it got: it succeeds only when its last ping
  -- succeeded and left the handle that the caller gets, and it fails only after `max_attempt` pauses.
  pub retry_guard-KeptIf :
      (s : Server H) (max_attempt fuel n : ℕ) (h : H) (attempt : ℕ) (skip_check : Bool)
      → KeptIf s max_attempt (retry_guard s max_attempt fuel n h attempt skip_check)
  unfolding retry_guard
  retry_guard-KeptIf s max_attempt zero n h attempt skip_check = tt
  retry_guard-KeptIf s max_attempt (suc fuel) n h attempt true =
      after_reconnect-KeptIf s max_attempt h (s.reopen n) attempt _
        (retry_guard-KeptIf s max_attempt fuel (suc n))
  retry_guard-KeptIf s max_attempt (suc fuel) n h attempt false =
      after_check-KeptIf s max_attempt n h (s.ping n h) attempt _ refl λ k.
        after_reconnect-KeptIf s max_attempt k (s.reopen n) attempt _
          (retry_guard-KeptIf s max_attempt fuel (suc n))

  -- A connection that was just made answers the ping that follows.
  abbrev pub Answers : Server H → Type 0
  Answers s = (n : ℕ) (h : H) → s.reopen n ≡ opened h → (k : H) × (s.ping (suc n) h ≡ (k, none))

  -- The loop has ended, and has not paused more than `max` times.
  abbrev pub Ends : ℕ → Option (Guarded H) → Type 0
  Ends max r = (g : Guarded H) × (r ≡ some g) × (g.pauses ≤ max)

  after_reconnect-Ends :
      (s : Server H) (max fuel n : ℕ) (h : H) (a : Attempt H) (attempt : ℕ)
      → Answers s
      → s.reopen n ≡ a
      → attempt ≤ max
      → (attempt < max → Ends max (retry_guard s max (suc fuel) (suc n) h (suc attempt) true))
      → Ends max (
          after_reconnect max h a attempt
            (λ k m skip. retry_guard s max (suc fuel) (suc n) k m skip))
  unfolding retry_guard
  after_reconnect-Ends s max fuel n h (opened k) attempt o e l next =
      let (k', p) = o n k e in (record { handle = k'; err = none; pauses = attempt }, rw p refl, l)
  after_reconnect-Ends s max fuel n h (refused x) attempt o e l next =
      elim (Bool-cases (leb max attempt)) [
        | inl full ↦ (record { handle = h; err = some x; pauses = attempt }, rw full refl, l)
        | inr room ↦ rw room (next (ground arith))
      ]

  skipping-Ends :
      (s : Server H) (max fuel n : ℕ) (h : H) (attempt : ℕ)
      → Answers s
      → attempt + fuel ≡ max
      → Ends max (retry_guard s max (suc (suc fuel)) n h attempt true)
  unfolding retry_guard
  skipping-Ends s max zero n h attempt o e =
      after_reconnect-Ends s max zero n h (s.reopen n) attempt o refl (omega arith)
        λ l. absurd (omega arith)
  skipping-Ends s max (suc fuel) n h attempt o e =
      after_reconnect-Ends s max (suc fuel) n h (s.reopen n) attempt o refl (omega arith)
        λ l. skipping-Ends s max fuel (suc n) h (suc attempt) o (omega arith)

  checked-Ends :
      (max : ℕ) (p : H × Option Error) (attempt : ℕ) (reconnect : H → Option (Guarded H))
      → attempt ≤ max
      → (attempt < max → (k : H) → Ends max (reconnect k))
      → Ends max (after_check max p attempt reconnect)
  checked-Ends max (k, none) attempt reconnect l next = (_, refl, l)
  checked-Ends max (k, some x) attempt reconnect l next = elim (Bool-cases (leb max attempt)) [
    | inl full ↦ (record { handle = k; err = some x; pauses = attempt }, rw full refl, l)
    | inr room ↦ rw room (next (ground arith) k)
  ]

  -- When each connection that is made answers the ping that follows, `retry_guard` ends within
  -- `max_attempt + 2` rounds and `max_attempt` pauses.
  pub retry_guard-Ends :
      (s : Server H) (max_attempt : ℕ) (h : H)
      → Answers s
      → Ends max_attempt (retry_guard s max_attempt (suc (suc max_attempt)) 0 h 0 false)
  unfolding retry_guard
  retry_guard-Ends s zero h o =
      checked-Ends zero (s.ping 0 h) 0 _ (omega arith) λ l k. absurd (omega arith)
  retry_guard-Ends s (suc m) h o = checked-Ends (suc m) (s.ping 0 h) 0 _ (omega arith) λ l k.
      after_reconnect-Ends s (suc m) (suc m) 0 k (s.reopen 0) 0 o refl (omega arith)
        λ l'. skipping-Ends s (suc m) m 1 k 1 o (omega arith)

  -- When connecting succeeds every time and no ping does, then with a positive `max_attempt` the loop
  -- never ends: `attempt` stays 0 and no pause is made.
  pub retry_guard_spins :
      (s : Server H) (made : ℕ → H) (lost : ℕ → H → H) (e : Error) (max_attempt fuel n : ℕ) (h : H)
      → ((m : ℕ) → s.reopen m ≡ opened (made m))
      → ((m : ℕ) (k : H) → s.ping m k ≡ (lost m k, some e))
      → retry_guard s (suc max_attempt) fuel n h 0 false ≡ none
  unfolding retry_guard
  retry_guard_spins s made lost e max_attempt zero n h o p = refl
  retry_guard_spins s made lost e max_attempt (suc fuel) n h o p =
      let room : leb (suc max_attempt) 0 ≡ false = ground arith in
      rw (p n h, room, o n) (retry_guard_spins s made lost e max_attempt fuel (suc n) (made n) o p)
