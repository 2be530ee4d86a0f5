-- ===== src/Retry/Open.antt =====
-- When `retry_open` ends, and when it does not.
use clickhouse_rs.Prelude.{
  ℕ, zero, suc, ◌+◌, ◌≤◌, ◌<◌, ◌≡◌, refl, sym, ◌∙◌, arith, leb, true, false, Bool-cases, inl, inr,
  Option, some, none,
}
use clickhouse_rs.Errors.{ErrorKind, driver, io, connection, other, server, url, from_sql}
use clickhouse_rs.Retry.{Attempt, opened, refused, is_transient, Stopped, after_open, retry_open}

module _ {A : Type 0} where
  -- An I/O error, if there is one, is of a kind that is retried.
  abbrev pub Settles : Attempt A → Type 0
  Settles (opened a) = Unit
  Settles (refused (io k)) = is_transient k ≡ true
  Settles (refused (driver e)) = Unit
  Settles (refused (connection e)) = Unit
  Settles (refused (other e)) = Unit
  Settles (refused (server e)) = Unit
  Settles (refused (url e)) = Unit
  Settles (refused (from_sql e)) = Unit

  abbrev pub IsTransient : Attempt A → Type 0
  IsTransient a = (k : ErrorKind) × (a ≡ refused (io k)) × (is_transient k ≡ true)

  -- The loop, which has made `n` calls and pauses, ends with the answer of its last call; the earlier
  -- ones were errors of a retried kind; a last one of that kind is returned after `max` pauses.
  pub record Ended (opens : ℕ → Attempt A) (max n : ℕ) (r : Stopped A) : Type 0 where
    pub last : ℕ
    pub calls : r.calls ≡ suc last
    pub pauses : r.pauses ≡ last
    pub after : n ≤ last
    pub bound : last ≤ max
    pub result : r.result ≡ opens last
    pub earlier : (i : ℕ) → n ≤ i → i < last → IsTransient (opens i)
    pub given_up : IsTransient (opens last) → last ≡ max

  final :
      (opens : ℕ → Attempt A) (max n : ℕ) (a : Attempt A)
      → opens n ≡ a
      → n ≤ max
      → (IsTransient a → n ≡ max)
      → Ended opens max n (record { result = a; calls = suc n; pauses = n })
  final opens max n a e h g = record {
    last = n;
    calls = refl;
    pauses = refl;
    after = omega arith;
    bound = h;
    result = sym e;
    earlier = λ i l u. absurd (omega arith);
    given_up = λ (k, q, t). g (k, sym e ∙ q, t);
  }

  earlier_one :
      (opens : ℕ → Attempt A) (n last : ℕ)
      → IsTransient (opens n)
      → ((i : ℕ) → suc n ≤ i → i < last → IsTransient (opens i))
      → (i : ℕ) → n ≤ i
      → i < last
      → IsTransient (opens i)
  earlier_one opens n last t h i l u = elim (Bool-cases (leb i n)) [
    | inl e ↦ (let same : i ≡ n = ground arith in rw same t)
    | inr e ↦ h i (ground arith) u
  ]

  -- One round, when the next ones end.
  after_open-Ended :
      (opens : ℕ → Attempt A) (max n : ℕ) (a : Attempt A) (again : ℕ → Option (Stopped A))
      → opens n ≡ a
      → Settles a
      → n ≤ max
      → (n < max → (r : Stopped A) × (again (suc n) ≡ some r) × Ended opens max (suc n) r)
      → (r : Stopped A) × (after_open max a (suc n) n again ≡ some r) × Ended opens max n r
  after_open-Ended opens max n (opened a) again e s h next =
      (_, refl, final opens max n _ e h (λ (k, q, t). absurd cc))
  after_open-Ended opens max n (refused (io k)) again e s h next = elim (Bool-cases (leb max n)) [
    | inl full ↦ (_, rw (s, full) refl, final opens max n _ e h (λ t. ground arith))
    | inr room ↦
        (let (r, eq, d) = next (ground arith) in
          (
            r,
            rw (s, room) eq,
            record {
              last = d.last;
              calls = d.calls;
              pauses = d.pauses;
              after = omega (arith, d.after);
              bound = d.bound;
              result = d.result;
              earlier = earlier_one opens n d.last (k, e, s) d.earlier;
              given_up = d.given_up;
            },
          ))
  ]
  after_open-Ended opens max n (refused (driver x)) again e s h next =
      (_, refl, final opens max n _ e h (λ (k, q, t). absurd cc))
  after_open-Ended opens max n (refused (connection x)) again e s h next =
      (_, refl, final opens max n _ e h (λ (k, q, t). absurd cc))
  after_open-Ended opens max n (refused (other x)) again e s h next =
      (_, refl, final opens max n _ e h (λ (k, q, t). absurd cc))
  after_open-Ended opens max n (refused (server x)) again e s h next =
      (_, refl, final opens max n _ e h (λ (k, q, t). absurd cc))
  after_open-Ended opens max n (refused (url x)) again e s h next =
      (_, refl, final opens max n _ e h (λ (k, q, t). absurd cc))
  after_open-Ended opens max n (refused (from_sql x)) again e s h next =
      (_, refl, final opens max n _ e h (λ (k, q, t). absurd cc))

  retry_open-from :
      (opens : ℕ → Attempt A) (max fuel n : ℕ)
      → ((i : ℕ) → Settles (opens i))
      → n + fuel ≡ max
      → (r : Stopped A) × (retry_open opens max (suc fuel) n n ≡ some r) × Ended opens max n r
  unfolding retry_open
  retry_open-from opens max zero n s e =
      after_open-Ended opens max n (opens n) _ refl (s n) (omega arith) (λ l. absurd (omega arith))
  retry_open-from opens max (suc fuel) n s e =
      after_open-Ended opens max n (opens n) _ refl (s n) (omega arith)
        (λ l. retry_open-from opens max fuel (suc n) s (omega arith))

  -- When every I/O error that connecting answers is a broken pipe or a refused connection, `retry_open`
  -- ends within `max_attempts + 1` calls. It returns the answer of the last call; all the earlier calls
  -- were refused with such an error, with a pause after each; and when the last one was too, then
  -- `max_attempts` pauses have been made.
  pub retry_open-Ended :
      (opens : ℕ → Attempt A) (max_attempts : ℕ)
      → ((i : ℕ) → Settles (opens i))
      → (r : Stopped A) × (retry_open opens max_attempts (suc max_attempts) 0 0 ≡ some r)
        × Ended opens max_attempts 0 r
  retry_open-Ended opens max_attempts s =
      retry_open-from opens max_attempts max_attempts 0 s (omega arith)

  -- When connecting answers an I/O error of a kind that is not retried from some call on, then a loop that gets to
  -- that call never ends and makes no further pause, whatever `max_attempts` is.
  pub retry_open_spins :
      (opens : ℕ → Attempt A) (kind : ℕ → ErrorKind) (max_attempts fuel n attempt : ℕ)
      → ((i : ℕ) → n ≤ i → opens i ≡ refused (io (kind i)))
      → ((i : ℕ) → n ≤ i → is_transient (kind i) ≡ false)
      → retry_open opens max_attempts fuel n attempt ≡ none
  unfolding retry_open
  retry_open_spins opens kind max_attempts zero n attempt e t = refl
  retry_open_spins opens kind max_attempts (suc fuel) n attempt e t =
      rw (e n (omega arith), t n (omega arith))
        (retry_open_spins opens kind max_attempts fuel (suc n) attempt (λ i h. e i (omega arith))
          (λ i h. t i (omega arith)))
