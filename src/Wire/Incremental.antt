-- ===== src/Wire/Incremental.antt =====
-- Reading from a buffer that grows. The transport parses what has arrived and tries again when more
-- has come, so a reader must not change its mind: on a prefix of its input it either asks for more,
-- by a `WouldBlock` error, or it answers as on the whole; if it panics, it panics on the whole too.
use clickhouse_rs.Prelude.{◌≡◌, refl, sym, ap, ◌∙◌, ◌⊎◌, inl, inr, [], ◌++◌, Bytes, arith}
use clickhouse_rs.Prelude.{Bool, true, false, if◌then◌else◌, ◌≤◌, length, length-append}
use clickhouse_rs.Errors.{Error, io, would_block}
use clickhouse_rs.Wire.Outcome.{
  Outcome, done, fail, stuck, M, Cursor, then_do, ◌>>=◌, pure, throw, panics,
}
use mathlib.Core.List.{append_assoc}
use mathlib.Core.Path.{subst}

module _ {A : Type 0} where
  -- The same answer, with `t` left behind what was left.
  abbrev pub extend : Cursor → Outcome Cursor A → Outcome Cursor A
  extend t (done a s) = done a (s ++ t)
  extend t (fail e s) = fail e (s ++ t)
  extend t stuck = stuck

  abbrev pub Waits : Outcome Cursor A → Type 0
  Waits o = (r : Cursor) × (o ≡ fail (io would_block) r)

  -- What an outcome leaves unread is a suffix of the input; a panic leaves nothing.
  abbrev pub Leaves : Cursor → Outcome Cursor A → Type 0
  Leaves s (done a r) = (front : Bytes) × (s ≡ front ++ r)
  Leaves s (fail e r) = (front : Bytes) × (s ≡ front ++ r)
  Leaves s stuck = Unit {0}

  pub record Incremental (m : M Cursor A) : Type 0 where
    pub stable : (s t : Cursor) → Waits (m s) ⊎ (m (s ++ t) ≡ extend t (m s))
    pub leaves : (s : Cursor) → Leaves s (m s)

  pub pure-Incremental : (a : A) → Incremental (pure a)
  pure-Incremental a = record { stable = λ s t. inr refl; leaves = λ s. ([], refl) }

  pub throw-Incremental : (e : Error) → Incremental (throw {A = A} e)
  throw-Incremental e = record { stable = λ s t. inr refl; leaves = λ s. ([], refl) }

  pub panics-Incremental : Incremental (panics {A = A})
  panics-Incremental = record { stable = λ s t. inr refl; leaves = λ s. tt }

  pub if-Incremental :
      (b : Bool) (m k : M Cursor A)
      → Incremental m
      → Incremental k
      → Incremental (if b then m else k)
  if-Incremental true m k hm hk = hm
  if-Incremental false m k hm hk = hk

Leaves-trans :
    {A : Type 0} (o : Outcome Cursor A) (s front r : Cursor)
    → s ≡ front ++ r
    → Leaves r o
    → Leaves s o
Leaves-trans (done a u) s front r e (g, h) =
    (front ++ g, e ∙ ap (◌++◌ front) h ∙ sym (append_assoc front g u))
Leaves-trans (fail x u) s front r e (g, h) =
    (front ++ g, e ∙ ap (◌++◌ front) h ∙ sym (append_assoc front g u))
Leaves-trans stuck s front r e h = h

module _ {A B : Type 0} (m : M Cursor A) (f : A → M Cursor B) where
  stable_then :
      (o o' : Outcome Cursor A) (t : Cursor)
      → ((a : A) → Incremental (f a))
      → Waits o ⊎ (o' ≡ extend t o)
      → Waits (then_do o f) ⊎ (then_do o' f ≡ extend t (then_do o f))
  stable_then o o' t hf (inl (r, e)) = inl (r, ap (λ p. then_do p f) e)
  stable_then (done a s) o' t hf (inr e) = elim ((hf a).stable s t) [
    | inl w ↦ inl w
    | inr k ↦ inr (ap (λ p. then_do p f) e ∙ k)
  ]
  stable_then (fail x s) o' t hf (inr e) = inr (ap (λ p. then_do p f) e)
  stable_then stuck o' t hf (inr e) = inr (ap (λ p. then_do p f) e)

  Leaves-then :
      (o : Outcome Cursor A) (s : Cursor)
      → ((a : A) → Incremental (f a))
      → Leaves s o
      → Leaves s (then_do o f)
  Leaves-then (done a r) s hf (front, e) = Leaves-trans (f a r) s front r e ((hf a).leaves r)
  Leaves-then (fail x r) s hf h = h
  Leaves-then stuck s hf h = tt

  -- Sequencing keeps the property.
  pub >>=-Incremental : Incremental m → ((a : A) → Incremental (f a)) → Incremental (m >>= f)
  >>=-Incremental hm hf = record {
    stable = λ s t. stable_then (m s) (m (s ++ t)) t hf (hm.stable s t);
    leaves = λ s. Leaves-then (m s) s hf (hm.leaves s);
  }

-- The same property of two readers, of which the second sees the whole input. Loops on fuel need it,
-- since the fuel depends on the input.
abbrev pub Agrees : {A : Type 0} → M Cursor A → M Cursor A → Cursor → Cursor → Type 0
Agrees m m' s t = Waits (m s) ⊎ (m' (s ++ t) ≡ extend t (m s))

module _ {A B : Type 0} (m : M Cursor A) (f f' : A → M Cursor B) (s t : Cursor) where
  Agrees-then :
      (o o' : Outcome Cursor A)
      → m s ≡ o
      → Waits o ⊎ (o' ≡ extend t o)
      → ((a : A) (r : Cursor) → m s ≡ done a r → Agrees (f a) (f' a) r t)
      → Waits (then_do o f) ⊎ (then_do o' f' ≡ extend t (then_do o f))
  Agrees-then o o' eo (inl (r, e)) next = inl (r, ap (λ p. then_do p f) e)
  Agrees-then (done a r) o' eo (inr e) next = elim (next a r eo) [
    | inl w ↦ inl w
    | inr k ↦ inr (ap (λ p. then_do p f') e ∙ k)
  ]
  Agrees-then (fail x r) o' eo (inr e) next = inr (ap (λ p. then_do p f') e)
  Agrees-then stuck o' eo (inr e) next = inr (ap (λ p. then_do p f') e)

  pub >>=-Agrees :
      Incremental m
      → ((a : A) (r : Cursor) → m s ≡ done a r → Agrees (f a) (f' a) r t)
      → Agrees (m >>= f) (m >>= f') s t
  >>=-Agrees h next = Agrees-then (m s) (m (s ++ t)) refl (h.stable s t) next

-- What is left is no longer than the input.
pub Incremental-length :
    {A : Type 0} {m : M Cursor A} (s : Cursor) (a : A) (r : Cursor)
    → Incremental m
    → m s ≡ done a r
    → length r ≤ length s
Incremental-length {A} {m} s a r h e =
    let (front, q) = subst (Leaves s) e (h.leaves s) in
    omega (arith, ap length q, length-append front r)

module _ {A B : Type 0} (m : M Cursor A) (f : A → M Cursor B) (s : Cursor) where
  Leaves-from :
      (o : Outcome Cursor A)
      → m s ≡ o
      → Leaves s o
      → ((a : A) (r : Cursor) → m s ≡ done a r → Leaves r (f a r))
      → Leaves s (then_do o f)
  Leaves-from (done a r) eo (front, e) next = Leaves-trans (f a r) s front r e (next a r eo)
  Leaves-from (fail x r) eo h next = h
  Leaves-from stuck eo h next = tt

  pub >>=-Leaves :
      Incremental m
      → ((a : A) (r : Cursor) → m s ≡ done a r → Leaves r (f a r))
      → Leaves s ((m >>= f) s)
  >>=-Leaves h next = Leaves-from (m s) refl (h.leaves s) next

-- The second reader need be incremental only at the values that the first can give.
pub >>=-Incremental_on :
    {A B : Type 0} (m : M Cursor A) (f : A → M Cursor B) (P : A → Type 0)
    → Incremental m
    → ((s : Cursor) (a : A) (r : Cursor) → m s ≡ done a r → P a)
    → ((a : A) → P a → Incremental (f a))
    → Incremental (m >>= f)
>>=-Incremental_on m f P hm hp hf = record {
  stable = λ s t. >>=-Agrees m f f s t hm (λ a r e. (hf a (hp s a r e)).stable r t);
  leaves = λ s. >>=-Leaves m f s hm (λ a r e. (hf a (hp s a r e)).leaves r);
}
