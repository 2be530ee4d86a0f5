-- ===== src/Wire/Total.antt =====
-- No read runs out of fuel, over any reader that has finitely many bytes to give.
use clickhouse_rs.Prelude.{
  ℕ, zero, suc, ◌+◌, ◌-◌, ◌%◌, ◌^◌, ◌≤◌, ◌<◌, ◌≡◌, ◌≢◌, refl, ap, arith, inl, inr,
}
use clickhouse_rs.Prelude.{
  [], ◌∷◌, ◌++◌, Bytes, length, length-append, take, drop, length-take, length-drop,
}
use clickhouse_rs.Prelude.{ltb, ◌==◌, ◌&&◌, ◌||◌, Bool-cases, bit_or, bit_and}
use clickhouse_rs.Wire.Outcome.{
  Outcome, done, fail, stuck, M, Read, Lawful, Cursor, cursor_read, then_do, pure,
}
use clickhouse_rs.Wire.Scalar.{Scalar, u8}
use clickhouse_rs.Wire.ReadEx.{
  gather, read_loop, read_bytes, read_scalar, read_uvarint, uvarint_loop, shl64,
}
use mathlib.Core.Path.{subst}

-- `io::Cursor` is such a reader.
pub cursor-Lawful : Lawful Cursor cursor_read
cursor-Lawful = record {
  fits = λ n s bs s' e. let q : take n s ≡ bs = cc in omega (arith, length-take n s, ap length q);
  spends = λ n s bs s' e.
      let q : take n s ≡ bs = cc in
      let t : drop n s ≡ s' = cc in
      omega (arith, length-take n s, length-drop n s, ap length q, ap length t);
  answers = λ n s e. cc;
}

module _ {S : Type 0} (r : Read S) (law : Lawful S r) where
  -- A read of `n` bytes ends, and if it succeeds it gives `n` bytes and has spent them.
  abbrev Reads : ℕ → S → Outcome S Bytes → Type 0
  Reads n s (done bs s') = (length bs ≡ n) × (n + r.budget s' ≤ r.budget s)
  Reads n s (fail e s') = Unit {0}
  Reads n s stuck = ⊥

  join_Reads :
      (k : ℕ) (bs : Bytes) (s s' : S) (o : Outcome S Bytes)
      → length bs + r.budget s' ≤ r.budget s
      → Reads k s' o
      → Reads (length bs + k) s (then_do o (λ more. pure (bs ++ more)))
  join_Reads k bs s s' (done more u) h (e, b) = (omega (arith, length-append bs more), omega arith)
  join_Reads k bs s s' (fail x u) h hr = tt
  join_Reads k bs s s' stuck h hr = hr

  chunk_Reads :
      (need fuel : ℕ) (s : S) (o : Outcome S Bytes)
      → need ≤ fuel
      → r.read_some (suc need) s ≡ o
      → ((k : ℕ) (s' : S) → k ≤ fuel → Reads k s' (read_loop ⦃r = r⦄ k fuel s'))
      → Reads
          (suc need)
          s
          (then_do o (λ bs. gather bs (read_loop ⦃r = r⦄ (suc need - length bs) fuel)))
  chunk_Reads need fuel s (done [] s') h e ih = tt
  chunk_Reads need fuel s (done (b ∷ bs) s') h e ih =
      let fit = law.fits (suc need) s (b ∷ bs) s' e in
      let k : ℕ = suc need - length (b ∷ bs) in
      let whole : length (b ∷ bs) + k ≡ suc need = omega arith in
      subst
        (λ n. Reads n s (then_do (read_loop ⦃r = r⦄ k fuel s') (λ more. pure ((b ∷ bs) ++ more))))
        whole
        (join_Reads k (b ∷ bs) s s' (read_loop ⦃r = r⦄ k fuel s')
          (law.spends (suc need) s (b ∷ bs) s' e) (ih k s' (omega arith)))
  chunk_Reads need fuel s (fail x s') h e ih = tt
  chunk_Reads need fuel s stuck h e ih = law.answers (suc need) s e

  read_loop-Reads :
      (need fuel : ℕ) (s : S) → need ≤ fuel → Reads need s (read_loop ⦃r = r⦄ need fuel s)
  unfolding read_loop
  read_loop-Reads zero fuel s h = (refl, omega arith)
  read_loop-Reads (suc need) zero s h = absurd (omega arith)
  read_loop-Reads (suc need) (suc fuel) s h =
      chunk_Reads need fuel s (r.read_some (suc need) s) (omega arith) refl
        (λ k s' hk. read_loop-Reads k fuel s' hk)

  -- `read_bytes` ends on every reader: with an error, or with exactly the bytes that were asked for.
  pub read_bytes-Reads : (n : ℕ) (s : S) → Reads n s (read_bytes ⦃r = r⦄ n s)
  unfolding read_bytes
  read_bytes-Reads n s = read_loop-Reads n n s (omega arith)

  abbrev Ends : {V : Type 0} → ℕ → S → Outcome S V → Type 0
  Ends n s (done v s') = n + r.budget s' ≤ r.budget s
  Ends n s (fail e s') = Unit {0}
  Ends n s stuck = ⊥

  pub read_scalar_total :
      {V : Type 0} (c : Scalar V) (s : S) → Ends c.width s (read_scalar ⦃r = r⦄ c s)
  unfolding read_scalar
  read_scalar_total c s = ends (read_bytes ⦃r = r⦄ c.width s) (read_bytes-Reads c.width s)
    where
      ends :
          (o : Outcome S Bytes)
          → Reads c.width s o
          → Ends c.width s (then_do o (λ bs. pure (c.unmarshal bs)))
      ends (done bs s') h = h.1
      ends (fail e s') h = tt
      ends stuck h = h

  then-Ends :
      (n : ℕ) (c : S) (o : Outcome S ℕ) (k : ℕ → M S ℕ)
      → Ends n c o
      → ((b : ℕ) (c' : S) → n + r.budget c' ≤ r.budget c → k b c' ≢ stuck)
      → then_do o k ≢ stuck
  then-Ends n c (done b c') k h next = next b c' h
  then-Ends n c (fail e c') k h next = λ q. cc
  then-Ends n c stuck k h next = absurd h

  uvarint_loop_total :
      (f x s i : ℕ) (c : S) → r.budget c < f → uvarint_loop ⦃r = r⦄ f x s i c ≢ stuck
  unfolding uvarint_loop
  uvarint_loop_total zero x s i c h = absurd (omega arith)
  uvarint_loop_total (suc f) x s i c h =
      then-Ends 1 c (read_scalar ⦃r = r⦄ u8 c) _ (read_scalar_total u8 c) λ b c' hb.
        let rest =
          uvarint_loop_total f (bit_or x (shl64 (bit_and b 0x7f) s)) ((s + 7) % 2 ^ 32) (i + 1) c'
            (omega arith) in
        elim (Bool-cases (ltb b 0x80)) [
          | inl small ↦ rw small (elim (Bool-cases (ltb 9 i || i == 9 && ltb 1 b)) [
            | inl long ↦ rw long (λ q. cc)
            | inr short ↦ rw short (λ q. cc)
          ])
          | inr large ↦ rw large rest
        ]

  -- `read_uvarint` ends, and does not panic, on every reader that gives no more bytes than are asked for, has
  -- finitely many bytes to give and does not panic itself, whatever bytes and errors it gives: the fuel, one
  -- more than the number of those bytes, is enough. Shifts are those of a release build.
  pub read_uvarint_total : (c : S) → read_uvarint ⦃r = r⦄ c ≢ stuck
  unfolding read_uvarint
  read_uvarint_total c = uvarint_loop_total (suc (r.budget c)) 0 0 0 c (omega arith)
