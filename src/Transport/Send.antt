-- ===== src/Transport/Send.antt =====
-- What `send` writes to the socket.
use clickhouse_rs.Prelude.{
  ℕ, zero, suc, ◌+◌, ◌-◌, min, ◌≡◌, refl, sym, ap, ◌∙◌, arith, ◌==◌, Bool-cases, inl, inr,
}
use clickhouse_rs.Prelude.{List, [], ◌∷◌, ◌++◌, length, take, drop, drop_nil, drop-drop, Bytes}
use clickhouse_rs.Errors.{Error}
use clickhouse_rs.Transport.{
  WriteEvent, not_writable, wrote, write_failed, Transport, ready, Result, ok, wr_rest, Sending,
  Loaded, loaded, idle, unpacked, load_command, load_next, before_flush, send,
}
use mathlib.Core.List.{append_assoc}

pub drop_none : (n : ℕ) (xs : Bytes) → length xs - n ≡ 0 → drop n xs ≡ []
drop_none zero [] h = refl
drop_none zero (x ∷ xs) h = absurd (omega arith)
drop_none (suc n) [] h = refl
drop_none (suc n) (x ∷ xs) h = drop_none n xs (omega arith)

pub take-min : (n : ℕ) (xs : Bytes) → take n xs ++ drop (min n (length xs)) xs ≡ xs
take-min zero xs = (let e : min 0 (length xs) ≡ 0 = omega arith in rw e refl)
take-min (suc n) [] = drop_nil (min (suc n) 0)
take-min (suc n) (x ∷ xs) =
    let e : min (suc n) (suc (length xs)) ≡ suc (min n (length xs)) = omega arith in
    rw e (ap (◌∷◌ x) (take-min n xs))

module _ {C : Type 0} (bytes : C → Bytes) where
  -- The commands as they are packed, one behind the other.
  abbrev pub packed : List C → Bytes
  packed [] = []
  packed (c ∷ cs) = bytes c ++ packed cs

module _ {Tz C : Type 0} (pack : C → Result Bytes Error) (bytes : C → Bytes) where
  -- The bytes that are still to be written.
  abbrev pub unsent : Transport Tz C → Bytes
  unsent t = wr_rest t ++ packed bytes t.cmds

  abbrev pub Sent : Bytes → Sending (Transport Tz C) → Type 0
  Sent all s = (s.sent ++ unsent s.left ≡ all) × (s.result ≡ ready (ok tt) → unsent s.left ≡ [])

  abbrev LoadedAll : Bytes → Loaded (Transport Tz C) → Type 0
  LoadedAll all (loaded t) = unsent t ≡ all
  LoadedAll all (idle t) = (unsent t ≡ all) × (unsent t ≡ [])
  LoadedAll all (unpacked e t) = ⊥

  flushed :
      (sent : Bytes) (n : ℕ) (u : Transport Tz C)
      → (sent ++ take n (wr_rest u))
          ++ unsent (record u { wr_pos = min n (length (wr_rest u)) + u.wr_pos })
        ≡ sent ++ unsent u
  flushed sent n u =
      let more : take n (wr_rest u) ++ drop (min n (length (wr_rest u)) + u.wr_pos) u.wr
          ≡ wr_rest u =
        ap (◌++◌ (take n (wr_rest u))) (sym (drop-drop (min n (length (wr_rest u))) u.wr_pos u.wr))
        ∙ take-min n (wr_rest u) in
      append_assoc sent (take n (wr_rest u)) _
      ∙ ap (◌++◌ sent) (
          sym (append_assoc (take n (wr_rest u)) _ (packed bytes u.cmds))
          ∙ ap (λ b. b ++ packed bytes u.cmds) more)

  load_command-All :
      (t : Transport Tz C) (cs : List C)
      → ((c : C) → pack c ≡ ok (bytes c))
      → t.cmds ≡ cs
      → wr_rest t ≡ []
      → LoadedAll (unsent t) (load_command pack t cs)
  load_command-All t [] h e r = (refl, rw (e, r) refl)
  load_command-All t (c ∷ cs) h e r = rw (h c, e, r) refl

  load_next-All :
      (t : Transport Tz C)
      → ((c : C) → pack c ≡ ok (bytes c))
      → LoadedAll (unsent t) (load_next pack t)
  unfolding load_next
  load_next-All t h = elim (Bool-cases (length t.wr - t.wr_pos == 0)) [
    | inl e ↦ rw e (load_command-All t t.cmds h refl (drop_none t.wr_pos t.wr (ground arith)))
    | inr e ↦ rw e refl
  ]

  before_flush-Sent :
      (l : Loaded (Transport Tz C)) (es : List WriteEvent) (sent rest all : Bytes)
      → (k : Transport Tz C → Sending (Transport Tz C)) → sent ++ rest ≡ all
      → LoadedAll rest l
      → ((u : Transport Tz C) → unsent u ≡ rest → Sent all (k u))
      → Sent all (before_flush pack l es sent k)
  before_flush-Sent (loaded t) es sent rest all k e l h = h t l
  before_flush-Sent (idle t) es sent rest all k e l h = (ap (◌++◌ sent) l.0 ∙ e, λ q. l.1)
  before_flush-Sent (unpacked x t) es sent rest all k e l h = absurd l

  -- When every command can be packed, `send` writes the rest of the buffer and then the queued commands,
  -- in order, each once: what it has written followed by what it leaves to be written is what there was to
  -- write, whatever the socket answers; and when it is ready nothing is left.
  pub send-Sent :
      (es : List WriteEvent) (sent : Bytes) (t : Transport Tz C)
      → ((c : C) → pack c ≡ ok (bytes c))
      → Sent (sent ++ unsent t) (send pack es sent t)
  unfolding send
  send-Sent [] sent t h =
      before_flush-Sent (load_next pack t) _ sent (unsent t) _ _ refl (load_next-All t h)
        λ u e. (ap (◌++◌ sent) e, λ q. absurd cc)
  send-Sent (not_writable ∷ es) sent t h =
      before_flush-Sent (load_next pack t) _ sent (unsent t) _ _ refl (load_next-All t h)
        λ u e. (ap (◌++◌ sent) e, λ q. absurd cc)
  send-Sent (write_failed k ∷ es) sent t h =
      before_flush-Sent (load_next pack t) _ sent (unsent t) _ _ refl (load_next-All t h)
        λ u e. (ap (◌++◌ sent) e, λ q. absurd cc)
  send-Sent (wrote n ∷ es) sent t h =
      before_flush-Sent (load_next pack t) _ sent (unsent t) _ _ refl (load_next-All t h) λ u e.
        let next =
          send-Sent es (sent ++ take n (wr_rest u))
            (record u { wr_pos = min n (length (wr_rest u)) + u.wr_pos }) h in
        let split : (sent ++ take n (wr_rest u))
              ++ unsent (record u { wr_pos = min n (length (wr_rest u)) + u.wr_pos })
            ≡ sent ++ unsent t =
          flushed sent n u ∙ ap (◌++◌ sent) e in
        (next.0 ∙ split, next.1)
