-- ===== src/Wire/Uvarint/Decode.antt =====
-- What `read_uvarint` accepts: the little-endian groups of seven bits of a u64, in ten bytes at most.
use clickhouse_rs.Prelude.{ℕ, zero, suc, ◌+◌, ◌*◌, ◌%◌, ◌^◌, ◌≤◌, ◌<◌, ◌≡◌, sym, ap, ◌∙◌, arith}
use clickhouse_rs.Prelude.{◌⊎◌, inl, inr, false, ltb, ◌≢◌}
use clickhouse_rs.Prelude.{[], ◌∷◌, ◌++◌, Bytes, length, length-append, IsU64}
use clickhouse_rs.Prelude.{bit_and, bit_or, All, IsByte}
use clickhouse_rs.Errors.{driver, overflow}
use clickhouse_rs.Wire.Outcome.{done, fail, Cursor, cursor_read}
use clickhouse_rs.Wire.ReadEx.{read_uvarint, uvarint_loop, shl64}
use clickhouse_rs.Wire.Reads.{uvarint_round, uvarint_dry}
use clickhouse_rs.Wire.Uvarint.Encode.{uvarint_last, uvarint_inner, next_bound, shift_next}
use native.Mathlib.Decide.{dec_lt}
use native.Mathlib.Nat.{pow-le-pow_right}

-- The number that the groups stand for: LEB128 without its length limit.
unfoldable pub value : Bytes → ℕ
value [] = 0
value (b ∷ bs) = b % 128 + 128 * value bs

-- All bytes but the last say that another follows.
abbrev pub Continues : Bytes → Type 0
Continues = All (λ b. 128 ≤ b)

-- A number of ten bytes whose last is above 1, or of more bytes, is refused once it is complete.
overflow_round :
    (f x s i b : ℕ) (r : Cursor)
    → b < 128
    → (9 < i) ⊎ ((i ≡ 9) × (1 < b))
    → uvarint_loop (suc f) x s i (b ∷ r) ≡ fail (driver overflow) r
overflow_round f x s i b r hb h = rw (uvarint_round f x s i b r) (ground arith)

uvarint_loop_overflow :
    (front : Bytes) (f x s i b : ℕ) (r : Cursor)
    → Continues front
    → b < 128
    → length front + 1 < f
    → (9 < length front + i) ⊎ ((length front + i ≡ 9) × (1 < b))
    → uvarint_loop f x s i (front ++ b ∷ r) ≡ fail (driver overflow) r
uvarint_loop_overflow front zero x s i b r c hb hf h = absurd (omega arith)
uvarint_loop_overflow [] (suc f) x s i b r c hb hf h = overflow_round f x s i b r hb (omega arith)
uvarint_loop_overflow (a ∷ front) (suc f) x s i b r c hb hf h =
    let large : ltb a 0x80 ≡ false = ground (arith, c.0) in
    rw (uvarint_round f x s i a (front ++ b ∷ r), large)
      (uvarint_loop_overflow front f (bit_or x (shl64 (bit_and a 0x7f) s)) ((s + 7) % 2 ^ 32)
        (i + 1) b r c.1 hb (omega arith) (omega arith))

-- With shifts that count modulo 64, as in a release build: whatever the groups are, an integer of more
-- than ten bytes, or of ten with a last byte above 1, is answered by `Overflow`, and it is consumed whole.
pub read_uvarint_overflow :
    (front : Bytes) (b : ℕ) (r : Cursor)
    → Continues front
    → b < 128
    → (9 < length front) ⊎ ((length front ≡ 9) × (1 < b))
    → read_uvarint (front ++ b ∷ r) ≡ fail (driver overflow) r
unfolding read_uvarint
read_uvarint_overflow front b r c hb h =
    uvarint_loop_overflow front (suc (length (front ++ b ∷ r))) 0 0 0 b r c hb
      (omega (arith, length-append front (b ∷ r))) (omega arith)

-- Behind ten bytes nothing is accepted.
long_refused : (f x s i v : ℕ) (c r : Cursor) → 9 < i → uvarint_loop f x s i c ≢ done v r
long_refused zero x s i v c r h e = unfold uvarint_loop in cc
long_refused (suc f) x s i v [] r h e = cc (uvarint_dry f x s i)
long_refused (suc f) x s i v (b ∷ c) r h e = elim (dec_lt b 128) [
  | yes small ↦ cc (overflow_round f x s i b c small (inl h))
  | no large ↦ ground (
    arith,
    uvarint_round f x s i b c,
    long_refused f (bit_or x (shl64 (bit_and b 0x7f) s)) ((s + 7) % 2 ^ 32) (i + 1) v c r,
  )
]

early_bound : (i : ℕ) → i ≤ 8 → 2 ^ (7 * (i + 1)) ≤ 2 ^ 63
early_bound i h = pow-le-pow_right {n = 2} (omega arith) {i = 7 * (i + 1)} {j = 63} (omega arith)

fits_word :
    (x b i : ℕ)
    → b < 128
    → x < 2 ^ (7 * i)
    → (i ≤ 8) ⊎ ((i ≡ 9) × (b ≤ 1))
    → x + b * 2 ^ (7 * i) < 2 ^ 64
fits_word x b i hb hx (inl h) = omega (arith, next_bound x b i hb hx, early_bound i h)
fits_word x b i hb hx (inr (e, h)) =
    omega (arith, ap (λ (t : ℕ). 2 ^ (7 * t)) e, ap (λ (t : ℕ). b * 2 ^ (7 * t)) e)

-- The bytes `front` were read, in front of `r`; behind `i` others they make `v` of `x`.
abbrev Decodes : (s : Cursor) (x i v : ℕ) (r : Cursor) → Type 0
Decodes s x i v r =
    (front : Bytes) × (s ≡ front ++ r)
    × (v ≡ x + value front * 2 ^ (7 * i))
    × IsU64 v
    × (1 ≤ length front)
    × (length front + i ≤ 10)

last_Decodes :
    (f x i b : ℕ) (s : Cursor) (v : ℕ) (r : Cursor)
    → b < 128
    → x < 2 ^ (7 * i)
    → (i ≤ 8) ⊎ ((i ≡ 9) × (b ≤ 1))
    → uvarint_loop (suc f) x (7 * i) i (b ∷ s) ≡ done v r
    → Decodes (b ∷ s) x i v r
unfolding value
last_Decodes f x i b s v r hb hx hi e =
    let fits = fits_word x b i hb hx hi in
    let q : done (x + b * 2 ^ (7 * i)) s ≡ done v r =
      sym (uvarint_last f x i b s hb (omega arith) hx fits) ∙ e in
    let eb : b % 128 + 128 * 0 ≡ b = omega arith in
    let ev : v ≡ x + b * 2 ^ (7 * i) = cc in
    (b ∷ [], cc, rw eb ev, omega arith, omega arith, omega arith)

inner_Decodes :
    (x i b : ℕ) (s : Cursor) (v : ℕ) (r : Cursor)
    → Decodes s (x + b % 128 * 2 ^ (7 * i)) (i + 1) v r
    → Decodes (b ∷ s) x i v r
unfolding value
inner_Decodes x i b s v r (front, e, ev, hv, lo, hi) = (
  b ∷ front,
  ap (◌∷◌ b) e,
  omega (arith, ev, ap (λ (t : ℕ). value front * t) (shift_next i)),
  hv,
  omega arith,
  omega arith,
)

uvarint_loop-Decodes :
    (f x i : ℕ) (s : Cursor) (v : ℕ) (r : Cursor)
    → All IsByte s
    → i ≤ 9
    → x < 2 ^ (7 * i)
    → uvarint_loop f x (7 * i) i s ≡ done v r
    → Decodes s x i v r
uvarint_loop-Decodes zero x i s v r hs hi hx e = absurd (unfold uvarint_loop in cc)
uvarint_loop-Decodes (suc f) x i [] v r hs hi hx e = absurd (cc (uvarint_dry f x (7 * i) i))
uvarint_loop-Decodes (suc f) x i (b ∷ s) v r hs hi hx e = elim (dec_lt b 128) [
  | yes small ↦ elim (dec_lt i 9) [
    | yes h ↦ last_Decodes f x i b s v r small hx (inl (omega arith)) e
    | no h ↦ elim (dec_lt 1 b) [
      | yes big ↦ absurd (cc (overflow_round f x (7 * i) i b s small (inr (omega arith, big))))
      | no low ↦ last_Decodes f x i b s v r small hx (inr (omega arith, omega arith)) e
    ]
  ]
  | no large ↦ elim (dec_lt i 9) [
    | yes h ↦
        let next = next_bound x (b % 128) i (omega arith) hx in
        let q =
          uvarint_inner f x i b s (omega arith) hs.0 hi hx
            (omega (arith, next, early_bound i (omega arith))) in
        inner_Decodes x i b s v r (
          uvarint_loop-Decodes f (x + b % 128 * 2 ^ (7 * i)) (i + 1) s v r hs.1 (omega arith) next
            (sym q ∙ e))
    | no h ↦ absurd (
        ground (
          arith,
          uvarint_round f x (7 * i) i b s,
          long_refused f (bit_or x (shl64 (bit_and b 0x7f) (7 * i))) ((7 * i + 7) % 2 ^ 32) (i + 1)
              v s r,
        ))
  ]
]

-- On a cursor of bytes, what `read_uvarint` accepts is a prefix of one to ten bytes, and the result is
-- the number that its groups stand for, which is a u64.
pub read_uvarint_sound :
    (s : Cursor) (v : ℕ) (r : Cursor)
    → All IsByte s
    → read_uvarint s ≡ done v r
    → (front : Bytes) × (s ≡ front ++ r)
      × (v ≡ value front)
      × IsU64 v
      × (1 ≤ length front)
      × (length front ≤ 10)
unfolding read_uvarint
read_uvarint_sound s v r hs e =
    let (front, q, ev, hv, lo, hi) =
      uvarint_loop-Decodes (suc (length s)) 0 0 s v r hs (omega arith) (omega arith) e in
    (front, q, omega (arith, ev), hv, lo, omega arith)
