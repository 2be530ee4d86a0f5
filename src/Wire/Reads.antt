-- ===== src/Wire/Reads.antt =====
-- Every read of ReadEx is incremental over a cursor.
use clickhouse_rs.Prelude.{ℕ, zero, suc, ◌+◌, ◌%◌, ◌^◌, ◌<◌, ◌≡◌, refl, sym, ap, arith}
use clickhouse_rs.Prelude.{◌⊎◌, inl, inr, Bool, true, false, ltb, ◌==◌, ◌&&◌, ◌||◌, if◌then◌else◌}
use clickhouse_rs.Prelude.{
  List, [], ◌∷◌, ◌++◌, Bytes, length, take, drop, length-append, Bool-cases,
}
use clickhouse_rs.Prelude.{take-append_le, drop-append_le, bit_and, bit_or}
use clickhouse_rs.Errors.{io, driver, other, would_block, overflow, from_utf8_error}
use clickhouse_rs.Wire.Outcome.{Outcome, done, fail, stuck, M, Cursor, cursor_read, then_do, pure}
use clickhouse_rs.Wire.Scalar.{Scalar}
use clickhouse_rs.Wire.ReadEx.{
  read_loop, read_bytes, read_scalar, read_uvarint, uvarint_loop, allocated, isize_max, read_string,
  skip_string, shl64,
}
use clickhouse_rs.Wire.Cursor.{read_bytes_all, read_bytes_short, read_u8}
use clickhouse_rs.Wire.Incremental.{
  extend, Waits, Leaves, Incremental, pure-Incremental, throw-Incremental, panics-Incremental,
  if-Incremental, >>=-Incremental,
}
use native.Mathlib.Decide.{dec_le}
use mathlib.Core.List.{append-nil}

take-append-drop : {A : Type 0} (n : ℕ) (xs : List A) → xs ≡ take n xs ++ drop n xs
take-append-drop zero xs = refl
take-append-drop (suc n) [] = refl
take-append-drop (suc n) (x ∷ xs) = ap (◌∷◌ x) (take-append-drop n xs)

pub read_bytes-Incremental : (n : ℕ) → Incremental (read_bytes {S = Cursor} n)
read_bytes-Incremental n = record {
  stable = λ s t. elim (dec_le n (length s)) [
    | yes h ↦ inr (
        rw
          (
            read_bytes_all n s h,
            read_bytes_all n (s ++ t) (omega (arith, length-append s t)),
            take-append_le n s t h,
            drop-append_le n s t h,
          )
          refl)
    | no h ↦ inl ([], read_bytes_short n s (omega arith))
  ];
  leaves = λ s. elim (dec_le n (length s)) [
    | yes h ↦ rw (read_bytes_all n s h) (take n s, take-append-drop n s)
    | no h ↦ rw (read_bytes_short n s (omega arith)) (s, sym (append-nil s))
  ];
}

pub read_scalar-Incremental : {V : Type 0} (c : Scalar V) → Incremental (read_scalar {S = Cursor} c)
unfolding read_scalar
read_scalar-Incremental c =
    >>=-Incremental (read_bytes c.width) (λ bs. pure (c.unmarshal bs))
      (read_bytes-Incremental c.width) (λ bs. pure-Incremental (c.unmarshal bs))

-- What a round of `uvarint_loop` does with the byte that it has read.
abbrev on_byte : (b x s i : ℕ) → Outcome Cursor ℕ → Cursor → Outcome Cursor ℕ
on_byte b x s i more r =
    if ltb b 0x80
    then (if ltb 9 i || i == 9 && ltb 1 b
        then fail (driver overflow) r
        else done (bit_or x (shl64 b s)) r)
    else more

-- A conditional between two readers, run on a state.
pub if_apply :
    {S A : Type 0} (b : Bool) (m k : M S A) (s : S)
    → (if b then m else k) s ≡ (if b then m s else k s)
if_apply true m k s = refl
if_apply false m k s = refl

pub uvarint_round :
    (f x s i b : ℕ) (r : Cursor)
    → uvarint_loop {S = Cursor} (suc f) x s i (b ∷ r)
      ≡ on_byte b x s i
          (uvarint_loop f (bit_or x (shl64 (bit_and b 0x7f) s)) ((s + 7) % 2 ^ 32) (i + 1) r)
          r
unfolding uvarint_loop
uvarint_round f x s i b r = rw (read_u8 b r) (simp if_apply)

pub uvarint_dry :
    (f x s i : ℕ) → uvarint_loop {S = Cursor} (suc f) x s i [] ≡ fail (io would_block) []
unfolding uvarint_loop read_scalar read_bytes read_loop
uvarint_dry f x s i = refl

on_byte-stable :
    (b x s i : ℕ) (o o' : Outcome Cursor ℕ) (r t : Cursor)
    → Waits o ⊎ (o' ≡ extend t o)
    → Waits (on_byte b x s i o r) ⊎ (on_byte b x s i o' (r ++ t) ≡ extend t (on_byte b x s i o r))
on_byte-stable b x s i o o' r t h = elim (Bool-cases (ltb b 0x80)) [
  | inl small ↦ rw small (inr (ground arith))
  | inr large ↦ rw large h
]

-- Enough fuel is one more than the bytes there are; how much more does not matter.
uvarint_loop-stable :
    (r t : Cursor) (f g x s i : ℕ)
    → length r < f
    → length (r ++ t) < g
    → Waits (uvarint_loop f x s i r)
      ⊎ (uvarint_loop g x s i (r ++ t) ≡ extend t (uvarint_loop f x s i r))
uvarint_loop-stable r t zero g x s i hf hg = absurd (omega arith)
uvarint_loop-stable r t f zero x s i hf hg = absurd (omega arith)
uvarint_loop-stable [] t (suc f) (suc g) x s i hf hg = inl ([], uvarint_dry f x s i)
uvarint_loop-stable (b ∷ r) t (suc f) (suc g) x s i hf hg =
    rw (uvarint_round f x s i b r, uvarint_round g x s i b (r ++ t))
      (on_byte-stable b x s i _ _ r t (
        uvarint_loop-stable r t f g (bit_or x (shl64 (bit_and b 0x7f) s)) ((s + 7) % 2 ^ 32) (i + 1)
          (omega arith) (omega arith)))

take_byte : (b : ℕ) (r : Cursor) (o : Outcome Cursor ℕ) → Leaves r o → Leaves (b ∷ r) o
take_byte b r (done a u) (front, e) = (b ∷ front, ap (◌∷◌ b) e)
take_byte b r (fail x u) (front, e) = (b ∷ front, ap (◌∷◌ b) e)
take_byte b r stuck h = h

uvarint_loop-Leaves : (r : Cursor) (f x s i : ℕ) → length r < f → Leaves r (uvarint_loop f x s i r)
uvarint_loop-Leaves r zero x s i h = absurd (omega arith)
uvarint_loop-Leaves [] (suc f) x s i h = rw (uvarint_dry f x s i) ([], refl)
uvarint_loop-Leaves (b ∷ r) (suc f) x s i h =
    let ih =
      uvarint_loop-Leaves r f (bit_or x (shl64 (bit_and b 0x7f) s)) ((s + 7) % 2 ^ 32) (i + 1)
        (omega arith) in
    rw (uvarint_round f x s i b r) (elim (Bool-cases (ltb b 0x80)) [
      | inl small ↦ rw small (elim (Bool-cases (ltb 9 i || i == 9 && ltb 1 b)) [
        | inl long ↦ rw long (b ∷ [], refl)
        | inr short ↦ rw short (b ∷ [], refl)
      ])
      | inr large ↦ rw large (take_byte b r _ ih)
    ])

pub read_uvarint-Incremental : Incremental (read_uvarint {S = Cursor})
unfolding read_uvarint
read_uvarint-Incremental = record {
  stable = λ s t.
      uvarint_loop-stable s t (suc (length s)) (suc (length (s ++ t))) 0 0 0 (omega arith)
        (omega arith);
  leaves = λ s. uvarint_loop-Leaves s (suc (length s)) 0 0 0 (omega arith);
}

allocated-Incremental :
    {A : Type 0} (n : ℕ) (m : M Cursor A) → Incremental m → Incremental (allocated n m)
allocated-Incremental n m h = if-Incremental (ltb isize_max n) _ _ panics-Incremental h

pub read_string-Incremental :
    (is_utf8 : Bytes → Bool) → Incremental (read_string {S = Cursor} is_utf8)
unfolding read_string
read_string-Incremental is_utf8 = >>=-Incremental read_uvarint _ read_uvarint-Incremental λ n.
    >>=-Incremental (allocated n (read_bytes n)) _
      (allocated-Incremental n _ (read_bytes-Incremental n))
      λ bs.
        if-Incremental (is_utf8 bs) _ _ (pure-Incremental bs)
          (throw-Incremental (other from_utf8_error))

pub skip_string-Incremental : Incremental (skip_string {S = Cursor})
unfolding skip_string
skip_string-Incremental =
    >>=-Incremental read_uvarint _ read_uvarint-Incremental
      λ n. if-Incremental _ _ _ (dropped n) (allocated-Incremental n _ (dropped n))
  where
    dropped : (n : ℕ) → Incremental (λ s. then_do (read_bytes {S = Cursor} n s) (λ bs. pure tt))
    dropped n =
        >>=-Incremental (read_bytes n) (λ bs. pure tt) (read_bytes-Incremental n)
          (λ bs. pure-Incremental tt)

uvarint_loop_spends :
    (c : Cursor) (f x s i v : ℕ) (r : Cursor)
    → uvarint_loop f x s i c ≡ done v r
    → length r < length c
uvarint_loop_spends c zero x s i v r e = absurd (unfold uvarint_loop in cc)
uvarint_loop_spends [] (suc f) x s i v r e = absurd (cc (uvarint_dry f x s i))
uvarint_loop_spends (b ∷ c) (suc f) x s i v r e = ground (
  arith,
  uvarint_round f x s i b c,
  uvarint_loop_spends c f (bit_or x (shl64 (bit_and b 0x7f) s)) ((s + 7) % 2 ^ 32) (i + 1) v r,
)

-- An integer takes a byte at least.
pub read_uvarint_spends :
    (c : Cursor) (v : ℕ) (r : Cursor) → read_uvarint c ≡ done v r → length r < length c
unfolding read_uvarint
read_uvarint_spends c v r e = uvarint_loop_spends c (suc (length c)) 0 0 0 v r e
