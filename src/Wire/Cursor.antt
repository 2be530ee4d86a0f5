-- ===== src/Wire/Cursor.antt =====
-- The reads of ReadEx over a cursor: `io::Cursor` answers all that it has.
use clickhouse_rs.Prelude.{ℕ, zero, suc, ◌-◌, ◌≤◌, ◌<◌, ◌≡◌, refl, ap, arith}
use clickhouse_rs.Prelude.{[], ◌∷◌, ◌++◌, Bytes, length, take, drop, length-take, length-append}
use clickhouse_rs.Prelude.{take-append, drop-append}
use clickhouse_rs.Errors.{io, would_block}
use clickhouse_rs.Wire.Outcome.{done, fail, Cursor, cursor_read, then_do, pure}
use clickhouse_rs.Wire.Scalar.{u8, from_le_bytes}
use clickhouse_rs.Wire.ReadEx.{read_loop, read_bytes, read_scalar}
use mathlib.Core.List.{append-nil}

pub read_bytes_all :
    (n : ℕ) (s : Cursor) → n ≤ length s → read_bytes n s ≡ done (take n s) (drop n s)
unfolding read_bytes read_loop
read_bytes_all zero s h = refl
read_bytes_all (suc n) [] h = absurd (omega arith)
read_bytes_all (suc n) (b ∷ s) h =
    let e : suc n - suc (length (take n s)) ≡ 0 = omega (arith, length-take n s) in
    rw e (ap (λ t. done (b ∷ t) (drop n s)) (append-nil (take n s)))

loop_empty :
    (need fuel : ℕ)
    → 0 < need
    → 0 < fuel
    → read_loop {S = Cursor} need fuel [] ≡ fail (io would_block) []
unfolding read_loop
loop_empty zero fuel h k = absurd (omega arith)
loop_empty (suc need) zero h k = absurd (omega arith)
loop_empty (suc need) (suc fuel) h k = refl

drop_all : (n : ℕ) (s : Cursor) → length s ≤ n → drop n s ≡ []
drop_all zero [] h = refl
drop_all zero (b ∷ s) h = absurd (omega arith)
drop_all (suc n) [] h = refl
drop_all (suc n) (b ∷ s) h = drop_all n s (omega arith)

-- A cursor that runs dry reads what there is, and the next round finds nothing.
pub read_bytes_short :
    (n : ℕ) (s : Cursor) → length s < n → read_bytes n s ≡ fail (io would_block) []
unfolding read_bytes read_loop
read_bytes_short zero s h = absurd (omega arith)
read_bytes_short (suc n) [] h = refl
read_bytes_short (suc n) (b ∷ s) h = rw (drop_all n s (omega arith)) (
    ap (λ o. then_do o (λ more. pure ((b ∷ take n s) ++ more)))
      (loop_empty (suc n - suc (length (take n s))) n (omega (arith, length-take n s))
        (omega arith)))

pub read_bytes-append : (bs rest : Bytes) → read_bytes (length bs) (bs ++ rest) ≡ done bs rest
read_bytes-append bs rest = rw (
  read_bytes_all (length bs) (bs ++ rest) (omega (arith, length-append bs rest)),
  take-append,
  drop-append,
)

pub read_u8 : (b : ℕ) (s : Cursor) → read_scalar u8 (b ∷ s) ≡ done b s
unfolding read_scalar from_le_bytes read_bytes read_loop
read_u8 b s = ap (λ (v : ℕ). done v s) (omega arith)
