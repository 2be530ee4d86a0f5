-- ===== src/Wire/Uvarint/Encode.antt =====
-- Writing and reading back. `i` counts the bytes that have been read, seven bits each.
use clickhouse_rs.Prelude.{
  ℕ, zero, suc, ◌+◌, ◌*◌, ◌/◌, ◌%◌, ◌^◌, ◌≤◌, ◌<◌, ◌≡◌, refl, ap, ◌∙◌, arith,
}
use clickhouse_rs.Prelude.{inl, inr, true, false, ltb, ◌==◌, ◌&&◌, ◌||◌}
use clickhouse_rs.Prelude.{[], ◌∷◌, ◌++◌, Bytes, length, Bool-cases, IsU64}
use clickhouse_rs.Prelude.{some, Option-cases, bit_or}
use clickhouse_rs.Prelude.Bits.{low_group, set_top, or_shifted}
use clickhouse_rs.Wire.Outcome.{done, Cursor, cursor_read}
use clickhouse_rs.Wire.Encoder.{put_uvarint, uvarint, write_bytes}
use clickhouse_rs.Wire.ReadEx.{read_uvarint, uvarint_loop, shl64}
use clickhouse_rs.Wire.Reads.{uvarint_round}
use native.Mathlib.Nat.{pow-suc, mod-eq_of_lt, div-add-mod}
use native.Mathlib.Numerals.{towards_suc}
use native.Mathlib.Decide.{dec_lt}

-- A buffer of `room` bytes holds every number below 128 ^ room, in one to `room` bytes.
pub put_uvarint_total :
    (room v : ℕ)
    → 0 < room
    → v < 128 ^ room
    → (bs : Bytes) × (put_uvarint room v ≡ some bs) × (1 ≤ length bs) × (length bs ≤ room)
unfolding put_uvarint
put_uvarint_total zero v h k = absurd (omega arith)
put_uvarint_total (suc room) v h k = elim (Bool-cases (ltb v 0x80)) [
  | inl small ↦ rw small ((v % 256) ∷ [], refl, omega arith, omega arith)
  | inr large ↦
      let (bs, e, lo, hi) =
        put_uvarint_total room (v / 128) (ground (arith, pow-suc 128 room))
          (omega (arith, pow-suc 128 room)) in
      rw (large, e) (bit_or (v % 256) 0x80 ∷ bs, refl, omega arith, omega arith)
]

pub shift_step : (s : ℕ) → 2 ^ (s + 7) ≡ 128 * 2 ^ s
shift_step s = simp towards_suc (omega arith)

-- `b << s` within the word.
pub shl64_lem : (b s : ℕ) → s < 64 → b * 2 ^ s < 2 ^ 64 → shl64 b s ≡ b * 2 ^ s
shl64_lem b s h k = rw (mod-eq_of_lt {n = s} {m = 64} h) (mod-eq_of_lt k)

below_shifted : (i : ℕ) → 7 * i < 64 → (7 * i + 7) % 2 ^ 32 ≡ 7 * (i + 1)
below_shifted i h = omega arith

-- The two bounds of the code, on the number of bytes and on the tenth byte, do not fire on a u64.
fits_tenth :
    (x b i : ℕ) → i ≤ 9 → x + b * 2 ^ (7 * i) < 2 ^ 64 → (ltb 9 i || i == 9 && ltb 1 b) ≡ false
fits_tenth x b i h k = ground (arith, λ (e : i ≡ 9). ap (λ (t : ℕ). b * 2 ^ (7 * t)) e)

-- A round on the last byte, and on a byte with the top bit set.
pub uvarint_last :
    (f x i b : ℕ) (r : Cursor)
    → b < 128
    → i ≤ 9
    → x < 2 ^ (7 * i)
    → x + b * 2 ^ (7 * i) < 2 ^ 64
    → uvarint_loop (suc f) x (7 * i) i (b ∷ r) ≡ done (x + b * 2 ^ (7 * i)) r
uvarint_last f x i b r hb hi hx fits =
    let small : ltb b 0x80 ≡ true = ground arith in
    rw (uvarint_round f x (7 * i) i b r, small, fits_tenth x b i hi fits)
      (rw (shl64_lem b (7 * i) (omega arith) (omega arith), or_shifted (7 * i) x b hx))

pub uvarint_inner :
    (f x i b : ℕ) (r : Cursor)
    → 128 ≤ b
    → b < 256
    → i ≤ 9
    → x < 2 ^ (7 * i)
    → x + b % 128 * 2 ^ (7 * i) < 2 ^ 64
    → uvarint_loop (suc f) x (7 * i) i (b ∷ r)
      ≡ uvarint_loop f (x + b % 128 * 2 ^ (7 * i)) (7 * (i + 1)) (i + 1) r
uvarint_inner f x i b r lo hi hi' hx fits =
    let large : ltb b 0x80 ≡ false = ground arith in
    rw (
      uvarint_round f x (7 * i) i b r,
      large,
      low_group b hi,
      shl64_lem (b % 128) (7 * i) (omega arith) (omega arith),
      or_shifted (7 * i) x (b % 128) hx,
      below_shifted i (omega arith),
    )

pub shift_next : (i : ℕ) → 2 ^ (7 * (i + 1)) ≡ 128 * 2 ^ (7 * i)
shift_next i =
    let e : 7 * (i + 1) ≡ 7 * i + 7 = omega arith in ap (λ (t : ℕ). 2 ^ t) e ∙ shift_step (7 * i)

-- Seven more bits are read, and they stay below the next shift.
pub next_bound : (x g i : ℕ) → g < 128 → x < 2 ^ (7 * i) → x + g * 2 ^ (7 * i) < 2 ^ (7 * (i + 1))
next_bound x g i hg hx = grind (arith, shift_next i)

pub split_group : (v i : ℕ) → v * 2 ^ (7 * i) ≡ v % 128 * 2 ^ (7 * i) + v / 128 * 2 ^ (7 * (i + 1))
split_group v i = omega (
  arith,
  ap (λ (t : ℕ). t * 2 ^ (7 * i)) (div-add-mod v 128),
  ap (λ (t : ℕ). v / 128 * t) (shift_next i),
)

-- The tenth group of a u64 is one bit, so nine bytes are behind a byte that has a successor.
has_room : (x v i : ℕ) → 128 ≤ v → i ≤ 9 → x + v * 2 ^ (7 * i) < 2 ^ 64 → i + 1 ≤ 9
has_room x v i hv hi h = ground (arith, λ (e : i ≡ 9). ap (λ (t : ℕ). v * 2 ^ (7 * t)) e)

set_top_group : (v : ℕ) → bit_or (v % 256) 0x80 ≡ v % 128 + 128
set_top_group v = rw (set_top (v % 256) (omega arith)) (omega arith)

put_small : (room v : ℕ) (bs : Bytes) → v < 128 → put_uvarint (suc room) v ≡ some bs → bs ≡ v ∷ []
unfolding put_uvarint
put_small room v bs h e = ground (arith)

put_large :
    (room v : ℕ) (bs : Bytes)
    → 128 ≤ v
    → put_uvarint (suc room) v ≡ some bs
    → (more : Bytes) × (put_uvarint room (v / 128) ≡ some more) × (bs ≡ (v % 128 + 128) ∷ more)
unfolding put_uvarint
put_large room v bs h e = elim (Option-cases (put_uvarint room (v / 128))) [
  | inl x ↦ absurd (ground (arith))
  | inr (more, m) ↦ (more, m, ground (arith, set_top_group v))
]

pub uvarint_loop-put_uvarint :
    (room f x v i : ℕ) (bs rest : Bytes)
    → put_uvarint room v ≡ some bs
    → length (bs ++ rest) < f
    → i ≤ 9
    → x < 2 ^ (7 * i)
    → x + v * 2 ^ (7 * i) < 2 ^ 64
    → uvarint_loop f x (7 * i) i (bs ++ rest) ≡ done (x + v * 2 ^ (7 * i)) rest
uvarint_loop-put_uvarint zero f x v i bs rest e hf hi hx fits = unfold put_uvarint in cc
uvarint_loop-put_uvarint (suc room) zero x v i bs rest e hf hi hx fits = absurd (omega arith)
uvarint_loop-put_uvarint (suc room) (suc f) x v i bs rest e hf hi hx fits = elim (dec_lt v 128) [
  | yes h ↦ rw (put_small room v bs h e) (uvarint_last f x i v rest h hi hx fits)
  | no h ↦
      let (more, m, e') = put_large room v bs (omega arith) e in
      let top : (v % 128 + 128) % 128 ≡ v % 128 = omega arith in
      let split = split_group v i in
      let tail : length (bs ++ rest) ≡ suc (length (more ++ rest)) =
        ap (λ t. length (t ++ rest)) e' in
      let ih =
        uvarint_loop-put_uvarint room f (x + v % 128 * 2 ^ (7 * i)) (v / 128) (i + 1) more rest m
          (omega arith) (has_room x v i (omega arith) hi fits)
          (next_bound x (v % 128) i (omega arith) hx) (omega arith) in
      rw e' (
        uvarint_inner f x i (v % 128 + 128) (more ++ rest) (omega arith) (omega arith) hi hx
          (rw top (omega arith))
        ∙ rw top (ih ∙ ap (λ (t : ℕ). done t rest) (omega arith)))
]

-- Every u64 takes one to ten bytes: the scratch buffer of `Encoder::uvarint` is never too small.
pub length-uvarint : (v : ℕ) → IsU64 v → (1 ≤ length (uvarint v [])) × (length (uvarint v []) ≤ 10)
unfolding uvarint write_bytes
length-uvarint v h =
    let (bs, e, lo, hi) = put_uvarint_total 10 v (omega arith) (omega arith) in rw e (lo, hi)

-- `read_uvarint` reads back every u64 that the encoder wrote, and leaves what follows it.
pub read_uvarint-uvarint :
    (v : ℕ) (rest : Bytes) → IsU64 v → read_uvarint (uvarint v [] ++ rest) ≡ done v rest
unfolding read_uvarint uvarint write_bytes
read_uvarint-uvarint v rest h =
    let (bs, e, lo, hi) = put_uvarint_total 10 v (omega arith) (omega arith) in
    rw e (
      uvarint_loop-put_uvarint 10 _ 0 v 0 bs rest e (omega arith) (omega arith) (omega arith)
        (omega arith)
      ∙ ap (λ (t : ℕ). done t rest) (omega arith))
