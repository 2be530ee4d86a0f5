-- ===== src/Wire/Scalar.antt =====
-- src/types/marshal.rs, unmarshal.rs and stat_buffer.rs: scalars in little-endian order.
-- A `Scalar` is the three traits `StatBuffer`, `Marshal` and `Unmarshal` of one Rust type. Floats are
-- their bits, as in `to_bits`.
use clickhouse_rs.Prelude.{ℕ, zero, suc, ◌+◌, ◌*◌, ◌/◌, ◌%◌, ◌^◌, ◌<◌, ◌≡◌, refl, ap, ◌∙◌, arith}
use clickhouse_rs.Prelude.{Bool, true, false, not, ◌==◌, [], ◌∷◌, Bytes, IsByte, All, length}
use clickhouse_rs.Prelude.{if◌then◌else◌}
use clickhouse_rs.Prelude.Int.{ℤ, to_word, of_word, Fits, to_word-lt, of_word-to_word}
use native.Mathlib.Nat.{pow-suc, one-le-pow}

-- `to_le_bytes` of a word of `w` bytes.
unfoldable pub to_le_bytes : ℕ → ℕ → Bytes
to_le_bytes zero v = []
to_le_bytes (suc w) v = (v % 256) ∷ to_le_bytes w (v / 256)

unfoldable pub from_le_bytes : Bytes → ℕ
from_le_bytes [] = 0
from_le_bytes (b ∷ bs) = b + 256 * from_le_bytes bs

pub record Scalar (V : Type 0) : Type 0 where
  pub width : ℕ
  pub marshal : V → Bytes
  pub unmarshal : Bytes → V

-- `int_marshals!`, `int_unmarshals!` and the buffers, for an unsigned type of `w` bytes.
abbrev pub uint : ℕ → Scalar ℕ
uint w = record { width = w; marshal = to_le_bytes w; unmarshal = from_le_bytes }

-- The same for a signed type, through its two's complement word.
abbrev pub int : ℕ → Scalar ℤ
int w = record {
  width = w;
  marshal = λ z. to_le_bytes w (to_word (256 ^ w) z);
  unmarshal = λ bs. of_word (256 ^ w) (from_le_bytes bs);
}

-- `float_marshals!` and `float_unmarshals!`, on the bits of the number.
abbrev pub float_bits : ℕ → Scalar ℕ
float_bits w = uint w

-- `scratch[0] = *self as u8` and `scratch[0] != 0`
abbrev pub bool : Scalar Bool
bool = record {
  width = 1;
  marshal = λ b. (if b then 1 else 0) ∷ [];
  unmarshal = λ bs. elim bs [ [] ↦ false | b ∷ rest ↦ not (b == 0) ];
}

abbrev pub u8 : Scalar ℕ
u8 = uint 1

abbrev pub u32 : Scalar ℕ
u32 = uint 4

abbrev pub u64 : Scalar ℕ
u64 = uint 8

abbrev pub i32 : Scalar ℤ
i32 = int 4

-- The values that a type of the source can hold, and the laws that its codec has for them.
pub record IsCodec {V : Type 0} (Holds : V → Type 0) (c : Scalar V) : Type 0 where
  pub sized : (v : V) → length (c.marshal v) ≡ c.width
  pub bytes : (v : V) → All IsByte (c.marshal v)
  pub back : (v : V) → Holds v → c.unmarshal (c.marshal v) ≡ v

length-to_le_bytes : (w v : ℕ) → length (to_le_bytes w v) ≡ w
unfolding to_le_bytes
length-to_le_bytes zero v = refl
length-to_le_bytes (suc w) v = ap suc (length-to_le_bytes w (v / 256))

to_le_bytes-IsByte : (w v : ℕ) → All IsByte (to_le_bytes w v)
unfolding to_le_bytes
to_le_bytes-IsByte zero v = tt
to_le_bytes-IsByte (suc w) v = (omega arith, to_le_bytes-IsByte w (v / 256))

from_le_bytes-to_le_bytes : (w v : ℕ) → v < 256 ^ w → from_le_bytes (to_le_bytes w v) ≡ v
unfolding to_le_bytes from_le_bytes
from_le_bytes-to_le_bytes zero v h = omega arith
from_le_bytes-to_le_bytes (suc w) v h =
    omega
      (arith, pow-suc 256 w, from_le_bytes-to_le_bytes w (v / 256) (omega (arith, pow-suc 256 w)))

-- A word read from `n` bytes is below 256 ^ n.
pub from_le_bytes-lt : (bs : Bytes) → All IsByte bs → from_le_bytes bs < 256 ^ length bs
unfolding from_le_bytes
from_le_bytes-lt [] h = omega arith
from_le_bytes-lt (b ∷ bs) h = omega (arith, pow-suc 256 (length bs), from_le_bytes-lt bs h.1)

-- Reading is injective on byte strings of one length: the other round trip.
pub to_le_bytes-from_le_bytes :
    (bs : Bytes) → All IsByte bs → to_le_bytes (length bs) (from_le_bytes bs) ≡ bs
unfolding to_le_bytes from_le_bytes
to_le_bytes-from_le_bytes [] h = refl
to_le_bytes-from_le_bytes (b ∷ bs) h = ground (arith, to_le_bytes-from_le_bytes bs h.1, div_rest)
  where
    div_rest : (b + 256 * from_le_bytes bs) / 256 ≡ from_le_bytes bs
    div_rest = omega (arith, h.0)

-- Every unsigned integer and every float of `w` bytes survives marshalling.
pub uint-IsCodec : (w : ℕ) → IsCodec (λ v. v < 256 ^ w) (uint w)
uint-IsCodec w = record {
  sized = length-to_le_bytes w;
  bytes = to_le_bytes-IsByte w;
  back = from_le_bytes-to_le_bytes w;
}

-- A signed integer of `w` bytes is marshalled into `w` bytes, and unmarshalling these gives it back.
pub int-IsCodec : (w : ℕ) → IsCodec (Fits (256 ^ w)) (int w)
int-IsCodec w = record {
  sized = λ z. length-to_le_bytes w (to_word (256 ^ w) z);
  bytes = λ z. to_le_bytes-IsByte w (to_word (256 ^ w) z);
  back = λ z h.
      ap (of_word (256 ^ w)) (
        from_le_bytes-to_le_bytes w (to_word (256 ^ w) z)
          (to_word-lt (256 ^ w) z (one-le-pow w 256 (omega arith))))
      ∙ of_word-to_word (256 ^ w) z h;
}

-- So does a `bool`.
pub bool-IsCodec : IsCodec (λ b. Unit {0}) bool
bool-IsCodec = record {
  sized = λ b. refl;
  bytes = elim [ true ↦ omega arith | false ↦ omega arith ];
  back = elim [ true ↦ λ _. refl | false ↦ λ _. refl ];
}
