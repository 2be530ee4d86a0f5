-- ===== src/Wire/ReadEx.antt =====
-- src/binary/read_ex.rs: reads of a fixed number of bytes, of scalars, integers and strings, over
-- any `io::Read`.
use clickhouse_rs.Prelude.{ℕ, zero, suc, ◌+◌, ◌-◌, ◌*◌, ◌%◌, ◌^◌}
use clickhouse_rs.Prelude.{ltb, leb, ◌==◌, ◌&&◌, ◌||◌, if◌then◌else◌, bit_and, bit_or, Bool}
use clickhouse_rs.Prelude.{[], ◌∷◌, ◌++◌, Bytes, length}
use clickhouse_rs.Errors.{io, driver, other, would_block, overflow, from_utf8_error}
use clickhouse_rs.Wire.Outcome.{M, Read, pure, throw, panics, out_of_fuel, ◌>>=◌}
use clickhouse_rs.Wire.Scalar.{Scalar, u8}

-- `u64::from(b) << s`: a shift of a u64 counts modulo 64 and drops what leaves the word.
abbrev pub shl64 : ℕ → ℕ → ℕ
shl64 b s = b * 2 ^ (s % 64) % 2 ^ 64

abbrev pub isize_max : ℕ
isize_max = 2 ^ 63 - 1

abbrev pub max_stack_buffer_len : ℕ
max_stack_buffer_len = 1024

module _ {S : Type 0} where
  -- One answer of `read`: nothing is a `WouldBlock` error, anything else goes to the buffer.
  abbrev pub gather : Bytes → M S Bytes → M S Bytes
  gather [] rest = throw (io would_block)
  gather (b ∷ bs) rest = do more ← rest; pure ((b ∷ bs) ++ more)

module _ {S : Type 0} ⦃r : Read S⦄ where
  -- `need` bytes of the buffer are still empty. Each round fills one at least.
  unfoldable pub read_loop : ℕ → ℕ → M S Bytes
  read_loop zero fuel = pure []
  read_loop (suc need) zero = out_of_fuel
  read_loop (suc need) (suc fuel) = do
    bs ← r.read_some (suc need)
    gather bs (read_loop (suc need - length bs) fuel)

  unfoldable pub read_bytes : ℕ → M S Bytes
  read_bytes n = read_loop n n

  unfoldable pub read_scalar : {V : Type 0} → Scalar V → M S V
  read_scalar c = do buffer ← read_bytes c.width; pure (c.unmarshal buffer)

  -- The loop of `read_uvarint`, on `x`, `s` (a u32) and `i`.
  unfoldable pub uvarint_loop : ℕ → ℕ → ℕ → ℕ → M S ℕ
  uvarint_loop zero x s i = out_of_fuel
  uvarint_loop (suc fuel) x s i = do
    b ← read_scalar u8
    let rest = uvarint_loop fuel (bit_or x (shl64 (bit_and b 0x7f) s)) ((s + 7) % 2 ^ 32) (i + 1)
    if ltb b 0x80
        then (if ltb 9 i || i == 9 && ltb 1 b
            then throw (driver overflow)
            else pure (bit_or x (shl64 b s)))
        else rest

  unfoldable pub read_uvarint : M S ℕ
  read_uvarint s = uvarint_loop (suc (r.budget s)) 0 0 0 s

  -- `vec![0_u8; str_len]` panics above `isize::MAX`.
  abbrev pub allocated : {A : Type 0} → ℕ → M S A → M S A
  allocated str_len m = if ltb isize_max str_len then panics else m

  -- `String::from_utf8` is the standard library's check, given here as `is_utf8`.
  unfoldable pub read_string : (Bytes → Bool) → M S Bytes
  read_string is_utf8 = do
    str_len ← read_uvarint
    buffer ← allocated str_len (read_bytes str_len)
    if is_utf8 buffer then pure buffer else throw (other from_utf8_error)

  -- Both branches read `str_len` bytes and drop them: into the stack buffer, or into a fresh one.
  unfoldable pub skip_string : M S (Unit {0})
  skip_string = do
    str_len ← read_uvarint
    if leb str_len max_stack_buffer_len
        then (do _ ← read_bytes str_len; pure tt)
        else allocated str_len (do _ ← read_bytes str_len; pure tt)
