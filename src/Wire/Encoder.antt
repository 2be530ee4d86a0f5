-- ===== src/Wire/Encoder.antt =====
-- src/binary/uvarint.rs and encoder.rs: variable-length integers and the output buffer.
use clickhouse_rs.Prelude.{ℕ, zero, suc, ◌/◌, ◌%◌}
use clickhouse_rs.Prelude.{ltb, if◌then◌else◌, [], ◌∷◌, ◌++◌, Option, some, none, bit_or}
use clickhouse_rs.Prelude.{Bytes, length}
use clickhouse_rs.Wire.Scalar.{Scalar}
use mathlib.Core.Option

-- The bytes that `put_uvarint` stores, given how much of its buffer is left. A store behind the end
-- of the buffer panics: `none`. `mx as u8` is `% 256`.
unfoldable pub put_uvarint : ℕ → ℕ → Option Bytes
put_uvarint zero mx = none
put_uvarint (suc room) mx =
    let more = Option.map (◌∷◌ (bit_or (mx % 256) 0x80)) (put_uvarint room (mx / 128)) in
    if ltb mx 0x80 then some ((mx % 256) ∷ []) else more

abbrev pub max_varint_len64 : ℕ
max_varint_len64 = 10

-- A panic writes nothing; `put_uvarint_total` shows that a u64 meets none.
abbrev pub stored : Option Bytes → Bytes
stored none = []
stored (some bs) = bs

-- The `Encoder` is its buffer, and each method appends.
abbrev pub Encoder : Type 0
Encoder = Bytes

abbrev pub new : Encoder
new = []

unfoldable pub write_bytes : Bytes → Encoder → Encoder
write_bytes bs buffer = buffer ++ bs

unfoldable pub uvarint : ℕ → Encoder → Encoder
unfolding write_bytes
uvarint v buffer = write_bytes (stored (put_uvarint max_varint_len64 v)) buffer

unfoldable pub byte_string : Bytes → Encoder → Encoder
unfolding uvarint write_bytes
byte_string source buffer = write_bytes source (uvarint (length source) buffer)

-- `string` takes the bytes of a `str`.
unfoldable pub string : Bytes → Encoder → Encoder
unfolding byte_string
string chars buffer = byte_string chars buffer

unfoldable pub write : {V : Type 0} → Scalar V → V → Encoder → Encoder
unfolding write_bytes
write c value buffer = write_bytes (c.marshal value) buffer
