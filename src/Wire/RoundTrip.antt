-- ===== src/Wire/RoundTrip.antt =====
-- Scalars and strings: the encoder's output read back, and a reader on a part of its input.
use clickhouse_rs.Prelude.{ltb, false}
use clickhouse_rs.Prelude.{
  ℕ, ◌≤◌, ◌<◌, ◌≡◌, refl, sym, ap, ◌∙◌, arith, inl, inr, Bool, true, false, leb,
}
use clickhouse_rs.Prelude.{[], ◌++◌, Bytes, length, length-append, IsSize, if◌then◌else◌}
use clickhouse_rs.Wire.Outcome.{Outcome, done, fail, stuck, M, Cursor, cursor_read, then_do, pure}
use clickhouse_rs.Wire.Scalar.{Scalar, IsCodec}
use clickhouse_rs.Wire.Encoder.{write, write_bytes, uvarint, byte_string, string}
use clickhouse_rs.Wire.ReadEx.{
  read_scalar, read_string, skip_string, max_stack_buffer_len, isize_max, isize_max,
}
use clickhouse_rs.Wire.Cursor.{read_bytes-append}
use clickhouse_rs.Wire.Incremental.{Incremental, Waits, extend}
use clickhouse_rs.Wire.Uvarint.Encode.{read_uvarint-uvarint}
use mathlib.Core.List.{append_assoc}

-- The encoder only appends.
pub string-append : (chars buffer : Bytes) → string chars buffer ≡ buffer ++ string chars []
unfolding string byte_string uvarint write_bytes
string-append chars buffer = append_assoc buffer _ chars

-- The same in front of what follows, the form in which a reader meets it.
pub uvarint-rest :
    (v : ℕ) (buffer rest : Bytes) → uvarint v buffer ++ rest ≡ buffer ++ (uvarint v [] ++ rest)
unfolding uvarint write_bytes
uvarint-rest v buffer rest = append_assoc buffer _ rest

pub write-rest :
    {V : Type 0} (c : Scalar V) (v : V) (buffer rest : Bytes)
    → write c v buffer ++ rest ≡ buffer ++ (write c v [] ++ rest)
unfolding write write_bytes
write-rest c v buffer rest = append_assoc buffer (c.marshal v) rest

pub string-rest :
    (chars buffer rest : Bytes) → string chars buffer ++ rest ≡ buffer ++ (string chars [] ++ rest)
string-rest chars buffer rest =
    ap (λ (t : Bytes). t ++ rest) (string-append chars buffer) ∙ append_assoc buffer _ rest

-- A scalar that its type can hold is read back from what `Encoder::write` wrote.
pub read_scalar-write :
    {V : Type 0} {Holds : V → Type 0} (c : Scalar V) (v : V) (rest : Bytes)
    → IsCodec Holds c
    → Holds v
    → read_scalar c (write c v [] ++ rest) ≡ done v rest
unfolding read_scalar write write_bytes
read_scalar-write c v rest codec h = rw (← codec.sized v) (
    ap (λ o. then_do o (λ bs. pure (c.unmarshal bs))) (read_bytes-append (c.marshal v) rest)
    ∙ ap (λ u. done u rest) (codec.back v h))

-- A string that is no longer than an allocation can be and that passes the UTF-8 check is read back from what `Encoder::string`
-- wrote, with what follows it left.
pub read_string-string :
    (is_utf8 : Bytes → Bool) (chars rest : Bytes)
    → IsSize (length chars)
    → is_utf8 chars ≡ true
    → read_string is_utf8 (string chars [] ++ rest) ≡ done chars rest
unfolding read_string string byte_string write_bytes
read_string-string is_utf8 chars rest h u =
    let fits : ltb isize_max (length chars) ≡ false = ground arith in
    rw (
      append_assoc (uvarint (length chars) []) chars rest,
      read_uvarint-uvarint (length chars) (chars ++ rest) (omega arith),
      fits,
      read_bytes-append chars rest,
      u,
    )

if_same : {S A : Type 0} (b : Bool) (m : M S A) (s : S) → (if b then m else m) s ≡ m s
if_same true m s = refl
if_same false m s = refl

-- `skip_string` moves over a string of any bytes that `Encoder::byte_string` wrote, if it is no longer than
-- an allocation can be.
pub skip_string-string :
    (chars rest : Bytes)
    → IsSize (length chars)
    → skip_string (byte_string chars [] ++ rest) ≡ done tt rest
unfolding skip_string byte_string write_bytes
skip_string-string chars rest h =
    let fits : ltb isize_max (length chars) ≡ false = ground arith in
    rw
      (
        append_assoc (uvarint (length chars) []) chars rest,
        read_uvarint-uvarint (length chars) (chars ++ rest) (omega arith),
        fits,
      )
      (if_same (leb (length chars) max_stack_buffer_len) _ (chars ++ rest)
        ∙ ap (λ o. then_do o (λ bs. pure tt)) (read_bytes-append chars rest))

extend-done :
    {A : Type 0} (o : Outcome Cursor A) (back : Bytes) (a : A) (r : Cursor)
    → extend back o ≡ done a r
    → length back ≤ length r
extend-done (done b u) back a r q =
    let e : u ++ back ≡ r = cc in omega (arith, length-append u back, ap length e)
extend-done (fail e u) back a r q = absurd (cc)
extend-done stuck back a r q = absurd (cc)

-- A reader that takes more than `front` of an input asks for more where there is only `front`.
pub Incremental-Waits :
    {A : Type 0} {m : M Cursor A} (front back : Bytes) (a : A) (r : Cursor)
    → Incremental m
    → m (front ++ back) ≡ done a r
    → length r < length back
    → Waits (m front)
Incremental-Waits {m = m} front back a r h e shorter = elim (h.stable front back) [
  | inl w ↦ w
  | inr k ↦ absurd (omega (arith, extend-done (m front) back a r (sym k ∙ e)))
]
