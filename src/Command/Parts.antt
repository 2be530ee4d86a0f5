-- ===== src/Command/Parts.antt =====
-- Parts of a packet: a writer with the reader that gives back what it wrote.
use clickhouse_rs.Prelude.{
  ℕ, ◌≡◌, refl, sym, ap, ◌∙◌, leb, Bool, true, false, if◌then◌else◌, [], ◌++◌, Bytes, length, IsU64,
  IsSize,
}
use clickhouse_rs.Wire.Outcome.{done, M, Cursor, cursor_read, then_do, pure, ◌>>=◌}
use clickhouse_rs.Wire.Scalar.{Scalar, IsCodec}
use clickhouse_rs.Wire.Encoder.{Encoder, uvarint, string, write}
use clickhouse_rs.Wire.ReadEx.{read_uvarint, read_scalar, read_string}
use clickhouse_rs.Wire.RoundTrip.{
  uvarint-rest, write-rest, string-rest, read_scalar-write, read_string-string,
}
use clickhouse_rs.Wire.Uvarint.Encode.{read_uvarint-uvarint}
use clickhouse_rs.Command.{since}

-- A writer that only appends.
abbrev pub Appends : (Encoder → Encoder) → Type 0
Appends w = (e rest : Bytes) → w e ++ rest ≡ e ++ (w [] ++ rest)

pub then-Appends : (w w' : Encoder → Encoder) → Appends w → Appends w' → Appends (λ e. w' (w e))
then-Appends w w' h h' e rest =
    h' (w e) rest ∙ h e (w' [] ++ rest) ∙ ap (◌++◌ e) (sym (h' (w []) rest))

-- The writer appends, and the reader gives the value and leaves what follows.
pub record Part {A : Type 0} (w : Encoder → Encoder) (m : M Cursor A) (a : A) : Type 0 where
  pub appends : Appends w
  pub back : (rest : Bytes) → m (w [] ++ rest) ≡ done a rest

-- One part behind another.
pub then-Part :
    {A B : Type 0} {w : Encoder → Encoder} {m : M Cursor A} {a : A} {w' : Encoder → Encoder} {b : B}
    (k : A → M Cursor B)
    → Part w m a
    → Part w' (k a) b
    → Part (λ e. w' (w e)) (m >>= k) b
then-Part {w = w} {m = m} {a = a} {w' = w'} k p q = record {
  appends = then-Appends w w' p.appends q.appends;
  back = λ rest.
      ap (λ s. then_do s k) (ap m (q.appends (w []) rest) ∙ p.back (w' [] ++ rest)) ∙ q.back rest;
}

pub pure-Part : {A : Type 0} (a : A) → Part (λ e. e) (pure a) a
pure-Part a = record { appends = λ e rest. refl; back = λ rest. refl }

pub if-Part :
    {A : Type 0} {w w' : Encoder → Encoder} {m m' : M Cursor A} {a : A} (b : Bool)
    → (b ≡ true → Part w m a)
    → (b ≡ false → Part w' m' a)
    → Part (λ e. if b then w e else w' e) (if b then m else m') a
if-Part true p q = p refl
if-Part false p q = q refl

pub uvarint-Part : (v : ℕ) → IsU64 v → Part (uvarint v) read_uvarint v
uvarint-Part v h = record { appends = uvarint-rest v; back = λ rest. read_uvarint-uvarint v rest h }

pub write-Part :
    {V : Type 0} {Holds : V → Type 0} (c : Scalar V) (v : V)
    → IsCodec Holds c
    → Holds v
    → Part (write c v) (read_scalar c) v
write-Part c v codec h = record {
  appends = write-rest c v;
  back = λ rest. read_scalar-write c v rest codec h;
}

-- A server takes the bytes of a string as they are.
abbrev pub any_bytes : Bytes → Bool
any_bytes s = true

pub string-Part : (s : Bytes) → IsSize (length s) → Part (string s) (read_string any_bytes) s
string-Part s h = record {
  appends = string-rest s;
  back = λ rest. read_string-string any_bytes s rest h refl;
}

-- A field that servers read from a revision on, with its value where it is not there.
abbrev pub read_since : {A : Type 0} → ℕ → ℕ → M Cursor A → A → M Cursor A
read_since min_revision revision m a = if leb min_revision revision then m else pure a

pub since-Part :
    {A : Type 0} {w : Encoder → Encoder} {m : M Cursor A} {a : A} (min_revision revision : ℕ)
    → Part w m a
    → Part (since min_revision revision w) (read_since min_revision revision m a) a
since-Part {a = a} min_revision revision p =
    if-Part (leb min_revision revision) (λ h. p) (λ h. pure-Part a)
