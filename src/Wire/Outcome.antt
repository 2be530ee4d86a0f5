-- ===== src/Wire/Outcome.antt =====
-- The result of a fallible read: Rust's `Result` together with the reader that is left, since an
-- error leaves the reader where it stopped. `io::Read` is an interface with two instances.
use clickhouse_rs.Prelude.{ℕ, ◌+◌, ◌≤◌, ◌≡◌, List, Bytes, length, take, drop}
use clickhouse_rs.Errors.{Error}
use mathlib.Core.Path.{refl}

-- `stuck` is no Rust value: the code panicked, or a loop of the model ran out of fuel.
pub data Outcome (S A : Type 0) : Type 0 where
  done : A → S → Outcome S A
  fail : Error → S → Outcome S A
  stuck : Outcome S A

abbrev pub M : Type 0 → Type 0 → Type 0
M S A = S → Outcome S A

module _ {S A : Type 0} where
  abbrev pub pure : A → M S A
  pure a s = done a s

  abbrev pub throw : Error → M S A
  throw e s = fail e s

  abbrev pub out_of_fuel : M S A
  out_of_fuel s = stuck

  abbrev pub panics : M S A
  panics s = stuck

module _ {S A B : Type 0} where
  abbrev pub then_do : Outcome S A → (A → M S B) → Outcome S B
  then_do (done a s) f = f a s
  then_do (fail e s) f = fail e s
  then_do stuck f = stuck

  infixl 5 ◌>>=◌
  abbrev pub ◌>>=◌ : M S A → (A → M S B) → M S B
  ◌>>=◌ m f s = then_do (m s) f

infixl 5 ◌>>◌
abbrev pub ◌>>◌ : {S B : Type 0} → M S (Unit {0}) → M S B → M S B
m >> k = m >>= λ _. k

-- `io::Read`: `read n` fills a prefix of a buffer of `n` bytes, and an empty answer says that there
-- is nothing. `budget` is no operation; it bounds the bytes that can still come.
pub record Read (S : Type 0) : Type 0 where
  pub read_some : ℕ → M S Bytes
  pub budget : S → ℕ

-- What `io::Read` documents, that no more bytes come than the buffer holds; and, beyond it, that the reader
-- has only finitely many bytes to give, as a cursor over a slice or a file has and an endless stream has not,
-- and that its own `read` does not panic.
pub record Lawful (S : Type 0) (r : Read S) : Type 0 where
  pub fits : (n : ℕ) (s : S) (bs : Bytes) (s' : S) → r.read_some n s ≡ done bs s' → length bs ≤ n
  pub spends :
      (n : ℕ) (s : S) (bs : Bytes) (s' : S)
      → r.read_some n s ≡ done bs s'
      → length bs + r.budget s' ≤ r.budget s
  pub answers : (n : ℕ) (s : S) → r.read_some n s ≡ stuck → ⊥

-- `io::Cursor` over a byte slice, as the bytes that have not been read.
abbrev pub Cursor : Type 0
Cursor = List ℕ

instance abbrev pub cursor_read : Read Cursor
cursor_read = record { read_some = λ n s. done (take n s) (drop n s); budget = length }

-- A chain that succeeds has succeeded in its first step.
pub then_do-done :
    {S A B : Type 0} (o : Outcome S A) (f : A → M S B) {b : B} {s' : S}
    → then_do o f ≡ done b s'
    → (a : A) × (s : S) × (o ≡ done a s) × (f a s ≡ done b s')
then_do-done (done a s) f e = (a, s, refl, e)
then_do-done (fail x s) f e = absurd (cc)
then_do-done stuck f e = absurd (cc)
