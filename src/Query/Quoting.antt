-- ===== src/Query/Quoting.antt =====
-- A parameter's value is quoted such that a reader of quoted strings gives it back.
use clickhouse_rs.Prelude.{
  ℕ, ◌==◌, ◌≡◌, refl, arith, if◌then◌else◌, false, [], ◌∷◌, ◌++◌, Bytes, Option, some, none,
  Bool-cases, inl, inr,
}
use clickhouse_rs.Query.{QueryParameterValue, escape, quote_rest, write_quoted}
use mathlib.Core.List.{append_assoc}

-- An independent reader of quoted strings: a backslash and the character behind it are one character, and a
-- quote ends the string. The result is the text, and what follows the quote.
abbrev unescape : ℕ → ℕ
unescape c =
    if c == b'n'
    then 10
    else if c == b'r'
    then 13
    else if c == b't'
    then 9
    else if c == b'0'
    then 0
    else c

abbrev put : ℕ → Option (Bytes × Bytes) → Option (Bytes × Bytes)
put c none = none
put c (some (s, rest)) = some (c ∷ s, rest)

abbrev read_rest : Bytes → Option (Bytes × Bytes)
read_rest [] = none
read_rest (c ∷ []) = if c == b'\'' then some ([], []) else none
read_rest (c ∷ d ∷ s) =
    let escaped = read_rest s in
    let plain = read_rest (d ∷ s) in
    if c == b'\''
    then some ([], d ∷ s)
    else if c == b'\\'
    then put (unescape d) escaped
    else put c plain

abbrev pub read_quoted : Bytes → Option (Bytes × Bytes)
read_quoted [] = none
read_quoted (c ∷ s) = if c == b'\'' then read_rest s else none

read_plain :
    (c : ℕ) (t : Bytes) (s rest : Bytes)
    → (c == b'\'') ≡ false
    → (c == b'\\') ≡ false
    → read_rest t ≡ some (s, rest)
    → read_rest (c ∷ t) ≡ some (c ∷ s, rest)
read_plain c [] s rest q b h = absurd (cc)
read_plain c (d ∷ t) s rest q b h = rw (q, b, h)

escaped :
    (d c : ℕ) (t s rest : Bytes)
    → unescape d ≡ c
    → read_rest t ≡ some (s, rest)
    → read_rest (b'\\' ∷ d ∷ t) ≡ some (c ∷ s, rest)
escaped d c t s rest e h = rw (h, e)

-- One character.
read-escape :
    (c : ℕ) (t s rest : Bytes)
    → read_rest t ≡ some (s, rest)
    → read_rest (escape c ++ t) ≡ some (c ∷ s, rest)
unfolding escape
read-escape c t s rest h = elim (Bool-cases (c == b'\'')) [
  | inl e ↦ rw e (escaped b'\'' c t s rest (ground arith) h)
  | inr n1 ↦ (elim (Bool-cases (c == b'\\')) [
    | inl e ↦ rw (n1, e) (escaped b'\\' c t s rest (ground arith) h)
    | inr n2 ↦ (elim (Bool-cases (c == 10)) [
      | inl e ↦ rw (n1, n2, e) (escaped b'n' c t s rest (ground arith) h)
      | inr n3 ↦ (elim (Bool-cases (c == 13)) [
        | inl e ↦ rw (n1, n2, n3, e) (escaped b'r' c t s rest (ground arith) h)
        | inr n4 ↦ (elim (Bool-cases (c == 9)) [
          | inl e ↦ rw (n1, n2, n3, n4, e) (escaped b't' c t s rest (ground arith) h)
          | inr n5 ↦ (elim (Bool-cases (c == 0)) [
            | inl e ↦ rw (n1, n2, n3, n4, n5, e) (escaped b'0' c t s rest (ground arith) h)
            | inr n6 ↦ rw (n1, n2, n3, n4, n5, n6) (read_plain c t s rest n1 n2 h)
          ])
        ])
      ])
    ])
  ])
]

read-quote_rest : (s rest : Bytes) → read_rest (quote_rest s ++ rest) ≡ some (s, rest)
unfolding quote_rest
read-quote_rest [] [] = refl
read-quote_rest [] (r ∷ rest) = refl
read-quote_rest (c ∷ s) rest =
    rw (append_assoc (escape c) (quote_rest s) rest)
      (read-escape c (quote_rest s ++ rest) s rest (read-quote_rest s rest))

-- A reader of quoted strings gives back the value that `write_quoted` quoted, whatever its characters are, and
-- stops behind the closing quote.
pub read_quoted-write_quoted :
    (v : QueryParameterValue) (rest : Bytes)
    → read_quoted (write_quoted v ++ rest) ≡ some (v.raw, rest)
unfolding write_quoted
read_quoted-write_quoted v rest = read-quote_rest v.raw rest
