-- ===== src/Query/Names.antt =====
-- The names of a query's parameters: what `with_parameter` takes, and what it answers.
use clickhouse_rs.Prelude.{
  ℕ, ◌≤◌, ◌≡◌, refl, arith, ◌==◌, ◌&&◌, ◌||◌, not, if◌then◌else◌, Bool, true, false, [], ◌∷◌, ◌++◌,
  Bytes, All, ◌⊎◌, inl, inr, Bool-cases, ◌↔◌,
}
use clickhouse_rs.Errors.{driver, invalid_parameter_name}
use clickhouse_rs.Text.{codes, starts_with}
use clickhouse_rs.Query.{
  QueryParameterValue, Query, validate_parameter_name, with_parameter, all_name_chars,
  is_ascii_alphabetic, is_ascii_alphanumeric,
}

abbrev pub IsLetter : ℕ → Type 0
IsLetter c = ((b'a' ≤ c) × (c ≤ b'z')) ⊎ ((b'A' ≤ c) × (c ≤ b'Z')) ⊎ (c ≡ b'_')

abbrev pub IsNameChar : ℕ → Type 0
IsNameChar c = IsLetter c ⊎ ((b'0' ≤ c) × (c ≤ b'9'))

-- A name of a parameter: `[A-Za-z_][A-Za-z0-9_]*`, and no `param_` in front.
abbrev pub IsParameterName : Bytes → Type 0
IsParameterName [] = ⊥
IsParameterName (c ∷ s) =
    IsLetter c × All IsNameChar s × (starts_with (c ∷ s) (codes "param_") ≡ false)

name_char : (c : ℕ) → ((is_ascii_alphanumeric c || c == b'_') ≡ true) ↔ IsNameChar c
name_char c = ground arith

letter : (c : ℕ) → ((not (is_ascii_alphabetic c) && not (c == b'_')) ≡ false) ↔ IsLetter c
letter c = ground arith

and_iff : (a b : Bool) → ((a && b) ≡ true) ↔ ((a ≡ true) × (b ≡ true))
and_iff a b = ground arith

name_chars : (s : Bytes) → (all_name_chars s ≡ true) ↔ All IsNameChar s
name_chars [] = (λ h. tt, λ h. refl)
name_chars (c ∷ s) =
    let ih = name_chars s in
    let here = name_char c in
    let both = and_iff (is_ascii_alphanumeric c || c == b'_') (all_name_chars s) in
    (λ h. (let (a, b) = both.0 h in (here.0 a, ih.0 b)), λ h. both.1 (here.1 h.0, ih.1 h.1))

-- The three tests, whatever they look at.
tests_iff :
    (reserved no_letter chars : Bool)
    → ((if reserved then false else if no_letter then false else chars) ≡ true)
      ↔ ((no_letter ≡ false) × (chars ≡ true) × (reserved ≡ false))
tests_iff reserved no_letter chars = ground arith

validate_iff : (name : Bytes) → (validate_parameter_name name ≡ true) ↔ IsParameterName name
unfolding validate_parameter_name
validate_iff [] = (λ h. absurd (cc), λ h. absurd h)
validate_iff (c ∷ s) =
    let tests =
      tests_iff (starts_with (c ∷ s) (codes "param_"))
        (not (is_ascii_alphabetic c) && not (c == b'_')) (all_name_chars s) in
    (
      λ h. (let (l, a, r) = tests.0 h in ((letter c).0 l, (name_chars s).0 a, r)),
      λ h. tests.1 ((letter c).1 h.0, (name_chars s).1 h.1, h.2),
    )

-- `with_parameter` takes a name if and only if it is of letters, digits and underscores, begins with no digit
-- and has not the reserved prefix; it then puts the parameter behind those that are there. Any other name is
-- an `InvalidParameterName` error with the name.
pub with_parameter_iff :
    (name : Bytes) (value : QueryParameterValue) (q : Query)
    → ((IsParameterName name)
        × (with_parameter name value q
            ≡ inr (record q { parameters = q.parameters ++ (name, value) ∷ [] })))
      ⊎ ((IsParameterName name → ⊥)
          × (with_parameter name value q ≡ inl (driver (invalid_parameter_name name))))
unfolding with_parameter
with_parameter_iff name value q = elim (Bool-cases (validate_parameter_name name)) [
  | inl e ↦ inl ((validate_iff name).0 e, rw e)
  | inr e ↦ inr (λ h. (let yes = (validate_iff name).1 h in absurd cc), rw e)
]
