-- ===== src/Column/LowCardinality/Rows.antt =====
-- src/types/column/low_cardinality.rs: the rows of a column with a dictionary.
use clickhouse_rs.Prelude.{
  ℕ, zero, suc, ◌+◌, ◌^◌, ◌≤◌, ◌<◌, ◌≡◌, refl, sym, ap, ◌∙◌, arith, true, Bool-cases, inl, inr,
  if◌then◌else◌, Option-cases, List, [], ◌∷◌, ◌++◌, length, get_elem?, Option, some, none, All,
}
use clickhouse_rs.Column.Concat.{with_elem}
use clickhouse_rs.Column.Data.{index_size}
use clickhouse_rs.Column.LowCardinality.{
  InnerColumn, LowCardinalityColumnData, index_len, get_value, collect_values, get_value_map,
  the_value_map, row_at,
}
use clickhouse_rs.Column.LowCardinality.Index.{Stores, index_len-Stores, get_by_index-Stores}
use mathlib.Core.Path.{subst}

-- What the inner column owes: `push` of a value that it takes to a well-formed column puts it behind the others, as it does when nothing
-- else holds the `Arc` of the inner column, and values that are equal are the same, which floats are not.
pub record InnerColumnLaws {Inner V : Type 0} (ops : InnerColumn Inner V) (IsGood : Inner → Type 0)
    (Accepts : V → Type 0) : Type 0 where
  pub same : (a b : V) → ops.eq a b ≡ true → a ≡ b
  pub pushed :
      (v : V) (c : Inner)
      → IsGood c
      → Accepts v
      → (c' : Inner) × (ops.push v c ≡ some c')
        × IsGood c'
        × (ops.len c' ≡ ops.len c + 1)
        × (ops.at c' (ops.len c) ≡ some v)
        × ((i : ℕ) → i < ops.len c → ops.at c' i ≡ ops.at c i)

module _ {Inner V : Type 0} (ops : InnerColumn Inner V) where
  -- A number of the dictionary, and its value.
  abbrev pub IsAt : Inner → ℕ → V → Type 0
  IsAt inner n v = (n < ops.len inner) × (ops.at inner n ≡ some v)

  abbrev pub RowsAt : Inner → List ℕ → List V → Type 0
  RowsAt inner [] [] = Unit {0}
  RowsAt inner [] (x ∷ xs) = ⊥
  RowsAt inner (n ∷ ns) [] = ⊥
  RowsAt inner (n ∷ ns) (x ∷ xs) = IsAt inner n x × RowsAt inner ns xs

  abbrev pub Known : Inner → List (V × ℕ) → Type 0
  Known inner entries = All (λ e. IsAt inner e.1 e.0) entries

  abbrev pub Mapped : Inner → Option (List (V × ℕ)) → Type 0
  Mapped inner none = Unit {0}
  Mapped inner (some entries) = Known inner entries

  -- The column has the rows `xs`: its index stores the numbers of their values in the dictionary, and what the
  -- `value_map` has is in the dictionary.
  pub record HasRows (c : LowCardinalityColumnData Inner V) (xs : List V) : Type 0 where
    pub numbers : List ℕ
    pub stored : Stores c.index numbers
    pub rows : RowsAt c.inner numbers xs
    pub mapped : Mapped c.inner c.value_map

  -- And its dictionary has at most one value more than there are rows, and no more than the index can number.
  pub record Stands (c : LowCardinalityColumnData Inner V) (xs : List V) : Type 0 where
    pub numbers : List ℕ
    pub stored : Stores c.index numbers
    pub rows : RowsAt c.inner numbers xs
    pub near : ops.len c.inner ≤ length numbers + 1
    pub fits : ops.len c.inner ≤ 256 ^ index_size c.index.kind
    pub mapped : Mapped c.inner c.value_map

  pub length-RowsAt :
      (inner : Inner) (ns : List ℕ) (xs : List V) → RowsAt inner ns xs → length ns ≡ length xs
  length-RowsAt inner [] [] h = refl
  length-RowsAt inner [] (x ∷ xs) h = absurd h
  length-RowsAt inner (n ∷ ns) [] h = absurd h
  length-RowsAt inner (n ∷ ns) (x ∷ xs) h = ap suc (length-RowsAt inner ns xs h.1)

  get_elem?-RowsAt :
      (inner : Inner) (ns : List ℕ) (xs : List V) (i : ℕ)
      → RowsAt inner ns xs
      → with_elem (get_elem? ns i) (ops.at inner) ≡ get_elem? xs i
  get_elem?-RowsAt inner [] [] i h = refl
  get_elem?-RowsAt inner [] (x ∷ xs) i h = absurd h
  get_elem?-RowsAt inner (n ∷ ns) [] i h = absurd h
  get_elem?-RowsAt inner (n ∷ ns) (x ∷ xs) zero h = h.0.1
  get_elem?-RowsAt inner (n ∷ ns) (x ∷ xs) (suc i) h = get_elem?-RowsAt inner ns xs i h.1

  pub RowsAt-append :
      (inner : Inner) (ns : List ℕ) (xs : List V) (n : ℕ) (x : V)
      → RowsAt inner ns xs
      → IsAt inner n x
      → RowsAt inner (ns ++ n ∷ []) (xs ++ x ∷ [])
  RowsAt-append inner [] [] n x h e = (e, tt)
  RowsAt-append inner [] (y ∷ ys) n x h e = absurd h
  RowsAt-append inner (m ∷ ms) [] n x h e = absurd h
  RowsAt-append inner (m ∷ ms) (y ∷ ys) n x h e = (h.0, RowsAt-append inner ms ys n x h.1 e)

  -- A row of the numbers.
  row_cases :
      (inner : Inner) (ns : List ℕ) (xs : List V) (i : ℕ)
      → RowsAt inner ns xs
      → i < length ns
      → (n : ℕ) × (x : V) × (get_elem? ns i ≡ some n) × IsAt inner n x
  row_cases inner [] xs i h near = absurd (omega arith)
  row_cases inner (n ∷ ns) [] i h near = absurd h
  row_cases inner (n ∷ ns) (x ∷ xs) zero h near = (n, x, refl, h.0)
  row_cases inner (n ∷ ns) (x ∷ xs) (suc i) h near = row_cases inner ns xs i h.1 (omega arith)

  -- What is in the dictionary stays there when it grows.
  module _ (inner inner' : Inner) (more : ops.len inner' ≡ ops.len inner + 1)
      (kept : (i : ℕ) → i < ops.len inner → ops.at inner' i ≡ ops.at inner i) where
    IsAt-kept : (n : ℕ) (v : V) → IsAt inner n v → IsAt inner' n v
    IsAt-kept n v h = (omega arith, kept n h.0 ∙ h.1)

    pub RowsAt-kept : (ns : List ℕ) (xs : List V) → RowsAt inner ns xs → RowsAt inner' ns xs
    RowsAt-kept [] [] h = tt
    RowsAt-kept [] (x ∷ xs) h = absurd h
    RowsAt-kept (n ∷ ns) [] h = absurd h
    RowsAt-kept (n ∷ ns) (x ∷ xs) h = (IsAt-kept n x h.0, RowsAt-kept ns xs h.1)

    pub Known-kept : (entries : List (V × ℕ)) → Known inner entries → Known inner' entries
    Known-kept [] h = tt
    Known-kept (e ∷ entries) h = (IsAt-kept e.1 e.0 h.0, Known-kept entries h.1)

  collect_values-Known :
      (c : LowCardinalityColumnData Inner V) (xs : List V) (h : Stands c xs) (count index : ℕ)
      (entries : List (V × ℕ))
      → index + count ≡ length h.numbers
      → Known c.inner entries
      → (m : List (V × ℕ)) × (collect_values ops c count index entries ≡ some m) × Known c.inner m
  unfolding collect_values
  collect_values-Known c xs h zero index entries e k = (entries, refl, k)
  collect_values-Known c xs h (suc count) index entries e k =
      let (n, x, at, is) = row_cases c.inner h.numbers xs index h.rows (omega arith) in
      let got = get_by_index-Stores c.index h.numbers index h.stored ∙ at in
      let (m, rest, known) =
        collect_values-Known c xs h count (index + 1) ((x, n) ∷ entries) (omega arith) (is, k) in
      rw (got, is.1) (m, rest, known)

  pub the_value_map-Known :
      (c : LowCardinalityColumnData Inner V) (xs : List V)
      → Stands c xs
      → (m : List (V × ℕ)) × (the_value_map ops c ≡ some m) × Known c.inner m
  unfolding the_value_map get_value_map
  the_value_map-Known c xs h = elim (Option-cases c.value_map) [
    | inl e ↦
        let all : 0 + index_len c.index ≡ length h.numbers =
          omega (arith, index_len-Stores c.index h.numbers h.stored) in
        let (m, collected, known) = collect_values-Known c xs h (index_len c.index) 0 [] all tt in
        rw (e, the_value_map, collected) (m, refl, known)
    | inr (m, e) ↦ rw (e, the_value_map) (m, refl, subst (Mapped c.inner) e h.mapped)
  ]

  pub get_value-Known :
      (same : (a b : V) → ops.eq a b ≡ true → a ≡ b) (inner : Inner) (value : V)
      (entries : List (V × ℕ)) (i : ℕ)
      → Known inner entries
      → get_value ops value entries ≡ some i
      → IsAt inner i value
  unfolding get_value
  get_value-Known same inner value [] i h e = absurd cc
  get_value-Known same inner value ((v, n) ∷ entries) i h e = elim (Bool-cases (ops.eq value v)) [
    | inl hit ↦
        let found : some n ≡ some i =
          subst (λ b. (if b then some n else get_value ops value entries) ≡ some i) hit e in
        let number : n ≡ i = cc in
        let is : IsAt inner i v = subst (λ k. IsAt inner k v) number h.0 in
        (is.0, is.1 ∙ ap some (sym (same value v hit)))
    | inr miss ↦
        get_value-Known same inner value entries i h.1
          (subst (λ b. (if b then some n else get_value ops value entries) ≡ some i) miss e)
  ]

  pub row_at-Stands :
      (c : LowCardinalityColumnData Inner V) (xs : List V) (i : ℕ)
      → Stands c xs
      → row_at ops c i ≡ get_elem? xs i
  unfolding row_at
  row_at-Stands c xs i h =
      ap (λ o. with_elem o (ops.at c.inner)) (get_by_index-Stores c.index h.numbers i h.stored)
      ∙ get_elem?-RowsAt c.inner h.numbers xs i h.rows
