-- ===== src/Column/Concat.antt =====
-- src/types/column/concat.rs: the column that a query's blocks are concatenated into.
-- A chunk is the list of its values.
pub mod Find
pub mod Rows
use clickhouse_rs.Prelude.{
  ℕ, zero, suc, ◌+◌, ◌-◌, ◌/◌, ltb, leb, ◌==◌, if◌then◌else◌, List, [], ◌∷◌, length, get_elem?, map,
  Option, some, none,
}

-- The loop of `build_index`, on `acc`.
unfoldable pub build_loop : ℕ → List ℕ → List ℕ
build_loop acc [] = []
build_loop acc (size ∷ sizes) = (acc + size) ∷ build_loop (acc + size) sizes

unfoldable pub build_index : List ℕ → List ℕ
build_index sizes = 0 ∷ build_loop 0 sizes

-- An access to a slice: out of its range the code panics, `none`.
abbrev pub with_elem {ℓ κ} : {A : Type ℓ} {B : Type κ} → Option A → (A → Option B) → Option B
with_elem none f = none
with_elem (some a) f = f a

-- The loop of `find_chunk`, on `lo` and `hi`; it has no other way to answer `none` than a panic or
-- the end of its fuel.
unfoldable pub find_loop : ℕ → List ℕ → ℕ → ℕ → ℕ → Option ℕ
find_loop zero index ix lo hi = none
find_loop (suc fuel) index ix lo hi =
    if ltb lo hi
    then with_elem (get_elem? index lo) (λ a. with_elem (get_elem? index (lo + 1)) (λ b.
      if a == b
      then find_loop fuel index ix (lo + 1) hi
      else with_elem (get_elem? index (lo + (hi - lo) / 2)) (λ c.
        if ltb ix c
        then find_loop fuel index ix lo (lo + (hi - lo) / 2)
        else with_elem (get_elem? index (lo + (hi - lo) / 2 + 1)) (λ d.
          if leb d ix
          then find_loop fuel index ix (lo + (hi - lo) / 2 + 1) hi
          else some (lo + (hi - lo) / 2)))))
    else some 0

unfoldable pub find_chunk : List ℕ → ℕ → Option ℕ
find_chunk index ix = find_loop (length index) index ix 0 (length index - 1)

-- `ConcatColumnData`
pub record ConcatColumnData {ℓ} (A : Type ℓ) : Type ℓ where
  pub chunks : List (List A)
  pub index : List ℕ

module _ {ℓ} {A : Type ℓ} where
  -- `concat`, on chunks of one type.
  unfoldable pub concat : List (List A) → ConcatColumnData A
  concat chunks = record { chunks = chunks; index = build_index (map length chunks) }

  -- `at`; `none` is a panic.
  unfoldable pub at : ConcatColumnData A → ℕ → Option A
  at c ix = with_elem (find_chunk c.index ix) λ chunk_index.
      with_elem (get_elem? c.chunks chunk_index)
        λ chunk. with_elem (get_elem? c.index chunk_index) λ first. get_elem? chunk (ix - first)
