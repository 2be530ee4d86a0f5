-- ===== src/Column/Concat/Find.antt =====
-- The search of `find_chunk` finds the chunk of a row.
use clickhouse_rs.Prelude.{
  true, ℕ, zero, suc, ◌+◌, ◌-◌, ◌/◌, ◌≤◌, ◌<◌, ◌≡◌, refl, ap, arith, ltb, leb, ◌==◌, Bool-cases,
  inl, inr, List, [], ◌∷◌, length, get_elem?, some,
}
use clickhouse_rs.Column.Concat.{find_loop, find_chunk}
use native.Mathlib.Decide.{dec_le}

-- The entry of a list, 0 out of its range.
abbrev pub nth : List ℕ → ℕ → ℕ
nth [] i = 0
nth (x ∷ xs) zero = x
nth (x ∷ xs) (suc i) = nth xs i

pub get_elem?-nth : (xs : List ℕ) (i : ℕ) → i < length xs → get_elem? xs i ≡ some (nth xs i)
get_elem?-nth [] i h = absurd (omega arith)
get_elem?-nth (x ∷ xs) zero h = refl
get_elem?-nth (x ∷ xs) (suc i) h = get_elem?-nth xs i (omega arith)

module _ (xs : List ℕ) (ix k : ℕ) (mono : (i j : ℕ) → i ≤ j → j < length xs → nth xs i ≤ nth xs j)
    (inside : k + 1 < length xs) (low : nth xs k ≤ ix) (high : ix < nth xs (k + 1)) where
  -- A chunk that begins above the row lies behind the row's, and one that ends at the row or below lies
  -- in front of it.
  before : (m : ℕ) → ix < nth xs m → k < m
  before m h = elim (dec_le (k + 1) m) [
    | yes l ↦ omega arith
    | no l ↦ (let q = mono m k (omega arith) (omega arith) in absurd (omega arith))
  ]

  behind : (m : ℕ) → m + 1 < length xs → nth xs (m + 1) ≤ ix → m < k
  behind m c h = elim (dec_le (m + 1) k) [
    | yes l ↦ omega arith
    | no l ↦ (let q = mono (k + 1) (m + 1) (omega arith) c in absurd (omega arith))
  ]

  -- A chunk that is empty is not the row's.
  passed : (lo : ℕ) → lo ≤ k → nth xs lo ≡ nth xs (lo + 1) → lo < k
  passed lo h e =
      behind lo (omega arith) (let q = mono lo k h (omega arith) in omega (arith, q, e, low))

  found : (m : ℕ) → m + 1 < length xs → nth xs m ≤ ix → ix < nth xs (m + 1) → m ≡ k
  found m c l h = elim (dec_le (m + 1) k) [
    | yes u ↦ (let q = mono (m + 1) k u (omega arith) in absurd (omega arith))
    | no u ↦ (elim (dec_le (k + 1) m) [
      | yes v ↦ (let q = mono (k + 1) m v (omega arith) in absurd (omega arith))
      | no v ↦ omega arith
    ])
  ]

  find_loop_lem :
      (fuel lo hi : ℕ)
      → hi < length xs
      → lo ≤ k
      → k < hi
      → hi - lo < fuel
      → find_loop fuel xs ix lo hi ≡ some k
  unfolding find_loop
  find_loop_lem zero lo hi b l h f = absurd (omega arith)
  find_loop_lem (suc fuel) lo hi b l h f =
      let m : ℕ = lo + (hi - lo) / 2 in
      let mlo : lo ≤ m = omega arith in
      let mhi : m < hi = omega arith in
      let more : ltb lo hi ≡ true = ground arith in
      rw (more, get_elem?-nth xs lo (omega arith), get_elem?-nth xs (lo + 1) (omega arith))
        (elim (Bool-cases (nth xs lo == nth xs (lo + 1))) [
          | inl same ↦ rw same (
              find_loop_lem fuel (lo + 1) hi b (let q = passed lo l (ground arith) in omega arith) h
                (omega arith))
          | inr diff ↦
              rw (diff, get_elem?-nth xs m (omega arith))
                (elim (Bool-cases (ltb ix (nth xs m))) [
                  | inl below ↦ rw below (
                      find_loop_lem fuel lo m (omega arith) l (before m (ground arith))
                        (omega arith))
                  | inr above ↦
                      rw (above, get_elem?-nth xs (m + 1) (omega arith))
                        (elim (Bool-cases (leb (nth xs (m + 1)) ix)) [
                          | inl over ↦ rw over (
                              find_loop_lem fuel (m + 1) hi b
                                (let q = behind m (omega arith) (ground arith) in omega arith) h
                                (omega arith))
                          | inr here ↦
                              rw here
                                (ap some (found m (omega arith) (ground arith) (ground arith)))
                        ])
                ])
        ])

  pub find_chunk_lem : find_chunk xs ix ≡ some k
  unfolding find_chunk
  find_chunk_lem =
      find_loop_lem (length xs) 0 (length xs - 1) (omega arith) (omega arith) (omega arith)
        (omega arith)
