-- ===== src/Column/LowCardinality/Pushes.antt =====
-- src/types/column/low_cardinality.rs: values that are pushed to a column with a dictionary are its rows.
use clickhouse_rs.Prelude.{
  ℕ, ◌+◌, ◌^◌, ◌≤◌, ◌<◌, ◌≡◌, refl, sym, ◌∙◌, arith, List, [], ◌∷◌, ◌++◌, length, get_elem?, Option,
  some, none, All, length-append,
}
use clickhouse_rs.Column.Concat.{with_elem}
use clickhouse_rs.Column.Data.{index_size}
use clickhouse_rs.Column.LowCardinality.{
  InnerColumn, LowCardinalityColumnData, index_len, get_value, push_found, push_value, row_at,
  empty, vector_memory,
}
use clickhouse_rs.Column.LowCardinality.Index.{index_len-Stores}
use clickhouse_rs.Column.LowCardinality.Widening.{push_number-Stores}
use mathlib.Core.Path.{subst}
use mathlib.Core.List.{append_assoc, append-nil}
use clickhouse_rs.Column.LowCardinality.Rows.{
  InnerColumnLaws, IsAt, Known, HasRows, Stands, length-RowsAt, RowsAt-append, RowsAt-kept,
  Known-kept, the_value_map-Known, get_value-Known, row_at-Stands,
}

module _ {Inner V : Type 0} (ops : InnerColumn Inner V) where
  module _ (IsGood : Inner → Type 0) (Accepts : V → Type 0)
      (laws : InnerColumnLaws ops IsGood Accepts) where
    push_found-Stands :
        (c : LowCardinalityColumnData Inner V) (xs : List V) (v : V) (m : List (V × ℕ))
        (found : Option ℕ)
        → Stands ops c xs
        → IsGood c.inner
        → Accepts v
        → length xs + 1 < 2 ^ 64
        → Known ops c.inner m
        → ((i : ℕ) → found ≡ some i → IsAt ops c.inner i v)
        → (c' : LowCardinalityColumnData Inner V) × (push_found ops v m c found ≡ some c')
          × Stands ops c' (xs ++ v ∷ [])
          × IsGood c'.inner
    unfolding push_found
    push_found-Stands c xs v m (some i) h good a short known found =
        let is = found i refl in
        let count = length-RowsAt ops c.inner h.numbers xs h.rows in
        let (ix, pushed, stored, small, wide) =
          push_number-Stores c.index h.numbers i h.stored (omega arith)
            (omega (arith, h.fits, is.0)) (omega (arith, h.near, is.0)) in
        rw pushed (
          _,
          refl,
          record {
            numbers = h.numbers ++ i ∷ [];
            stored = stored;
            rows = RowsAt-append ops c.inner h.numbers xs i v h.rows is;
            near = omega (arith, h.near, length-append h.numbers (i ∷ []));
            fits = omega (arith, h.fits);
            mapped = known;
          },
          good,
        )
    push_found-Stands c xs v m none h good a short known found =
        let (inner, added, good', more, at, kept) = laws.pushed v c.inner good a in
        let n = ops.len c.inner in
        let count = length-RowsAt ops c.inner h.numbers xs h.rows in
        let (ix, pushed, stored, small, wide) =
          push_number-Stores c.index h.numbers n h.stored (omega arith) h.fits h.near in
        let is : IsAt ops inner n v = (omega arith, at) in
        let before = RowsAt-kept ops c.inner inner more kept h.numbers xs h.rows in
        rw (added, pushed)
          (
            _,
            refl,
            record {
              numbers = h.numbers ++ n ∷ [];
              stored = stored;
              rows = RowsAt-append ops inner h.numbers xs n v before is;
              near = omega (arith, h.near, length-append h.numbers (n ∷ []));
              fits = omega arith;
              mapped = (is, Known-kept ops c.inner inner more kept m known);
            },
            good',
          )

    -- `push` puts a value that the inner column takes behind the rows, whether the dictionary has it or not.
    push_value-Stands :
        (c : LowCardinalityColumnData Inner V) (xs : List V) (v : V)
        → Stands ops c xs
        → IsGood c.inner
        → Accepts v
        → length xs + 1 < 2 ^ 64
        → (c' : LowCardinalityColumnData Inner V) × (push_value ops v c ≡ some c')
          × Stands ops c' (xs ++ v ∷ [])
          × IsGood c'.inner
    unfolding push_value
    push_value-Stands c xs v h good a short =
        let (m, map, known) = the_value_map-Known ops c xs h in
        rw map (
          push_found-Stands c xs v m (get_value ops v m) h good a short known
            (λ i. get_value-Known ops laws.same c.inner v m i known))

  -- A new column has no rows.
  pub empty-HasRows : (inner : Inner) → ops.len inner ≡ 0 → HasRows ops (empty ops inner) []
  unfolding empty vector_memory
  empty-HasRows inner h = record {
    numbers = [];
    stored = record { numbers = refl; fitting = tt };
    rows = tt;
    mapped = tt;
  }

  HasRows-Stands :
      (c : LowCardinalityColumnData Inner V) (xs : List V)
      → HasRows ops c xs
      → ops.len c.inner ≤ length xs + 1
      → ops.len c.inner ≤ 256 ^ index_size c.index.kind
      → Stands ops c xs
  HasRows-Stands c xs h near fits = record {
    numbers = h.numbers;
    stored = h.stored;
    rows = h.rows;
    near = omega (arith, near, length-RowsAt ops c.inner h.numbers xs h.rows);
    fits = fits;
    mapped = h.mapped;
  }

  -- One `push` after the other.
  abbrev pub push_values :
      List V → LowCardinalityColumnData Inner V → Option (LowCardinalityColumnData Inner V)
  push_values [] c = some c
  push_values (v ∷ vs) c = with_elem (push_value ops v c) (push_values vs)

  module _ (IsGood : Inner → Type 0) (Accepts : V → Type 0)
      (laws : InnerColumnLaws ops IsGood Accepts) where
    push_values-Stands :
        (c : LowCardinalityColumnData Inner V) (xs ys : List V)
        → Stands ops c xs
        → IsGood c.inner
        → All Accepts ys
        → length (xs ++ ys) < 2 ^ 64
        → (c' : LowCardinalityColumnData Inner V) × (push_values ys c ≡ some c')
          × Stands ops c' (xs ++ ys)
    push_values-Stands c xs [] h good a short =
        (c, refl, subst (Stands ops c) (sym (append-nil xs)) h)
    push_values-Stands c xs (y ∷ ys) h good (ay, a) short =
        let shape = append_assoc xs (y ∷ []) ys in
        let (next, pushed, stands, good') =
          push_value-Stands IsGood Accepts laws c xs y h good ay
            (omega (arith, short, length-append xs (y ∷ ys))) in
        let (last, rest, all) =
          push_values-Stands next (xs ++ y ∷ []) ys stands good' a
            (subst (λ (l : List V). length l < 2 ^ 64) (sym shape) short) in
        rw pushed (last, rest, subst (Stands ops last) shape all)

    -- When a well-formed inner column keeps what it takes and stays well-formed, which takes that it is not shared, and
    -- its values are equal only to themselves, as a column of strings, values that are pushed to a column with a dictionary are its rows behind those it had: no push
    -- panics, each value is at its place, also after the index has gone on to a wider type, and behind the last
    -- row there is none. Fewer than 2^64 rows in all are taken, and that the dictionary had at most one value more
    -- than there were rows and no more values than the index type has numbers, as a new column has.
    pub row_at-push_values :
        (c : LowCardinalityColumnData Inner V) (xs ys : List V)
        → HasRows ops c xs
        → ops.len c.inner ≤ length xs + 1
        → ops.len c.inner ≤ 256 ^ index_size c.index.kind
        → IsGood c.inner
        → All Accepts ys
        → length (xs ++ ys) < 2 ^ 64
        → (c' : LowCardinalityColumnData Inner V) × (push_values ys c ≡ some c')
          × (index_len c'.index ≡ length (xs ++ ys))
          × ((i : ℕ) → row_at ops c' i ≡ get_elem? (xs ++ ys) i)
    row_at-push_values c xs ys h near fits good a short =
        let (last, pushed, stands) =
          push_values-Stands c xs ys (HasRows-Stands c xs h near fits) good a short in
        (
          last,
          pushed,
          index_len-Stores last.index stands.numbers stands.stored
              ∙ length-RowsAt ops last.inner stands.numbers (xs ++ ys) stands.rows,
          λ i. row_at-Stands ops last (xs ++ ys) i stands,
        )
