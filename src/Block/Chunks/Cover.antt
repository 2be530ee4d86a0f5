-- ===== src/Block/Chunks/Cover.antt =====
-- The pieces of a block cover its rows.
use clickhouse_rs.Prelude.{
  ℕ, zero, suc, ◌+◌, ◌-◌, ◌≤◌, ◌<◌, ◌≡◌, refl, sym, ap, ◌∙◌, arith, min, leb, ◌==◌, true, false,
  List, [], ◌∷◌, ◌++◌, map, some,
}
use mathlib.Core.List.{append_assoc, append-nil}
use native.Mathlib.Decide.{dec_le}
use clickhouse_rs.Column.{ColumnData, Column, slice, col_len, body_len}
use clickhouse_rs.Block.{Block, new_block, row_count}
use clickhouse_rs.Block.Load.{Uniform, append_fits, append-Uniform}
use clickhouse_rs.Block.Chunks.{
  ChunkIterator, ended, item, chunks, after_next, slice_columns, next, collect, keep,
}

module _ {Data Tz : Type 0} (ops : ColumnData Data Tz) where
  -- The pieces are those of adjacent ranges from `from` to `rows`, of one to `size` rows each.
  abbrev pub Covers : ℕ → ℕ → List (Column Data) → ℕ → List (Block Data) → Type 0
  Covers size rows cs from [] = from ≡ rows
  Covers size rows cs from (b ∷ bs) =
      (to : ℕ) × (from < to)
      × (to ≤ from + size)
      × (to ≤ rows)
      × (b.columns ≡ map (λ c. slice ops c from to) cs)
      × Covers size rows cs to bs

  slice_columns_lem :
      (from to : ℕ) (cs : List (Column Data)) (result : Block Data)
      → Uniform ops (to - from) result.columns
      → slice_columns ops from to cs result
        ≡ some (record result { columns = result.columns ++ map (λ c. slice ops c from to) cs })
  unfolding slice_columns
  slice_columns_lem from to [] result u =
      ap (λ x. some (record result { columns = x })) (sym (append-nil result.columns))
  slice_columns_lem from to (c ∷ cs) result u =
      let s : Column Data = slice ops c from to in
      let e : col_len ops s ≡ to - from = unfold slice col_len body_len in refl in
      let ih =
        slice_columns_lem from to cs (record result { columns = result.columns ++ s ∷ [] })
          (append-Uniform ops result.columns s (to - from) u e) in
      rw (append_fits ops s result (to - from) u e) (
        ih
        ∙ ap (λ x. some (record result { columns = x })) (append_assoc result.columns (s ∷ []) _))

  module _ (size : ℕ) (b : Block Data) (rows : ℕ) (counted : row_count ops b ≡ rows) where
    abbrev at_row : ℕ → ChunkIterator Data
    at_row position = record { position = position; size = size; block = b }

    next_ended : 0 < rows → next ops (at_row rows) ≡ ended
    unfolding next
    next_ended h =
        let more : (rows == 0) ≡ false = ground arith in
        let over : leb rows rows ≡ true = ground arith in rw (counted, more, over) refl

    abbrev piece : ℕ → ℕ → Block Data
    piece from to = record new_block { columns = map (λ c. slice ops c from to) b.columns }

    next-piece :
        (position : ℕ)
        → position < rows
        → next ops (at_row position)
          ≡ item
              (piece position (position + min size (rows - position)))
              (at_row (position + min size (rows - position)))
    unfolding next
    next-piece position h =
        let more : (rows == 0) ≡ false = ground arith in
        let on : leb rows position ≡ false = ground arith in
        rw
          (
            counted,
            more,
            on,
            slice_columns_lem position (position + min size (rows - position)) b.columns new_block
                tt,
          )
          refl

    collect-Covers :
        (fuel position : ℕ)
        → 0 < size
        → 0 < rows
        → position ≤ rows
        → rows - position < fuel
        → (bs : List (Block Data)) × (collect ops fuel (at_row position) ≡ some bs)
          × Covers size rows b.columns position bs
    unfolding collect
    collect-Covers zero position s r l f = absurd (omega arith)
    collect-Covers (suc fuel) position s r l f = elim (dec_le rows position) [
      | yes e ↦
          (let same : position ≡ rows = omega arith in
            let stop : next ops (at_row position) ≡ ended =
              ap (λ p. next ops (at_row p)) same ∙ next_ended r in
            ([], ap (λ t. after_next t (λ it. collect ops fuel it)) stop, same))
      | no e ↦
          (let to : ℕ = position + min size (rows - position) in
            let (bs, eq, cover) = collect-Covers fuel to s r (omega arith) (omega arith) in
            (
              piece position to ∷ bs,
              ap (λ t. after_next t (λ it. collect ops fuel it)) (next-piece position (omega arith))
                  ∙ ap (keep (piece position to)) eq,
              (to, omega arith, omega arith, omega arith, refl, cover),
            ))
    ]

  -- A block of one row at least, in pieces of `size` rows, not 0: the iterator ends after at most as many
  -- pieces as there are rows, and does not panic; the pieces are the columns over adjacent ranges that begin
  -- at 0 and end at the last row, each of one to `size` rows.
  pub chunks-Covers :
      (size : ℕ) (b : Block Data)
      → 0 < size
      → 0 < row_count ops b
      → (bs : List (Block Data)) × (collect ops (suc (row_count ops b)) (chunks size b) ≡ some bs)
        × Covers size (row_count ops b) b.columns 0 bs
  unfolding chunks
  chunks-Covers size b s r =
      collect-Covers size b (row_count ops b) refl (suc (row_count ops b)) 0 s r (omega arith)
        (omega arith)
