-- ===== src/Block/Load.antt =====
-- Loading a block: what a successful load promises, and that it is incremental.
use clickhouse_rs.Prelude.{ℕ, zero, suc, ◌+◌, ◌≡◌, refl, sym, ap, ◌∙◌, arith, Bool, true}
use clickhouse_rs.Prelude.{◌==◌, ◌||◌, List, [], ◌∷◌, ◌++◌, Bytes, length, All, All-append}
use clickhouse_rs.Prelude.{Bool-cases, ==_iff, Option, some, none, ◌⊎◌, inl, inr, length-append}
use mathlib.Core.Path.{subst}
use clickhouse_rs.Wire.Outcome.{done, Cursor, cursor_read, then_do-done}
use clickhouse_rs.Wire.Incremental.{
  Incremental, pure-Incremental, panics-Incremental, >>=-Incremental,
}
use clickhouse_rs.Wire.Reads.{read_uvarint-Incremental}
use clickhouse_rs.Wire.ReadEx.{read_uvarint}
use clickhouse_rs.Column.{ColumnData, LoadLaws, Column, col_len, col_read}
use clickhouse_rs.Column.Laws.{col_read-Incremental}
use clickhouse_rs.Block.Info.{BlockInfo, read-Incremental, read}
use clickhouse_rs.Block.{
  Block, new_block, column_count, is_empty, columns_row_count, row_count, append_column, or_panic,
  load_columns, raw_load,
}

module _ {Data Tz : Type 0} (ops : ColumnData Data Tz) where
  -- All columns have `rows` rows.
  abbrev pub Uniform : ℕ → List (Column Data) → Type 0
  Uniform rows = All (λ c. col_len ops c ≡ rows)

  same_size :
      (cs : List (Column Data)) (rows n : ℕ)
      → Uniform rows cs
      → n ≡ rows
      → (is_empty cs || columns_row_count ops cs == n) ≡ true
  unfolding is_empty columns_row_count
  same_size [] rows n u e = refl
  same_size (c ∷ cs) rows n u e = ground (arith, u.0)

  columns_row_count-Uniform :
      (cs : List (Column Data)) (rows : ℕ)
      → Uniform rows cs
      → (length cs ≡ 0) ⊎ (columns_row_count ops cs ≡ rows)
  unfolding columns_row_count
  columns_row_count-Uniform [] rows u = inl refl
  columns_row_count-Uniform (c ∷ cs) rows u = inr u.0

  pub append_fits :
      (c : Column Data) (b : Block Data) (rows : ℕ)
      → Uniform rows b.columns
      → col_len ops c ≡ rows
      → append_column ops c b ≡ some (record b { columns = b.columns ++ c ∷ [] })
  unfolding append_column row_count
  append_fits c b rows h e = rw (same_size b.columns rows (col_len ops c) h e)

  pub append-Uniform :
      (cs : List (Column Data)) (c : Column Data) (rows : ℕ)
      → Uniform rows cs
      → col_len ops c ≡ rows
      → Uniform rows (cs ++ c ∷ [])
  append-Uniform cs c rows h e = All-append (λ d. col_len ops d ≡ rows) cs (c ∷ []) h (e, tt)

module _ {Data Tz : Type 0} (ops : ColumnData Data Tz) (laws : LoadLaws ops)
    (is_utf8 : Bytes → Bool) where
  or_panic-Incremental : {A : Type 0} (o : Option A) → Incremental (or_panic ops {S = Cursor} o)
  or_panic-Incremental none = panics-Incremental
  or_panic-Incremental (some a) = pure-Incremental a

  load_columns-Incremental :
      (n rows : ℕ) (tz : Tz) (revision : ℕ) (b : Block Data)
      → Incremental (load_columns ops is_utf8 n rows tz revision b)
  unfolding load_columns
  load_columns-Incremental zero rows tz revision b = pure-Incremental b
  load_columns-Incremental (suc n) rows tz revision b =
      >>=-Incremental (col_read ops is_utf8 rows tz revision) _
        (col_read-Incremental ops laws is_utf8 rows tz revision)
        λ c.
          >>=-Incremental (or_panic ops (append_column ops c b)) _
            (or_panic-Incremental (append_column ops c b))
            λ b'. load_columns-Incremental n rows tz revision b'

  pub raw_load-Incremental :
      (tz : Tz) (revision : ℕ) → Incremental (raw_load ops is_utf8 tz revision)
  unfolding raw_load
  raw_load-Incremental tz revision = >>=-Incremental read _ read-Incremental λ info.
      >>=-Incremental read_uvarint _ read_uvarint-Incremental λ n.
        >>=-Incremental read_uvarint _ read_uvarint-Incremental
          λ rows. load_columns-Incremental n rows tz revision (record new_block { info = info })

module _ {Data Tz : Type 0} (ops : ColumnData Data Tz) (is_utf8 : Bytes → Bool) where
  or_panic-done :
      {A : Type 0} (o : Option A) (s : Cursor) (a : A) (r : Cursor)
      → or_panic ops o s ≡ done a r
      → o ≡ some a
  or_panic-done none s a r e = absurd cc
  or_panic-done (some x) s a r e = (let q : x ≡ a = cc in ap some q)

  snoc-Uniform :
      (cs : List (Column Data)) (c : Column Data)
      → Uniform ops (columns_row_count ops cs) cs
      → (is_empty cs || columns_row_count ops cs == col_len ops c) ≡ true
      → Uniform ops (columns_row_count ops (cs ++ c ∷ [])) (cs ++ c ∷ [])
  unfolding is_empty columns_row_count
  snoc-Uniform [] c h e = (refl, tt)
  snoc-Uniform (x ∷ cs) c h e =
      append-Uniform ops (x ∷ cs) c (col_len ops x) h
        (sym ((==_iff (col_len ops x) (col_len ops c)).0 e))

  -- A column that is appended has the length of those before it.
  append_column-Uniform :
      (c : Column Data) (b b' : Block Data)
      → Uniform ops (row_count ops b) b.columns
      → append_column ops c b ≡ some b'
      → Uniform ops (row_count ops b') b'.columns × (length b'.columns ≡ length b.columns + 1)
  unfolding append_column row_count columns_row_count is_empty
  append_column-Uniform c b b' h e =
      elim (Bool-cases (is_empty b.columns || columns_row_count ops b.columns == col_len ops c)) [
        | inl t ↦
            let f : some (record b { columns = b.columns ++ c ∷ [] }) ≡ some b' = rw t at e in
            let q : record b { columns = b.columns ++ c ∷ [] } ≡ b' = cc in
            (
              subst (λ (x : Block Data). Uniform ops (row_count ops x) x.columns) q
                  (snoc-Uniform b.columns c h t),
              omega (
                arith,
                ap (λ (x : Block Data). length x.columns) q,
                length-append b.columns (c ∷ []),
              ),
            )
        | inr t ↦
            let gone : Option (Block Data) = none in let f : gone ≡ some b' = rw t at e in absurd cc
      ]

  load_columns-Uniform :
      (n rows : ℕ) (tz : Tz) (revision : ℕ) (b : Block Data) (s : Cursor) (b' : Block Data)
      (r : Cursor)
      → Uniform ops (row_count ops b) b.columns
      → load_columns ops is_utf8 n rows tz revision b s ≡ done b' r
      → Uniform ops (row_count ops b') b'.columns × (length b'.columns ≡ length b.columns + n)
  unfolding load_columns
  load_columns-Uniform zero rows tz revision b s b' r h e =
      let q : b ≡ b' = cc in
      (
        subst (λ (x : Block Data). Uniform ops (row_count ops x) x.columns) q h,
        omega (arith, ap (λ (x : Block Data). length x.columns) q),
      )
  load_columns-Uniform (suc n) rows tz revision b s b' r h e =
      let (c, s1, e1, k1) = then_do-done (col_read ops is_utf8 rows tz revision s) _ e in
      let (next, s2, e2, k2) = then_do-done (or_panic ops (append_column ops c b) s1) _ k1 in
      let (u, count) =
        append_column-Uniform c b next h (or_panic-done (append_column ops c b) s1 next s2 e2) in
      let (v, total) = load_columns-Uniform n rows tz revision next s2 b' r u k2 in
      (v, omega (arith, count, total))

  -- Whatever the column implementations do, a block that `raw_load` returns has as many columns as its second field
  -- says, and all of them have one length, the block's row count.
  pub raw_load-Uniform :
      (tz : Tz) (revision : ℕ) (s : Cursor) (b : Block Data) (r : Cursor)
      → raw_load ops is_utf8 tz revision s ≡ done b r
      → Uniform ops (row_count ops b) b.columns
        × ((info : BlockInfo) × (s1 s2 : Cursor) × (read s ≡ done info s1)
            × (read_uvarint s1 ≡ done (column_count b) s2))
  unfolding raw_load column_count row_count new_block
  raw_load-Uniform tz revision s b r e =
      let (info, s1, e1, k1) = then_do-done (read s) _ e in
      let (n, s2, e2, k2) = then_do-done (read_uvarint s1) _ k1 in
      let (rows, s3, e3, k3) = then_do-done (read_uvarint s2) _ k2 in
      let (u, count) =
        load_columns-Uniform n rows tz revision (record new_block { info = info }) s3 b r tt k3 in
      (u, (info, s1, s2, e1, e2 ∙ ap (λ k. done k s2) (omega (arith, count))))
