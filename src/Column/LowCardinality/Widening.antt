-- ===== src/Column/LowCardinality/Widening.antt =====
-- src/types/column/low_cardinality.rs: a number is pushed to an index, and the index goes on to a wider type.
use clickhouse_rs.Prelude.{
  ℕ, ◌+◌, ◌%◌, ◌^◌, ◌≤◌, ◌<◌, ◌≡◌, ◌⊎◌, refl, sym, ap, ◌∙◌, arith, ltb, Bool-cases, inl, inr, List,
  [], ◌∷◌, ◌++◌, Bytes, length, some, All-append,
}
use clickhouse_rs.Wire.Scalar.{to_le_bytes}
use clickhouse_rs.Column.Data.{
  IndexType, index_u8, index_u16, index_u32, index_u64, index_size, LowCardinalityIndex,
}
use clickhouse_rs.Column.LowCardinality.{
  vector_values, vector_memory, index_len, max_len, next_type, inc_max_len, push_number,
}
use native.Mathlib.Nat.{mod-eq_of_lt}
use clickhouse_rs.Column.LowCardinality.Index.{
  Fitting, Stores, vector_memory-append, vector_values-vector_memory, memory_one, index_len-Stores,
}

max_len_lem : (t : IndexType) → max_len t + 1 ≡ 256 ^ index_size t
unfolding max_len index_size
max_len_lem index_u8 = refl
max_len_lem index_u16 = refl
max_len_lem index_u32 = refl
max_len_lem index_u64 = refl

-- Each type but the last has a next one, which holds more.
grows :
    (t : IndexType)
    → (256 ^ index_size t ≡ 2 ^ 64)
      ⊎ ((t' : IndexType) × (next_type t ≡ some t') × (256 ^ index_size t < 256 ^ index_size t'))
unfolding next_type index_size
grows index_u8 = inr (index_u16, refl, omega arith)
grows index_u16 = inr (index_u32, refl, omega arith)
grows index_u32 = inr (index_u64, refl, omega arith)
grows index_u64 = inl refl

Fitting-wider : (w w' : ℕ) (vs : List ℕ) → 256 ^ w < 256 ^ w' → Fitting w vs → Fitting w' vs
Fitting-wider w w' [] h f = tt
Fitting-wider w w' (v ∷ vs) h f = (omega arith, Fitting-wider w w' vs h f.1)

-- The index with a wider type stores the same numbers.
inc_max_len-Stores :
    (index : LowCardinalityIndex) (vs : List ℕ) (t' : IndexType)
    → Stores index vs
    → next_type index.kind ≡ some t'
    → 256 ^ index_size index.kind < 256 ^ index_size t'
    → (wider : LowCardinalityIndex) × (inc_max_len index ≡ some wider)
      × (wider.kind ≡ t')
      × Stores wider vs
unfolding inc_max_len
inc_max_len-Stores index vs t' h e more =
    let w = index_size index.kind in
    let same : vector_values w (index_len index) index.memory ≡ vs =
      ap (λ n. vector_values w n index.memory) (index_len-Stores index vs h)
      ∙ ap (vector_values w (length vs)) h.numbers
      ∙ vector_values-vector_memory w vs h.fitting in
    rw e (
      record {
        kind = t';
        memory = vector_memory (index_size t') (vector_values w (index_len index) index.memory);
      },
      refl,
      refl,
      record {
        numbers = ap (vector_memory (index_size t')) same;
        fitting = Fitting-wider w (index_size t') vs more h.fitting;
      },
    )

-- A number behind those that an index stores.
append_number :
    (index : LowCardinalityIndex) (vs : List ℕ) (value : ℕ)
    → Stores index vs
    → value < 256 ^ index_size index.kind
    → Stores
        (record {
          kind = index.kind;
          memory =
              index.memory
              ++ to_le_bytes (index_size index.kind) (value % 256 ^ index_size index.kind);
        })
        (vs ++ value ∷ [])
append_number index vs value h small =
    let w = index_size index.kind in
    record {
      numbers =
          ap (λ (m : Bytes). m ++ to_le_bytes w (value % 256 ^ w)) h.numbers
          ∙ ap (λ v. vector_memory w vs ++ to_le_bytes w v) (mod-eq_of_lt small)
          ∙ sym (ap (◌++◌ (vector_memory w vs)) (memory_one w value))
          ∙ sym (vector_memory-append w vs (value ∷ []));
      fitting = All-append _ vs (value ∷ []) h.fitting (small, tt);
    }

-- `push` of a number that is not above the next row stores it behind the others, in a type that is wide enough for
-- it and is no narrower than before.
pub push_number-Stores :
    (index : LowCardinalityIndex) (vs : List ℕ) (value : ℕ)
    → Stores index vs
    → length vs + 1 < 2 ^ 64
    → value ≤ 256 ^ index_size index.kind
    → value ≤ length vs + 1
    → (pushed : LowCardinalityIndex) × (push_number value index ≡ some pushed)
      × Stores pushed (vs ++ value ∷ [])
      × (value < 256 ^ index_size pushed.kind)
      × (256 ^ index_size index.kind ≤ 256 ^ index_size pushed.kind)
unfolding push_number
push_number-Stores index vs value h short fits near =
    let len = index_len-Stores index vs h in
    let most = max_len_lem index.kind in
    elim (Bool-cases (ltb (max_len index.kind) (index_len index + 1))) [
      | inr e ↦
          let small : value < 256 ^ index_size index.kind = ground arith in
          rw e (_, refl, append_number index vs value h small, small, omega arith)
      | inl e ↦ elim (grows index.kind) [
        | inl top ↦
            let over : max_len index.kind < index_len index + 1 = ground arith in
            absurd (omega arith)
        | inr (t', next, more) ↦
            let (wider, inc, kind, stores) = inc_max_len-Stores index vs t' h next more in
            let size : 256 ^ index_size wider.kind ≡ 256 ^ index_size t' =
              ap (λ t. 256 ^ index_size t) kind in
            let small : value < 256 ^ index_size wider.kind = omega arith in
            rw (e, inc) (_, refl, append_number wider vs value stores small, small, omega arith)
      ]
    ]
