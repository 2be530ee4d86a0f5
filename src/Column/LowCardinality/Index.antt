-- ===== src/Column/LowCardinality/Index.antt =====
-- src/types/column/low_cardinality.rs: the index of a column with a dictionary as the list of its numbers.
use clickhouse_rs.Prelude.{
  ℕ, zero, suc, ◌+◌, ◌-◌, ◌*◌, ◌/◌, ◌^◌, ◌≤◌, ◌<◌, ◌≡◌, ◌⊎◌, refl, sym, ap, ◌∙◌, arith, leb, true,
  false, inl, inr, List, [], ◌∷◌, ◌++◌, Bytes, length, take, drop, get_elem?, some, none, All,
  length-append, take-append, drop-append, drop-drop, drop_nil,
}
use clickhouse_rs.Wire.Scalar.{from_le_bytes, to_le_bytes, uint-IsCodec}
use clickhouse_rs.Column.Concat.{with_elem}
use clickhouse_rs.Column.Data.{
  IndexType, index_u8, index_u16, index_u32, index_u64, index_size, LowCardinalityIndex, byte_range,
}
use clickhouse_rs.Column.LowCardinality.{vector_values, vector_memory, index_len, get_by_index}
use mathlib.Core.List.{append_assoc, append-nil}
use native.Mathlib.Nat.{mul-div_cancel, mul-le-mul_right}

abbrev pub Fitting : ℕ → List ℕ → Type 0
Fitting width vs = All (λ v. v < 256 ^ width) vs

-- A word in front.
take_word : (w v : ℕ) (rest : Bytes) → take w (to_le_bytes w v ++ rest) ≡ to_le_bytes w v
take_word w v rest =
    ap (λ k. take k (to_le_bytes w v ++ rest)) (sym ((uint-IsCodec w).sized v))
    ∙ take-append (to_le_bytes w v) rest

drop_word : (w v : ℕ) (rest : Bytes) → drop w (to_le_bytes w v ++ rest) ≡ rest
drop_word w v rest =
    ap (λ k. drop k (to_le_bytes w v ++ rest)) (sym ((uint-IsCodec w).sized v))
    ∙ drop-append (to_le_bytes w v) rest

length-vector_memory : (w : ℕ) (vs : List ℕ) → length (vector_memory w vs) ≡ length vs * w
unfolding vector_memory
length-vector_memory w [] = omega arith
length-vector_memory w (v ∷ vs) =
    let e = length-append (to_le_bytes w v) (vector_memory w vs) in
    let f : length (to_le_bytes w v) ≡ w = (uint-IsCodec w).sized v in
    let g = length-vector_memory w vs in
    let h : suc (length vs) * w ≡ w + length vs * w = omega arith in omega arith

pub vector_memory-append :
    (w : ℕ) (xs ys : List ℕ) → vector_memory w (xs ++ ys) ≡ vector_memory w xs ++ vector_memory w ys
unfolding vector_memory
vector_memory-append w [] ys = refl
vector_memory-append w (x ∷ xs) ys =
    rw (vector_memory-append w xs ys) (sym (append_assoc (to_le_bytes w x) _ _))

pub vector_values-vector_memory :
    (w : ℕ) (vs : List ℕ) → Fitting w vs → vector_values w (length vs) (vector_memory w vs) ≡ vs
unfolding vector_values vector_memory
vector_values-vector_memory w [] h = refl
vector_values-vector_memory w (v ∷ vs) (hv, hs) = rw (
  take_word w v (vector_memory w vs),
  drop_word w v (vector_memory w vs),
  (uint-IsCodec w).back v hv,
  vector_values-vector_memory w vs hs,
)

-- The words from the `i`-th on.
drop_words :
    (w i : ℕ) (vs : List ℕ) → drop (i * w) (vector_memory w vs) ≡ vector_memory w (drop i vs)
unfolding vector_memory
drop_words w zero vs = (let e : 0 * w ≡ 0 = omega arith in rw e refl)
drop_words w (suc i) [] = drop_nil (suc i * w)
drop_words w (suc i) (v ∷ vs) =
    let e : suc i * w ≡ i * w + w = omega arith in
    rw e (
      sym (drop-drop (i * w) w (to_le_bytes w v ++ vector_memory w vs))
      ∙ ap (drop (i * w)) (drop_word w v (vector_memory w vs))
      ∙ drop_words w i vs)

-- What an index of a type stores.
pub record Stores (index : LowCardinalityIndex) (vs : List ℕ) : Type 0 where
  pub numbers : index.memory ≡ vector_memory (index_size index.kind) vs
  pub fitting : Fitting (index_size index.kind) vs

index_size_pos : (t : IndexType) → 0 < index_size t
unfolding index_size
index_size_pos index_u8 = omega arith
index_size_pos index_u16 = omega arith
index_size_pos index_u32 = omega arith
index_size_pos index_u64 = omega arith

pub index_len-Stores :
    (index : LowCardinalityIndex) (vs : List ℕ) → Stores index vs → index_len index ≡ length vs
unfolding index_len
index_len-Stores index vs h =
    let w = index_size index.kind in
    let pos = index_size_pos index.kind in
    ap (λ (m : Bytes). length m / w) h.numbers
    ∙ ap (λ (n : ℕ). n / w) (length-vector_memory w vs)
    ∙ mul-div_cancel (length vs) pos

memory_cons :
    (w v : ℕ) (vs : List ℕ) → vector_memory w (v ∷ vs) ≡ to_le_bytes w v ++ vector_memory w vs
unfolding vector_memory
memory_cons w v vs = refl

pub memory_one : (w v : ℕ) → vector_memory w (v ∷ []) ≡ to_le_bytes w v
unfolding vector_memory
memory_one w v = append-nil (to_le_bytes w v)

-- A place is behind the numbers or is one of them.
at_cases :
    (w i : ℕ) (vs : List ℕ)
    → Fitting w vs
    → ((length vs ≤ i) × (get_elem? vs i ≡ none))
      ⊎ ((v : ℕ) × (rest : List ℕ) × (i < length vs)
          × (get_elem? vs i ≡ some v)
          × (drop i vs ≡ v ∷ rest)
          × (v < 256 ^ w))
at_cases w i [] h = inl (omega arith, refl)
at_cases w zero (v ∷ vs) h = inr (v, vs, omega arith, refl, refl, h.0)
at_cases w (suc i) (v ∷ vs) h = elim (at_cases w i vs h.1) [
  | inl (far, e) ↦ inl (omega arith, e)
  | inr (x, rest, near, e, d, f) ↦ inr (x, rest, omega arith, e, d, f)
]

get_inside :
    (w i : ℕ) (vs : List ℕ)
    → 0 < w
    → Fitting w vs
    → with_elem
        (byte_range (i * w) ((i + 1) * w) (vector_memory w vs))
        (λ bs. some (from_le_bytes bs))
      ≡ get_elem? vs i
unfolding byte_range
get_inside w i vs pos h =
    let len = length-vector_memory w vs in
    let next : (i + 1) * w ≡ i * w + w = omega arith in
    let one : (i + 1) * w - i * w ≡ w = omega arith in
    let up : leb (i * w) ((i + 1) * w) ≡ true = ground arith in
    elim (at_cases w i vs h) [
      | inl (far, e) ↦
          let below : length vs * w ≤ i * w = mul-le-mul_right w far in
          let out : leb ((i + 1) * w) (length (vector_memory w vs)) ≡ false = ground arith in
          rw (up, out, e)
      | inr (v, rest, near, e, d, f) ↦
          let below : (i + 1) * w ≤ length vs * w = mul-le-mul_right w (omega arith) in
          let inside : leb ((i + 1) * w) (length (vector_memory w vs)) ≡ true = ground arith in
          let words : drop (i * w) (vector_memory w vs) ≡ to_le_bytes w v ++ vector_memory w rest =
            drop_words w i vs ∙ ap (vector_memory w) d ∙ memory_cons w v rest in
          rw (
            up,
            inside,
            one,
            words,
            take_word w v (vector_memory w rest),
            (uint-IsCodec w).back v f,
            e,
          )
    ]

pub get_by_index-Stores :
    (index : LowCardinalityIndex) (vs : List ℕ) (i : ℕ)
    → Stores index vs
    → get_by_index index i ≡ get_elem? vs i
unfolding get_by_index
get_by_index-Stores index vs i h =
    let w = index_size index.kind in
    ap
      (λ (m : Bytes).
        with_elem (byte_range (i * w) ((i + 1) * w) m) (λ bs. some (from_le_bytes bs)))
      h.numbers
    ∙ get_inside w i vs (index_size_pos index.kind) h.fitting
