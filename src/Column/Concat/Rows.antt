-- ===== src/Column/Concat/Rows.antt =====
-- A concatenated column has the rows of its chunks, in order.
use clickhouse_rs.Prelude.{
  ℕ, zero, suc, ◌+◌, ◌-◌, ◌≤◌, ◌<◌, ◌≡◌, refl, sym, ap, ◌∙◌, arith, List, [], ◌∷◌, ◌++◌, length,
  length-append, get_elem?, map, some,
}
use clickhouse_rs.Column.Concat.{build_loop, build_index, concat, at}
use clickhouse_rs.Column.Concat.Find.{nth, get_elem?-nth, find_chunk_lem}
use native.Mathlib.Decide.{dec_le}

build_loop_mono :
    (acc : ℕ) (sizes : List ℕ) (i j : ℕ)
    → i ≤ j
    → j < length (acc ∷ build_loop acc sizes)
    → nth (acc ∷ build_loop acc sizes) i ≤ nth (acc ∷ build_loop acc sizes) j
unfolding build_loop
build_loop_mono acc sizes zero zero h b = omega arith
build_loop_mono acc sizes (suc i) zero h b = absurd (omega arith)
build_loop_mono acc [] i (suc j) h b = absurd (omega arith)
build_loop_mono acc (s ∷ sizes) zero (suc j) h b =
    let q = build_loop_mono (acc + s) sizes zero j (omega arith) (omega arith) in omega (arith, q)
build_loop_mono acc (s ∷ sizes) (suc i) (suc j) h b =
    build_loop_mono (acc + s) sizes i j (omega arith) (omega arith)

module _ {ℓ} {A : Type ℓ} where
  -- The rows of the chunks, one chunk behind the other.
  abbrev pub joined : List (List A) → List A
  joined [] = []
  joined (c ∷ cs) = c ++ joined cs

  get_elem?-front :
      (xs ys : List A) (i : ℕ) → i < length xs → get_elem? (xs ++ ys) i ≡ get_elem? xs i
  get_elem?-front [] ys i h = absurd (omega arith)
  get_elem?-front (x ∷ xs) ys zero h = refl
  get_elem?-front (x ∷ xs) ys (suc i) h = get_elem?-front xs ys i (omega arith)

  get_elem?-back : (xs ys : List A) (i : ℕ) → get_elem? (xs ++ ys) (length xs + i) ≡ get_elem? ys i
  get_elem?-back [] ys i = (let e : 0 + i ≡ i = omega arith in rw e refl)
  get_elem?-back (x ∷ xs) ys i =
      let e : suc (length xs) + i ≡ suc (length xs + i) = omega arith in
      rw e (get_elem?-back xs ys i)

  abbrev offsets : ℕ → List (List A) → List ℕ
  offsets acc chunks = acc ∷ build_loop acc (map length chunks)

  -- The chunk of a row, and the row in it.
  record Located (acc : ℕ) (chunks : List (List A)) (ix : ℕ) : Type ℓ where
    pub index : ℕ
    pub chunk : List A
    pub has : get_elem? chunks index ≡ some chunk
    pub inside : suc index < length (offsets acc chunks)
    pub low : nth (offsets acc chunks) index ≤ ix
    pub high : ix < nth (offsets acc chunks) (suc index)
    pub row :
        get_elem? chunk (ix - nth (offsets acc chunks) index) ≡ get_elem? (joined chunks) (ix - acc)

  locate :
      (acc : ℕ) (chunks : List (List A)) (ix : ℕ)
      → acc ≤ ix
      → ix < acc + length (joined chunks)
      → Located acc chunks ix
  unfolding build_loop
  locate acc [] ix l h = absurd (omega arith)
  locate acc (c ∷ cs) ix l h = elim (dec_le (acc + length c) ix) [
    | yes k ↦
        (let r = locate (acc + length c) cs ix k (omega (arith, length-append c (joined cs))) in
          let e : ix - acc ≡ length c + (ix - (acc + length c)) = omega arith in
          record {
            index = suc r.index;
            chunk = r.chunk;
            has = r.has;
            inside = omega (arith, r.inside);
            low = r.low;
            high = r.high;
            row =
                r.row
                ∙ sym (
                    ap (get_elem? (c ++ joined cs)) e
                    ∙ get_elem?-back c (joined cs) (ix - (acc + length c)));
          })
    | no k ↦ record {
      index = 0;
      chunk = c;
      has = refl;
      inside = omega arith;
      low = l;
      high = omega arith;
      row = sym (get_elem?-front c (joined cs) (ix - acc) (omega arith));
    }
  ]

  -- A row below the number of rows of all the chunks is found without a panic, and it is the row of the
  -- chunks put one behind the other; empty chunks among them are passed over.
  pub at-concat :
      (chunks : List (List A)) (ix : ℕ)
      → ix < length (joined chunks)
      → at (concat chunks) ix ≡ get_elem? (joined chunks) ix
  unfolding at concat build_index
  at-concat chunks ix h =
      let r = locate 0 chunks ix (omega arith) (omega arith) in
      let next : r.index + 1 ≡ suc r.index = omega arith in
      let start : ix - 0 ≡ ix = omega arith in
      let high : ix < nth (offsets 0 chunks) (r.index + 1) = rw next r.high in
      rw
        (
          find_chunk_lem (offsets 0 chunks) ix r.index (build_loop_mono 0 (map length chunks))
              (omega (arith, r.inside)) r.low high,
          r.has,
          get_elem?-nth (offsets 0 chunks) r.index (omega (arith, r.inside)),
        )
        (r.row ∙ ap (get_elem? (joined chunks)) start)
