-- ===== src/StringPool/Strings.antt =====
-- The pool holds the strings that were put into it, in order.
use clickhouse_rs.Prelude.{
  ℕ, ◌+◌, ◌-◌, ◌≤◌, ◌≡◌, refl, ap, ◌∙◌, arith, inl, inr, ◌⊎◌, List, [], ◌∷◌, ◌++◌, Bytes, length,
  length-append, get_elem?, some,
}
use clickhouse_rs.StringPool.{
  StringPtr, StringPool, try_allocate, overwrite, write_all, then_write, slice,
}
use clickhouse_rs.StringPool.Chunk.{
  length-overwrite, slice-overwrite_front, slice-overwrite, update-append, get_elem?-last,
  get_elem?-before, is_nil-append,
}

-- The slice of a pointer holds a string; it lies in an earlier chunk, or in the last one below `n`.
abbrev pub Points : List Bytes → Bytes → ℕ → StringPtr → Bytes → Type 0
Points front last n ptr x =
    ((c : Bytes) × (get_elem? front ptr.chunk ≡ some c) × (slice c ptr ≡ some x))
    ⊎ ((ptr.chunk ≡ length front) × (slice last ptr ≡ some x) × (ptr.shift + ptr.len ≤ n))

abbrev pub PointsAll : List Bytes → Bytes → ℕ → List StringPtr → List Bytes → Type 0
PointsAll front last n [] [] = Unit
PointsAll front last n [] (x ∷ xs) = ⊥
PointsAll front last n (ptr ∷ ptrs) [] = ⊥
PointsAll front last n (ptr ∷ ptrs) (x ∷ xs) =
    Points front last n ptr x × PointsAll front last n ptrs xs

pub record Holds (p : StringPool) (xs : List Bytes) : Type 0 where
  pub front : List Bytes
  pub last : Bytes
  pub shape : p.chunks ≡ front ++ last ∷ []
  pub room : p.position ≤ length last
  pub points : PointsAll front last p.position p.pointers xs

pub PointsAll-map :
    (front front' : List Bytes) (last last' : Bytes) (n n' : ℕ) (ptrs : List StringPtr)
    (xs : List Bytes)
    → ((ptr : StringPtr) (x : Bytes) → Points front last n ptr x → Points front' last' n' ptr x)
    → PointsAll front last n ptrs xs
    → PointsAll front' last' n' ptrs xs
PointsAll-map front front' last last' n n' [] [] f h = tt
PointsAll-map front front' last last' n n' [] (x ∷ xs) f h = absurd h
PointsAll-map front front' last last' n n' (ptr ∷ ptrs) [] f h = absurd h
PointsAll-map front front' last last' n n' (ptr ∷ ptrs) (x ∷ xs) f h =
    (f ptr x h.0, PointsAll-map front front' last last' n n' ptrs xs f h.1)

PointsAll-append :
    (front : List Bytes) (last : Bytes) (n : ℕ) (ptrs : List StringPtr) (xs : List Bytes)
    (ptr : StringPtr) (x : Bytes)
    → PointsAll front last n ptrs xs
    → Points front last n ptr x
    → PointsAll front last n (ptrs ++ ptr ∷ []) (xs ++ x ∷ [])
PointsAll-append front last n [] [] ptr x h p = (p, tt)
PointsAll-append front last n [] (y ∷ ys) ptr x h p = absurd h
PointsAll-append front last n (q ∷ ptrs) [] ptr x h p = absurd h
PointsAll-append front last n (q ∷ ptrs) (y ∷ ys) ptr x h p =
    (h.0, PointsAll-append front last n ptrs ys ptr x h.1 p)

-- A chunk that is written above `n`.
Points-overwrite :
    (front : List Bytes) (last : Bytes) (n : ℕ) (bs : Bytes) (ptr : StringPtr) (x : Bytes)
    → n + length bs ≤ length last
    → Points front last n ptr x
    → Points front (overwrite n bs last) (n + length bs) ptr x
Points-overwrite front last n bs ptr x b (inl h) = inl h
Points-overwrite front last n bs ptr x b (inr (k, s, l)) =
    inr (k, slice-overwrite_front ptr n bs last x l b s, omega arith)

-- A chunk that is no longer the last.
pub Points-closed :
    (front : List Bytes) (last last' : Bytes) (n : ℕ) (ptr : StringPtr) (x : Bytes)
    → Points front last n ptr x
    → Points (front ++ last ∷ []) last' 0 ptr x
Points-closed front last last' n ptr x (inl (c, g, s)) =
    inl (c, get_elem?-before front (last ∷ []) ptr.chunk c g, s)
Points-closed front last last' n ptr x (inr (k, s, l)) =
    inl (last, ap (get_elem? (front ++ last ∷ [])) k ∙ get_elem?-last front last, s)

module _ (bs : Bytes) where
  -- A string that fits into the last chunk.
  pub fitting-Holds :
      (p : StringPool) (xs : List Bytes) (h : Holds p xs)
      → p.position + length bs ≤ length h.last
      → (q : StringPool) × (then_write bs (try_allocate (length bs) p) ≡ some q)
        × Holds q (xs ++ bs ∷ [])
  unfolding try_allocate write_all
  fitting-Holds p xs h fits =
      let ptr : StringPtr = record {
        chunk = length h.front;
        shift = p.position;
        len = length bs;
      } in
      let last_index : length (h.front ++ h.last ∷ []) - 1 ≡ length h.front =
        omega (arith, length-append h.front (h.last ∷ [])) in
      (
        record p {
          chunks = h.front ++ overwrite p.position bs h.last ∷ [];
          position = p.position + length bs;
          pointers = p.pointers ++ ptr ∷ [];
        },
        rw
            (
              h.shape,
              is_nil-append h.front h.last,
              last_index,
              update-append h.front (overwrite p.position bs) h.last,
            )
            refl,
        record {
          front = h.front;
          last = overwrite p.position bs h.last;
          shape = refl;
          room = omega (arith, length-overwrite p.position bs h.last fits);
          points =
              PointsAll-append h.front _ _ p.pointers xs ptr bs
                (PointsAll-map h.front h.front h.last _ p.position _ p.pointers xs
                  (λ q x l. Points-overwrite h.front h.last p.position bs q x fits l) h.points)
                (inr
                  (refl, slice-overwrite (length h.front) p.position bs h.last fits, omega arith));
        },
      )
