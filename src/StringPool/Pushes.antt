-- ===== src/StringPool/Pushes.antt =====
-- Each string that is put into the pool is got back at its number.
use clickhouse_rs.Prelude.{
  ℕ, zero, suc, ◌+◌, ◌-◌, ◌*◌, ◌≤◌, ◌≡◌, refl, sym, ap, ◌∙◌, arith, ltb, ◌||◌, true, false, inl,
  inr, ◌⊎◌, List, [], ◌∷◌, ◌++◌, Bytes, length, length-replicate, replicate, get_elem?, Option,
  some,
}
use Prim.Native.Nat.{max}
use mathlib.Core.List.{append_assoc, append-nil}
use mathlib.Core.Path.{subst}
use native.Mathlib.Decide.{dec_le}
use clickhouse_rs.StringPool.{
  StringPtr, StringPool, with_capacity, free_space, is_nil, reserve, try_allocate, allocate,
  then_write, push, in_chunk, get_by_pointer, push_all, from_vec, get, got, avg_str_size,
}
use clickhouse_rs.StringPool.Chunk.{
  last_len-append, get_elem?-last, get_elem?-before, is_nil-append,
}
use clickhouse_rs.StringPool.Strings.{
  Points, PointsAll, Holds, PointsAll-map, Points-closed, fitting-Holds,
}

-- A pool with no chunk and no string, or one that holds the strings.
abbrev pub Contains : StringPool → List Bytes → Type 0
Contains p xs = ((p.chunks ≡ []) × (p.pointers ≡ []) × (xs ≡ []) × (p.position ≡ 0)) ⊎ Holds p xs

-- In a new chunk there is room.
reserve-Holds :
    (size : ℕ) (p : StringPool) (xs : List Bytes)
    → Contains p xs
    → (h : Holds (reserve size p) xs) × ((reserve size p).position + size ≤ length h.last)
unfolding reserve
reserve-Holds size p xs c =
    let zeros : Bytes = replicate (max (p.capacity * avg_str_size) size) 0 in
    let big : length zeros ≡ max (p.capacity * avg_str_size) size =
      length-replicate (max (p.capacity * avg_str_size) size) 0 in
    (
      record {
        front = p.chunks;
        last = zeros;
        shape = refl;
        room = omega arith;
        points = closed c zeros;
      },
      omega (arith, big),
    )
  where
    closed : Contains p xs → (zeros : Bytes) → PointsAll p.chunks zeros 0 p.pointers xs
    closed (inl (c, ptrs, e, z)) zeros = rw (ptrs, e) tt
    closed (inr h) zeros =
        PointsAll-map h.front p.chunks h.last zeros p.position 0 p.pointers xs
          (λ q x l. rw h.shape (Points-closed h.front h.last zeros p.position q x l)) h.points

free_space-Holds :
    (p : StringPool) (xs : List Bytes) (h : Holds p xs) → free_space p ≡ length h.last - p.position
unfolding free_space
free_space-Holds p xs h = rw (h.shape, last_len-append h.front h.last) refl

allocate_enough :
    (fuel size : ℕ) (p : StringPool)
    → ltb (free_space p) size ≡ false
    → is_nil p.chunks ≡ false
    → allocate (suc fuel) size p ≡ try_allocate size p
unfolding allocate
allocate_enough fuel size p e n = rw (e, n) refl

allocate_short :
    (fuel size : ℕ) (p : StringPool)
    → (ltb (free_space p) size || is_nil p.chunks) ≡ true
    → allocate (suc fuel) size p ≡ allocate fuel size (reserve size p)
unfolding allocate
allocate_short fuel size p e = rw e refl

abbrev pub Pushed : Bytes → List Bytes → Option StringPool → Type 0
Pushed bs xs r = (q : StringPool) × (r ≡ some q) × Holds q (xs ++ bs ∷ [])

module _ (bs : Bytes) (xs : List Bytes) where
  enough-Pushed :
      (fuel : ℕ) (p : StringPool) (h : Holds p xs)
      → p.position + length bs ≤ length h.last
      → Pushed bs xs (then_write bs (allocate (suc fuel) (length bs) p))
  enough-Pushed fuel p h fits =
      let free = free_space-Holds p xs h in
      let test : ltb (free_space p) (length bs) ≡ false = ground arith in
      let some_chunk : is_nil p.chunks ≡ false = ap is_nil h.shape ∙ is_nil-append h.front h.last in
      let (q, e, hq) = fitting-Holds bs p xs h fits in
      (q, ap (then_write bs) (allocate_enough fuel (length bs) p test some_chunk) ∙ e, hq)

  short-Pushed :
      (p : StringPool)
      → Contains p xs
      → (ltb (free_space p) (length bs) || is_nil p.chunks) ≡ true
      → Pushed bs xs (then_write bs (allocate 2 (length bs) p))
  short-Pushed p c e =
      let (h, fits) = reserve-Holds (length bs) p xs c in
      let (q, eq, hq) = enough-Pushed 0 (reserve (length bs) p) h fits in
      (q, ap (then_write bs) (allocate_short 1 (length bs) p e) ∙ eq, hq)

  pub push-Pushed : (p : StringPool) → Contains p xs → Pushed bs xs (push bs p)
  unfolding push
  push-Pushed p (inl (c, ptrs, e, z)) = short-Pushed p (inl (c, ptrs, e, z)) (rw c (ground arith))
  push-Pushed p (inr h) = elim (dec_le (p.position + length bs) (length h.last)) [
    | yes fits ↦ enough-Pushed 1 p h fits
    | no full ↦
        (let free = free_space-Holds p xs h in
          let room = h.room in
          let test : ltb (free_space p) (length bs) ≡ true = ground arith in
          short-Pushed p (inr h) (ap (λ b. b || is_nil p.chunks) test))
  ]

push_all-Contains :
    (ss xs : List Bytes) (p : StringPool)
    → Contains p xs
    → (q : StringPool) × (push_all ss (some p) ≡ some q) × Contains q (xs ++ ss)
push_all-Contains [] xs p c = (p, refl, rw (append-nil xs) c)
push_all-Contains (s ∷ ss) xs p c =
    let (q, e, h) = push-Pushed s xs p c in
    let (r, e', c') = push_all-Contains ss (xs ++ s ∷ []) q (inr h) in
    (r, ap (push_all ss) e ∙ e', rw (sym (append_assoc xs (s ∷ []) ss)) c')

look_up :
    (front : List Bytes) (last : Bytes) (n : ℕ) (ptr : StringPtr) (x : Bytes)
    → Points front last n ptr x
    → in_chunk (get_elem? (front ++ last ∷ []) ptr.chunk) ptr ≡ some x
look_up front last n ptr x (inl (c, g, s)) = rw (get_elem?-before front (last ∷ []) ptr.chunk c g) s
look_up front last n ptr x (inr (k, s, l)) =
    ap (λ j. in_chunk (get_elem? (front ++ last ∷ []) j) ptr) k
    ∙ ap (λ o. in_chunk o ptr) (get_elem?-last front last)
    ∙ s

get-PointsAll :
    (front : List Bytes) (last : Bytes) (n : ℕ) (p : StringPool) (ptrs : List StringPtr)
    (xs : List Bytes) (i : ℕ)
    → p.chunks ≡ front ++ last ∷ []
    → PointsAll front last n ptrs xs
    → got p (get_elem? ptrs i) ≡ get_elem? xs i
unfolding get_by_pointer
get-PointsAll front last n p [] [] i e h = refl
get-PointsAll front last n p [] (x ∷ xs) i e h = absurd h
get-PointsAll front last n p (ptr ∷ ptrs) [] i e h = absurd h
get-PointsAll front last n p (ptr ∷ ptrs) (x ∷ xs) zero e h = rw e (look_up front last n ptr x h.0)
get-PointsAll front last n p (ptr ∷ ptrs) (x ∷ xs) (suc i) e h =
    get-PointsAll front last n p ptrs xs i e h.1

pub get-Contains :
    (p : StringPool) (xs : List Bytes) (i : ℕ) → Contains p xs → get p i ≡ get_elem? xs i
unfolding get
get-Contains p xs i (inl (c, ptrs, e, z)) = rw (ptrs, e) refl
get-Contains p xs i (inr h) =
    get-PointsAll h.front h.last p.position p p.pointers xs i h.shape h.points

-- A pool that is made from strings, of any lengths, is made without a panic, and `get` gives each of them
-- back at its number, and nothing behind the last.
pub get-from_vec :
    (source : List Bytes)
    → (p : StringPool) × (from_vec source ≡ some p) × ((i : ℕ) → get p i ≡ get_elem? source i)
unfolding from_vec with_capacity
get-from_vec source =
    let (q, e, c) =
      push_all-Contains source [] (with_capacity (length source)) (inl (refl, refl, refl, refl)) in
    (q, e, λ i. get-Contains q source i c)

PointsAll-length :
    (front : List Bytes) (last : Bytes) (n : ℕ) (ptrs : List StringPtr) (xs : List Bytes)
    → PointsAll front last n ptrs xs
    → length ptrs ≡ length xs
PointsAll-length front last n [] [] h = refl
PointsAll-length front last n [] (x ∷ xs) h = absurd h
PointsAll-length front last n (ptr ∷ ptrs) [] h = absurd h
PointsAll-length front last n (ptr ∷ ptrs) (x ∷ xs) h =
    ap suc (PointsAll-length front last n ptrs xs h.1)

pub Contains-length :
    (p : StringPool) (xs : List Bytes) → Contains p xs → length p.pointers ≡ length xs
Contains-length p xs (inl (c, ptrs, e, z)) = rw (ptrs, e) refl
Contains-length p xs (inr h) = PointsAll-length h.front h.last p.position p.pointers xs h.points

-- A pool from strings has one pointer for each, and gives them back.
pub from_vec-Contains :
    (source : List Bytes) (p : StringPool)
    → from_vec source ≡ some p
    → (length p.pointers ≡ length source) × ((i : ℕ) → get p i ≡ get_elem? source i)
unfolding from_vec with_capacity
from_vec-Contains source p made =
    let (q, e, c) =
      push_all-Contains source [] (with_capacity (length source)) (inl (refl, refl, refl, refl)) in
    let same : q ≡ p = (let both : some q ≡ some p = sym e ∙ made in cc) in
    (
      subst (λ (r : StringPool). length r.pointers ≡ length source) same
          (Contains-length q source c),
      subst (λ (r : StringPool). (i : ℕ) → get r i ≡ get_elem? source i) same
          (λ i. get-Contains q source i c),
    )
