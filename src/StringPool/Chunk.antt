-- ===== src/StringPool/Chunk.antt =====
-- Writing to a slice of a chunk and reading it.
use clickhouse_rs.Prelude.{
  ℕ, zero, suc, ◌+◌, ◌≤◌, ◌≡◌, refl, ap, arith, leb, true, false, List, [], ◌∷◌, ◌++◌, Bytes,
  length, length-append, length-take, length-drop, take, drop, get_elem?, take-append, some,
}
use clickhouse_rs.StringPool.{StringPtr, overwrite, update, slice, last_len, is_nil}

pub length-overwrite :
    (n : ℕ) (bs c : Bytes) → n + length bs ≤ length c → length (overwrite n bs c) ≡ length c
length-overwrite n bs c h = omega (
  arith,
  length-append (take n c) (bs ++ drop (n + length bs) c),
  length-append bs (drop (n + length bs) c),
  length-take n c,
  length-drop (n + length bs) c,
)

-- What lies in front of the written bytes stays.
front_same :
    (shift len n : ℕ) (rest c : Bytes)
    → shift + len ≤ n
    → n ≤ length c
    → take len (drop shift (take n c ++ rest)) ≡ take len (drop shift c)
front_same zero zero n rest c h b = refl
front_same zero (suc len) zero rest c h b = absurd (omega arith)
front_same zero (suc len) (suc n) rest [] h b = absurd (omega arith)
front_same zero (suc len) (suc n) rest (x ∷ c) h b =
    ap (◌∷◌ x) (front_same zero len n rest c (omega arith) (omega arith))
front_same (suc shift) len zero rest c h b = absurd (omega arith)
front_same (suc shift) len (suc n) rest [] h b = absurd (omega arith)
front_same (suc shift) len (suc n) rest (x ∷ c) h b =
    front_same shift len n rest c (omega arith) (omega arith)

written :
    (n : ℕ) (bs rest c : Bytes)
    → n ≤ length c
    → take (length bs) (drop n (take n c ++ (bs ++ rest))) ≡ bs
written zero bs rest c h = take-append bs rest
written (suc n) bs rest [] h = absurd (omega arith)
written (suc n) bs rest (x ∷ c) h = written n bs rest c (omega arith)

pub slice-overwrite_front :
    (ptr : StringPtr) (n : ℕ) (bs c x : Bytes)
    → ptr.shift + ptr.len ≤ n
    → n + length bs ≤ length c
    → slice c ptr ≡ some x
    → slice (overwrite n bs c) ptr ≡ some x
unfolding slice
slice-overwrite_front ptr n bs c x h b e =
    let i : leb (ptr.shift + ptr.len) (length c) ≡ true = ground arith in
    rw
      (
        length-overwrite n bs c b,
        i,
        front_same ptr.shift ptr.len n (bs ++ drop (n + length bs) c) c h (omega arith),
      )
      (rw i at e)

pub slice-overwrite :
    (k n : ℕ) (bs c : Bytes)
    → n + length bs ≤ length c
    → slice (overwrite n bs c) (record { chunk = k; shift = n; len = length bs }) ≡ some bs
unfolding slice
slice-overwrite k n bs c b =
    let i : leb (n + length bs) (length c) ≡ true = ground arith in
    rw (length-overwrite n bs c b, i)
      (ap some (written n bs (drop (n + length bs) c) c (omega arith)))

-- The last chunk.
pub last_len-append : (front : List Bytes) (c : Bytes) → last_len (front ++ c ∷ []) ≡ length c
unfolding last_len
last_len-append [] c = refl
last_len-append (d ∷ []) c = refl
last_len-append (d ∷ e ∷ front) c = last_len-append (e ∷ front) c

pub update-append :
    (front : List Bytes) (f : Bytes → Bytes) (c : Bytes)
    → update (length front) f (front ++ c ∷ []) ≡ front ++ f c ∷ []
update-append [] f c = refl
update-append (d ∷ front) f c = ap (◌∷◌ d) (update-append front f c)

pub get_elem?-last :
    (front : List Bytes) (c : Bytes) → get_elem? (front ++ c ∷ []) (length front) ≡ some c
get_elem?-last [] c = refl
get_elem?-last (d ∷ front) c = get_elem?-last front c

pub get_elem?-before :
    (front back : List Bytes) (k : ℕ) (x : Bytes)
    → get_elem? front k ≡ some x
    → get_elem? (front ++ back) k ≡ some x
get_elem?-before [] back k x e = absurd cc
get_elem?-before (d ∷ front) back zero x e = e
get_elem?-before (d ∷ front) back (suc k) x e = get_elem?-before front back k x e

pub is_nil-append : (front : List Bytes) (c : Bytes) → is_nil (front ++ c ∷ []) ≡ false
is_nil-append [] c = refl
is_nil-append (d ∷ front) c = refl
