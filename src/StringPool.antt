-- ===== src/StringPool.antt =====
-- src/types/column/string_pool.rs: strings in chunks of memory.
-- A slice that `allocate` gives is its pointer, and writing to it changes the chunk.
pub mod Chunk
pub mod Strings
pub mod Pushes
use clickhouse_rs.Prelude.{
  ℕ, zero, suc, ◌+◌, ◌-◌, ◌*◌, ltb, leb, ◌||◌, if◌then◌else◌, Bool, true, false, List, [], ◌∷◌,
  ◌++◌, Bytes, length, take, drop, replicate, get_elem?, Option, some, none,
}
use Prim.Native.Nat.{max}

abbrev pub avg_str_size : ℕ
avg_str_size = 80

pub record StringPtr : Type 0 where
  pub chunk : ℕ
  pub shift : ℕ
  pub len : ℕ

pub record StringPool : Type 0 where
  pub chunks : List Bytes
  pub pointers : List StringPtr
  pub position : ℕ
  pub capacity : ℕ

unfoldable pub with_capacity : ℕ → StringPool
with_capacity capacity = record { chunks = []; pointers = []; position = 0; capacity = capacity }

-- The length of the last chunk, 0 with none.
unfoldable pub last_len : List Bytes → ℕ
last_len [] = 0
last_len (c ∷ []) = length c
last_len (c ∷ d ∷ cs) = last_len (d ∷ cs)

unfoldable pub free_space : StringPool → ℕ
unfolding last_len
free_space p = last_len p.chunks - p.position

abbrev pub is_nil : List Bytes → Bool
is_nil [] = true
is_nil (c ∷ cs) = false

unfoldable pub reserve : ℕ → StringPool → StringPool
reserve size p = record p {
  position = 0;
  chunks = p.chunks ++ replicate (max (p.capacity * avg_str_size) size) 0 ∷ [];
}

-- The pool and the slice; `none` with no chunk.
unfoldable pub try_allocate : ℕ → StringPool → Option (StringPool × StringPtr)
try_allocate size p =
    let ptr : StringPtr = record { chunk = length p.chunks - 1; shift = p.position; len = size } in
    if is_nil p.chunks
    then none
    else some (record p { position = p.position + size; pointers = p.pointers ++ ptr ∷ [] }, ptr)

-- `allocate`, which calls itself after it has reserved a chunk.
unfoldable pub allocate : ℕ → ℕ → StringPool → Option (StringPool × StringPtr)
unfolding free_space reserve try_allocate
allocate zero size p = none
allocate (suc fuel) size p =
    if ltb (free_space p) size || is_nil p.chunks
    then allocate fuel size (reserve size p)
    else try_allocate size p

abbrev pub overwrite : ℕ → Bytes → Bytes → Bytes
overwrite shift bs c = take shift c ++ (bs ++ drop (shift + length bs) c)

abbrev pub update : ℕ → (Bytes → Bytes) → List Bytes → List Bytes
update k f [] = []
update zero f (c ∷ cs) = f c ∷ cs
update (suc k) f (c ∷ cs) = c ∷ update k f cs

-- `write_all` into the slice, of as many bytes as it has.
unfoldable pub write_all : Bytes → StringPool × StringPtr → StringPool
write_all bs (p, ptr) = record p { chunks = update ptr.chunk (overwrite ptr.shift bs) p.chunks }

abbrev pub then_write : Bytes → Option (StringPool × StringPtr) → Option StringPool
then_write bs none = none
then_write bs (some a) = some (write_all bs a)

-- One round of `From<Vec<T>>`.
unfoldable pub push : Bytes → StringPool → Option StringPool
unfolding allocate write_all
push bs p = then_write bs (allocate 2 (length bs) p)

-- The slice of a chunk; out of its range the read is undefined, `none`.
unfoldable pub slice : Bytes → StringPtr → Option Bytes
slice c ptr =
    if leb (ptr.shift + ptr.len) (length c) then some (take ptr.len (drop ptr.shift c)) else none

abbrev pub in_chunk : Option Bytes → StringPtr → Option Bytes
in_chunk none ptr = none
in_chunk (some c) ptr = slice c ptr

unfoldable pub get_by_pointer : StringPool → StringPtr → Option Bytes
unfolding slice
get_by_pointer p ptr = in_chunk (get_elem? p.chunks ptr.chunk) ptr

abbrev pub got : StringPool → Option StringPtr → Option Bytes
got p none = none
got p (some ptr) = get_by_pointer p ptr

-- `get`; `none` is a panic.
unfoldable pub get : StringPool → ℕ → Option Bytes
unfolding get_by_pointer
get p index = got p (get_elem? p.pointers index)

abbrev pub push_all : List Bytes → Option StringPool → Option StringPool
push_all ss none = none
push_all [] (some p) = some p
push_all (s ∷ ss) (some p) = push_all ss (push s p)

-- `From<Vec<T>>`
unfoldable pub from_vec : List Bytes → Option StringPool
unfolding push with_capacity
from_vec source = push_all source (some (with_capacity (length source)))
