-- ===== src/Column/Data/Whole.antt =====
-- The parts of a column, saved whole and loaded again: memory, offsets and strings.
use clickhouse_rs.Prelude.{
  ℕ, zero, suc, ◌+◌, ◌-◌, ◌*◌, ◌≡◌, refl, sym, ap, ◌∙◌, arith, leb, ltb, true, List, [], ◌∷◌, ◌++◌,
  Bytes, length, take, drop, get_elem?, Option, some, none, All, IsU64, length-append, take-append,
  drop-append,
}
use clickhouse_rs.Wire.Outcome.{done, cursor_read}
use clickhouse_rs.Wire.Scalar.{u64, from_le_bytes, to_le_bytes, uint-IsCodec}
use clickhouse_rs.Wire.Encoder.{Encoder, write, write_bytes, byte_string, uvarint}
use clickhouse_rs.Wire.ReadEx.{read_bytes}
use clickhouse_rs.Wire.Cursor.{read_bytes-append}
use clickhouse_rs.Wire.Uvarint.Encode.{read_uvarint-uvarint}
use clickhouse_rs.StringPool.{
  StringPool, StringPtr, get, allocate, write_all, push, then_write, push_all,
}
use clickhouse_rs.Column.Data.{byte_range, save_data, save_strings, save_offsets}
use clickhouse_rs.Column.Data.Plain.{
  words, last_or, last_offset, read_str_into_buffer, load_strings, load_fixed,
}
use mathlib.Core.Path.{subst}
use mathlib.Core.List.{append_assoc, append-nil}

take_whole : (n : ℕ) (m : Bytes) → length m ≡ n → take n m ≡ m
take_whole n m h =
    ap (λ k. take k m) (sym h) ∙ (ap (take (length m)) (sym (append-nil m)) ∙ take-append m [])

byte_range-whole :
    (from to : ℕ) (m : Bytes) → from ≡ 0 → to ≡ length m → byte_range from to m ≡ some m
unfolding byte_range
byte_range-whole from to m hf ht =
    let in_order : leb from to ≡ true = ground arith in
    let fits : leb to (length m) ≡ true = ground arith in
    let all : take (to - from) (drop from m) ≡ m =
      ap (λ k. take (to - k) (drop k m)) hf ∙ take_whole (to - 0) m (omega arith) in
    rw (in_order, fits, all)

-- All the elements of a memory.
pub save_data-whole :
    (width n : ℕ) (memory encoder : Bytes)
    → length memory ≡ n * width
    → save_data width memory 0 n encoder ≡ some (encoder ++ memory)
unfolding save_data write_bytes
save_data-whole width n memory encoder h =
    rw (byte_range-whole (0 * width) (n * width) memory (omega arith) (omega arith))

pub read_bytes-whole :
    (n : ℕ) (m rest : Bytes) → length m ≡ n → read_bytes n (m ++ rest) ≡ done m rest
read_bytes-whole n m rest h = ap (λ k. read_bytes k (m ++ rest)) (sym h) ∙ read_bytes-append m rest

-- The bytes of offsets.
abbrev pub words_bytes : List ℕ → Bytes
words_bytes [] = []
words_bytes (o ∷ os) = u64.marshal o ++ words_bytes os

pub length-words_bytes : (os : List ℕ) → length (words_bytes os) ≡ length os * 8
length-words_bytes [] = refl
length-words_bytes (o ∷ os) = omega (
  arith,
  length-append (u64.marshal o) (words_bytes os),
  (uint-IsCodec 8).sized o,
  length-words_bytes os,
)

pub words-words_bytes : (os : List ℕ) → All IsU64 os → words (length os) (words_bytes os) ≡ os
words-words_bytes [] h = refl
words-words_bytes (o ∷ os) (ho, hs) =
    let len : length (to_le_bytes 8 o) ≡ 8 = (uint-IsCodec 8).sized o in
    let first : take 8 (to_le_bytes 8 o ++ words_bytes os) ≡ to_le_bytes 8 o =
      ap (λ k. take k (to_le_bytes 8 o ++ words_bytes os)) (sym len)
      ∙ take-append (to_le_bytes 8 o) (words_bytes os) in
    let second : drop 8 (to_le_bytes 8 o ++ words_bytes os) ≡ words_bytes os =
      ap (λ k. drop k (to_le_bytes 8 o ++ words_bytes os)) (sym len)
      ∙ drop-append (to_le_bytes 8 o) (words_bytes os) in
    let word : from_le_bytes (to_le_bytes 8 o) ≡ o = (uint-IsCodec 8).back o (omega arith) in
    rw (first, second, word, words-words_bytes os hs)

get_elem?-append :
    {A : Type 0} (pre : List A) (x : A) (xs : List A)
    → get_elem? (pre ++ x ∷ xs) (length pre) ≡ some x
get_elem?-append [] x xs = refl
get_elem?-append (p ∷ pre) x xs = get_elem?-append pre x xs

-- One element passed by.
length-snoc : {A : Type 0} (pre : List A) (x : A) → length (pre ++ x ∷ []) ≡ length pre + 1
length-snoc pre x = omega (arith, length-append pre (x ∷ []))

pub save_offsets-from :
    (pre os : List ℕ) (o : ℕ) (e : Encoder)
    → save_offsets (pre ++ os) (length pre) (length os) o e
      ≡ some (last_or o os, e ++ words_bytes os)
unfolding save_offsets write write_bytes
save_offsets-from pre [] o e = ap (λ (t : Bytes). some (o, t)) (sym (append-nil e))
save_offsets-from pre (o' ∷ os) o e =
    let next = save_offsets-from (pre ++ o' ∷ []) os o' (write u64 o' e) in
    let shape = append_assoc pre (o' ∷ []) os in
    let moved : save_offsets (pre ++ o' ∷ os) (length pre + 1) (length os) o' (write u64 o' e)
        ≡ some (last_or o' os, (e ++ u64.marshal o') ++ words_bytes os) =
      subst
        (λ (n : ℕ).
          save_offsets (pre ++ o' ∷ os) n (length os) o' (write u64 o' e)
          ≡ some (last_or o' os, (e ++ u64.marshal o') ++ words_bytes os))
        (length-snoc pre o')
        (subst
          (λ (l : List ℕ).
            save_offsets l (length (pre ++ o' ∷ [])) (length os) o' (write u64 o' e)
            ≡ some (last_or o' os, (e ++ u64.marshal o') ++ words_bytes os))
          shape next) in
    rw (get_elem?-append pre o' os) (
      moved
      ∙ ap (λ (t : Bytes). some (last_or o' os, t))
          (append_assoc e (u64.marshal o') (words_bytes os)))

pub save_offsets-whole :
    (os : List ℕ) (e : Encoder)
    → save_offsets os 0 (length os) 0 e ≡ some (last_offset os, e ++ words_bytes os)
save_offsets-whole os e = save_offsets-from [] os 0 e

-- The bytes of strings.
abbrev pub strings_bytes : List Bytes → Bytes
strings_bytes [] = []
strings_bytes (s ∷ ss) = byte_string s [] ++ strings_bytes ss

byte_string-append : (s : Bytes) (e : Encoder) → byte_string s e ≡ e ++ byte_string s []
unfolding byte_string write_bytes uvarint
byte_string-append s e = append_assoc e _ s

pub save_strings-from :
    (pool : StringPool) (pre ss : List Bytes) (e : Encoder)
    → length pool.pointers ≡ length (pre ++ ss)
    → ((i : ℕ) → get pool i ≡ get_elem? (pre ++ ss) i)
    → save_strings pool (length pre) (length ss) e ≡ some (e ++ strings_bytes ss)
unfolding save_strings
save_strings-from pool pre [] e hl hg = ap some (sym (append-nil e))
save_strings-from pool pre (s ∷ ss) e hl hg =
    let shape = append_assoc pre (s ∷ []) ss in
    let next =
      save_strings-from pool (pre ++ s ∷ []) ss (byte_string s e) (hl ∙ ap length (sym shape))
        (λ i. hg i ∙ ap (λ (l : List Bytes). get_elem? l i) (sym shape)) in
    let total = length-append pre (s ∷ ss) in
    let more : ltb (length pre) (length pool.pointers) ≡ true = ground arith in
    let here : get pool (length pre) ≡ some s = hg (length pre) ∙ get_elem?-append pre s ss in
    let written = byte_string-append s e in
    rw (more, here)
      (ap (λ (n : ℕ). save_strings pool n (length ss) (byte_string s e)) (sym (length-snoc pre s))
        ∙ next
        ∙ ap (λ (t : Bytes). some (t ++ strings_bytes ss)) written
        ∙ ap some (append_assoc e (byte_string s []) (strings_bytes ss)))

-- One string.
read_str-written :
    (s : Bytes) (pool : StringPool) (o : Option (StringPool × StringPtr)) (pool' : StringPool)
    (rest : Bytes)
    → allocate 2 (length s) pool ≡ o
    → then_write s o ≡ some pool'
    → IsU64 (length s)
    → read_str_into_buffer pool (byte_string s [] ++ rest) ≡ done pool' rest
unfolding read_str_into_buffer byte_string write_bytes
read_str-written s pool none pool' rest eo h u = absurd (cc)
read_str-written s pool (some a) pool' rest eo h u =
    let same : write_all s a ≡ pool' = cc in
    rw
      (
        append_assoc (uvarint (length s) []) s rest,
        read_uvarint-uvarint (length s) (s ++ rest) u,
        eo,
        read_bytes-append s rest,
      )
      (ap (λ p. done p rest) same)

-- Pushing the first string, and then the others.
push_first :
    (s : Bytes) (ss : List Bytes) (o : Option StringPool) (pool' : StringPool)
    → push_all ss o ≡ some pool'
    → (p : StringPool) × (o ≡ some p)
push_first s ss none pool' h = absurd (let e = push_all_none ss in cc)
  where
    push_all_none : (ss : List Bytes) → push_all ss none ≡ none
    push_all_none [] = refl
    push_all_none (s ∷ ss) = refl
push_first s ss (some p) pool' h = (p, refl)

pub load_strings-written :
    (ss : List Bytes) (pool pool' : StringPool) (rest : Bytes)
    → push_all ss (some pool) ≡ some pool'
    → All (λ s. IsU64 (length s)) ss
    → load_strings (length ss) pool (strings_bytes ss ++ rest) ≡ done pool' rest
unfolding load_strings push
load_strings-written [] pool pool' rest h u =
    let same : pool ≡ pool' = cc in ap (λ p. done p rest) same
load_strings-written (s ∷ ss) pool pool' rest h u =
    let (p, e) = push_first s ss (push s pool) pool' h in
    let first =
      read_str-written s pool (allocate 2 (length s) pool) p (strings_bytes ss ++ rest) refl e
        u.0 in
    let others = load_strings-written ss p pool' rest (ap (push_all ss) (sym e) ∙ h) u.1 in
    rw (append_assoc (byte_string s []) (strings_bytes ss) rest, first) others

length_zero : (m : Bytes) → length m ≡ 0 → m ≡ []
length_zero [] h = refl
length_zero (b ∷ m) h = absurd (omega arith)

split_at :
    (n : ℕ) (m : Bytes) (k : ℕ)
    → length m ≡ n + k
    → (a : Bytes) × (b : Bytes) × (m ≡ a ++ b) × (length a ≡ n) × (length b ≡ k)
split_at zero m k h = ([], m, refl, refl, omega arith)
split_at (suc n) [] k h = absurd (omega arith)
split_at (suc n) (c ∷ m) k h =
    let (a, b, e, ha, hb) = split_at n m k (omega arith) in (c ∷ a, b, ap (◌∷◌ c) e, ap suc ha, hb)

pub load_fixed-written :
    (size str_len : ℕ) (buffer m rest : Bytes)
    → length m ≡ size * str_len
    → load_fixed size str_len buffer (m ++ rest) ≡ done (buffer ++ m) rest
unfolding load_fixed
load_fixed-written zero l buffer m rest h =
    let empty : m ≡ [] = length_zero m (omega arith) in rw (empty, append-nil buffer)
load_fixed-written (suc size) l buffer m rest h =
    let (a, b, e, ha, hb) = split_at l m (size * l) (omega arith) in
    rw (e, append_assoc a b rest, read_bytes-whole l a (b ++ rest) ha)
      (load_fixed-written size l (buffer ++ a) b rest hb
        ∙ ap (λ (t : Bytes). done t rest) (append_assoc buffer a b))
