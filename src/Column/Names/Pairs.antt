-- ===== src/Column/Names/Pairs.antt =====
-- The parsers of the names with two arguments, on the names that `to_string` prints.
use clickhouse_rs.Prelude.{
  All-append, ℕ, ◌+◌, ◌≡◌, ◌≢◌, refl, sym, ap, ◌∙◌, arith, true, false, [], ◌∷◌, ◌++◌, Bytes,
  length, length-append, some, All,
}
use clickhouse_rs.Text.{
  codes, ends_with_char, slice, trim, is_whitespace, trim_matches, trim_start_matches,
  trim_end_matches, starts_char,
}
use clickhouse_rs.Text.Slices.{
  All-imp, trim-Solid, slice_middle, last_of, last_of-append_cons, trim_end_nothing,
  trim_end-append, Other, position-append, find-append,
}
use clickhouse_rs.SqlType.{applied, comma, SimpleAggFunc, func_name}
use clickhouse_rs.SqlType.Names.{
  IsLetter, IsName, IsName-starts_char, IsWord, func_name-IsWord, func_from_str-func_name,
}
use clickhouse_rs.Column.Names.{parsed, parse_map_type, parse_simple_agg_fun, is_parenthesis}
use clickhouse_rs.Column.Names.RoundTrip.{between}
use mathlib.Core.Path.{subst}
use mathlib.Core.List.{append_assoc, append-nil}

pub trim-IsName : (s : Bytes) → IsName s → trim s ≡ s
trim-IsName [] h = refl
trim-IsName (c ∷ s) h =
    let u = h.upper in
    let letter : is_whitespace c ≡ false = ground arith in
    rw letter (trim_end_nothing is_whitespace (c ∷ s) h.tight)

-- The first of two arguments, and the second with the blank in front.
first_arg :
    (k v : Bytes)
    → starts_char (k ++ (b',' ∷ b' ' ∷ v)) ≡ true
    → slice 0 (length k) (comma k v) ≡ some k
first_arg k v h = slice_middle [] k (b',' ∷ b' ' ∷ v) 0 _ refl (omega arith) h refl

second_arg : (k v : Bytes) → slice (length k + 1) (length (comma k v)) (comma k v) ≡ some (b' ' ∷ v)
second_arg k v =
    let total = length-append k (b',' ∷ b' ' ∷ v) in
    let head = length-append k (b',' ∷ []) in
    let split_up : comma k v ≡ (k ++ b',' ∷ []) ++ ((b' ' ∷ v) ++ []) =
      ap (λ (t : Bytes). k ++ (b',' ∷ b' ' ∷ t)) (sym (append-nil v))
      ∙ sym (append_assoc k (b',' ∷ []) ((b' ' ∷ v) ++ [])) in
    ap (slice (length k + 1) (length (comma k v))) split_up
    ∙ slice_middle (k ++ b',' ∷ []) (b' ' ∷ v) [] _ _ (omega arith) (omega arith) refl refl

-- A `Map` whose key's name is ASCII without a comma.
pub parse_map_type-applied :
    (k v : Bytes)
    → IsName k
    → IsName v
    → All (Other b',') k
    → parse_map_type (applied (codes "Map") (comma k v)) ≡ parsed (k, v)
unfolding parse_map_type
parse_map_type-applied k v hk hv no_comma =
    let begins : starts_char (comma k v ++ b')' ∷ []) ≡ true =
      ap starts_char (append_assoc k _ (b')' ∷ [])) ∙ IsName-starts_char k _ hk in
    rw (
      between (codes "Map") (comma k v) 4 (omega arith) begins,
      position-append b',' k (b' ' ∷ v) no_comma,
      first_arg k v (IsName-starts_char k _ hk),
      second_arg k v,
      trim-IsName k hk,
      trim-IsName v hv,
    )

ends_with_char-last : (s : Bytes) (c : ℕ) → ends_with_char (s ++ c ∷ []) c ≡ true
ends_with_char-last [] c = ground arith
ends_with_char-last (x ∷ []) c = ground arith
ends_with_char-last (x ∷ y ∷ s) c = ends_with_char-last (y ∷ s) c

-- The bytes of a word, as the parsers look at them.
IsWord-trim : (s : Bytes) → IsWord s → trim s ≡ s
IsWord-trim s w = trim-Solid s (All-imp s (λ c h. omega (arith, h.0)) w.all)

IsWord-no_comma : (s : Bytes) → IsWord s → All (λ b. b ≢ b',') s
IsWord-no_comma s w = All-imp s (λ c h e. absurd (omega (arith, h.0))) w.all

IsWord-starts_char : (s t : Bytes) → IsWord s → starts_char (s ++ t) ≡ true
IsWord-starts_char s t w =
    let (d, ds) = subst (All IsLetter) w.shape w.all in rw w.shape (ground arith)

-- The arguments, with the parentheses around them taken off, and those that they end with.
trim_parentheses :
    (w t closing : Bytes)
    → IsWord w
    → IsName t
    → is_parenthesis (last_of t) ≡ false
    → All (λ c. is_parenthesis c ≡ true) closing
    → trim_matches is_parenthesis (b'(' ∷ (comma w t ++ closing)) ≡ comma w t
trim_parentheses w t closing hw ht hl hc =
    let (d, ds) = subst (All IsLetter) hw.shape hw.all in
    let letter : is_parenthesis hw.first ≡ false = ground arith in
    let start : trim_start_matches is_parenthesis (comma w t ++ closing) ≡ comma w t ++ closing =
      rw (hw.shape, letter) in
    let nonempty : comma w t ≢ [] = rw hw.shape (λ e. absurd (cc)) in
    let last : is_parenthesis (last_of (comma w t)) ≡ false =
      ap is_parenthesis (last_of-append_cons w (b' ' ∷ t) b',' ∙ last_of_second t ht) ∙ hl in
    ap (trim_end_matches is_parenthesis) start
    ∙ trim_end-append is_parenthesis (comma w t) closing nonempty last hc
  where
    last_of_second : (t : Bytes) → IsName t → last_of (b',' ∷ b' ' ∷ t) ≡ last_of t
    last_of_second [] h = refl
    last_of_second (c ∷ t) h = refl

-- When the inner type of a `SimpleAggregateFunction` has a name that is `t` and then `closing`, where `t` is a name
-- that does not end in a parenthesis and `closing` is parentheses only, the parser gives the function and `t`: an
-- inner type without parentheses at its end is read back, and any other loses them.
pub parse_simple_agg_fun-applied :
    (f : SimpleAggFunc) (t closing : Bytes)
    → IsName t
    → is_parenthesis (last_of t) ≡ false
    → All (λ c. is_parenthesis c ≡ true) closing
    → parse_simple_agg_fun
        (applied (codes "SimpleAggregateFunction") (comma (func_name f) (t ++ closing)))
      ≡ parsed (f, t)
unfolding parse_simple_agg_fun
parse_simple_agg_fun-applied f t closing ht hl hc =
    let w = func_name-IsWord f in
    let args : Bytes = comma (func_name f) (t ++ closing) in
    let shape : args ++ b')' ∷ [] ≡ comma (func_name f) t ++ (closing ++ b')' ∷ []) =
      append_assoc (func_name f) _ (b')' ∷ [])
      ∙ ap (λ (u : Bytes). func_name f ++ (b',' ∷ b' ' ∷ u)) (append_assoc t closing (b')' ∷ []))
      ∙ sym (append_assoc (func_name f) _ _) in
    rw (
      ends_with_char-last (codes "SimpleAggregateFunction" ++ (b'(' ∷ args)) b')',
      tail_slice args,
      shape,
      trim_parentheses (func_name f) t (closing ++ b')' ∷ []) w ht hl
          (All-append _ closing (b')' ∷ []) hc (refl, tt)),
      find-append b',' (func_name f) (b' ' ∷ t) (IsWord-no_comma (func_name f) w),
      first_arg (func_name f) t (IsWord-starts_char (func_name f) _ w),
      second_arg (func_name f) t,
      IsWord-trim (func_name f) w,
      func_from_str-func_name f,
      trim-IsName t ht,
    )
  where
    tail_slice :
        (args : Bytes)
        → slice 23
            (length (applied (codes "SimpleAggregateFunction") args))
            (applied (codes "SimpleAggregateFunction") args)
          ≡ some (b'(' ∷ (args ++ b')' ∷ []))
    tail_slice args =
        ap
          (λ (t : Bytes).
            slice 23 (length (applied (codes "SimpleAggregateFunction") args))
              (codes "SimpleAggregateFunction" ++ t))
          (sym (append-nil (b'(' ∷ (args ++ b')' ∷ []))))
        ∙ slice_middle (codes "SimpleAggregateFunction") (b'(' ∷ (args ++ b')' ∷ [])) [] 23 _ refl
            (omega arith) refl refl
