-- ===== src/SqlType/Names.antt =====
-- The names of the types: how they begin, and the functions of aggregates read back.
use clickhouse_rs.Prelude.{
  All, Bool-cases, inl, inr, sym, Bytes, ℕ, ◌≤◌, ◌++◌, [], ◌∷◌, arith, ◌∙◌, Bool, true, false, leb,
  ◌&&◌, ap, ◌≡◌, refl, some,
}
use clickhouse_rs.Text.{codes, starts_char, is_whitespace}
use clickhouse_rs.Text.Slices.{last_of, last_of-append, last_of-append_cons}
use clickhouse_rs.SqlType.{
  SqlType, DateTimeType, to_string, applied, SimpleAggFunc, func_name, func_from_str,
}

-- The name of an aggregate function is read back as the function.
pub func_from_str-func_name : (f : SimpleAggFunc) → func_from_str (func_name f) ≡ some f
unfolding func_from_str func_name
func_from_str-func_name = elim [
  | SimpleAggFunc.any ↦ refl
  | SimpleAggFunc.any_last ↦ refl
  | SimpleAggFunc.min ↦ refl
  | SimpleAggFunc.max ↦ refl
  | SimpleAggFunc.sum ↦ refl
  | SimpleAggFunc.sum_with_overflow ↦ refl
  | SimpleAggFunc.group_bit_and ↦ refl
  | SimpleAggFunc.group_bit_or ↦ refl
  | SimpleAggFunc.group_bit_xor ↦ refl
  | SimpleAggFunc.group_array_array ↦ refl
  | SimpleAggFunc.group_uniq_array_array ↦ refl
  | SimpleAggFunc.sum_map ↦ refl
  | SimpleAggFunc.min_map ↦ refl
  | SimpleAggFunc.max_map ↦ refl
  | SimpleAggFunc.arg_min ↦ refl
  | SimpleAggFunc.arg_max ↦ refl
]

abbrev pub starts_upper : Bytes → Bool
starts_upper [] = false
starts_upper (c ∷ s) = leb b'A' c && leb c b'Z'

-- A name begins with a capital and does not end with white space.
pub record IsName (s : Bytes) : Type 0 where
  pub upper : starts_upper s ≡ true
  pub tight : is_whitespace (last_of s) ≡ false

upper_first : (c : ℕ) → (leb b'A' c && leb c b'Z') ≡ true → (b'A' ≤ c) × (c ≤ b'Z')
upper_first c h = ground arith

pub IsName-starts_char : (s t : Bytes) → IsName s → starts_char (s ++ t) ≡ true
IsName-starts_char [] t h = absurd (let u = h.upper in cc)
IsName-starts_char (c ∷ s) t h = let (lo, hi) = upper_first c h.upper in ground arith

starts_upper-append : (s t : Bytes) → starts_upper s ≡ true → starts_upper (s ++ t) ≡ true
starts_upper-append [] t h = absurd (cc)
starts_upper-append (c ∷ s) t h = h

pub applied-IsName : (name args : Bytes) → starts_upper name ≡ true → IsName (applied name args)
applied-IsName name args h = record {
  upper = starts_upper-append name _ h;
  tight =
      ap is_whitespace
        (last_of-append_cons name (args ++ b')' ∷ []) b'(' ∙ last_of-append (b'(' ∷ args) b')');
}

module _ {Tz : Type 0} (show_tz : Tz → Bytes) where
  constant : (s : Bytes) → starts_upper s ≡ true → is_whitespace (last_of s) ≡ false → IsName s
  constant s u t = record { upper = u; tight = t }

  -- The name of each type is one.
  pub to_string-IsName : (t : SqlType Tz) → IsName (to_string show_tz t)
  unfolding to_string
  to_string-IsName = elim [
    | SqlType.bool ↦ constant (codes "Bool") refl refl
    | SqlType.uint8 ↦ constant (codes "UInt8") refl refl
    | SqlType.uint16 ↦ constant (codes "UInt16") refl refl
    | SqlType.uint32 ↦ constant (codes "UInt32") refl refl
    | SqlType.uint64 ↦ constant (codes "UInt64") refl refl
    | SqlType.uint128 ↦ constant (codes "UInt128") refl refl
    | SqlType.int8 ↦ constant (codes "Int8") refl refl
    | SqlType.int16 ↦ constant (codes "Int16") refl refl
    | SqlType.int32 ↦ constant (codes "Int32") refl refl
    | SqlType.int64 ↦ constant (codes "Int64") refl refl
    | SqlType.int128 ↦ constant (codes "Int128") refl refl
    | SqlType.string ↦ constant (codes "String") refl refl
    | SqlType.float32 ↦ constant (codes "Float32") refl refl
    | SqlType.float64 ↦ constant (codes "Float64") refl refl
    | SqlType.date ↦ constant (codes "Date") refl refl
    | SqlType.ipv4 ↦ constant (codes "IPv4") refl refl
    | SqlType.ipv6 ↦ constant (codes "IPv6") refl refl
    | SqlType.uuid ↦ constant (codes "UUID") refl refl
    | SqlType.fixed_string n ↦ applied-IsName (codes "FixedString") _ refl
    | SqlType.date_time (DateTimeType.date_time64 p tz) ↦ applied-IsName (codes "DateTime64") _ refl
    | SqlType.date_time DateTimeType.date_time32 ↦ constant (codes "DateTime") refl refl
    | SqlType.date_time DateTimeType.chrono ↦ constant (codes "DateTime") refl refl
    | SqlType.nullable t ↦ applied-IsName (codes "Nullable") _ refl
    | SqlType.array t ↦ applied-IsName (codes "Array") _ refl
    | SqlType.low_cardinality t ↦ applied-IsName (codes "LowCardinality") _ refl
    | SqlType.decimal p s ↦ applied-IsName (codes "Decimal") _ refl
    | SqlType.enum8 vs ↦ applied-IsName (codes "Enum8") _ refl
    | SqlType.enum16 vs ↦ applied-IsName (codes "Enum16") _ refl
    | SqlType.simple_aggregate_function f t ↦
        applied-IsName (codes "SimpleAggregateFunction") _ refl
    | SqlType.map k v ↦ applied-IsName (codes "Map") _ refl
  ]

abbrev pub IsLetter : ℕ → Type 0
IsLetter c = (65 ≤ c) × (c ≤ 122)

abbrev all_letters : Bytes → Bool
all_letters [] = true
all_letters (c ∷ s) = (leb 65 c && leb c 122) && all_letters s

-- One letter at least, and nothing but letters.
pub record IsWord (s : Bytes) : Type 0 where
  pub first : ℕ
  pub more : Bytes
  pub shape : s ≡ first ∷ more
  pub all : All IsLetter s

letters : (s : Bytes) → all_letters s ≡ true → All IsLetter s
letters [] h = tt
letters (c ∷ s) h = elim (Bool-cases (leb 65 c && leb c 122)) [
  | inl e ↦
      (let rest : all_letters s ≡ true = ap (λ b. b && all_letters s) (sym e) ∙ h in
        (ground arith, letters s rest))
  | inr e ↦ (let f : false ≡ true = ap (λ b. b && all_letters s) (sym e) ∙ h in absurd (cc))
]

word : (c : ℕ) (s : Bytes) → all_letters (c ∷ s) ≡ true → IsWord (c ∷ s)
word c s h = record { first = c; more = s; shape = refl; all = letters (c ∷ s) h }

pub func_name-IsWord : (f : SimpleAggFunc) → IsWord (func_name f)
unfolding func_name
func_name-IsWord = elim [
  | SimpleAggFunc.any ↦ word _ _ refl
  | SimpleAggFunc.any_last ↦ word _ _ refl
  | SimpleAggFunc.min ↦ word _ _ refl
  | SimpleAggFunc.max ↦ word _ _ refl
  | SimpleAggFunc.sum ↦ word _ _ refl
  | SimpleAggFunc.sum_with_overflow ↦ word _ _ refl
  | SimpleAggFunc.group_bit_and ↦ word _ _ refl
  | SimpleAggFunc.group_bit_or ↦ word _ _ refl
  | SimpleAggFunc.group_bit_xor ↦ word _ _ refl
  | SimpleAggFunc.group_array_array ↦ word _ _ refl
  | SimpleAggFunc.group_uniq_array_array ↦ word _ _ refl
  | SimpleAggFunc.sum_map ↦ word _ _ refl
  | SimpleAggFunc.min_map ↦ word _ _ refl
  | SimpleAggFunc.max_map ↦ word _ _ refl
  | SimpleAggFunc.arg_min ↦ word _ _ refl
  | SimpleAggFunc.arg_max ↦ word _ _ refl
]
