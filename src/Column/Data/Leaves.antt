-- ===== src/Column/Data/Leaves.antt =====
-- The columns without parts are loaded back from what they saved.
use clickhouse_rs.Prelude.{
  ℕ, zero, suc, ◌-◌, ◌*◌, ◌/◌, ◌≤◌, ◌<◌, ◌≡◌, refl, ◌∙◌, arith, leb, true, List, [], ◌++◌, Bytes,
  length, some, All, IsU64,
}
use clickhouse_rs.Wire.Outcome.{done, M, Cursor, cursor_read, then_do, pure}
use clickhouse_rs.Wire.ReadEx.{read_bytes}
use clickhouse_rs.SqlType.{to_string}
use clickhouse_rs.StringPool.{StringPool, from_vec, with_capacity}
use clickhouse_rs.StringPool.Pushes.{from_vec-Contains}
use clickhouse_rs.Column.Data.{
  Number, num_bool, num_u8, num_u16, num_u32, num_u64, num_u128, num_i128, num_f32, num_f64,
  IpVersion, ip_v4, ip_v6, ip_uuid, AnyColumnData, vector, strings, fixed_strings, dates,
  date_times, ips, size_of, ip_size, number_type, ip_type, sql_type, save, save_strings, num_i8,
  num_i16, num_i32, num_i64,
}
use clickhouse_rs.Column.Data.Plain.{plain_names, load_plain}
use clickhouse_rs.Column.Data.Load.{TypeParsers, load_data, load_step}
use clickhouse_rs.Column.Data.Whole.{
  save_data-whole, read_bytes-whole, strings_bytes, save_strings-from, load_strings-written,
  load_fixed-written,
}
use clickhouse_rs.Column.Data.Holds.{TypeParserLaws, name_of}
use clickhouse_rs.Column.Data.Named.{fixed_step, date_time_step}
use native.Mathlib.Nat.{mul-div_cancel}

pub div_whole : (n w : ℕ) → 0 < w → n * w / w ≡ n
div_whole n w h = mul-div_cancel n h

pub size_of_pos : (t : Number) → 0 < size_of t
unfolding size_of
size_of_pos = elim [
  | num_bool ↦ omega arith
  | num_u8 ↦ omega arith
  | num_u16 ↦ omega arith
  | num_u32 ↦ omega arith
  | num_u64 ↦ omega arith
  | num_u128 ↦ omega arith
  | num_i8 ↦ omega arith
  | num_i16 ↦ omega arith
  | num_i32 ↦ omega arith
  | num_i64 ↦ omega arith
  | num_i128 ↦ omega arith
  | num_f32 ↦ omega arith
  | num_f64 ↦ omega arith
]

module _ {Tz : Type 0} (parsers : TypeParsers Tz) (laws : TypeParserLaws parsers) (tz : Tz) where
  -- The output of a column of `n` rows, and that it is loaded back.
  abbrev pub Loads : AnyColumnData Tz → ℕ → Type 0
  Loads d n =
      (bs : Bytes) × (save d 0 n [] ≡ some bs)
      × ((fuel : ℕ) (rest : Bytes)
          → length (name_of parsers d) < fuel
          → load_data parsers fuel (name_of parsers d) n tz (bs ++ rest) ≡ done d rest)

  -- It is enough to look at one call.
  pub by_step :
      (d : AnyColumnData Tz) (n : ℕ) (bs : Bytes)
      → save d 0 n [] ≡ some bs
      → ((fuel : ℕ) (rest : Bytes)
          → length (name_of parsers d) ≤ fuel
          → load_step parsers (load_data parsers fuel) (name_of parsers d) n tz (bs ++ rest)
            ≡ done d rest)
      → Loads d n
  unfolding load_data
  by_step d n bs e h = (bs, e, one)
    where
      one :
          (fuel : ℕ) (rest : Bytes)
          → length (name_of parsers d) < fuel
          → load_data parsers fuel (name_of parsers d) n tz (bs ++ rest) ≡ done d rest
      one zero rest k = absurd (omega arith)
      one (suc fuel) rest k = h fuel rest (omega arith)

  pub vector_named :
      (t : Number) (n : ℕ) (load : Bytes → ℕ → Tz → M Cursor (AnyColumnData Tz))
      → load_step parsers load (to_string parsers.show_tz (number_type t)) n tz
        ≡ (λ s. then_do (read_bytes (n * size_of t) s) (λ m. pure (vector t m)))
  unfolding load_step plain_names load_plain number_type to_string
  vector_named num_bool n load = refl
  vector_named num_u8 n load = refl
  vector_named num_u16 n load = refl
  vector_named num_u32 n load = refl
  vector_named num_u64 n load = refl
  vector_named num_u128 n load = refl
  vector_named num_i8 n load = refl
  vector_named num_i16 n load = refl
  vector_named num_i32 n load = refl
  vector_named num_i64 n load = refl
  vector_named num_i128 n load = refl
  vector_named num_f32 n load = refl
  vector_named num_f64 n load = refl

  pub vector_Loads :
      (t : Number) (m : Bytes) (n : ℕ) → length m ≡ n * size_of t → Loads (vector t m) n
  unfolding save sql_type
  vector_Loads t m n h =
      by_step (vector t m) n m (save_data-whole (size_of t) n m [] h) λ fuel rest k.
        rw (vector_named t n (load_data parsers fuel), read_bytes-whole (n * size_of t) m rest h)

  ip_named :
      (v : IpVersion) (n : ℕ) (load : Bytes → ℕ → Tz → M Cursor (AnyColumnData Tz))
      → load_step parsers load (to_string parsers.show_tz (ip_type v)) n tz
        ≡ (λ s. then_do (read_bytes (n * ip_size v) s) (λ m. pure (ips v m)))
  unfolding load_step plain_names load_plain ip_type to_string
  ip_named ip_v4 n load = refl
  ip_named ip_v6 n load = refl
  ip_named ip_uuid n load = refl

  pub ip_Loads : (v : IpVersion) (m : Bytes) (n : ℕ) → length m ≡ n * ip_size v → Loads (ips v m) n
  unfolding save sql_type
  ip_Loads v m n h = by_step (ips v m) n m (save_data-whole (ip_size v) n m [] h) λ fuel rest k.
      rw (ip_named v n (load_data parsers fuel), read_bytes-whole (n * ip_size v) m rest h)

  pub date_Loads : (m : Bytes) (n : ℕ) → length m ≡ n * 2 → Loads (dates m tz) n
  unfolding save sql_type load_step plain_names load_plain to_string
  date_Loads m n h =
      by_step (dates m tz) n m (save_data-whole 2 n m [] h)
        λ fuel rest k. rw (read_bytes-whole (n * 2) m rest h)

  pub date_time_Loads : (m : Bytes) (n : ℕ) → length m ≡ n * 4 → Loads (date_times m tz) n
  unfolding save sql_type to_string
  date_time_Loads m n h = by_step (date_times m tz) n m (save_data-whole 4 n m [] h) λ fuel rest k.
      date_time_step parsers laws (load_data parsers fuel) n tz (m ++ rest)
      ∙ rw (read_bytes-whole (n * 4) m rest h)

  pub fixed_Loads : (b : Bytes) (l n : ℕ) → length b ≡ n * l → IsU64 l → Loads (fixed_strings b l) n
  unfolding save sql_type to_string
  fixed_Loads b l n h u =
      by_step (fixed_strings b l) n b (save_data-whole l n b [] h) λ fuel rest k.
        fixed_step parsers laws (load_data parsers fuel) n tz l (omega arith) (b ++ rest)
        ∙ rw (load_fixed-written n l [] b rest h)

  strings_saved :
      (p : StringPool) (n : ℕ) (bs : Bytes)
      → save_strings p 0 n [] ≡ some bs
      → save {Tz = Tz} (strings p) 0 n [] ≡ some bs
  unfolding save
  strings_saved p n bs h =
      let in_order : leb 0 n ≡ true = ground arith in
      let count : n - 0 ≡ n = omega arith in rw (in_order, count) h

  pub strings_Loads :
      (p : StringPool) (ss : List Bytes)
      → from_vec ss ≡ some p
      → All (λ s. IsU64 (length s)) ss
      → Loads (strings p) (length ss)
  unfolding sql_type to_string load_step plain_names load_plain from_vec
  strings_Loads p ss e u =
      let (pointers, values) = from_vec-Contains ss p e in
      by_step (strings p) (length ss) (strings_bytes ss)
        (strings_saved p (length ss) (strings_bytes ss)
          (save_strings-from p [] ss [] pointers values))
        λ fuel rest k. rw (load_strings-written ss (with_capacity (length ss)) p rest e u)
