-- ===== src/Column/Data/Dictionary.antt =====
-- A column of low cardinality is loaded back: the dictionary, and the numbers of its values.
use clickhouse_rs.Prelude.{
  ℕ, ◌-◌, ◌*◌, ◌≤◌, ◌<◌, ◌≡◌, refl, sym, ap, ◌∙◌, arith, leb, ◌==◌, true, false, [], ◌∷◌, ◌++◌,
  Bytes, length, length-append, some, IsU64, bit_and,
}
use clickhouse_rs.Wire.Outcome.{done, Cursor, cursor_read, then_do, pure}
use clickhouse_rs.Wire.Scalar.{u64, uint-IsCodec}
use clickhouse_rs.Wire.Encoder.{write, write_bytes}
use clickhouse_rs.Wire.ReadEx.{read_bytes, read_loop, read_scalar}
use clickhouse_rs.Wire.RoundTrip.{read_scalar-write}
use clickhouse_rs.Text.{codes}
use clickhouse_rs.SqlType.{to_string, applied}
use clickhouse_rs.SqlType.Names.{to_string-IsName}
use clickhouse_rs.Column.Data.{
  IndexType, index_u8, index_u16, index_u32, index_u64, LowCardinalityIndex, get_flags,
  low_cardinality_version, byte_range, save_data, save_strings, save_offsets, AnyColumnData, vector,
  strings, fixed_strings, dates, date_times, date_times64, ips, nullables, arrays, maps, decimals,
  enums8, enums16, simple_aggregates, low_cardinalities, size_of, ip_size, index_size, sql_type,
  len, save, save_strings, num_i8, num_i16,
}
use clickhouse_rs.Column.Data.Plain.{from_flags, load_index, read_prefix}
use clickhouse_rs.Column.Data.Load.{TypeParsers, load_data, read_inner, read_dictionary}
use clickhouse_rs.Column.Data.Appends.{save-AppendsTo}
use clickhouse_rs.Column.Data.Whole.{save_data-whole, read_bytes-whole}
use clickhouse_rs.Column.Data.Holds.{TypeParserLaws, nobits_number, name_of, Holds}
use clickhouse_rs.Column.Data.Named.{low_cardinality_step}
use mathlib.Core.List.{append_assoc, append-nil}
use mathlib.Core.Path.{subst}
use clickhouse_rs.Column.Data.Leaves.{Loads, by_step}

read_u64 : (v : ℕ) (rest : Bytes) → IsU64 v → read_scalar u64 (u64.marshal v ++ rest) ≡ done v rest
unfolding write write_bytes
read_u64 v rest h = read_scalar-write u64 v rest (uint-IsCodec 8) (omega arith)

-- What the flags say about the index.
flags_known :
    (kind : IndexType)
    → (from_flags (get_flags kind) ≡ some kind)
      × ((bit_and (get_flags kind) 0x100 == 0) ≡ true)
      × ((bit_and (get_flags kind) 0x200 == 0) ≡ false)
      × IsU64 (get_flags kind)
unfolding from_flags get_flags
flags_known index_u8 = (refl, refl, refl, omega arith)
flags_known index_u16 = (refl, refl, refl, omega arith)
flags_known index_u32 = (refl, refl, refl, omega arith)
flags_known index_u64 = (refl, refl, refl, omega arith)

load_index-nothing :
    (rest : Cursor)
    → load_index 0 index_u8 rest ≡ done (record { kind = index_u8; memory = [] }) rest
unfolding load_index read_bytes read_loop index_size
load_index-nothing rest = refl

-- No rows are no bytes.
save_data-nothing : (width : ℕ) (m : Bytes) → save_data width m 0 0 [] ≡ some []
unfolding save_data byte_range write_bytes
save_data-nothing width m =
    let none_read : 0 * width ≡ 0 = omega arith in
    let fits : leb 0 (length m) ≡ true = ground arith in rw (none_read, fits)

module _ {Tz : Type 0} (parsers : TypeParsers Tz) (tz : Tz) where
  pub save-nothing : (d : AnyColumnData Tz) → Holds parsers tz d → save d 0 0 [] ≡ some []
  unfolding save Holds save_strings save_offsets
  save-nothing (vector t m) h = save_data-nothing (size_of t) m
  save-nothing (strings p) h = refl
  save-nothing (fixed_strings b l) h = save_data-nothing l b
  save-nothing (dates m z) h = save_data-nothing 2 m
  save-nothing (date_times m z) h = save_data-nothing 4 m
  save-nothing (date_times64 m p z) h = absurd h
  save-nothing (ips v m) h = save_data-nothing (ip_size v) m
  save-nothing (nullables nulls inner) h = rw (save_data-nothing 1 nulls, save-nothing inner h.0)
  save-nothing (arrays os inner) h = save-nothing inner h.0
  save-nothing (maps size os keys values) h =
      rw (save-nothing keys h.0.0, save-nothing values h.1.0)
  save-nothing (decimals p s b inner) (hp, hs, (m, e, n)) =
      ap (λ (d : AnyColumnData Tz). save d 0 0 []) e
      ∙ save_data-nothing (size_of (nobits_number b)) m
  save-nothing (enums8 vs inner) (hp, (m, e, n)) =
      ap (λ (d : AnyColumnData Tz). save d 0 0 []) e ∙ save_data-nothing (size_of num_i8) m
  save-nothing (enums16 vs inner) (hn, hp, (m, e, n)) =
      ap (λ (d : AnyColumnData Tz). save d 0 0 []) e ∙ save_data-nothing (size_of num_i16) m
  save-nothing (simple_aggregates f inner) h = save-nothing inner h.0
  save-nothing (low_cardinalities index inner) h = refl

module _ {Tz : Type 0} (parsers : TypeParsers Tz) (laws : TypeParserLaws parsers) (tz : Tz) where
  part_shorter :
      (inner : Bytes) (fuel : ℕ)
      → length (applied (codes "LowCardinality") inner) ≤ fuel
      → length inner < fuel
  part_shorter inner fuel h = omega (arith, length-append inner (b')' ∷ []))

  same_index :
      (index : LowCardinalityIndex)
      → index.memory ≡ []
      → index.kind ≡ index_u8
      → record { kind = index_u8; memory = [] } ≡ index
  same_index index hm hk i = record { kind = sym hk i; memory = sym hm i }

  -- Without rows only the types are there.
  pub empty_Loads :
      (index : LowCardinalityIndex) (inner : AnyColumnData Tz)
      → index.memory ≡ []
      → index.kind ≡ index_u8
      → Holds parsers tz inner
      → Loads parsers laws tz inner 0
      → Loads parsers laws tz (low_cardinalities index inner) 0
  unfolding save sql_type to_string read_inner
  empty_Loads index inner hm hk held (bs, saved, back) =
      let none_saved : bs ≡ [] = (let none = save-nothing parsers tz inner held in cc) in
      by_step parsers laws tz (low_cardinalities index inner) 0 [] refl λ fuel rest k.
        rw
          (
            low_cardinality_step parsers laws (load_data parsers fuel) 0 tz (name_of parsers inner)
                (to_string-IsName parsers.show_tz (sql_type inner)),
            subst
                (λ (b : Bytes).
                  load_data parsers fuel (name_of parsers inner) 0 tz (b ++ rest) ≡ done inner rest)
                none_saved (back fuel rest (part_shorter (name_of parsers inner) fuel k)),
          )
          (ap (λ o. then_do o (λ keys. pure (low_cardinalities keys inner)))
              (load_index-nothing rest)
            ∙ ap (λ index. done (low_cardinalities index inner) rest) (same_index index hm hk))

  -- The output of a dictionary of `k` values and of `n` rows.
  abbrev dictionary_bytes : LowCardinalityIndex → ℕ → Bytes → ℕ → Bytes → Bytes
  dictionary_bytes index k bs n rest =
      u64.marshal low_cardinality_version
      ++ (u64.marshal (get_flags index.kind)
          ++ (u64.marshal k ++ (bs ++ (u64.marshal n ++ (index.memory ++ rest)))))

  dictionary_bytes-rest :
      (index : LowCardinalityIndex) (k : ℕ) (bs : Bytes) (n : ℕ) (rest : Bytes)
      → dictionary_bytes index k bs n [] ++ rest ≡ dictionary_bytes index k bs n rest
  dictionary_bytes-rest index k bs n rest = simp (append_assoc, append-nil)

  read_dictionary-written :
      (index : LowCardinalityIndex) (inner : AnyColumnData Tz) (k n fuel : ℕ) (bs rest : Bytes)
      → IsU64 k
      → IsU64 n
      → length index.memory ≡ n * index_size index.kind
      → ((rest : Bytes)
          → load_data parsers fuel (name_of parsers inner) k tz (bs ++ rest) ≡ done inner rest)
      → read_dictionary parsers
          (load_data parsers fuel)
          (name_of parsers inner)
          tz
          (dictionary_bytes index k bs n rest)
        ≡ done (low_cardinalities index inner) rest
  unfolding read_dictionary read_prefix load_index
  read_dictionary-written index inner k n fuel bs rest hk hn hm back =
      let (known, no_global, keys, fits) = flags_known index.kind in
      let same : (get_flags index.kind == get_flags index.kind) ≡ true = ground arith in
      rw (
        read_u64 low_cardinality_version
            (u64.marshal (get_flags index.kind)
              ++ (u64.marshal k ++ (bs ++ (u64.marshal n ++ (index.memory ++ rest)))))
            (omega arith),
        read_u64 (get_flags index.kind)
            (u64.marshal k ++ (bs ++ (u64.marshal n ++ (index.memory ++ rest)))) fits,
        known,
        no_global,
        keys,
        read_u64 k (bs ++ (u64.marshal n ++ (index.memory ++ rest))) hk,
        back (u64.marshal n ++ (index.memory ++ rest)),
        read_u64 n (index.memory ++ rest) hn,
        read_bytes-whole (n * index_size index.kind) index.memory rest hm,
        same,
      )

  dictionary_saved :
      (index : LowCardinalityIndex) (inner : AnyColumnData Tz) (k n : ℕ) (bs : Bytes)
      → 0 < n
      → len inner ≡ some k
      → save inner 0 k [] ≡ some bs
      → length index.memory ≡ n * index_size index.kind
      → save (low_cardinalities index inner) 0 n [] ≡ some (dictionary_bytes index k bs n [])
  unfolding save write write_bytes
  dictionary_saved index inner k n bs hn hl saved hm =
      let some_rows : (0 == n) ≡ false = ground arith in
      let count : n - 0 ≡ n = omega arith in
      let header : Bytes =
        (u64.marshal low_cardinality_version ++ u64.marshal (get_flags index.kind))
        ++ u64.marshal k in
      rw
        (
          some_rows,
          hl,
          save-AppendsTo inner 0 k header,
          saved,
          count,
          save_data-whole (index_size index.kind) n index.memory ((header ++ bs) ++ u64.marshal n)
              hm,
        )
        (ap some (simp (append_assoc, append-nil)))

  pub dictionary_Loads :
      (index : LowCardinalityIndex) (inner : AnyColumnData Tz) (k n : ℕ)
      → 0 < n
      → IsU64 n
      → IsU64 k
      → len inner ≡ some k
      → length index.memory ≡ n * index_size index.kind
      → Loads parsers laws tz inner k
      → Loads parsers laws tz (low_cardinalities index inner) n
  unfolding sql_type to_string read_inner
  dictionary_Loads index inner k n pos hn hk hl hm (bs, saved, back) =
      let some_rows : (n == 0) ≡ false = ground arith in
      by_step parsers laws tz (low_cardinalities index inner) n (dictionary_bytes index k bs n [])
        (dictionary_saved index inner k n bs pos hl saved hm)
        λ fuel rest h.
          rw
            (
              low_cardinality_step parsers laws (load_data parsers fuel) n tz
                  (name_of parsers inner) (to_string-IsName parsers.show_tz (sql_type inner)),
              some_rows,
              dictionary_bytes-rest index k bs n rest,
            )
            (read_dictionary-written index inner k n fuel bs rest hk hn hm
              (λ rest. back fuel rest (part_shorter (name_of parsers inner) fuel h)))
