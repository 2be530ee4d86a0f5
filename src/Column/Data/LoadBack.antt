-- ===== src/Column/Data/LoadBack.antt =====
-- Every column that can be read back is loaded from what it saved: the contract of `ColumnData`.
use clickhouse_rs.Prelude.{
  ℕ, zero, suc, ◌*◌, ◌/◌, ◌<◌, ◌≡◌, refl, sym, ap, ◌∙◌, arith, ◌==◌, true, inl, inr, [], ◌++◌,
  Bytes, length, Option, some, none,
}
use clickhouse_rs.Wire.Outcome.{done, cursor_read}
use clickhouse_rs.StringPool.Pushes.{from_vec-Contains}
use clickhouse_rs.Column.Names.{NoBits, n32, n64}
use clickhouse_rs.Column.Data.{
  IndexType, index_u8, index_u16, index_u32, index_u64, IpVersion, ip_v4, ip_v6, ip_uuid,
  AnyColumnData, vector, strings, fixed_strings, dates, date_times, date_times64, ips, nullables,
  arrays, maps, decimals, enums8, enums16, simple_aggregates, low_cardinalities, size_of, ip_size,
  index_size, len, save, checked_div,
}
use clickhouse_rs.Column.Data.Plain.{last_offset}
use clickhouse_rs.Column.Data.Load.{TypeParsers, load_data}
use clickhouse_rs.Column.Data.Appends.{onto, save-AppendsTo}
use clickhouse_rs.Column.Data.Holds.{TypeParserLaws, nobits_number, nobits_size, name_of, Holds}
use mathlib.Core.List.{append-nil}
use mathlib.Core.Path.{subst}
use clickhouse_rs.Column.{ColumnData, ColumnLaws}
use clickhouse_rs.Column.Data.Leaves.{
  Loads, div_whole, size_of_pos, vector_Loads, ip_Loads, date_Loads, date_time_Loads, fixed_Loads,
  strings_Loads,
}
use clickhouse_rs.Column.Data.Nested.{
  nullable_Loads, array_Loads, map_Loads, decimal_Loads, enum8_Loads, enum16_Loads, aggregate_Loads,
}
use clickhouse_rs.Column.Data.Dictionary.{empty_Loads, dictionary_Loads}

abbrev saved_or : Bytes → Option Bytes → Bytes
saved_or encoder none = encoder
saved_or encoder (some bs) = bs

abbrev or_zero : Option ℕ → ℕ
or_zero none = 0
or_zero (some n) = n

-- The trait `ColumnData` by its implementations. A panic of `save` writes nothing and a panic of `len` is 0;
-- `load_data-saved` shows that a column that holds has neither.
abbrev pub column_data : {Tz : Type 0} → TypeParsers Tz → ColumnData (AnyColumnData Tz) Tz
column_data parsers = record {
  load_data =
      λ S r type_name size tz. load_data ⦃r = r⦄ parsers (suc (length type_name)) type_name size tz;
  type_name = name_of parsers;
  save = λ d start end encoder. saved_or encoder (save d start end encoder);
  len = λ d. or_zero (len d);
}

module _ {Tz : Type 0} (parsers : TypeParsers Tz) (laws : TypeParserLaws parsers) (tz : Tz) where
  -- The number of rows, with the output of all of them.
  abbrev Sound : AnyColumnData Tz → Type 0
  Sound d = (n : ℕ) × (len d ≡ some n) × Loads parsers laws tz d n

  -- The rows that a part must have.
  abbrev of_rows :
      (d : AnyColumnData Tz) (k : ℕ) → Sound d → len d ≡ some k → Loads parsers laws tz d k
  of_rows d k (n, e, l) h =
      subst (Loads parsers laws tz d) (let same : some n ≡ some k = sym e ∙ h in cc) l

  -- A memory of whole elements has their number.
  count : (m : Bytes) (w n : ℕ) → 0 < w → length m ≡ n * w → some (length m / w) ≡ some n
  count m w n hw h = ap (λ (k : ℕ). some (k / w)) h ∙ ap some (div_whole n w hw)

  ip_size_pos : (v : IpVersion) → 0 < ip_size v
  unfolding ip_size
  ip_size_pos ip_v4 = omega arith
  ip_size_pos ip_v6 = omega arith
  ip_size_pos ip_uuid = omega arith

  index_size_pos : (t : IndexType) → 0 < index_size t
  unfolding index_size
  index_size_pos index_u8 = omega arith
  index_size_pos index_u16 = omega arith
  index_size_pos index_u32 = omega arith
  index_size_pos index_u64 = omega arith

  fixed_len : (b : Bytes) (l n : ℕ) → 0 < l → length b ≡ n * l → checked_div (length b) l ≡ some n
  unfolding checked_div
  fixed_len b zero n hl h = absurd (omega arith)
  fixed_len b (suc l) n hl h = count b (suc l) n hl h

  decimal_len :
      (b : NoBits) (m : Bytes) (n : ℕ)
      → length m ≡ n * nobits_size b
      → some (length m / size_of (nobits_number b)) ≡ some n
  unfolding size_of
  decimal_len n32 m n h = count m 4 n (omega arith) h
  decimal_len n64 m n h = count m 8 n (omega arith) h

  Holds-Sound : (d : AnyColumnData Tz) → Holds parsers tz d → Sound d
  unfolding Holds len size_of
  Holds-Sound (vector t m) (n, h) =
      (n, count m (size_of t) n (size_of_pos t) h, vector_Loads parsers laws tz t m n h)
  Holds-Sound (strings p) (ss, e, u) =
      (length ss, ap some (from_vec-Contains ss p e).0, strings_Loads parsers laws tz p ss e u)
  Holds-Sound (fixed_strings b l) ((n, h), pos, u) =
      (n, fixed_len b l n pos h, fixed_Loads parsers laws tz b l n h u)
  Holds-Sound (dates m z) ((n, h), e) =
      rw e (n, count m 2 n (omega arith) h, date_Loads parsers laws tz m n h)
  Holds-Sound (date_times m z) ((n, h), e) =
      rw e (n, count m 4 n (omega arith) h, date_time_Loads parsers laws tz m n h)
  Holds-Sound (date_times64 m p z) h = absurd h
  Holds-Sound (ips v m) (n, h) =
      (n, count m (ip_size v) n (ip_size_pos v) h, ip_Loads parsers laws tz v m n h)
  Holds-Sound (nullables nulls inner) (held, rows, single) =
      let same : (length nulls == length nulls) ≡ true = ground arith in
      (
        length nulls,
        rw (rows, same),
        nullable_Loads parsers laws tz nulls inner (length nulls) refl single
            (of_rows inner (length nulls) (Holds-Sound inner held) rows),
      )
  Holds-Sound (arrays os inner) (held, rows, u) = (
    length os,
    refl,
    array_Loads parsers laws tz os inner u
        (of_rows inner (last_offset os) (Holds-Sound inner held) rows),
  )
  Holds-Sound (maps size os keys values) ((held_k, rows_k, no_comma), (held_v, rows_v), hs, u) = (
    length os,
    refl,
    map_Loads parsers laws tz size os keys values hs u no_comma
        (of_rows keys (last_offset os) (Holds-Sound keys held_k) rows_k)
        (of_rows values (last_offset os) (Holds-Sound values held_v) rows_v),
  )
  Holds-Sound (decimals p s b inner) (hp, hs, (m, e, (n, h))) =
      rw e (n, decimal_len b m n h, decimal_Loads parsers laws tz p s b m n hp hs h)
  Holds-Sound (enums8 vs inner) (hp, (m, e, (n, h))) =
      rw e (n, count m 1 n (omega arith) h, enum8_Loads parsers laws tz vs m n hp h)
  Holds-Sound (enums16 vs inner) (hn, hp, (m, e, (n, h))) =
      rw e (n, count m 2 n (omega arith) h, enum16_Loads parsers laws tz vs m n hn hp h)
  Holds-Sound (simple_aggregates f inner) (held, hl) =
      let (n, e, l) = Holds-Sound inner held in
      (n, e, aggregate_Loads parsers laws tz f inner n hl l)
  Holds-Sound (low_cardinalities index inner) (held, inl (hm, hk, rows)) = (
    0,
    count index.memory (index_size index.kind) 0 (index_size_pos index.kind)
        (omega (arith, ap length hm)),
    empty_Loads parsers laws tz index inner hm hk held
        (of_rows inner 0 (Holds-Sound inner held) rows),
  )
  Holds-Sound (low_cardinalities index inner) (held, inr (n, hm, pos, hn, (k, rows, hk))) = (
    n,
    count index.memory (index_size index.kind) n (index_size_pos index.kind) hm,
    dictionary_Loads parsers laws tz index inner k n pos hn hk rows hm
        (of_rows inner k (Holds-Sound inner held) rows),
  )

  -- A column that can be read back has a length, its `save` of all its rows does not panic, and `load_data`,
  -- given the name of its type and its length, reads exactly what it wrote and gives the column back.
  pub load_data-saved :
      (d : AnyColumnData Tz)
      → Holds parsers tz d
      → (n : ℕ) × (bs : Bytes) × (len d ≡ some n)
        × (save d 0 n [] ≡ some bs)
        × ((rest : Bytes)
            → load_data parsers
                (suc (length (name_of parsers d)))
                (name_of parsers d)
                n
                tz
                (bs ++ rest)
              ≡ done d rest)
  load_data-saved d h =
      let (n, e, (bs, saved, back)) = Holds-Sound d h in
      (n, bs, e, saved, λ rest. back (suc (length (name_of parsers d))) rest (omega arith))

append_or :
    (encoder : Bytes) (o : Option Bytes)
    → saved_or encoder (onto encoder o) ≡ encoder ++ saved_or [] o
append_or encoder none = sym (append-nil encoder)
append_or encoder (some bs) = refl

pub column_data_laws :
    {Tz : Type 0} (parsers : TypeParsers Tz)
    → TypeParserLaws parsers
    → ColumnLaws (Holds parsers) (column_data parsers)
column_data_laws {Tz} parsers laws = record {
  appends = λ d from to encoder.
      ap (saved_or encoder) (save-AppendsTo d from to encoder)
      ∙ append_or encoder (save d from to []);
  loads_back = loaded;
}
  where
    loaded :
        (d : AnyColumnData Tz) (tz : Tz) (rest : Bytes)
        → Holds parsers tz d
        → load_data parsers
            (suc (length (name_of parsers d)))
            (name_of parsers d)
            (or_zero (len d))
            tz
            (saved_or [] (save d 0 (or_zero (len d)) []) ++ rest)
          ≡ done d rest
    loaded d tz rest h =
        let (n, bs, e, saved, back) = load_data-saved parsers laws tz d h in
        rw (e, saved, back rest)
