-- ===== src/Runs/Sample.antt =====
-- Instances of what the theorems leave open: a column of bytes, a codec, and the rest of the outside.
use clickhouse_rs.Prelude.{ℕ, ◌-◌, ◌≡◌, refl, sym, ap, ◌∙◌, arith, Bool, true, some}
use clickhouse_rs.Prelude.{[], ◌∷◌, ◌++◌, Bytes, length, take, drop, take-append}
use clickhouse_rs.Wire.Outcome.{cursor_read}
use clickhouse_rs.Wire.ReadEx.{read_bytes}
use clickhouse_rs.Wire.Cursor.{read_bytes-append}
use clickhouse_rs.Column.{ColumnData, ColumnLaws}
use clickhouse_rs.Block.Compressed.{Codec}
use clickhouse_rs.Block.Compressed.Frame.{CodecLaws}
use clickhouse_rs.Packet.{Externals}
use mathlib.Core.List.{append-nil}

-- A column of bytes, which takes any type name; a time zone is a number.
abbrev pub byte_column : ColumnData Bytes ℕ
byte_column = record {
  load_data = λ S r type_name size tz. read_bytes ⦃r = r⦄ size;
  type_name = λ d. 85 ∷ 56 ∷ [];
  save = λ d from to encoder. encoder ++ take (to - from) (drop from d);
  len = λ d. length d;
}

take_all : (d : Bytes) → take (length d - 0) d ≡ d
take_all d =
    let e : length d - 0 ≡ length d = omega arith in
    rw e (ap (take (length d)) (sym (append-nil d)) ∙ take-append d [])

pub byte_column_laws : ColumnLaws (λ tz d. Unit {0}) byte_column
byte_column_laws = record {
  appends = λ d from to encoder. refl;
  loads_back = λ d tz rest h. rw (take_all d) (read_bytes-append d rest);
}

-- A codec that stores the bytes as they are.
abbrev pub store_codec : Codec
store_codec = record {
  city_hash_128 = λ bs. (7, 9);
  lz4_compress = λ bs. bs;
  lz4_decompress_safe = λ bs size capacity. some bs;
}

pub store_codec_laws : CodecLaws store_codec
store_codec_laws = record { words = λ bs. (omega arith, omega arith); lossless = λ bs h. refl }

abbrev pub any_text : Bytes → Bool
any_text bs = true

abbrev pub outside : Externals ℕ
outside = record {
  is_utf8 = any_text;
  parse_tz = λ bs. some (length bs);
  utc = 0;
  codec = store_codec;
}
