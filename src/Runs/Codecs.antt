-- ===== src/Runs/Codecs.antt =====
-- Runs of src/binary/read_ex.rs, src/binary/encoder.rs and src/types/{marshal,unmarshal}.rs.
use clickhouse_rs.Prelude.{
  ◌^◌, ◌≤◌, ◌≡◌, ◌≢◌, refl, arith, inr, [], ◌∷◌, ◌++◌, Bytes, length, IsU64,
}
use clickhouse_rs.Prelude.Int.{Fits}
use clickhouse_rs.Errors.{driver, overflow}
use clickhouse_rs.Wire.Outcome.{done, fail, stuck, Cursor, cursor_read}
use clickhouse_rs.Wire.Scalar.{int, IsCodec, int-IsCodec}
use clickhouse_rs.Wire.Encoder.{uvarint, put_uvarint, string, byte_string}
use clickhouse_rs.Wire.ReadEx.{read_uvarint, read_string, skip_string}
use clickhouse_rs.Wire.RoundTrip.{read_string-string, skip_string-string}
use clickhouse_rs.Wire.Total.{cursor-Lawful, read_uvarint_total}
use clickhouse_rs.Wire.Uvarint.Encode.{length-uvarint, read_uvarint-uvarint}
use clickhouse_rs.Wire.Uvarint.Decode.{value, read_uvarint_overflow, read_uvarint_sound}
use clickhouse_rs.Runs.Sample.{any_text}

read_uvarint-uvarint_example : read_uvarint (uvarint 300 [] ++ 5 ∷ []) ≡ done 300 (5 ∷ [])
read_uvarint-uvarint_example = read_uvarint-uvarint 300 (5 ∷ []) (omega arith)

length_of_300 : (1 ≤ length (uvarint 300 [])) × (length (uvarint 300 []) ≤ 10)
length_of_300 = length-uvarint 300 (omega arith)

abbrev long_number : Bytes
long_number = 255 ∷ 255 ∷ 255 ∷ 255 ∷ 255 ∷ 255 ∷ 255 ∷ 255 ∷ 255 ∷ []

read_uvarint_overflow_example :
    read_uvarint (long_number ++ 2 ∷ 7 ∷ []) ≡ fail (driver overflow) (7 ∷ [])
read_uvarint_overflow_example =
    read_uvarint_overflow long_number 2 (7 ∷ [])
      (
        omega arith,
        (
          omega arith,
          (
            omega arith,
            (
              omega arith,
              (omega arith, (omega arith, (omega arith, (omega arith, (omega arith, tt))))),
            ),
          ),
        ),
      )
      (omega arith) (inr (refl, omega arith))

read_300 : read_uvarint {S = Cursor} (172 ∷ 2 ∷ 5 ∷ []) ≡ done 300 (5 ∷ [])
unfolding read_uvarint uvarint put_uvarint
read_300 = read_uvarint-uvarint 300 (5 ∷ []) (omega arith)

read_uvarint_sound_example :
    (front : Bytes) × (172 ∷ 2 ∷ 5 ∷ [] ≡ front ++ 5 ∷ [])
    × (300 ≡ value front)
    × IsU64 300
    × (1 ≤ length front)
    × (length front ≤ 10)
read_uvarint_sound_example =
    read_uvarint_sound (172 ∷ 2 ∷ 5 ∷ []) 300 (5 ∷ [])
      (omega arith, (omega arith, (omega arith, tt))) read_300

read_uvarint_total_example : read_uvarint ⦃r = cursor_read⦄ (172 ∷ []) ≢ stuck
read_uvarint_total_example = read_uvarint_total cursor_read cursor-Lawful (172 ∷ [])

read_string-string_example :
    read_string any_text (string (104 ∷ 105 ∷ []) [] ++ 5 ∷ []) ≡ done (104 ∷ 105 ∷ []) (5 ∷ [])
read_string-string_example =
    read_string-string any_text (104 ∷ 105 ∷ []) (5 ∷ []) (omega arith) refl

skip_two_letters : skip_string (byte_string (104 ∷ 105 ∷ []) [] ++ 5 ∷ []) ≡ done tt (5 ∷ [])
skip_two_letters = skip_string-string (104 ∷ 105 ∷ []) (5 ∷ []) (omega arith)

int-IsCodec_example : IsCodec (Fits (256 ^ 4)) (int 4)
int-IsCodec_example = int-IsCodec 4
