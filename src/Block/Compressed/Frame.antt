-- ===== src/Block/Compressed/Frame.antt =====
-- A compressed frame, written and read back.
use clickhouse_rs.Prelude.{ℕ, ◌+◌, ◌-◌, ◌%◌, ◌^◌, ◌≤◌, ◌≡◌, refl, ap, arith, true, false}
use clickhouse_rs.Prelude.{ltb, [], ◌++◌, Bytes, length}
use clickhouse_rs.Prelude.{some, IsU64}
use clickhouse_rs.Wire.Outcome.{done, cursor_read}
use clickhouse_rs.Wire.Scalar.{u8, u32, u64, uint-IsCodec, to_le_bytes}
use clickhouse_rs.Wire.Encoder.{write, write_bytes}
use clickhouse_rs.Wire.RoundTrip.{read_scalar-write}
use clickhouse_rs.Wire.Cursor.{read_bytes-append}
use clickhouse_rs.Block.Compressed.{
  Codec, dbms_max_compressed_size, frame_header, hash_eq, decompressed, read_body,
  decompress_buffer, write_compressed,
}
use mathlib.Core.List.{append-nil}

-- `LZ4_MAX_INPUT_SIZE` of lz4.h.
abbrev pub lz4_max_input_size : ℕ
lz4_max_input_size = 0x7E000000

-- What the C libraries document: two 64-bit words, and a lossless compression of at most
-- `LZ4_MAX_INPUT_SIZE` bytes into a buffer of `LZ4_compressBound` bytes.
pub record CodecLaws (codec : Codec) : Type 0 where
  pub words : (bs : Bytes) → IsU64 (codec.city_hash_128 bs).0 × IsU64 (codec.city_hash_128 bs).1
  pub lossless :
      (bs : Bytes)
      → length bs ≤ lz4_max_input_size
      → codec.lz4_decompress_safe
          (codec.lz4_compress bs)
          (length (codec.lz4_compress bs))
          (length bs)
        ≡ some bs

hash_eq_self : (h : ℕ × ℕ) → hash_eq h h.0 h.1 ≡ true
unfolding hash_eq
hash_eq_self (lo, hi) = ground arith

module _ (codec : Codec) (laws : CodecLaws codec) (tmp : Bytes) where
  abbrev body : Bytes
  body = codec.lz4_compress tmp

  abbrev buf : Bytes
  buf = frame_header (9 + length body) (length tmp) ++ body

  abbrev lo : ℕ
  lo = (codec.city_hash_128 buf).0

  abbrev hi : ℕ
  hi = (codec.city_hash_128 buf).1

  -- The bytes of a frame, field by field.
  frame_bytes :
      (rest : Bytes)
      → write_compressed codec tmp [] ++ rest
        ≡ write u64 lo []
          ++ (write u64 hi []
              ++ (write u8 0x82 []
                  ++ (write u32 (9 + length body) []
                      ++ (write u32 (length tmp) [] ++ (body ++ rest)))))
  unfolding write_compressed write write_bytes frame_header to_le_bytes
  frame_bytes rest = refl

  decompressed_back :
      length tmp ≤ lz4_max_input_size
      → 9 + length body ≤ dbms_max_compressed_size
      → decompressed codec body (9 + length body) (length tmp) ≡ some tmp
  unfolding decompressed
  decompressed_back h k =
      let size : (9 + length body + 2 ^ 32 - 9) % 2 ^ 32 ≡ length body = omega arith in
      let none_left : length tmp - length tmp ≡ 0 = omega arith in
      rw (size, laws.lossless tmp h, none_left, decompressed) (ap some (append-nil tmp))

  -- With a codec whose checksums are two u64 words and whose decompressor undoes its compressor,
  -- `decompress_buffer` gives back the bytes that `Block::write` put into a frame, and leaves what follows the
  -- frame, if they are at most `LZ4_MAX_INPUT_SIZE` (0x7E000000) and the frame
  -- is not above the limit.
  pub decompress_buffer-write_compressed :
      (rest : Bytes)
      → length tmp ≤ lz4_max_input_size
      → 9 + length body ≤ dbms_max_compressed_size
      → decompress_buffer codec (write_compressed codec tmp [] ++ rest) ≡ done tmp rest
  unfolding decompress_buffer read_body
  decompress_buffer-write_compressed rest h k = rw (
    frame_bytes rest,
    read_scalar-write u64 lo _ (uint-IsCodec 8) (laws.words buf).0,
    read_scalar-write u64 hi _ (uint-IsCodec 8) (laws.words buf).1,
    read_scalar-write u8 0x82 _ (uint-IsCodec 1) (omega arith),
    read_scalar-write u32 (9 + length body) _ (uint-IsCodec 4) (omega arith),
    read_scalar-write u32 (length tmp) _ (uint-IsCodec 4) (omega arith),
    small,
    size,
    read_bytes-append body rest,
    hash_eq_self (codec.city_hash_128 buf),
    decompressed_back h k,
  )
    where
      small : ltb dbms_max_compressed_size (9 + length body) ≡ false
      small = ground arith

      size : 9 + length body - 9 ≡ length body
      size = omega arith
