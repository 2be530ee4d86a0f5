-- ===== src/Block/Compressed.antt =====
-- src/types/block/compressed.rs and the compressed branch of `Block::write`: LZ4 frames with a
-- CityHash checksum. The two C libraries are a parameter.
pub mod Frame
use clickhouse_rs.Prelude.{
  ℕ, ◌+◌, ◌-◌, ◌*◌, ◌%◌, ◌^◌, ◌≤◌, ◌<◌, ◌≡◌, refl, sym, ap, ◌∙◌, arith, Bool, true, false, not,
}
use clickhouse_rs.Prelude.{
  ltb, ◌==◌, ◌&&◌, if◌then◌else◌, List, [], ◌∷◌, ◌++◌, Bytes, length, length-append,
}
use clickhouse_rs.Prelude.{take, drop, replicate, Option, some, none, IsU64}
use clickhouse_rs.Errors.{
  Error, io, other, to_io_error, unsupported_compression_method, compressed_data_too_big,
  data_was_corrupted, cannot_decompress_data,
}
use clickhouse_rs.Wire.Outcome.{
  Outcome, done, fail, stuck, M, Read, Cursor, cursor_read, then_do, pure, throw, ◌>>=◌,
}
use clickhouse_rs.Wire.Scalar.{u8, u32, u64, uint-IsCodec, to_le_bytes}
use clickhouse_rs.Wire.Encoder.{Encoder, write, write_bytes}
use clickhouse_rs.Wire.ReadEx.{read_scalar, read_bytes}
use clickhouse_rs.Wire.RoundTrip.{read_scalar-write, write-rest}
use clickhouse_rs.Wire.Cursor.{read_bytes-append}
use clickhouse_rs.Column.{ColumnData}
use clickhouse_rs.Block.{Block, raw_load, write_block}
use mathlib.Core.List.{append_assoc}

-- `city_hash_128` gives the low and the high word; `LZ4_decompress_safe` gets the compressed bytes, its
-- size argument and the capacity, and gives `none` for a negative status or else the bytes written.
pub record Codec : Type 0 where
  pub city_hash_128 : Bytes → ℕ × ℕ
  pub lz4_compress : Bytes → Bytes
  pub lz4_decompress_safe : Bytes → ℕ → ℕ → Option Bytes

abbrev pub dbms_max_compressed_size : ℕ
dbms_max_compressed_size = 0x4000_0000

abbrev pub lz4_method : ℕ
lz4_method = 0x82

-- The nine bytes in front of the compressed data.
unfoldable pub frame_header : ℕ → ℕ → Bytes
frame_header compressed original = lz4_method ∷ (to_le_bytes 4 compressed ++ to_le_bytes 4 original)

unfoldable pub hash_eq : ℕ × ℕ → ℕ → ℕ → Bool
hash_eq (lo, hi) lo' hi' = lo == lo' && hi == hi'

-- `CompressedReader`: the reader below, and what is left of the frame in its cursor.
pub record CompressedReader (S : Type 0) : Type 0 where
  pub reader : S
  pub pending : Bytes

module _ {S : Type 0} where
  -- `fill` replaces the cursor, by nothing where it fails; `read` turns its error into an `io::Error`.
  unfoldable pub filled : Outcome S Bytes → Outcome (CompressedReader S) Bytes
  filled (done bs s) = done bs (record { reader = s; pending = [] })
  filled (fail e s) = fail (io (to_io_error e)) (record { reader = s; pending = [] })
  filled stuck = stuck

  -- `self.cursor.read(buf)`
  unfoldable pub serve : ℕ → Bytes → M (CompressedReader S) Bytes
  serve n bs s = done (take n bs) (record s { pending = drop n bs })

  -- What is read through a `CompressedReader` moves the reader below.
  unfoldable pub below : {A : Type 0} → Outcome (CompressedReader S) A → Outcome S A
  below (done a s) = done a s.reader
  below (fail e s) = fail e s.reader
  below stuck = stuck

module _ (codec : Codec) where
  -- `vec![0; original]`, into which LZ4 has written.
  unfoldable pub decompressed : Bytes → ℕ → ℕ → Option Bytes
  decompressed body compressed original =
      elim (codec.lz4_decompress_safe body ((compressed + 2 ^ 32 - 9) % 2 ^ 32) original) [
        | none ↦ none
        | some out ↦ some (out ++ replicate (original - length out) 0)
      ]

  module _ {S : Type 0} where
    abbrev pub or_error : Option Bytes → M S Bytes
    or_error none = throw (other cannot_decompress_data)
    or_error (some data') = pure data'

  module _ {S : Type 0} ⦃r : Read S⦄ where
    -- The checks that follow the two sizes.
    unfoldable pub read_body : ℕ → ℕ → ℕ → ℕ → M S Bytes
    read_body lo hi compressed original = do
      body ← read_bytes (compressed - 9)
      if hash_eq (codec.city_hash_128 (frame_header compressed original ++ body)) lo hi
          then or_error (decompressed body compressed original)
          else throw (other data_was_corrupted)

    unfoldable pub decompress_buffer : M S Bytes
    decompress_buffer = do
      lo ← read_scalar u64
      hi ← read_scalar u64
      method ← read_scalar u8
      if not (method == lz4_method)
          then throw (other (unsupported_compression_method method))
          else (do
            compressed ← read_scalar u32
            original ← read_scalar u32
            if ltb dbms_max_compressed_size compressed
                then throw (other compressed_data_too_big)
                else read_body lo hi compressed original)

  module _ {S : Type 0} ⦃r : Read S⦄ where
    unfoldable pub read_frames : ℕ → Bytes → M (CompressedReader S) Bytes
    read_frames n [] s = then_do (filled (decompress_buffer s.reader)) (serve n)
    read_frames n (b ∷ bs) s = serve n (b ∷ bs) s

    -- `impl Read for CompressedReader`. The budget counts a frame of less than 2 ^ 32 bytes for each
    -- byte below.
    abbrev pub compressed_read : Read (CompressedReader S)
    compressed_read = record {
      read_some = λ n s. read_frames n s.pending s;
      budget = λ s. length s.pending + 2 ^ 32 * r.budget s.reader;
    }

  -- The compressed branch of `Block::write`, on the bytes of the block.
  unfoldable pub write_compressed : Bytes → Encoder → Encoder
  write_compressed tmp encoder =
      let body = codec.lz4_compress tmp in
      let buf = frame_header (9 + length body) (length tmp) ++ body in
      let (lo, hi) = codec.city_hash_128 buf in
      write_bytes buf (write u64 hi (write u64 lo encoder))

module _ {Data Tz : Type 0} (codec : Codec) (ops : ColumnData Data Tz)
    (is_utf8 : Bytes → Bool) where
  -- `Block::load`
  unfoldable pub load : {S : Type 0} ⦃r : Read S⦄ → Tz → Bool → ℕ → M S (Block Data)
  load tz compress revision s =
      if compress
      then below (
          raw_load ops ⦃r = compressed_read codec⦄ is_utf8 tz revision
            (record { reader = s; pending = [] }))
      else raw_load ops is_utf8 tz revision s

  -- `Block::write`
  unfoldable pub write_any : Block Data → Bool → ℕ → Encoder → Encoder
  write_any b compress revision encoder =
      if compress
      then write_compressed codec (write_block ops b revision []) encoder
      else write_block ops b revision encoder
