-- ===== src/Column/Data/Chunked.antt =====
-- Saving a range of rows, as a block that is sent in chunks does: of a column of numbers, and of arrays.
use clickhouse_rs.Prelude.{some, ℕ, ◌-◌, ◌≡◌, ap, arith, List, ◌++◌, length, length-append}
use clickhouse_rs.Wire.Encoder.{Encoder}
use clickhouse_rs.Column.Concat.{with_elem}
use clickhouse_rs.Column.Data.{AnyColumnData, arrays, maps, save_offsets, save}
use clickhouse_rs.Column.Data.Plain.{last_offset}
use clickhouse_rs.Column.Data.Whole.{save_offsets-from, words_bytes}

-- The offsets of the rows behind `pre`, as they are, whatever stands in front of them.
save_offsets-behind :
    (pre os : List ℕ) (e : Encoder)
    → save_offsets (pre ++ os) (length pre) (length (pre ++ os) - length pre) 0 e
      ≡ some (last_offset os, e ++ words_bytes os)
save_offsets-behind pre os e =
    let count : length (pre ++ os) - length pre ≡ length os = omega (arith, length-append pre os) in
    rw count (save_offsets-from pre os 0 e)

module _ {Tz : Type 0} where
  -- A column of arrays, saved from the row behind `pre` on, writes the offsets of the saved rows as they are,
  -- counted from the first row of the column, and then the elements of all rows, from the first element of the
  -- column up to the last saved offset. A column of maps writes the same offsets, then all keys from the
  -- first on, then all values.
  pub save-behind :
      (pre os : List ℕ) (inner keys values : AnyColumnData Tz) (size : ℕ) (e : Encoder)
      → (save (arrays (pre ++ os) inner) (length pre) (length (pre ++ os)) e
          ≡ save inner 0 (last_offset os) (e ++ words_bytes os))
        × (save (maps size (pre ++ os) keys values) (length pre) (length (pre ++ os)) e
            ≡ with_elem
                (save keys 0 (last_offset os) (e ++ words_bytes os))
                λ written. save values 0 (last_offset os) written)
  unfolding save
  save-behind pre os inner keys values size e =
      let same = save_offsets-behind pre os e in
      (
        ap (λ o. with_elem o (λ r. save inner 0 r.0 r.1)) same,
        ap (λ o. with_elem o (λ r. with_elem (save keys 0 r.0 r.1) (λ e. save values 0 r.0 e)))
            same,
      )
