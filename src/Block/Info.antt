-- ===== src/Block/Info.antt =====
-- src/types/block/block_info.rs: the tagged fields in front of a block.
use clickhouse_rs.Prelude.{ℕ, zero, suc, ◌^◌, ◌≤◌, ◌<◌, ◌≡◌, refl, ap, sym, ◌∙◌, arith, inl, inr}
use clickhouse_rs.Prelude.{Bool, false, ◌==◌, if◌then◌else◌, [], ◌++◌, Bytes, length}
use clickhouse_rs.Prelude.{length-append, Bool-cases}
use clickhouse_rs.Prelude.Int.{ℤ, negsuc, Fits}
use clickhouse_rs.Errors.{driver, unknown_packet}
use clickhouse_rs.Wire.Outcome.{done, M, Read, Cursor, cursor_read, pure, throw, out_of_fuel, ◌>>=◌}
use clickhouse_rs.Wire.Scalar.{bool, i32, int-IsCodec, bool-IsCodec}
use clickhouse_rs.Wire.Encoder.{Encoder, uvarint, write}
use clickhouse_rs.Wire.ReadEx.{read_uvarint, read_scalar}
use clickhouse_rs.Wire.RoundTrip.{read_scalar-write, uvarint-rest, write-rest}
use clickhouse_rs.Wire.Uvarint.Encode.{read_uvarint-uvarint, length-uvarint}
use clickhouse_rs.Wire.Incremental.{
  Incremental, Leaves, Agrees, >>=-Agrees, >>=-Leaves, Incremental-length,
}
use clickhouse_rs.Wire.Reads.{
  read_uvarint-Incremental, read_scalar-Incremental, read_uvarint_spends,
}

pub record BlockInfo : Type 0 where
  pub is_overflows : Bool
  pub bucket_num : ℤ

-- `BlockInfo::default()`
abbrev pub default : BlockInfo
default = record { is_overflows = false; bucket_num = negsuc 0 }

abbrev pub block_info_overflows : ℕ
block_info_overflows = 1

abbrev pub block_info_bucket_num : ℕ
block_info_bucket_num = 2

abbrev pub end_field : ℕ
end_field = 0

module _ {S : Type 0} ⦃r : Read S⦄ where
  -- The loop of `read`: a field may come again, in any order, until the end tag.
  unfoldable pub read_fields : ℕ → BlockInfo → M S BlockInfo
  read_fields zero info = out_of_fuel
  read_fields (suc fuel) info = do
    tag ← read_uvarint
    let overflows = (do b ← read_scalar bool; read_fields fuel (record info { is_overflows = b }))
    let bucket = (do n ← read_scalar i32; read_fields fuel (record info { bucket_num = n }))
    if tag == block_info_overflows
        then overflows
        else (if tag == block_info_bucket_num
            then bucket
            else (if tag == end_field then pure info else throw (driver (unknown_packet tag))))

  -- Each round takes a byte at least.
  unfoldable pub read : M S BlockInfo
  read s = read_fields (suc (r.budget s)) default s

unfoldable pub write_info : BlockInfo → Encoder → Encoder
write_info info encoder =
    let e1 = uvarint block_info_overflows encoder in
    let e2 = write bool info.is_overflows e1 in
    let e3 = uvarint block_info_bucket_num e2 in
    let e4 = write i32 info.bucket_num e3 in uvarint end_field e4

-- The bytes of a block's information, field by field.
info_bytes :
    (info : BlockInfo) (encoder rest : Bytes)
    → write_info info encoder ++ rest
      ≡ encoder
        ++ (uvarint 1 []
            ++ (write bool info.is_overflows []
                ++ (uvarint 2 [] ++ (write i32 info.bucket_num [] ++ (uvarint 0 [] ++ rest)))))
unfolding write_info
info_bytes info encoder rest =
    uvarint-rest 0 _ rest
    ∙ (write-rest i32 info.bucket_num _ _
        ∙ (uvarint-rest 2 _ _ ∙ (write-rest bool info.is_overflows _ _ ∙ uvarint-rest 1 encoder _)))

read_fields-written :
    (fuel : ℕ) (info : BlockInfo) (rest : Bytes)
    → Fits (256 ^ 4) info.bucket_num
    → 3 ≤ fuel
    → read_fields fuel default (
        uvarint 1 []
        ++ (write bool info.is_overflows []
            ++ (uvarint 2 [] ++ (write i32 info.bucket_num [] ++ (uvarint 0 [] ++ rest)))))
      ≡ done info rest
unfolding read_fields
read_fields-written (suc (suc (suc f))) info rest h hf = rw (
  read_uvarint-uvarint 1 _ (omega arith),
  read_scalar-write bool info.is_overflows _ bool-IsCodec tt,
  read_uvarint-uvarint 2 _ (omega arith),
  read_scalar-write i32 info.bucket_num _ (int-IsCodec 4) h,
  read_uvarint-uvarint 0 _ (omega arith),
)
read_fields-written f info rest h hf = absurd (omega arith)

-- What `BlockInfo::write` appends.
pub write_info-rest :
    (info : BlockInfo) (encoder rest : Bytes)
    → write_info info encoder ++ rest ≡ encoder ++ (write_info info [] ++ rest)
write_info-rest info encoder rest =
    info_bytes info encoder rest ∙ ap (◌++◌ encoder) (sym (info_bytes info [] rest))

-- When the bucket number is an i32, `BlockInfo::read` gives back what `BlockInfo::write` wrote, and leaves
-- what follows it.
pub read-write_info :
    (info : BlockInfo) (rest : Bytes)
    → Fits (256 ^ 4) info.bucket_num
    → read (write_info info [] ++ rest) ≡ done info rest
unfolding read
read-write_info info rest h =
    let tail : Bytes = uvarint 0 [] ++ rest in
    let bucket : Bytes = uvarint 2 [] ++ (write i32 info.bucket_num [] ++ tail) in
    let flags : Bytes = write bool info.is_overflows [] ++ bucket in
    rw (info_bytes info [] rest) (
      read_fields-written (suc (length (uvarint 1 [] ++ flags))) info rest h (
        omega (
          arith,
          length-append (uvarint 1 []) flags,
          length-append (write bool info.is_overflows []) bucket,
          length-append (uvarint 2 []) (write i32 info.bucket_num [] ++ tail),
          length-uvarint 1 (omega arith),
          length-uvarint 2 (omega arith),
        )))

-- One round: the tag, and what the three known tags do.
on_tag : ℕ → (Bool → M Cursor BlockInfo) → (ℤ → M Cursor BlockInfo) → BlockInfo → M Cursor BlockInfo
on_tag tag overflows bucket info =
    if tag == 1
    then (read_scalar bool >>= overflows)
    else (if tag == 2
        then (read_scalar i32 >>= bucket)
        else (if tag == 0 then pure info else throw (driver (unknown_packet tag))))

module _ (tag : ℕ) (info : BlockInfo) (o o' : Bool → M Cursor BlockInfo)
    (b b' : ℤ → M Cursor BlockInfo) where
  on_tag-Agrees :
      (r t : Cursor)
      → ((v : Bool) (u : Cursor) → length u ≤ length r → Agrees (o v) (o' v) u t)
      → ((v : ℤ) (u : Cursor) → length u ≤ length r → Agrees (b v) (b' v) u t)
      → Agrees (on_tag tag o b info) (on_tag tag o' b' info) r t
  unfolding on_tag
  on_tag-Agrees r t ho hb = elim (Bool-cases (tag == 1)) [
    | inl e ↦ rw e (
        >>=-Agrees (read_scalar bool) o o' r t (read_scalar-Incremental bool)
          λ v u eu. ho v u (Incremental-length r v u (read_scalar-Incremental bool) eu))
    | inr e ↦ rw e (elim (Bool-cases (tag == 2)) [
      | inl e2 ↦ rw e2 (
          >>=-Agrees (read_scalar i32) b b' r t (read_scalar-Incremental i32)
            λ v u eu. hb v u (Incremental-length r v u (read_scalar-Incremental i32) eu))
      | inr e2 ↦
          rw e2
            (elim (Bool-cases (tag == 0)) [ inl e3 ↦ rw e3 (inr refl) | inr e3 ↦ rw e3 (inr refl) ])
    ])
  ]

module _ (tag : ℕ) (info : BlockInfo) (o : Bool → M Cursor BlockInfo)
    (b : ℤ → M Cursor BlockInfo) where
  on_tag-Leaves :
      (r : Cursor)
      → ((v : Bool) (u : Cursor) → length u ≤ length r → Leaves u (o v u))
      → ((v : ℤ) (u : Cursor) → length u ≤ length r → Leaves u (b v u))
      → Leaves r (on_tag tag o b info r)
  unfolding on_tag
  on_tag-Leaves r ho hb = elim (Bool-cases (tag == 1)) [
    | inl e ↦ rw e (
        >>=-Leaves (read_scalar bool) o r (read_scalar-Incremental bool)
          λ v u eu. ho v u (Incremental-length r v u (read_scalar-Incremental bool) eu))
    | inr e ↦ rw e (elim (Bool-cases (tag == 2)) [
      | inl e2 ↦ rw e2 (
          >>=-Leaves (read_scalar i32) b r (read_scalar-Incremental i32)
            λ v u eu. hb v u (Incremental-length r v u (read_scalar-Incremental i32) eu))
      | inr e2 ↦
          rw e2
            (elim (Bool-cases (tag == 0)) [ inl e3 ↦ rw e3 ([], refl) | inr e3 ↦ rw e3 ([], refl) ])
    ])
  ]

fields_stable :
    (f g : ℕ) (info : BlockInfo) (r t : Cursor)
    → length r < f
    → length (r ++ t) < g
    → Agrees (read_fields f info) (read_fields g info) r t
unfolding read_fields on_tag
fields_stable zero g info r t hf hg = absurd (omega arith)
fields_stable (suc f) zero info r t hf hg = absurd (omega arith)
fields_stable (suc f) (suc g) info r t hf hg =
    >>=-Agrees read_uvarint _ _ r t read_uvarint-Incremental λ tag u eu.
      let shorter = read_uvarint_spends r tag u eu in
      on_tag-Agrees tag info _ _ _ _ u t
        (λ v w hw.
          fields_stable f g (record info { is_overflows = v }) w t (omega arith)
            (omega (arith, length-append w t, length-append r t)))
        (λ v w hw.
          fields_stable f g (record info { bucket_num = v }) w t (omega arith)
            (omega (arith, length-append w t, length-append r t)))

fields-Leaves :
    (f : ℕ) (info : BlockInfo) (r : Cursor) → length r < f → Leaves r (read_fields f info r)
unfolding read_fields on_tag
fields-Leaves zero info r hf = absurd (omega arith)
fields-Leaves (suc f) info r hf = >>=-Leaves read_uvarint _ r read_uvarint-Incremental λ tag u eu.
    let shorter = read_uvarint_spends r tag u eu in
    on_tag-Leaves tag info _ _ u
      (λ v w hw. fields-Leaves f (record info { is_overflows = v }) w (omega arith))
      (λ v w hw. fields-Leaves f (record info { bucket_num = v }) w (omega arith))

pub read-Incremental : Incremental (read {S = Cursor})
unfolding read
read-Incremental = record {
  stable = λ s t.
      fields_stable (suc (length s)) (suc (length (s ++ t))) default s t (omega arith)
        (omega arith);
  leaves = λ s. fields-Leaves (suc (length s)) default s (omega arith);
}
