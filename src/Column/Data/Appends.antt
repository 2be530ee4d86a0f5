-- ===== src/Column/Data/Appends.antt =====
-- Saving only appends: what it writes does not depend on what the encoder has.
use clickhouse_rs.Prelude.{
  ℕ, zero, suc, ◌+◌, ◌-◌, ◌*◌, ◌≡◌, refl, sym, ap, ◌∙◌, leb, ltb, ◌==◌, Bool-cases, inl, inr, List,
  [], ◌++◌, Bytes, length, get_elem?, Option, some, none,
}
use clickhouse_rs.Wire.Scalar.{u64, Scalar}
use clickhouse_rs.Wire.Encoder.{Encoder, write, write_bytes, byte_string, string}
use clickhouse_rs.Wire.RoundTrip.{string-append}
use clickhouse_rs.StringPool.{StringPool, get}
use clickhouse_rs.Column.Concat.{with_elem}
use clickhouse_rs.Column.Data.{
  AnyColumnData, vector, strings, fixed_strings, dates, date_times, date_times64, ips, nullables,
  arrays, maps, decimals, enums8, enums16, simple_aggregates, low_cardinalities, byte_range,
  save_data, save_strings, save_offsets, save, len, size_of, ip_size, index_size, get_flags,
  low_cardinality_version,
}
use mathlib.Core.List.{append_assoc, append-nil}

-- Output behind what an encoder has.
abbrev pub onto : Encoder → Option Bytes → Option Encoder
onto encoder none = none
onto encoder (some bs) = some (encoder ++ bs)

pub onto-onto : (a b : Bytes) (o : Option Bytes) → onto a (onto b o) ≡ onto (a ++ b) o
onto-onto a b none = refl
onto-onto a b (some bs) = ap some (sym (append_assoc a b bs))

-- An output that is a function of its encoder, and that only appends.
abbrev pub AppendsTo : (Encoder → Option Encoder) → Type 0
AppendsTo f = (encoder : Encoder) → f encoder ≡ onto encoder (f [])

onto-then :
    (g : Encoder → Option Encoder) (e : Encoder) (o : Option Bytes)
    → AppendsTo g
    → with_elem (onto e o) g ≡ onto e (with_elem o g)
onto-then g e none hg = refl
onto-then g e (some bs) hg =
    hg (e ++ bs) ∙ (sym (onto-onto e bs (g [])) ∙ ap (onto e) (sym (hg bs)))

-- Two outputs, one behind the other.
pub then-AppendsTo :
    (f g : Encoder → Option Encoder)
    → AppendsTo f
    → AppendsTo g
    → AppendsTo (λ e. with_elem (f e) g)
then-AppendsTo f g hf hg e = rw (hf e) (onto-then g e (f []) hg)

write_bytes-AppendsTo :
    (o : Option Bytes) → AppendsTo (λ e. with_elem o (λ bs. some (write_bytes bs e)))
unfolding write_bytes
write_bytes-AppendsTo none e = refl
write_bytes-AppendsTo (some bs) e = refl

save_data-AppendsTo :
    (width : ℕ) (memory : Bytes) (start end : ℕ) → AppendsTo (save_data width memory start end)
unfolding save_data
save_data-AppendsTo width memory start end =
    write_bytes-AppendsTo (byte_range (start * width) (end * width) memory)

write-AppendsTo : {V : Type 0} (c : Scalar V) (v : V) → AppendsTo (λ e. some (write c v e))
unfolding write write_bytes
write-AppendsTo c v e = refl

write_then :
    (v : ℕ) (g : Encoder → Option Encoder) → AppendsTo g → AppendsTo (λ e. g (write u64 v e))
write_then v g h = then-AppendsTo (λ e. some (write u64 v e)) g (write-AppendsTo u64 v) h

byte_string-AppendsTo : (v : Bytes) → AppendsTo (λ e. some (byte_string v e))
unfolding byte_string string
byte_string-AppendsTo v e = ap some (string-append v e)

elem-AppendsTo :
    {A : Type 0} (x : Option A) (f : A → Encoder → Option Encoder)
    → ((a : A) → AppendsTo (f a))
    → AppendsTo (λ e. with_elem x (λ a. f a e))
elem-AppendsTo none f h e = refl
elem-AppendsTo (some a) f h e = h a e

save_strings-AppendsTo :
    (pool : StringPool) (index count : ℕ) → AppendsTo (save_strings pool index count)
unfolding save_strings
save_strings-AppendsTo pool index zero e = ap some (sym (append-nil e))
save_strings-AppendsTo pool index (suc count) e =
    let rest = save_strings-AppendsTo pool (index + 1) count in
    elim (Bool-cases (ltb index (length pool.pointers))) [
      | inr h ↦ rw h (ap some (sym (append-nil e)))
      | inl h ↦
          rw (h, save_strings)
            (elem-AppendsTo (get pool index)
              (λ v e. save_strings pool (index + 1) count (byte_string v e))
              (λ v.
                then-AppendsTo (λ e. some (byte_string v e)) (save_strings pool (index + 1) count)
                  (byte_string-AppendsTo v) rest)
              e)
    ]

-- The offsets, with the last one beside the output.
abbrev pub onto_pair : Encoder → Option (ℕ × Bytes) → Option (ℕ × Encoder)
onto_pair encoder none = none
onto_pair encoder (some (o, bs)) = some (o, encoder ++ bs)

onto_pair-onto :
    (a b : Bytes) (o : Option (ℕ × Bytes)) → onto_pair a (onto_pair b o) ≡ onto_pair (a ++ b) o
onto_pair-onto a b none = refl
onto_pair-onto a b (some (o, bs)) = ap (λ (t : Bytes). some (o, t)) (sym (append_assoc a b bs))

-- One offset, and the others behind it.
offset_then :
    (x : Option ℕ) (k : ℕ → Encoder → Option (ℕ × Encoder)) (e : Encoder)
    → ((o : ℕ) (e : Encoder) → k o e ≡ onto_pair e (k o []))
    → with_elem x (λ o. k o (e ++ u64.marshal o))
      ≡ onto_pair e (with_elem x (λ o. k o (u64.marshal o)))
offset_then none k e h = refl
offset_then (some o) k e h =
    h o (e ++ u64.marshal o)
    ∙ sym (onto_pair-onto e (u64.marshal o) (k o []))
    ∙ ap (onto_pair e) (sym (h o (u64.marshal o)))

save_offsets-append :
    (offsets : List ℕ) (i count o : ℕ) (e : Encoder)
    → save_offsets offsets i count o e ≡ onto_pair e (save_offsets offsets i count o [])
unfolding save_offsets write write_bytes
save_offsets-append offsets i zero o e = ap (λ (t : Bytes). some (o, t)) (sym (append-nil e))
save_offsets-append offsets i (suc count) o e =
    offset_then (get_elem? offsets i) (save_offsets offsets (i + 1) count) e
      (save_offsets-append offsets (i + 1) count)

offsets_then-AppendsTo :
    (offsets : List ℕ) (i count : ℕ) (g : ℕ → Encoder → Option Encoder)
    → ((n : ℕ) → AppendsTo (g n))
    → AppendsTo (λ e. with_elem (save_offsets offsets i count 0 e) (λ r. g r.0 r.1))
offsets_then-AppendsTo offsets i count g hg e =
    rw (save_offsets-append offsets i count 0 e) (both (save_offsets offsets i count 0 []))
  where
    both :
        (x : Option (ℕ × Bytes))
        → with_elem (onto_pair e x) (λ r. g r.0 r.1) ≡ onto e (with_elem x (λ r. g r.0 r.1))
    both none = refl
    both (some (o, bs)) = onto-then (g o) e (some bs) (hg o)

module _ {Tz : Type 0} where
  -- Each implementation of `save`, on any range.
  pub save-AppendsTo : (d : AnyColumnData Tz) (start end : ℕ) → AppendsTo (save d start end)
  unfolding save save_strings len
  save-AppendsTo (vector t m) start end e = save_data-AppendsTo (size_of t) m start end e
  save-AppendsTo (strings p) start end e = elim (Bool-cases (leb start end)) [
    | inl h ↦ rw h (save_strings-AppendsTo p start (end - start) e)
    | inr h ↦ rw h
  ]
  save-AppendsTo (fixed_strings b l) start end e = save_data-AppendsTo l b start end e
  save-AppendsTo (dates m z) start end e = save_data-AppendsTo 2 m start end e
  save-AppendsTo (date_times m z) start end e = save_data-AppendsTo 4 m start end e
  save-AppendsTo (date_times64 m p z) start end e = refl
  save-AppendsTo (ips v m) start end e = save_data-AppendsTo (ip_size v) m start end e
  save-AppendsTo (nullables nulls inner) start end e =
      then-AppendsTo (save_data 1 nulls start end) (save inner start end)
        (save_data-AppendsTo 1 nulls start end) (save-AppendsTo inner start end) e
  save-AppendsTo (arrays os inner) start end e =
      offsets_then-AppendsTo os start (end - start) (λ n. save inner 0 n)
        (λ n. save-AppendsTo inner 0 n) e
  save-AppendsTo (maps size os keys values) start end e =
      offsets_then-AppendsTo os start (end - start)
        (λ n e. with_elem (save keys 0 n e) (save values 0 n))
        (λ n.
          then-AppendsTo (save keys 0 n) (save values 0 n) (save-AppendsTo keys 0 n)
            (save-AppendsTo values 0 n))
        e
  save-AppendsTo (decimals p s b inner) start end e = save-AppendsTo inner start end e
  save-AppendsTo (enums8 vs inner) start end e = save-AppendsTo inner start end e
  save-AppendsTo (enums16 vs inner) start end e = save-AppendsTo inner start end e
  save-AppendsTo (simple_aggregates f inner) start end e = save-AppendsTo inner start end e
  save-AppendsTo (low_cardinalities index inner) start end e = elim (Bool-cases (start == end)) [
    | inl h ↦ rw h (ap some (sym (append-nil e)))
    | inr h ↦
        rw (h, save)
          (elem-AppendsTo (len inner) _
            (λ n. write_then low_cardinality_version _ (
              write_then (get_flags index.kind) _ (
                write_then n _ (
                  then-AppendsTo (save inner 0 n) _ (save-AppendsTo inner 0 n) (
                    write_then (end - start) _
                      (save_data-AppendsTo (index_size index.kind) index.memory start end))))))
            e)
  ]
