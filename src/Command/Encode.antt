-- ===== src/Command/Encode.antt =====
-- What `encode_query` and `encode_command` answer.
use clickhouse_rs.Prelude.{
  ℕ, ◌≡◌, ◌⊎◌, inl, inr, refl, sym, ap, ◌∙◌, arith, leb, ltb, ◌&&◌, Bool, true, false, List, [],
  ◌∷◌, ◌++◌, Bytes,
}
use clickhouse_rs.Errors.{Error}
use clickhouse_rs.Wire.Outcome.{done}
use clickhouse_rs.Wire.Scalar.{bool, i32, u64}
use clickhouse_rs.Wire.Encoder.{Encoder, uvarint, string, write, write_bytes}
use clickhouse_rs.Wire.RoundTrip.{uvarint-rest, write-rest, string-rest}
use clickhouse_rs.Column.{ColumnData}
use clickhouse_rs.Block.{new_block, write_block, write_columns, column_count, row_count}
use clickhouse_rs.Block.Info.{BlockInfo, write_info}
use clickhouse_rs.Block.Compressed.{Codec, write_any, write_compressed}
use clickhouse_rs.Query.{Query, QueryParameterValue, has_parameters}
use clickhouse_rs.Command.{
  Options, Context, Cmd, ping, cancel, hello, send_query, send_data, union, or_error, write_query,
  send_block, encode_query, encode_command,
}
use clickhouse_rs.Command.Parts.{Appends, then-Appends}
use clickhouse_rs.Command.QueryPacket.{read_query}
use clickhouse_rs.Command.QueryPacket.Parsed.{QueryFits, asked, write_query-Part}
use clickhouse_rs.Protocol.{client_data, dbms_min_revision_with_parameters}
use mathlib.Core.List.{append_assoc, append-nil}

write_info-Appends : (info : BlockInfo) → Appends (write_info info)
unfolding write_info
write_info-Appends info = then-Appends (uvarint 1) _ (uvarint-rest 1) (
    then-Appends (write bool info.is_overflows) _ (write-rest bool info.is_overflows) (
      then-Appends (uvarint 2) _ (uvarint-rest 2) (
        then-Appends (write i32 info.bucket_num) (uvarint 0) (write-rest i32 info.bucket_num)
          (uvarint-rest 0))))

write_bytes-rest : (bs e rest : Bytes) → write_bytes bs e ++ rest ≡ e ++ (write_bytes bs [] ++ rest)
unfolding write_bytes
write_bytes-rest bs e rest = append_assoc e bs rest

single : (x : Error ⊎ Bytes) → x ≡ or_error x (λ a. or_error (inr []) (λ b. inr (a ++ b)))
single (inl e) = refl
single (inr a) = ap inr (sym (append-nil a))

or_error-nothing : (y : Error ⊎ Bytes) → y ≡ or_error y (λ b. inr b)
or_error-nothing (inl e) = refl
or_error-nothing (inr b) = refl

-- Three outputs, with the first error of theirs.
or_error_assoc :
    (x y z : Error ⊎ Bytes)
    → or_error x
        (λ a. or_error (or_error y (λ b. or_error z (λ c. inr (b ++ c)))) (λ b. inr (a ++ b)))
      ≡ or_error
          (or_error x (λ a. or_error y (λ b. inr (a ++ b))))
          (λ a. or_error z (λ c. inr (a ++ c)))
or_error_assoc (inl e) y z = refl
or_error_assoc (inr a) (inl e) z = refl
or_error_assoc (inr a) (inr b) (inl e) = refl
or_error_assoc (inr a) (inr b) (inr c) = ap inr (sym (append_assoc a b c))

param_cases :
    (ps : List (Bytes × QueryParameterValue)) (revision : ℕ)
    → (elim ps [ [] ↦ false | p ∷ more ↦ true ] && ltb revision 54459) ≡ false
    → (leb 54459 revision ≡ true) ⊎ (ps ≡ [])
param_cases [] revision h = inr refl
param_cases (p ∷ ps) revision h = inl (ground arith)

module _ {Data Tz : Type 0} (codec : Codec) (ops : ColumnData Data Tz)
    (is_utf8 : Bytes → Bool) where
  write_empty-Appends : (revision : ℕ) → Appends (write_block ops new_block revision)
  unfolding write_block write_columns
  write_empty-Appends revision = then-Appends (write_info _) _ (write_info-Appends _) (
      then-Appends (uvarint (column_count new_block)) _ (uvarint-rest _)
        (uvarint-rest (row_count ops new_block)))

  compressed-Appends : (tmp : Bytes) → Appends (write_compressed codec tmp)
  unfolding write_compressed
  compressed-Appends tmp =
      then-Appends (write u64 _) _ (write-rest u64 _)
        (then-Appends (write u64 _) (write_bytes _) (write-rest u64 _) (write_bytes-rest _))

  send_empty-Appends :
      (compress : Bool) (revision : ℕ)
      → Appends (send_block codec ops is_utf8 new_block compress revision)
  unfolding send_block write_any
  send_empty-Appends compress revision =
      then-Appends (uvarint client_data) _ (uvarint-rest client_data)
        (then-Appends (string []) _ (string-rest []) (either compress))
    where
      either : (c : Bool) → Appends (write_any codec ops is_utf8 new_block c revision)
      either true = compressed-Appends (write_block ops new_block revision [])
      either false = write_empty-Appends revision

  module _ (show_f64 : ℕ → Bytes) where
    -- When the options are there, the texts of the query are shorter than 2^63 bytes, the names of its
    -- parameters and settings are not empty, no parameter is given to a server before revision 54459 and no
    -- setting to one before 54429, `encode_query` gives a packet. A server of that revision that reads it gets
    -- the query's id and text, the settings, the parameters and the client's fields, and behind them is the
    -- empty block that ends a query.
    pub encode_query-parsed :
        (query : Query) (context : Context) (options : Options) (fuel : ℕ)
        → context.options ≡ inr options
        → (has_parameters query && ltb context.revision dbms_min_revision_with_parameters) ≡ false
        → QueryFits show_f64 context.revision fuel query context.hostname options
        → (bytes : Bytes) × (encode_query show_f64 codec ops is_utf8 query context ≡ inr bytes)
          × (read_query fuel context.revision bytes
              ≡ done
                  (asked show_f64 context.revision fuel query context.hostname options)
                  (send_block codec ops is_utf8 new_block options.compression context.revision []))
    unfolding encode_query has_parameters
    encode_query-parsed query context options fuel given supported h =
        let part =
          write_query-Part show_f64 context.revision fuel query context.hostname options h
            (param_cases query.parameters context.revision supported) in
        let head : Bytes =
          write_query show_f64 context.revision query context.hostname options [] in
        let tail : Encoder → Encoder =
          send_block codec ops is_utf8 new_block options.compression context.revision in
        let shape : tail head ≡ head ++ tail [] =
          sym (append-nil (tail head))
          ∙ send_empty-Appends options.compression context.revision head []
          ∙ ap (◌++◌ head) (append-nil (tail [])) in
        rw (supported, given)
          (tail head, refl, ap (read_query fuel context.revision) shape ∙ part.back (tail []))

    -- The commands in a union, in order.
    abbrev pub leaves : Cmd Data → List (Cmd Data)
    leaves (hello c) = hello c ∷ []
    leaves ping = ping ∷ []
    leaves cancel = cancel ∷ []
    leaves (send_query q c) = send_query q c ∷ []
    leaves (send_data b c) = send_data b c ∷ []
    leaves (union first second) = leaves first ++ leaves second

    -- The packets of commands one behind the other, or the first error.
    abbrev pub encode_all : List (Cmd Data) → Error ⊎ Bytes
    encode_all [] = inr []
    encode_all (c ∷ cs) =
        let rest = encode_all cs in
        or_error (encode_command show_f64 codec ops is_utf8 c)
          (λ a. or_error rest (λ b. inr (a ++ b)))

    encode_all-append :
        (xs ys : List (Cmd Data))
        → encode_all (xs ++ ys)
          ≡ or_error (encode_all xs) (λ a. or_error (encode_all ys) (λ b. inr (a ++ b)))
    encode_all-append [] ys = or_error-nothing (encode_all ys)
    encode_all-append (x ∷ xs) ys = rw (encode_all-append xs ys) (
        or_error_assoc (encode_command show_f64 codec ops is_utf8 x) (encode_all xs)
          (encode_all ys))

    -- A command is encoded as its parts are, in order: the packets of all of them one behind the other, or the
    -- error of the first that has one.
    pub encode_command-leaves :
        (c : Cmd Data) → encode_command show_f64 codec ops is_utf8 c ≡ encode_all (leaves c)
    unfolding encode_command
    encode_command-leaves (hello c) = single _
    encode_command-leaves ping = single _
    encode_command-leaves cancel = single _
    encode_command-leaves (send_query q c) = single _
    encode_command-leaves (send_data b c) = single _
    encode_command-leaves (union first second) =
        rw (encode_command-leaves first, encode_command-leaves second)
          (sym (encode_all-append (leaves first) (leaves second)))
