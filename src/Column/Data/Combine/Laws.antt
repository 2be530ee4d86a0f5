-- ===== src/Column/Data/Combine/Laws.antt =====
-- The parsers of src/types/column/factory.rs that are built with `combine`, on names of other types.
use clickhouse_rs.Prelude.{ℕ, ◌≡◌, ◌≢◌, refl, ap, ◌∙◌, true, [], ◌∷◌, Bytes, some, none, ◌⊎◌}
use clickhouse_rs.Text.{codes}
use clickhouse_rs.Column.Data.Holds.{is_capital, TypeParserLaws}
use clickhouse_rs.Column.Data.Combine.{
  Parsed, Combine, all_of, mapped, enum_parser, zone_parser, parse_enum, parse_enum8, parse_enum16,
  parse_date_time, parse_date_time64, type_parsers,
}

-- A parser on what another one has left.
abbrev pub next : {A B : Type 0} → Parsed A → (A × Bytes → Parsed B) → Parsed B
next none f = none
next (some r) f = f r

abbrev pub keep : {A B : Type 0} → A → Parsed B → Parsed A
keep a none = none
keep a (some r) = some (a, r.1)

-- What the crate documents of the functions that the parsers begin with: a sequence stops at the first error;
-- white space is skipped, also none of it; a text is compared character by character; an alternative is
-- tried when the first fails on its first character, and `optional` answers `None` when its parser fails
-- without having taken anything, as at the end of the input it must.
pub record CombineLaws (c : Combine) : Type 1 where
  pub before_lem :
      {A B : Type 0} (p : c.Parser A) (q : c.Parser B) (s : Bytes)
      → c.parse (c.before p q) s ≡ next (c.parse p s) (λ r. c.parse q r.1)
  pub skip_lem :
      {A B : Type 0} (p : c.Parser A) (q : c.Parser B) (s : Bytes)
      → c.parse (c.skip p q) s ≡ next (c.parse p s) (λ r. keep r.0 (c.parse q r.1))
  pub spaces_letter :
      (b : ℕ) (s : Bytes) → is_capital b ≡ true → c.parse c.spaces (b ∷ s) ≡ some (tt, b ∷ s)
  pub spaces_end : c.parse c.spaces [] ≡ some (tt, [])
  pub token_end : (b : ℕ) → c.parse (c.token b) [] ≡ none
  pub string_other : (a b : ℕ) (w s : Bytes) → b ≢ a → c.parse (c.string (a ∷ w)) (b ∷ s) ≡ none
  pub string_same : (w : Bytes) → c.parse (c.string w) w ≡ some (w, [])
  pub or_first :
      {A : Type 0} (p q : c.Parser A) (s : Bytes) (r : A × Bytes)
      → c.parse p s ≡ some r
      → c.parse (c.or p q) s ≡ some r
  pub or_neither :
      {A : Type 0} (p q : c.Parser A) (s : Bytes)
      → c.parse p s ≡ none
      → c.parse q s ≡ none
      → c.parse (c.or p q) s ≡ none
  pub optional_end :
      {A : Type 0} (p : c.Parser A)
      → c.parse p [] ≡ none
      → c.parse (c.optional p) [] ≡ some (none, [])

module _ (c : Combine) (laws : CombineLaws c) where
  -- A sequence fails with its first part.
  before_fails :
      {A B : Type 0} (p : c.Parser A) (q : c.Parser B) (s : Bytes)
      → c.parse p s ≡ none
      → c.parse (c.before p q) s ≡ none
  before_fails p q s e = laws.before_lem p q s ∙ ap (λ o. next o (λ r. c.parse q r.1)) e

  skip_fails :
      {A B : Type 0} (p : c.Parser A) (q : c.Parser B) (s : Bytes)
      → c.parse p s ≡ none
      → c.parse (c.skip p q) s ≡ none
  skip_fails p q s e = laws.skip_lem p q s ∙ ap (λ o. next o (λ r. keep r.0 (c.parse q r.1))) e

  -- White space, of which there is none, then a parser.
  spaces_then :
      {A : Type 0} (p : c.Parser A) (b : ℕ) (s : Bytes)
      → is_capital b ≡ true
      → c.parse (c.before c.spaces p) (b ∷ s) ≡ c.parse p (b ∷ s)
  spaces_then p b s l =
      laws.before_lem c.spaces p (b ∷ s)
      ∙ ap (λ o. next o (λ r. c.parse p r.1)) (laws.spaces_letter b s l)

  -- A keyword that begins with another letter.
  keyword_fails :
      (a b : ℕ) (w s : Bytes)
      → is_capital b ≡ true
      → b ≢ a
      → c.parse (c.before c.spaces (c.string (a ∷ w))) (b ∷ s) ≡ none
  keyword_fails a b w s l h = spaces_then (c.string (a ∷ w)) b s l ∙ laws.string_other a b w s h

  enum_fails :
      (a b : ℕ) (w s : Bytes)
      → is_capital b ≡ true
      → b ≢ a
      → c.parse (enum_parser c (a ∷ w)) (b ∷ s) ≡ none
  enum_fails a b w s l h = skip_fails _ _ (b ∷ s) (
      before_fails _ _ (b ∷ s) (
        skip_fails _ _ (b ∷ s)
          (skip_fails _ _ (b ∷ s) (skip_fails _ _ (b ∷ s) (keyword_fails a b w s l h)))))

  date_time64_fails :
      (b : ℕ) (s : Bytes) → is_capital b ≡ true → b ≢ b'D' → parse_date_time64 c (b ∷ s) ≡ none
  unfolding parse_date_time64
  date_time64_fails b s l h = ap all_of (
      skip_fails _ _ (b ∷ s) (
        skip_fails _ _ (b ∷ s) (
          before_fails _ _ (b ∷ s) (
            skip_fails _ _ (b ∷ s) (
              skip_fails _ _ (b ∷ s)
                (skip_fails _ _ (b ∷ s) (keyword_fails b'D' b (codes "ateTime64") s l h)))))))

  date_time_fails :
      (b : ℕ) (s : Bytes)
      → is_capital b ≡ true
      → b ≢ b'D'
      → b ≢ b'T'
      → parse_date_time c (b ∷ s) ≡ none
  unfolding parse_date_time
  date_time_fails b s l d t = ap all_of (
      before_fails _ _ (b ∷ s) (
        spaces_then _ b s l
        ∙ laws.or_neither _ _ (b ∷ s) (laws.string_other b'D' b (codes "ateTime") s d)
            (laws.string_other b'T' b (codes "imestamp") s t)))

  -- The zone of a `DateTime` with nothing behind it.
  zone_fails : c.parse (zone_parser c) [] ≡ none
  zone_fails =
      let no_bracket : c.parse (c.skip c.spaces (c.token b'(')) [] ≡ none =
        laws.skip_lem c.spaces (c.token b'(') []
        ∙ ap (λ o. next o (λ r. keep r.0 (c.parse (c.token b'(') r.1))) laws.spaces_end
        ∙ ap (keep tt) (laws.token_end b'(') in
      skip_fails _ _ []
        (skip_fails _ _ [] (skip_fails _ _ [] (before_fails _ _ [] (skip_fails _ _ [] no_bracket))))

  date_time_alone : parse_date_time c (codes "DateTime") ≡ some none
  unfolding parse_date_time
  date_time_alone =
      let keyword : c.parse
            (c.before c.spaces (c.or (c.string (codes "DateTime")) (c.string (codes "Timestamp"))))
            (codes "DateTime")
          ≡ some (codes "DateTime", []) =
        spaces_then _ b'D' (codes "ateTime") refl
        ∙ laws.or_first _ _ (codes "DateTime") _ (laws.string_same (codes "DateTime")) in
      ap all_of (
        laws.before_lem _ _ (codes "DateTime")
        ∙ ap (λ o. next o (λ r. c.parse (c.optional (zone_parser c)) r.1)) keyword
        ∙ laws.optional_end (zone_parser c) zone_fails)

  enum8_fails : (b : ℕ) (s : Bytes) → is_capital b ≡ true → b ≢ b'E' → parse_enum8 c (b ∷ s) ≡ none
  unfolding parse_enum8 parse_enum
  enum8_fails b s l h = ap (λ o. mapped c (all_of o)) (enum_fails b'E' b (codes "num8") s l h)

  enum16_fails :
      (b : ℕ) (s : Bytes) → is_capital b ≡ true → b ≢ b'E' → parse_enum16 c (b ∷ s) ≡ none
  unfolding parse_enum16 parse_enum
  enum16_fails b s l h = ap all_of (enum_fails b'E' b (codes "num16") s l h)

  pub type_parsers_laws :
      {Tz : Type 0} (parse_tz : Bytes → Bytes ⊎ Tz) (show_tz : Tz → Bytes)
      → TypeParserLaws (type_parsers c parse_tz show_tz)
  type_parsers_laws parse_tz show_tz = record {
    enum8_keyword = enum8_fails;
    enum16_keyword = enum16_fails;
    date_time_keyword = date_time_fails;
    date_time64_keyword = date_time64_fails;
    date_time_alone = date_time_alone;
  }
