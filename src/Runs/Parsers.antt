-- ===== src/Runs/Parsers.antt =====
-- A crate `combine` that runs: a parser answers whether it has taken something, and its result.
use clickhouse_rs.Prelude.{
  ℕ, zero, suc, ◌≡◌, ◌≢◌, refl, ap, ◌∙◌, arith, true, false, ◌==◌, leb, ◌&&◌, ◌||◌, not, Bool,
  if◌then◌else◌, List, [], ◌∷◌, ◌++◌, Bytes, length, Option, some, none,
}
use clickhouse_rs.Text.{is_whitespace, trim_start_matches}
use clickhouse_rs.Column.Data.Holds.{is_capital}
use clickhouse_rs.Column.Data.Combine.{Parsed, Combine}
use clickhouse_rs.Column.Data.Combine.Laws.{next, keep, CombineLaws}

abbrev Reply : Type 0 → Type 0
Reply A = Bool × Parsed A

abbrev Parser : Type 0 → Type 0
Parser A = Bytes → Reply A

abbrev and_taken : {A : Type 0} → Bool → Reply A → Reply A
and_taken taken (more, r) = (taken || more, r)

abbrev bind : {A B : Type 0} → Reply A → (A × Bytes → Reply B) → Reply B
bind (taken, none) f = (taken, none)
bind (taken, some r) f = and_taken taken (f r)

abbrev one : (ℕ → Bool) → Parser ℕ
one test [] = (false, none)
one test (c ∷ s) = if test c then (true, some (c, s)) else (false, none)

abbrev white_first : Bytes → Bool
white_first [] = false
white_first (c ∷ s) = is_whitespace c

abbrev is_digit : ℕ → Bool
is_digit c = leb b'0' c && leb c b'9'

abbrev elem : ℕ → Bytes → Bool
elem c [] = false
elem c (b ∷ bs) = c == b || elem c bs

abbrev one_byte : (ℕ → Bool) → Parser Bytes
one_byte test s = bind (one test s) (λ r. (false, some (r.0 ∷ [], r.1)))

abbrev text : Bytes → Parser Bytes
text [] s = (false, some ([], s))
text (c ∷ w) s =
    bind (one (λ b. b == c) s) (λ r. bind (text w r.1) (λ t. (false, some (c ∷ t.0, t.1))))

-- At the end of the input nothing has been taken.
abbrev recover : {A : Type 0} → Bytes → Reply A → Reply (Option A)
recover s (taken, some (a, rest)) = (taken, some (some a, rest))
recover [] (taken, none) = (false, some (none, []))
recover (c ∷ s) (true, none) = (true, none)
recover (c ∷ s) (false, none) = (false, some (none, c ∷ s))

abbrev otherwise : {A : Type 0} → Reply A → Reply A → Reply A
otherwise (taken, some r) q = (taken, some r)
otherwise (true, none) q = (true, none)
otherwise (false, none) q = q

abbrev listed : {A : Type 0} → ℕ → Parser A → Parser (List A)
listed zero p s = (false, some ([], s))
listed (suc fuel) p s = bind (recover s (p s)) (λ r. elim r.0 [
  | none ↦ (false, some ([], r.1))
  | some a ↦ bind (listed fuel p r.1) (λ t. (false, some (a ∷ t.0, t.1)))
])

abbrev joined : List Bytes → Bytes
joined [] = []
joined (s ∷ ss) = s ++ joined ss

abbrev pub some_combine : Combine
some_combine = record {
  Parser = Parser;
  parse = λ p s. (p s).1;
  spaces = λ s. (white_first s, some (tt, trim_start_matches is_whitespace s));
  token = λ c. one (λ b. b == c);
  string = text;
  digit = one_byte is_digit;
  any = one_byte (λ b. true);
  none_of = λ bs. one_byte (λ b. not (elem b bs));
  optional = λ p s. recover s (p s);
  many = λ p s. bind (listed (length s) p s) (λ r. (false, some (joined r.0, r.1)));
  many1 = λ p s.
      bind (p s)
        (λ r. bind (listed (length s) p r.1) (λ t. (false, some (r.0 ++ joined t.0, t.1))));
  or = λ p q s. otherwise (p s) (q s);
  and = λ p q s. bind (p s) (λ r. bind (q r.1) (λ t. (false, some ((r.0, t.0), t.1))));
  before = λ p q s. bind (p s) (λ r. q r.1);
  skip = λ p q s. bind (p s) (λ r. bind (q r.1) (λ t. (false, some (r.0, t.1))));
  and_then = λ p f s.
      bind (p s) (λ r. elim (f r.0) [ none ↦ (false, none) | some b ↦ (false, some (b, r.1)) ]);
  sep_by1 = λ p q s. bind (p s) (λ r.
      bind (listed (length s) (λ u. bind (q u) (λ v. p v.1)) r.1)
        (λ t. (false, some (r.0 ∷ t.0, t.1))));
}

bind_lem :
    {A B : Type 0} (m : Reply A) (f : A × Bytes → Reply B) → (bind m f).1 ≡ next m.1 (λ r. (f r).1)
bind_lem (taken, none) f = refl
bind_lem (taken, some r) f = refl

kept : {A B : Type 0} (a : A) (n : Reply B) → (bind n (λ t. (false, some (a, t.1)))).1 ≡ keep a n.1
kept a (more, none) = refl
kept a (more, some r) = refl

skip_lem :
    {A B : Type 0} (m : Reply A) (q : Parser B)
    → (bind m (λ r. bind (q r.1) (λ t. (false, some (r.0, t.1))))).1
      ≡ next m.1 (λ r. keep r.0 (q r.1).1)
skip_lem (taken, none) q = refl
skip_lem (taken, some (a, s)) q = kept a (q s)

letter_first :
    (b : ℕ) (s : Bytes) → is_capital b ≡ true → trim_start_matches is_whitespace (b ∷ s) ≡ b ∷ s
letter_first b s l = let e : is_whitespace b ≡ false = ground arith in rw e refl

text_other : (a b : ℕ) (w s : Bytes) → b ≢ a → (text (a ∷ w) (b ∷ s)).1 ≡ none
text_other a b w s h = let e : (b == a) ≡ false = ground (arith, h) in rw e refl

text_same : (w : Bytes) → (text w w).1 ≡ some (w, [])
text_same [] = refl
text_same (c ∷ w) =
    let e : (c == c) ≡ true = ground arith in
    rw e (
      bind_lem (text w w) (λ t. (false, some (c ∷ t.0, t.1)))
      ∙ ap (λ o. next o (λ t. some (c ∷ t.0, t.1))) (text_same w))

or_first : {A : Type 0} (m q : Reply A) (r : A × Bytes) → m.1 ≡ some r → (otherwise m q).1 ≡ some r
or_first (taken, some x) q r e = e
or_first (taken, none) q r e = absurd cc

or_neither : {A : Type 0} (m q : Reply A) → m.1 ≡ none → q.1 ≡ none → (otherwise m q).1 ≡ none
or_neither (taken, some x) q e h = e
or_neither (true, none) q e h = refl
or_neither (false, none) q e h = h

optional_end : {A : Type 0} (m : Reply A) → m.1 ≡ none → (recover [] m).1 ≡ some (none, [])
optional_end (taken, some x) e = absurd cc
optional_end (taken, none) e = refl

pub some_combine_laws : CombineLaws some_combine
some_combine_laws = record {
  before_lem = λ p q s. bind_lem (p s) (λ r. q r.1);
  skip_lem = λ p q s. skip_lem (p s) q;
  spaces_letter = λ b s l. ap (λ t. some (tt, t)) (letter_first b s l);
  spaces_end = refl;
  token_end = λ b. refl;
  string_other = text_other;
  string_same = text_same;
  or_first = λ p q s r e. or_first (p s) (q s) r e;
  or_neither = λ p q s e h. or_neither (p s) (q s) e h;
  optional_end = λ p e. optional_end (p []) e;
}
