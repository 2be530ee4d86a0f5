-- ===== src/Text.antt =====
-- What src/types uses of Rust's `str` and of the texts of integers. A text is its UTF-8 bytes.
pub mod Numbers
pub mod Slices
use Prim.Native.Char.{code}
use Prim.Native.String.{String}
use clickhouse_rs.Prelude.{
  ℕ, zero, suc, ◌+◌, ◌-◌, ◌*◌, ◌/◌, ◌%◌, ltb, leb, ◌==◌, ◌&&◌, ◌||◌, not, if◌then◌else◌, Bool, true,
  false, List, [], ◌∷◌, ◌++◌, Bytes, length, take, drop, get_elem?, Option, some, none,
}
use clickhouse_rs.Prelude.Int.{ℤ, pos, negsuc}

-- The bytes of an ASCII literal.
abbrev pub codes : String → Bytes
codes String.[] = []
codes (String.◌∷◌ c s) = code c ∷ codes s

-- `==` on texts.
abbrev pub bytes_eq : Bytes → Bytes → Bool
bytes_eq [] [] = true
bytes_eq [] (b ∷ t) = false
bytes_eq (a ∷ s) [] = false
bytes_eq (a ∷ s) (b ∷ t) = (a == b) && bytes_eq s t

abbrev pub to_ascii_lowercase : ℕ → ℕ
to_ascii_lowercase c = if leb b'A' c && leb c b'Z' then c + 32 else c

abbrev pub eq_ignore_ascii_case : Bytes → Bytes → Bool
eq_ignore_ascii_case [] [] = true
eq_ignore_ascii_case [] (b ∷ t) = false
eq_ignore_ascii_case (a ∷ s) [] = false
eq_ignore_ascii_case (a ∷ s) (b ∷ t) =
    (to_ascii_lowercase a == to_ascii_lowercase b) && eq_ignore_ascii_case s t

abbrev pub starts_with : Bytes → Bytes → Bool
starts_with s [] = true
starts_with [] (p ∷ prefix) = false
starts_with (c ∷ s) (p ∷ prefix) = (c == p) && starts_with s prefix

-- Does a text end with a given ASCII character?
abbrev pub ends_with_char : Bytes → ℕ → Bool
ends_with_char [] p = false
ends_with_char (c ∷ []) p = c == p
ends_with_char (c ∷ d ∷ s) p = ends_with_char (d ∷ s) p

-- A byte that continues a character, 0b10xxxxxx.
abbrev pub is_continuation : ℕ → Bool
is_continuation b = leb 0x80 b && ltb b 0xc0

abbrev pub starts_char : Bytes → Bool
starts_char [] = true
starts_char (b ∷ s) = not (is_continuation b)

abbrev pub is_char_boundary : ℕ → Bytes → Bool
is_char_boundary i s = starts_char (drop i s)

-- `&s[from..to]`; `none` is a panic, out of range or within a character.
unfoldable pub slice : ℕ → ℕ → Bytes → Option Bytes
slice from to s =
    if (leb from to && leb to (length s)) && (is_char_boundary from s && is_char_boundary to s)
    then some (take (to - from) (drop from s))
    else none

-- The white space of ASCII. Of the other white space of Unicode, which `str::trim` drops too, there is none
-- in the name of a type.
abbrev pub is_whitespace : ℕ → Bool
is_whitespace c = (leb 9 c && leb c 13) || c == 32

abbrev pub trim_start_matches : (ℕ → Bool) → Bytes → Bytes
trim_start_matches p [] = []
trim_start_matches p (c ∷ s) = if p c then trim_start_matches p s else c ∷ s

abbrev keep : ℕ → Bool → Bytes → Bytes
keep c true [] = []
keep c true (d ∷ s) = c ∷ d ∷ s
keep c false s = c ∷ s

abbrev pub trim_end_matches : (ℕ → Bool) → Bytes → Bytes
trim_end_matches p [] = []
trim_end_matches p (c ∷ s) = keep c (p c) (trim_end_matches p s)

abbrev pub trim_matches : (ℕ → Bool) → Bytes → Bytes
trim_matches p s = trim_end_matches p (trim_start_matches p s)

abbrev pub trim : Bytes → Bytes
trim s = trim_matches is_whitespace s

-- `s.find(c)`: the byte that a character stands at.
abbrev pub find : ℕ → Bytes → Option ℕ
find c [] = none
find c (b ∷ s) = if b == c then some 0 else elim (find c s) [ none ↦ none | some i ↦ some (suc i) ]

-- `s.chars().position(|x| x == c)`: how many characters stand before it.
abbrev pub position : ℕ → Bytes → Option ℕ
position c [] = none
position c (b ∷ s) =
    let rest = position c s in
    if b == c
    then some 0
    else if is_continuation b
    then rest
    else elim rest [ none ↦ none | some i ↦ some (suc i) ]

abbrev put_first : ℕ → List Bytes → List Bytes
put_first b [] = (b ∷ []) ∷ []
put_first b (p ∷ ps) = (b ∷ p) ∷ ps

-- `s.split(c)`
abbrev pub split : ℕ → Bytes → List Bytes
split c [] = [] ∷ []
split c (b ∷ s) = let rest = split c s in if b == c then [] ∷ rest else put_first b rest

-- `Display` of an unsigned integer of at most `fuel` digits, in front of `out`.
unfoldable pub digits : ℕ → ℕ → Bytes → Bytes
digits zero n out = out
digits (suc fuel) n out =
    let more = digits fuel (n / 10) ((b'0' + n % 10) ∷ out) in
    if ltb n 10 then (b'0' + n) ∷ out else more

-- A u64 has at most twenty digits.
unfoldable pub show : ℕ → Bytes
unfolding digits
show n = digits 20 n []

unfoldable pub show_signed : ℤ → Bytes
unfolding show
show_signed (pos n) = show n
show_signed (negsuc n) = b'-' ∷ show (suc n)

-- The digits of `str::parse`, up to the type's greatest value.
unfoldable pub scan : ℕ → ℕ → Bytes → Option ℕ
scan max n [] = some n
scan max n (c ∷ s) =
    let rest = scan max (n * 10 + (c - b'0')) s in
    if ltb c b'0' || ltb b'9' c then none else if ltb max (n * 10 + (c - b'0')) then none else rest

abbrev some_digits : ℕ → Bytes → Option ℕ
some_digits max [] = none
some_digits max (c ∷ s) = scan max 0 (c ∷ s)

-- `parse` to an unsigned type; it takes one plus sign.
unfoldable pub parse : ℕ → Bytes → Option ℕ
unfolding scan
parse max [] = none
parse max (c ∷ s) = if c == b'+' then some_digits max s else scan max 0 (c ∷ s)
