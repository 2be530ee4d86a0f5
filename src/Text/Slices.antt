-- ===== src/Text/Slices.antt =====
-- Slices of a text that is put together, and white space.
use clickhouse_rs.Prelude.{
  ℕ, zero, suc, ◌+◌, ◌-◌, ◌<◌, ◌≡◌, ◌≢◌, refl, ap, ◌∙◌, arith, leb, ◌==◌, true, false, Bool, [],
  ◌∷◌, ◌++◌, Bytes, length, length-append, drop, take-append, drop-append, some, All, Bool-cases,
  inl, inr,
}
use clickhouse_rs.Text.{
  is_whitespace, trim, slice, starts_char, is_continuation, position, trim_end_matches, find,
}

-- The part between two others, where all begin with a character.
pub slice_middle :
    (a b c : Bytes) (from to : ℕ)
    → from ≡ length a
    → to ≡ length a + length b
    → starts_char (b ++ c) ≡ true
    → starts_char c ≡ true
    → slice from to (a ++ (b ++ c)) ≡ some b
unfolding slice
slice_middle a b c from to hf ht hb hc =
    let total = length-append a (b ++ c) in
    let inner = length-append b c in
    let in_order : leb from to ≡ true = ground arith in
    let in_range : leb to (length (a ++ (b ++ c))) ≡ true = ground arith in
    let front : drop from (a ++ (b ++ c)) ≡ b ++ c =
      ap (λ n. drop n (a ++ (b ++ c))) hf ∙ drop-append a (b ++ c) in
    let len : to - from ≡ length b = omega arith in
    rw (in_order, in_range, front, drop_past a b c to ht, hb, hc, len, take-append b c)
  where
    drop_past : (a b c : Bytes) (n : ℕ) → n ≡ length a + length b → drop n (a ++ (b ++ c)) ≡ c
    drop_past [] b c n h =
        let h' : n ≡ length b = omega arith in ap (λ m. drop m (b ++ c)) h' ∙ drop-append b c
    drop_past (x ∷ a) b c zero h = absurd (omega arith)
    drop_past (x ∷ a) b c (suc n) h = drop_past a b c n (omega arith)

-- The last byte, a blank if there is none.
abbrev pub last_of : Bytes → ℕ
last_of [] = 32
last_of (c ∷ []) = c
last_of (c ∷ d ∷ s) = last_of (d ∷ s)

pub last_of-append : (s : Bytes) (c : ℕ) → last_of (s ++ c ∷ []) ≡ c
last_of-append [] c = refl
last_of-append (x ∷ []) c = refl
last_of-append (x ∷ y ∷ s) c = last_of-append (y ∷ s) c

pub last_of-append_cons : (s t : Bytes) (c : ℕ) → last_of (s ++ c ∷ t) ≡ last_of (c ∷ t)
last_of-append_cons [] t c = refl
last_of-append_cons (x ∷ []) t c = refl
last_of-append_cons (x ∷ y ∷ s) t c = last_of-append_cons (y ∷ s) t c

pub trim_end_nothing : (p : ℕ → Bool) (s : Bytes) → p (last_of s) ≡ false → trim_end_matches p s ≡ s
trim_end_nothing p [] h = refl
trim_end_nothing p (c ∷ []) h = rw h
trim_end_nothing p (c ∷ d ∷ s) h =
    rw (trim_end_nothing p (d ∷ s) h) (elim (Bool-cases (p c)) [ inl e ↦ rw e | inr e ↦ rw e ])

trim_end-All : (p : ℕ → Bool) (s : Bytes) → All (λ c. p c ≡ true) s → trim_end_matches p s ≡ []
trim_end-All p [] h = refl
trim_end-All p (c ∷ s) (hc, hs) = rw (trim_end-All p s hs, hc)

-- What matches goes from the end, and no more.
pub trim_end-append :
    (p : ℕ → Bool) (s cs : Bytes)
    → s ≢ []
    → p (last_of s) ≡ false
    → All (λ c. p c ≡ true) cs
    → trim_end_matches p (s ++ cs) ≡ s
trim_end-append p [] cs n h hs = absurd (n refl)
trim_end-append p (x ∷ []) cs n h hs = rw (trim_end-All p cs hs, h)
trim_end-append p (x ∷ y ∷ s) cs n h hs =
    rw (trim_end-append p (y ∷ s) cs (λ e. absurd (cc)) h hs)
      (elim (Bool-cases (p x)) [ inl e ↦ rw e | inr e ↦ rw e ])

-- A byte of ASCII other than the one that is looked for.
abbrev pub Other : ℕ → ℕ → Type 0
Other c b = (b ≢ c) × (b < 128)

pub position-append :
    (c : ℕ) (s t : Bytes) → All (Other c) s → position c (s ++ c ∷ t) ≡ some (length s)
position-append c [] t h = let e : (c == c) ≡ true = ground arith in rw e
position-append c (b ∷ s) t (hb, hs) =
    let other : (b == c) ≡ false = ground (arith, hb.0) in
    let ascii : is_continuation b ≡ false = ground (arith, hb.1) in
    rw (other, ascii, position-append c s t hs)

pub find-append : (c : ℕ) (s t : Bytes) → All (λ b. b ≢ c) s → find c (s ++ c ∷ t) ≡ some (length s)
find-append c [] t h = let e : (c == c) ≡ true = ground arith in rw e
find-append c (b ∷ s) t (hb, hs) =
    let other : (b == c) ≡ false = ground (arith, hb) in rw (other, find-append c s t hs)

pub All-imp : {P Q : ℕ → Type 0} (s : Bytes) → ((c : ℕ) → P c → Q c) → All P s → All Q s
All-imp [] f h = tt
All-imp (c ∷ s) f (hc, hs) = (f c hc, All-imp s f hs)

-- A byte above the blank.
abbrev pub Solid : ℕ → Type 0
Solid c = 32 < c

Solid-end : (c : ℕ) (s : Bytes) → All Solid (c ∷ s) → is_whitespace (last_of (c ∷ s)) ≡ false
Solid-end c [] (hc, hs) = ground arith
Solid-end c (d ∷ s) (hc, hs) = Solid-end d s hs

pub trim-Solid : (s : Bytes) → All Solid s → trim s ≡ s
trim-Solid [] h = refl
trim-Solid (c ∷ s) h =
    let hc = h.0 in
    let e : is_whitespace c ≡ false = ground arith in
    rw e (trim_end_nothing is_whitespace (c ∷ s) (Solid-end c s h))
