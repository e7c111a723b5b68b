-- ===== src/Go/Strings.antt =====
-- strings and strconv: what the plugins use of them, on lists of bytes.
use deepflow_wasm_go_sdk.Prelude.{
  ℕ, zero, suc, ◌+◌, ◌-◌, ◌*◌, ◌/◌, ◌%◌, ◌≡◌, refl, inl, inr, sym, ◌∙◌, ==_iff, arith, All,
  Bool-cases, Bool, true, false, ◌&&◌, ◌||◌, Option, none, some, List, [], ◌∷◌, ◌++◌, ltb, leb,
  ◌==◌, if◌then◌else◌,
}
use deepflow_wasm_go_sdk.Prelude.Int.{ℤ, pos, negsuc}
use deepflow_wasm_go_sdk.Prelude.Text.{has_prefix}
use deepflow_wasm_go_sdk.Go.Slices.{Bytes}

-- strings.Index(s, c) of a text of one byte: the bytes before it and behind it, if it occurs.
abbrev before_cut : ℕ → Option (Bytes × Bytes) → Option (Bytes × Bytes)
before_cut b none = none
before_cut b (some (before, behind)) = some (b ∷ before, behind)

unfoldable pub cut : ℕ → Bytes → Option (Bytes × Bytes)
cut c [] = none
cut c (b ∷ bs) = let later = before_cut b (cut c bs) in if b == c then some ([], bs) else later

before_cut-none : (b : ℕ) (o : Option (Bytes × Bytes)) → before_cut b o ≡ none → o ≡ none
before_cut-none b none e = refl
before_cut-none b (some (before, behind)) e = cc

before_cut-some :
    (b : ℕ) (o : Option (Bytes × Bytes)) {before behind : Bytes}
    → before_cut b o ≡ some (before, behind)
    → (first : Bytes) × (o ≡ some (first, behind)) × (before ≡ b ∷ first)
before_cut-some b none e = cc
before_cut-some b (some (first, behind)) e = (first, ground arith, ground arith)

-- Bytes among which `c` does not occur.
abbrev pub Without : ℕ → Bytes → Type 0
Without c = All (λ b. (b == c) ≡ false)

cut-here : (c b : ℕ) (bs : Bytes) → (b == c) ≡ true → cut c (b ∷ bs) ≡ some ([], bs)
unfolding cut
cut-here c b bs f = rw f

cut-later : (c b : ℕ) (bs : Bytes) → (b == c) ≡ false → cut c (b ∷ bs) ≡ before_cut b (cut c bs)
unfolding cut
cut-later c b bs f = rw f

pub cut-none : (c : ℕ) (s : Bytes) → cut c s ≡ none → Without c s
cut-none c [] e = tt
cut-none c (b ∷ bs) e = elim (Bool-cases (b == c)) [
  | inl f ↦ cc (cut-here c b bs f)
  | inr f ↦ (f, cut-none c bs (before_cut-none b (cut c bs) (sym (cut-later c b bs f) ∙ e)))
]

pub cut-some :
    (c : ℕ) (s before behind : Bytes)
    → cut c s ≡ some (before, behind)
    → (s ≡ before ++ (c ∷ behind)) × Without c before
unfolding cut
cut-some c [] before behind e = cc
cut-some c (b ∷ bs) before behind e = elim (Bool-cases (b == c)) [
  | inl f ↦
      let same : ◌≡◌ {A = Option (Bytes × Bytes)} (some ([], bs)) (some (before, behind)) =
        sym (cut-here c b bs f) ∙ e in
      let none_before : [] ≡ before = ground arith in
      let rest : bs ≡ behind = ground arith in
      rw ((==_iff b c).0 f, ← none_before, ← rest) (refl, tt)
  | inr f ↦
      let (first, found, joined) = before_cut-some b (cut c bs) (sym (cut-later c b bs f) ∙ e) in
      let (split, free) = cut-some c bs first behind found in rw (joined, split) (refl, (f, free))
]

pub cut-Without : (c : ℕ) (s : Bytes) → Without c s → cut c s ≡ none
unfolding cut
cut-Without c [] h = refl
cut-Without c (b ∷ s) (hb, hs) = rw (hb, cut-Without c s hs)

pub cut_first : (c : ℕ) (s rest : Bytes) → Without c s → cut c (s ++ (c ∷ rest)) ≡ some (s, rest)
unfolding cut
cut_first c [] rest h = ground arith
cut_first c (b ∷ s) rest (hb, hs) = rw (hb, cut_first c s rest hs)

-- strings.Split(s, c) at each occurrence of a byte.
abbrev pub into_first : ℕ → List Bytes → List Bytes
into_first b [] = (b ∷ []) ∷ []
into_first b (p ∷ ps) = (b ∷ p) ∷ ps

unfoldable pub split_byte : ℕ → Bytes → List Bytes
split_byte c [] = [] ∷ []
split_byte c (b ∷ bs) =
    let parts = split_byte c bs in if b == c then [] ∷ parts else into_first b parts

-- strings.Contains
unfoldable pub contains : Bytes → Bytes → Bool
contains [] p = has_prefix [] p
contains (b ∷ bs) p = has_prefix (b ∷ bs) p || contains bs p

-- The white space of ASCII.
abbrev pub is_space : ℕ → Bool
is_space b = (leb 9 b && leb b 13) || b == 32

unfoldable pub trim_left : Bytes → Bytes
trim_left [] = []
trim_left (b ∷ bs) = if is_space b then trim_left bs else b ∷ bs

abbrev all_space : Bytes → Bool
all_space [] = true
all_space (b ∷ bs) = is_space b && all_space bs

unfoldable pub trim_right : Bytes → Bytes
trim_right [] = []
trim_right (b ∷ bs) = if all_space (b ∷ bs) then [] else b ∷ trim_right bs

-- strings.TrimSpace on ASCII
unfoldable pub trim_space : Bytes → Bytes
unfolding trim_left trim_right
trim_space s = trim_right (trim_left s)

-- The decimal digits of a number below 10^k, in front of `out`; at least one.
unfoldable pub digits : ℕ → ℕ → Bytes → Bytes
digits zero n out = out
digits (suc k) n out =
    let more = digits k (n / 10) ((48 + n % 10) ∷ out) in if ltb n 10 then (48 + n) ∷ out else more

-- strconv.FormatInt(_, 10) and "%d" of 64 bits at most.
unfoldable pub format_uint : ℕ → Bytes
unfolding digits
format_uint n = digits 20 n []

unfoldable pub format_int : ℤ → Bytes
unfolding format_uint
format_int (pos n) = format_uint n
format_int (negsuc n) = 45 ∷ format_uint (n + 1)

-- strconv.ParseUint(_, 10, _) of digits, without a bound; none is a byte that is no digit.
unfoldable pub read_digits : ℕ → Bytes → Option ℕ
read_digits acc [] = some acc
read_digits acc (b ∷ bs) =
    if leb 48 b && leb b 57 then read_digits (acc * 10 + (b - 48)) bs else none

abbrev bounded : ℕ → Option ℕ → Option ℕ
bounded m none = none
bounded m (some n) = if leb n m then some n else none

abbrev negated : Option ℕ → Option ℤ
negated none = none
negated (some zero) = some (pos 0)
negated (some (suc n)) = some (negsuc n)

abbrev positive : Option ℕ → Option ℤ
positive none = none
positive (some n) = some (pos n)

unfoldable pub parse_uint : ℕ → Bytes → Option ℕ
unfolding read_digits
parse_uint m [] = none
parse_uint m (b ∷ bs) = bounded m (read_digits 0 (b ∷ bs))

-- strconv.ParseInt(_, 10, 16): none is an error of syntax or of range.
unfoldable pub parse_int16 : Bytes → Option ℤ
unfolding parse_uint
parse_int16 [] = none
parse_int16 (b ∷ bs) =
    if b == 43
    then positive (parse_uint 32767 bs)
    else if b == 45
    then negated (parse_uint 32768 bs)
    else positive (parse_uint 32767 (b ∷ bs))
