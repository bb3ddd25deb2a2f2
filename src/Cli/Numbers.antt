-- ===== src/Cli/Numbers.antt =====
-- The C library as src/core/nos_cli.c uses it: `atoi`, `strcasecmp`, and `sscanf` with `%u` and `%s`,
-- on lines of ASCII characters. An overflow of `atoi` is undefined, and wraps here.
pub mod Bound
pub mod Decimal
use codex_nos.Base.{
  ℕ, ◌+◌, ◌-◌, Bool, Option, none, some, [], ◌∷◌, ◌&&◌, ◌||◌, leb, ◌==◌, if◌then◌else◌, CString,
  add32, sub32, mul32, map, str_eq,
}

abbrev pub is_digit : ℕ → Bool
is_digit c = leb 48 c && leb c 57

-- Space, and the controls from tab to carriage return.
abbrev pub is_space : ℕ → Bool
is_space c = c == 32 || (leb 9 c && leb c 13)

pub skip_space : CString → CString
skip_space [] = []
skip_space (c ∷ s) = let rest = skip_space s in if is_space c then rest else c ∷ s

-- The digits from the front on, after the value `acc`, and the rest.
pub digits : ℕ → CString → ℕ × CString
digits acc [] = (acc, [])
digits acc (c ∷ s) =
    let rest = digits (add32 (mul32 acc 10) (c - 48)) s in if is_digit c then rest else (acc, c ∷ s)

-- A number with its sign, where `%u` finds one.
pub scan_digits : CString → Option (ℕ × CString)
unfolding digits
scan_digits [] = none
scan_digits (c ∷ s) = if is_digit c then some (digits 0 (c ∷ s)) else none

abbrev negated : Option (ℕ × CString) → Option (ℕ × CString)
negated none = none
negated (some (v, s)) = some (sub32 0 v, s)

pub scan_signed : CString → Option (ℕ × CString)
unfolding scan_digits
scan_signed [] = none
scan_signed (c ∷ r) =
    if c == b'-'
    then negated (scan_digits r)
    else if c == b'+'
    then scan_digits r
    else scan_digits (c ∷ r)

unfoldable pub scan_u : CString → Option (ℕ × CString)
unfolding scan_signed skip_space
scan_u s = scan_signed (skip_space s)

-- `(uint32_t)atoi(s)`
unfoldable pub atoi : CString → ℕ
unfolding scan_u
atoi s = elim (scan_u s) [ none ↦ 0 | some (v, r) ↦ v ]

-- `%s`: a word and the rest.
pub word : CString → CString × CString
word [] = ([], [])
word (c ∷ s) = let (w, rest) = word s in if is_space c then ([], c ∷ s) else (c ∷ w, rest)

unfoldable pub scan_s : CString → Option (CString × CString)
unfolding word skip_space
scan_s s = elim (skip_space s) [ [] ↦ none | c ∷ r ↦ some (word (c ∷ r)) ]

abbrev to_lower : ℕ → ℕ
to_lower c = if leb 65 c && leb c 90 then c + 32 else c

-- `strcasecmp(a, b) == 0`
unfoldable pub case_eq : CString → CString → Bool
case_eq a b = str_eq (map to_lower a) (map to_lower b)
