-- ===== src/Base/Texts.antt =====
-- C strings: `strcmp(a, b) == 0`, and `strncpy` into a fixed array, over lists of byte values.
use Prim.Native.Nat.{ℕ, zero, suc, ◌≤◌}
use Prim.Native.Char.{code}
use Prim.Native.String.{String}
use mathlib.Core.Path.{◌≡◌, refl, ap}
use mathlib.Core.Logic.{◌↔◌}
use mathlib.Core.Bool.{Bool, true, false, ◌&&◌}
use mathlib.Core.Option.{Option, none, some}
use mathlib.Core.List.{List, [], ◌∷◌}
use native.Mathlib.Omega.{arith}
use codex_nos.Base.Tests.{◌==◌, if◌then◌else◌}
use codex_nos.Base.Lists.{length, take}

-- A C string: its bytes before the terminating zero.
abbrev pub CString : Type 0
CString = List ℕ

-- `strcmp(a, b) == 0`
abbrev pub str_eq : CString → CString → Bool
str_eq [] [] = true
str_eq [] (b ∷ bs) = false
str_eq (a ∷ as') [] = false
str_eq (a ∷ as') (b ∷ bs) = a == b && str_eq as' bs

pub str_eq_self : (a : CString) → str_eq a a ≡ true
str_eq_self [] = refl
str_eq_self (a ∷ as') = ground (arith, str_eq_self as')

pub eq_of_str_eq : (a b : CString) → str_eq a b ≡ true → a ≡ b
eq_of_str_eq [] [] h = refl
eq_of_str_eq [] (b ∷ bs) h = cc
eq_of_str_eq (a ∷ as') [] h = cc
eq_of_str_eq (a ∷ as') (b ∷ bs) h = ground (arith, eq_of_str_eq as' bs)

pub str_eq_iff : (a b : CString) → (str_eq a b ≡ true) ↔ (a ≡ b)
str_eq_iff a b = (eq_of_str_eq a b, λ e. rw (← e) (str_eq_self a))

-- `strncpy(dst, src, n)` into an array of `n + 1` zero bytes, read back as a string.
abbrev pub strncpy : ℕ → CString → CString
strncpy n s = take n s

pub strncpy_short : (n : ℕ) (s : CString) → length s ≤ n → strncpy n s ≡ s
strncpy_short zero [] h = refl
strncpy_short zero (c ∷ s) h = absurd (omega arith)
strncpy_short (suc n) [] h = refl
strncpy_short (suc n) (c ∷ s) h = ap (◌∷◌ c) (strncpy_short n s (omega arith))

-- `strncmp(s, p, strlen(p)) == 0`, with what follows `p`.
abbrev pub strip_prefix : CString → CString → Option CString
strip_prefix [] s = some s
strip_prefix (c ∷ p) [] = none
strip_prefix (c ∷ p) (d ∷ s) = let rest = strip_prefix p s in if c == d then rest else none

-- The bytes of a literal.
abbrev pub codes : String → CString
codes String.[] = []
codes (String.◌∷◌ c s) = code c ∷ codes s
