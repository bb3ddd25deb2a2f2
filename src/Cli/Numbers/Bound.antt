-- ===== src/Cli/Numbers/Bound.antt =====
-- The numbers that src/core/nos_cli.c reads with `%u` fit 32 bits.
use codex_nos.Base.{
  ℕ, ◌-◌, ◌^◌, ◌<◌, inl, inr, Option, none, some, [], ◌∷◌, ◌==◌, CString, add32, mul32, Bool-cases,
  arith,
}
use codex_nos.Cli.Numbers.{is_digit, digits, scan_digits, skip_space, scan_signed, scan_u, negated}

-- The value read, if there is one, fits 32 bits.
abbrev pub FitsWord : Option (ℕ × CString) → Type 0
FitsWord none = Unit
FitsWord (some (v, s)) = v < 2 ^ 32

digits-bound : (acc : ℕ) (s : CString) → acc < 2 ^ 32 → (digits acc s).0 < 2 ^ 32
unfolding digits
digits-bound acc [] h = h
digits-bound acc (c ∷ s) h = elim (Bool-cases (is_digit c)) [
  | inl x ↦ rw x (digits-bound (add32 (mul32 acc 10) (c - 48)) s (omega arith))
  | inr x ↦ rw x h
]

scan_digits-FitsWord : (s : CString) → FitsWord (scan_digits s)
unfolding scan_digits
scan_digits-FitsWord [] = tt
scan_digits-FitsWord (c ∷ s) = elim (Bool-cases (is_digit c)) [
  | inl x ↦ rw x (digits-bound (add32 0 (c - 48)) s (omega arith))
  | inr x ↦ rw x tt
]

negated-FitsWord : (o : Option (ℕ × CString)) → FitsWord (negated o)
negated-FitsWord none = tt
negated-FitsWord (some (v, s)) = omega arith

scan_signed-FitsWord : (s : CString) → FitsWord (scan_signed s)
unfolding scan_signed
scan_signed-FitsWord [] = tt
scan_signed-FitsWord (c ∷ r) = elim (Bool-cases (c == b'-')) [
  | inl x ↦ rw x (negated-FitsWord (scan_digits r))
  | inr x ↦ elim (Bool-cases (c == b'+')) [
    | inl y ↦ rw (x, y) (scan_digits-FitsWord r)
    | inr y ↦ rw (x, y) (scan_digits-FitsWord (c ∷ r))
  ]
]

pub scan_u-FitsWord : (s : CString) → FitsWord (scan_u s)
unfolding scan_u
scan_u-FitsWord s = scan_signed-FitsWord (skip_space s)
