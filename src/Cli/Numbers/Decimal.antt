-- ===== src/Cli/Numbers/Decimal.antt =====
-- The numbers that src/core/nos_cli.c reads with `atoi`, `%u` and `%s`, from their decimal digits.
use codex_nos.Base.{
  ℕ, ◌+◌, ◌*◌, ◌-◌, ◌^◌, ◌<◌, ◌≤◌, ◌≡◌, refl, ap, ◌∙◌, Bool, true, false, not, none, some, List, [],
  ◌∷◌, ◌++◌, length, map, All, ◌==◌, if◌then◌else◌, CString, add32, mul32, arith,
}
use codex_nos.Cli.Numbers.{
  is_digit, is_space, digits, scan_digits, scan_signed, skip_space, scan_u, word, scan_s,
}

-- The characters of decimal digits, the most significant first.
abbrev pub chars : List ℕ → CString
chars ds = map (λ d. 48 + d) ds

-- The number that the digits give behind those of `acc`.
abbrev pub value : ℕ → List ℕ → ℕ
value acc [] = acc
value acc (d ∷ ds) = value (10 * acc + d) ds

abbrev pub IsDecimal : List ℕ → Type 0
IsDecimal = All (λ d. d < 10)

-- A number that the command line can read: one to 63 digits, of a value below 2^32.
pub record IsNumber (ds : List ℕ) : Type 0 where
  pub some_digit : 0 < length ds
  pub few : length ds < 64
  pub decimal : IsDecimal ds
  pub small : value 0 ds < 2 ^ 32

-- Whether the digits of a number end before `s`.
abbrev pub ends : CString → Bool
ends [] = true
ends (c ∷ s) = not (is_digit c)

value-above : (acc : ℕ) (ds : List ℕ) → acc ≤ value acc ds
value-above acc [] = omega arith
value-above acc (d ∷ ds) = omega (arith, value-above (10 * acc + d) ds)

step-eq : (acc d : ℕ) → 10 * acc + d < 2 ^ 32 → add32 (mul32 acc 10) (48 + d - 48) ≡ 10 * acc + d
step-eq acc d h = omega arith

digit-is : (d : ℕ) → d < 10 → is_digit (48 + d) ≡ true
digit-is d h = ground arith

digits-end : (acc : ℕ) (s : CString) → ends s ≡ true → digits acc s ≡ (acc, s)
unfolding digits
digits-end acc [] e = refl
digits-end acc (c ∷ s) e = let no : is_digit c ≡ false = ground arith in rw no refl

digits-chars :
    (acc : ℕ) (ds : List ℕ) (s : CString)
    → IsDecimal ds
    → value acc ds < 2 ^ 32
    → ends s ≡ true
    → digits acc (chars ds ++ s) ≡ (value acc ds, s)
unfolding digits
digits-chars acc [] s h b e = digits-end acc s e
digits-chars acc (d ∷ ds) s h b e =
    let small : 10 * acc + d < 2 ^ 32 = omega (arith, value-above (10 * acc + d) ds, b) in
    rw (digit-is d h.0, step-eq acc d small) (digits-chars (10 * acc + d) ds s h.1 b e)

digit-space : (d : ℕ) → d < 10 → is_space (48 + d) ≡ false
digit-space d h = ground arith

scan_digits-chars :
    (ds : List ℕ) (s : CString)
    → IsNumber ds
    → ends s ≡ true
    → scan_digits (chars ds ++ s) ≡ some (value 0 ds, s)
unfolding scan_digits
scan_digits-chars [] s n e = absurd (omega (arith, n.some_digit))
scan_digits-chars (d ∷ ds) s n e =
    ap (λ b. if b then some (digits 0 (chars (d ∷ ds) ++ s)) else none) (digit-is d n.decimal.0)
    ∙ ap some (digits-chars 0 (d ∷ ds) s n.decimal n.small e)

pub scan_u-chars :
    (ds : List ℕ) (s : CString)
    → IsNumber ds
    → ends s ≡ true
    → scan_u (chars ds ++ s) ≡ some (value 0 ds, s)
unfolding scan_u scan_signed skip_space
scan_u-chars [] s n e = absurd (omega (arith, n.some_digit))
scan_u-chars (d ∷ ds) s n e =
    let minus : ((48 + d) == b'-') ≡ false = ground arith in
    let plus : ((48 + d) == b'+') ≡ false = ground arith in
    rw (digit-space d n.decimal.0, minus, plus) (scan_digits-chars (d ∷ ds) s n e)

word-chars :
    (ds : List ℕ) (s : CString) → IsDecimal ds → word (chars ds ++ b' ' ∷ s) ≡ (chars ds, b' ' ∷ s)
unfolding word
word-chars [] s h = refl
word-chars (d ∷ ds) s h = rw (digit-space d h.0, word-chars ds s h.1) refl

pub scan_s-chars :
    (ds : List ℕ) (s : CString)
    → IsNumber ds
    → scan_s (b' ' ∷ chars ds ++ b' ' ∷ s) ≡ some (chars ds, b' ' ∷ s)
unfolding scan_s skip_space
scan_s-chars [] s n = absurd (omega (arith, n.some_digit))
scan_s-chars (d ∷ ds) s n =
    rw (scan_s, digit-space d n.decimal.0) (ap some (word-chars (d ∷ ds) s n.decimal))
