-- ===== src/Base/Search.antt =====
-- The loop `for (i = 0; i < n; i++) if (test(i)) return i;`.
use Prim.Native.Nat.{ℕ, zero, suc, ◌+◌, ◌≤◌, ◌<◌}
use mathlib.Core.Path.{◌≡◌, ap, ◌∙◌}
use mathlib.Core.Logic.{inl, inr}
use mathlib.Core.Bool.{Bool, true, false}
use mathlib.Core.Option.{Option, none, some}
use native.Mathlib.Omega.{arith}
use codex_nos.Base.Tests.{◌==◌, if◌then◌else◌, Bool-cases, Option-cases}

module _ (test : ℕ → Bool) where
  -- The first of the `n` indices from `i` on that passes the test.
  abbrev pub search_from : ℕ → ℕ → Option ℕ
  search_from zero i = none
  search_from (suc n) i = let rest = search_from n (i + 1) in if test i then some i else rest

  abbrev pub find_index : ℕ → Option ℕ
  find_index n = search_from n 0

  abbrev pub Hit : ℕ → ℕ → ℕ → Type 0
  Hit n i j = (i ≤ j) × (j < i + n) × (test j ≡ true)

  search_from-some : (n i j : ℕ) → search_from n i ≡ some j → Hit n i j
  search_from-some zero i j e = cc
  search_from-some (suc n) i j e = elim (Bool-cases (test i)) [
    | inl t ↦
        let same : i ≡ j = ground (arith, rw t at e) in
        (omega (arith, same), omega (arith, same), ground (arith, ap test same, t))
    | inr t ↦
        let (a, b, c) = search_from-some n (i + 1) j (rw t at e) in
        (omega (arith, a), omega (arith, b), c)
  ]

  search_from-none : (n i j : ℕ) → search_from n i ≡ none → i ≤ j → j < i + n → test j ≡ false
  search_from-none zero i j e a b = absurd (omega arith)
  search_from-none (suc n) i j e a b = elim (Bool-cases (test i)) [
    | inl t ↦ absurd (ground (arith, rw t at e))
    | inr t ↦ elim (Bool-cases (i == j)) [
      | inl s ↦ ground (arith, ap test {x = i} {y = j} (ground (arith, s)), t)
      | inr s ↦ search_from-none n (i + 1) j (rw t at e) (ground (arith, s)) (omega arith)
    ]
  ]

  pub find_index-some : (n j : ℕ) → find_index n ≡ some j → (j < n) × (test j ≡ true)
  find_index-some n j e = let (a, b, c) = search_from-some n 0 j e in (omega (arith, b), c)

  pub find_index-none : (n j : ℕ) → find_index n ≡ none → j < n → test j ≡ false
  find_index-none n j e h = search_from-none n 0 j e (omega arith) (omega arith)

  -- A hit that is the only one is the one found.
  pub find_index_unique :
      (n j : ℕ)
      → j < n
      → test j ≡ true
      → ((i : ℕ) → i < n → test i ≡ true → i ≡ j)
      → find_index n ≡ some j
  find_index_unique n j h t only = elim (Option-cases (find_index n)) [
    | inl e ↦ absurd (ground (arith, find_index-none n j e h, t))
    | inr (i, e) ↦ let (a, b) = find_index-some n i e in let same = only i a b in e ∙ ap some same
  ]

  pub find_index_absent : (n : ℕ) → ((i : ℕ) → i < n → test i ≡ false) → find_index n ≡ none
  find_index_absent n out = elim (Option-cases (find_index n)) [
    | inl e ↦ e
    | inr (i, e) ↦ let (a, b) = find_index-some n i e in absurd (ground (arith, out i a, b))
  ]
