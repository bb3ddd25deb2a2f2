-- ===== src/Base/Rings.antt =====
-- A circular array of `cap` slots between a read index and a write index, one slot always left
-- empty: the shape of the thread queue, the IPC send queue and the shared-memory ring.
use Prim.Native.Nat.{ℕ, zero, suc, ◌+◌, ◌-◌, ◌%◌, ◌≤◌, ◌<◌}
use mathlib.Core.Path.{◌≡◌, refl, ap, ap₂, sym, subst, ◌∙◌}
use mathlib.Core.Logic.{◌≢◌, inl, inr}
use mathlib.Core.List.{List, [], ◌∷◌, ◌++◌}
use native.Mathlib.Nat.{mod-eq_of_lt, mod-eq-sub-mod, mod-add-mod}
use native.Mathlib.Omega.{arith}
use codex_nos.Base.Tests.{ltb, leb, ◌==◌, if◌then◌else◌, Bool-cases}
use codex_nos.Base.Lists.{length, get_or, set, get_or-set_self, get_or-set_ne}

-- The number of slots between the two indices.
abbrev pub used : ℕ → ℕ → ℕ → ℕ
used cap head tail = if leb head tail then tail - head else cap - head + tail

module _ {ℓ} {A : Type ℓ} (d : A) (cap : ℕ) where
  -- The `n` entries from index `h` on, going round at `cap`.
  abbrev pub window : List A → ℕ → ℕ → List A
  window buf h zero = []
  window buf h (suc n) = get_or buf h d ∷ window buf ((h + 1) % cap) n

  pub length-window : (buf : List A) (h n : ℕ) → length (window buf h n) ≡ n
  length-window buf h zero = refl
  length-window buf h (suc n) = ap suc (length-window buf ((h + 1) % cap) n)

  pub window_of_ne_zero :
      (buf : List A) (h n : ℕ)
      → n ≢ 0
      → window buf h n ≡ get_or buf h d ∷ window buf ((h + 1) % cap) (n - 1)
  window_of_ne_zero buf h n some_slot =
      elim n
          as (λ m. m ≡ n → window buf h m ≡ get_or buf h d ∷ window buf ((h + 1) % cap) (m - 1)) [
            | zero ↦ λ e. absurd (some_slot (sym e))
            | suc m ↦ λ e. let less : suc m - 1 ≡ m = omega arith in rw less refl
          ]
        refl

-- A step round the ring of less than a whole turn: it wraps at most once.
wrap :
    (cap i k : ℕ)
    → i < cap
    → k < cap
    → (i + k) % cap ≡ (if ltb (i + k) cap then i + k else i + k - cap)
wrap cap i k inside short = elim (Bool-cases (ltb (i + k) cap)) [
  | inl below ↦ rw below (mod-eq_of_lt (ground (arith, below)))
  | inr above ↦
      let over : cap ≤ i + k = ground (arith, above) in
      rw above (mod-eq-sub-mod over ∙ mod-eq_of_lt (omega arith))
]

-- Fewer steps than slots, and at least one, lead to another slot.
apart : (cap i k : ℕ) → i < cap → 0 < k → k < cap → (i + k) % cap ≢ i
apart cap i k inside pos short e = absurd (ground (arith, wrap cap i k inside short, e))

add-mod-ne : (cap h k : ℕ) → h < cap → suc k < cap → (h + suc k) % cap ≢ h
add-mod-ne cap h k inside short = apart cap h (suc k) inside (omega arith) short

-- The slot that is one step and `n` more away.
step-mod : (cap i n : ℕ) → ((i + 1) % cap + n) % cap ≡ (i + suc n) % cap
step-mod cap i n =
    let sum : i + 1 + n ≡ i + suc n = omega arith in
    mod-add-mod (i + 1) cap n ∙ ap (λ j. j % cap) sum

-- A write just past a window extends it by that entry.
pub window-set {ℓ} :
    {A : Type ℓ} (d : A) (cap : ℕ) (buf : List A) (x : A) (n h i : ℕ)
    → cap ≤ length buf
    → h < cap
    → n < cap
    → i ≡ (h + n) % cap
    → window d cap (set buf i x) h (suc n) ≡ window d cap buf h n ++ x ∷ []
window-set d cap buf x zero h i whole inside short at =
    let none : (h + 0) % cap ≡ h = ground (arith, wrap cap h 0 inside (omega arith)) in
    ap (λ e. e ∷ [])
      (subst (λ j. get_or (set buf j x) h d ≡ x) (sym (at ∙ none))
        (get_or-set_self buf h x d (omega arith)))
window-set d cap buf x (suc n) h i whole inside short at =
    let rest =
      window-set d cap buf x n ((h + 1) % cap) i whole (omega arith) (omega arith)
        (at ∙ sym (step-mod cap h n)) in
    let kept : get_or (set buf i x) h d ≡ get_or buf h d =
      get_or-set_ne buf i h x d
        (λ e. apart cap h (suc n) inside (omega arith) short (sym at ∙ e)) in
    ap (λ e. e ∷ window d cap (set buf i x) ((h + 1) % cap) (suc n)) kept
    ∙ ap (◌∷◌ (get_or buf h d)) rest

-- A write just before a window does not show in it.
pub window-set_before {ℓ} :
    {A : Type ℓ} (d : A) (cap : ℕ) (buf : List A) (x : A) (n i j : ℕ)
    → i < cap
    → 0 < j
    → j + n ≤ cap
    → window d cap (set buf i x) ((i + j) % cap) n ≡ window d cap buf ((i + j) % cap) n
window-set_before d cap buf x zero i j hi hj h = refl
window-set_before d cap buf x (suc n) i zero hi hj h = absurd (omega arith)
window-set_before d cap buf x (suc n) i (suc k) hi hj h =
    let next : ((i + suc k) % cap + 1) % cap ≡ (i + suc (suc k)) % cap =
      mod-add-mod (i + suc k) cap 1 ∙ ap (λ z. z % cap) (omega arith) in
    let rest : window d cap (set buf i x) (((i + suc k) % cap + 1) % cap) n
        ≡ window d cap buf (((i + suc k) % cap + 1) % cap) n =
      rw next
        (window-set_before d cap buf x n i (suc (suc k)) hi (omega arith) (omega (arith, h))) in
    ap₂ ◌∷◌
      (get_or-set_ne buf i ((i + suc k) % cap) x d
        (λ e. add-mod-ne cap i k hi (omega (arith, h)) (sym e)))
      rest

module _ (cap h t : ℕ) (hh : h < cap) (ht : t < cap) where
  pub used-lt : used cap h t < cap
  used-lt = ground arith

  -- The two indices meet exactly when the ring is empty.
  pub used-eq-zero : (used cap h t == 0) ≡ (h == t)
  used-eq-zero = ground arith

  pub next_lt : (t + 1) % cap < cap
  next_lt = omega arith

  -- The index after `t`, and where the window from `h` ends.
  pub next_cases : (t + 1) % cap ≡ (if ltb (t + 1) cap then t + 1 else 0)
  next_cases = elim (Bool-cases (ltb 1 cap)) [
    | inl several ↦ ground (arith, wrap cap t 1 ht)
    | inr single ↦ let one : cap ≡ 1 = ground (arith, single) in rw one (ground arith)
  ]

  pub add-used : (h + used cap h t) % cap ≡ t
  add-used = ground (arith, wrap cap h (used cap h t) hh)

module _ (cap h t : ℕ) (hh : h < cap) (ht : t < cap) where
  -- The writer sees a full ring exactly when one slot is left.
  pub full_iff : ((t + 1) % cap == h) ≡ (used cap h t + 1 == cap)
  full_iff = ground (arith, next_cases cap h t hh ht)

  pub used-next : (t + 1) % cap ≢ h → used cap h ((t + 1) % cap) ≡ used cap h t + 1
  used-next ne = ground (arith, next_cases cap h t hh ht)

  pub used-advance : h ≢ t → used cap ((h + 1) % cap) t ≡ used cap h t - 1
  used-advance ne = ground (arith, next_cases cap t h ht hh)
