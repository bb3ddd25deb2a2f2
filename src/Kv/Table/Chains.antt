-- ===== src/Kv/Table/Chains.antt =====
-- The collision chains: linked lists of pool indices, and the walk along one.
use codex_nos.Base.{
  ℕ, zero, suc, ◌<◌, ◌≡◌, refl, true, false, Option, none, some, List, [], ◌∷◌, All, length, str_eq,
  if◌then◌else◌, arith, Bool-cases, inl, inr,
}
use codex_nos.Kv.Table.{Entry, entry_at, kv_invalid_idx, find_loop}

pub All-map {ℓ κ μ} :
    {A : Type ℓ} {P : A → Type κ} {Q : A → Type μ} (f : (x : A) → P x → Q x) (xs : List A)
    → All P xs
    → All Q xs
All-map f [] h = tt
All-map f (x ∷ xs) h = (f x h.0, All-map f xs h.1)

-- The links from `first` on run through the indices `js` and end.
abbrev pub IsChain : List Entry → ℕ → List ℕ → Type 0
IsChain pool first [] = first ≡ kv_invalid_idx
IsChain pool first (j ∷ js) =
    (first ≡ j) × (j < kv_invalid_idx) × IsChain pool (entry_at pool j).next_idx js

-- The walk, over the indices of a chain.
abbrev pub scan : List Entry → List ℕ → ℕ → List ℕ → Option (ℕ × ℕ)
scan pool key prev [] = none
scan pool key prev (j ∷ js) =
    if str_eq (entry_at pool j).key key then some (prev, j) else scan pool key j js

pub find_loop-eq-scan :
    (fuel : ℕ) (pool : List Entry) (key : List ℕ) (prev first : ℕ) (js : List ℕ)
    → length js < fuel
    → IsChain pool first js
    → find_loop fuel pool key prev first ≡ scan pool key prev js
unfolding find_loop
find_loop-eq-scan zero pool key prev first js f c = absurd (omega arith)
find_loop-eq-scan (suc fuel) pool key prev first [] f c = ground arith
find_loop-eq-scan (suc fuel) pool key prev first (j ∷ js) f c =
    let rest = find_loop-eq-scan fuel pool key j (entry_at pool j).next_idx js (omega arith) c.2 in
    rw (c.0) (ground (arith, rest, c.1))

-- What holds of the indices holds of the index found and of the one before it.
pub scan-All {κ} :
    (P : ℕ → Type κ) (pool : List Entry) (key : List ℕ) (p prev i : ℕ) (js : List ℕ)
    → P p
    → All P js
    → scan pool key p js ≡ some (prev, i)
    → P prev × P i
scan-All P pool key p prev i [] hp h e = absurd (cc)
scan-All P pool key p prev i (j ∷ js) hp h e =
    elim (Bool-cases (str_eq (entry_at pool j).key key)) [
      | inl hit ↦
          let e' : ◌≡◌ {A = Option (ℕ × ℕ)} (some (p, j)) (some (prev, i)) = rw hit at e in
          let a : p ≡ prev = ground arith in
          let b : j ≡ i = ground arith in (rw a at hp, rw b at (h.0))
      | inr miss ↦ scan-All P pool key j prev i js (h.0) (h.1) (rw miss at e)
    ]

-- The entry found has the key.
pub scan-key :
    (pool : List Entry) (key : List ℕ) (p prev i : ℕ) (js : List ℕ)
    → scan pool key p js ≡ some (prev, i)
    → str_eq (entry_at pool i).key key ≡ true
scan-key pool key p prev i [] e = absurd (cc)
scan-key pool key p prev i (j ∷ js) e = ground (arith, scan-key pool key j prev i js)

-- No index of the list has the key.
abbrev pub KeyNotIn : List Entry → List ℕ → List ℕ → Type 0
KeyNotIn pool key js = All (λ k. str_eq (entry_at pool k).key key ≡ false) js

abbrev pub UniqueKeys : List Entry → List ℕ → Type 0
UniqueKeys pool [] = Unit
UniqueKeys pool (j ∷ js) = KeyNotIn pool (entry_at pool j).key js × UniqueKeys pool js

pub scan-none_iff :
    (pool : List Entry) (key : List ℕ) (p : ℕ) (js : List ℕ)
    → scan pool key p js ≡ none
    → KeyNotIn pool key js
scan-none_iff pool key p [] e = tt
scan-none_iff pool key p (j ∷ js) e = elim (Bool-cases (str_eq (entry_at pool j).key key)) [
  | inl hit ↦ absurd (ground arith)
  | inr miss ↦ (miss, scan-none_iff pool key j js (rw miss at e))
]

pub scan_of_KeyNotIn :
    (pool : List Entry) (key : List ℕ) (p : ℕ) (js : List ℕ)
    → KeyNotIn pool key js
    → scan pool key p js ≡ none
scan_of_KeyNotIn pool key p [] h = refl
scan_of_KeyNotIn pool key p (j ∷ js) h = ground (arith, scan_of_KeyNotIn pool key j js)

-- Two pools that agree on the links and keys of the indices of a chain.
abbrev pub Agree : List Entry → List Entry → List ℕ → Type 0
Agree pool pool' js =
    All
      (λ j.
        ((entry_at pool' j).next_idx ≡ (entry_at pool j).next_idx)
        × ((entry_at pool' j).key ≡ (entry_at pool j).key))
      js

pub IsChain-Agree :
    (pool pool' : List Entry) (first : ℕ) (js : List ℕ)
    → Agree pool pool' js
    → IsChain pool first js
    → IsChain pool' first js
IsChain-Agree pool pool' first [] a c = c
IsChain-Agree pool pool' first (j ∷ js) a c =
    (c.0, c.1, rw (a.0.0) (IsChain-Agree pool pool' (entry_at pool j).next_idx js (a.1) (c.2)))

pub scan-Agree :
    (pool pool' : List Entry) (key : List ℕ) (p : ℕ) (js : List ℕ)
    → Agree pool pool' js
    → scan pool' key p js ≡ scan pool key p js
scan-Agree pool pool' key p [] a = refl
scan-Agree pool pool' key p (j ∷ js) a =
    let rest = scan-Agree pool pool' key j js (a.1) in rw (a.0.1, rest) refl

pub KeyNotIn-Agree :
    (pool pool' : List Entry) (key : List ℕ) (js : List ℕ)
    → Agree pool pool' js
    → KeyNotIn pool key js
    → KeyNotIn pool' key js
KeyNotIn-Agree pool pool' key [] a h = tt
KeyNotIn-Agree pool pool' key (j ∷ js) a h =
    (rw (a.0.1) (h.0), KeyNotIn-Agree pool pool' key js (a.1) (h.1))

pub UniqueKeys-Agree :
    (pool pool' : List Entry) (js : List ℕ)
    → Agree pool pool' js
    → UniqueKeys pool js
    → UniqueKeys pool' js
UniqueKeys-Agree pool pool' [] a h = tt
UniqueKeys-Agree pool pool' (j ∷ js) a h = (
  rw (a.0.1) (KeyNotIn-Agree pool pool' (entry_at pool j).key js (a.1) (h.0)),
  UniqueKeys-Agree pool pool' js (a.1) (h.1),
)
