-- ===== src/Kv/Table/Unlink.antt =====
-- Taking an entry out of a chain, and the chain of indices that is left.
use codex_nos.Base.{
  ℕ, ◌+◌, ◌<◌, ◌≡◌, refl, false, Option, some, List, [], ◌∷◌, All, length, set, get_or-set, str_eq,
  ◌==◌, if◌then◌else◌, arith, Bool-cases, inl, inr,
}
use codex_nos.Kv.Table.{Entry, null_entry, entry_at}
use codex_nos.Kv.Table.Chains.{All-map, IsChain, scan, scan-All, UniqueKeys, Agree, IsChain-Agree}

-- The indices but for the first one with the key.
abbrev pub without : List Entry → List ℕ → List ℕ → List ℕ
without pool key [] = []
without pool key (j ∷ js) = if str_eq (entry_at pool j).key key then js else j ∷ without pool key js

pub without-All {κ} :
    (P : ℕ → Type κ) (pool : List Entry) (key : List ℕ) (js : List ℕ)
    → All P js
    → All P (without pool key js)
without-All P pool key [] h = tt
without-All P pool key (j ∷ js) h = elim (Bool-cases (str_eq (entry_at pool j).key key)) [
  | inl hit ↦ rw hit (h.1)
  | inr miss ↦ rw miss (h.0, without-All P pool key js (h.1))
]

pub without-UniqueKeys :
    (pool : List Entry) (key : List ℕ) (js : List ℕ)
    → UniqueKeys pool js
    → UniqueKeys pool (without pool key js)
without-UniqueKeys pool key [] h = tt
without-UniqueKeys pool key (j ∷ js) h = elim (Bool-cases (str_eq (entry_at pool j).key key)) [
  | inl hit ↦ rw hit (h.1)
  | inr miss ↦ rw miss (
    without-All (λ k. str_eq (entry_at pool k).key (entry_at pool j).key ≡ false) pool key js (h.0),
    without-UniqueKeys pool key js (h.1),
  )
]

pub length-without :
    (pool : List Entry) (key : List ℕ) (p prev i : ℕ) (js : List ℕ)
    → scan pool key p js ≡ some (prev, i)
    → length (without pool key js) + 1 ≡ length js
length-without pool key p prev i [] e = absurd (cc)
length-without pool key p prev i (j ∷ js) e = ground (arith, length-without pool key j prev i js)

-- The pool in which `prev` points past `i`.
abbrev pub bypass : List Entry → ℕ → ℕ → List Entry
bypass pool prev i =
    set pool prev (record (entry_at pool prev) { next_idx = (entry_at pool i).next_idx })

pub entry_at-bypass :
    (pool : List Entry) (prev i m : ℕ)
    → prev < length pool
    → entry_at (bypass pool prev i) m ≡ (
        if prev == m
        then record (entry_at pool prev) { next_idx = (entry_at pool i).next_idx }
        else entry_at pool m)
entry_at-bypass pool prev i m h =
    get_or-set pool prev m (record (entry_at pool prev) { next_idx = (entry_at pool i).next_idx })
      null_entry h

-- Different indices, which unique keys give.
abbrev pub Distinct : List ℕ → Type 0
Distinct [] = Unit
Distinct (j ∷ js) = All (λ k. (k == j) ≡ false) js × Distinct js

-- Behind an entry `p` outside the list, the bypass links up the list without the key.
pub unlink_behind :
    (pool : List Entry) (key : List ℕ) (p prev i : ℕ) (js : List ℕ)
    → prev < length pool
    → All (λ k. (k == p) ≡ false) js
    → Distinct js
    → IsChain pool (entry_at pool p).next_idx js
    → scan pool key p js ≡ some (prev, i)
    → IsChain (bypass pool prev i) (entry_at (bypass pool prev i) p).next_idx (without pool key js)
unlink_behind pool key p prev i [] hp apart dist c e = absurd (cc)
unlink_behind pool key p prev i (j ∷ js) hp apart dist c e =
    let at = λ (m : ℕ). entry_at-bypass pool prev i m hp in
    elim (Bool-cases (str_eq (entry_at pool j).key key)) [
      | inl hit ↦
          let e' : ◌≡◌ {A = Option (ℕ × ℕ)} (some (p, j)) (some (prev, i)) = rw hit at e in
          let a : prev ≡ p = ground arith in
          let b : i ≡ j = ground arith in
          let next : (entry_at (bypass pool prev i) p).next_idx ≡ (entry_at pool j).next_idx =
            ground (arith, at p) in
          let agree : Agree pool (bypass pool prev i) js =
            All-map (λ k ne. (ground (arith, at k), ground (arith, at k))) js (apart.1) in
          rw (hit, next)
            (IsChain-Agree pool (bypass pool prev i) (entry_at pool j).next_idx js agree (c.2))
      | inr miss ↦
          let e' : scan pool key j js ≡ some (prev, i) = rw miss at e in
          let ne : ((prev == p) ≡ false) × ((i == p) ≡ false) =
            scan-All (λ k. (k == p) ≡ false) pool key j prev i js (apart.0) (apart.1) e' in
          let next : (entry_at (bypass pool prev i) p).next_idx ≡ j = ground (arith, at p, c.0) in
          rw (miss, next)
            (refl, c.1, unlink_behind pool key j prev i js hp (dist.0) (dist.1) (c.2) e')
    ]
