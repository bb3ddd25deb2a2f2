-- ===== src/Kv/Table/Memory.antt =====
-- src/infra/db/nos_kv.c, `get_entry`: where the entries lie in the memory of the pool.
use codex_nos.Base.{
  ℕ, zero, suc, ◌+◌, ◌*◌, ◌-◌, ◌^◌, ◌≤◌, ◌<◌, ◌≡◌, inl, inr, leb, mul32, Bool-cases, Option-cases,
  Option, List, refl, ◌==◌, ltb, arith,
}
use native.Mathlib.Nat.{mod-eq_of_lt}
use codex_nos.Kv.Table.{
  Table, entry_offset, Addressable, entry_at, find_entry, has_sub, put, del, subscribe, unsubscribe,
}

-- The entries do not overlap, and lie inside the pool.
abbrev pub Apart : Table → Type 0
Apart t =
    (i j : ℕ)
    → i < j
    → j < t.capacity
    → (entry_offset t i + t.entry_size ≤ entry_offset t j)
      × (entry_offset t j + t.entry_size ≤ t.capacity * t.entry_size)

mul_step : (i j size : ℕ) → i < j → i * size + size ≤ j * size
mul_step i j size h = grind arith

offset-eq : (i cap size : ℕ) → i < cap → cap * size ≤ 2 ^ 32 → mul32 i size ≡ i * size
offset-eq i cap zero h k = grind arith
offset-eq i cap (suc size) h k = mod-eq_of_lt (omega (arith, mul_step i cap (suc size) h))

pub Addressable-Apart : (t : Table) → Addressable t → Apart t
Addressable-Apart t a i j h k =
    let ei = offset-eq i t.capacity t.entry_size (omega arith) a in
    let ej = offset-eq j t.capacity t.entry_size k a in
    let s = mul_step i j t.entry_size h in
    let u = mul_step j t.capacity t.entry_size k in (omega (arith, ei, ej, s), omega (arith, ej, u))

-- The entries of a table after an operation lie apart, as before.
abbrev pub Placed : Table → Type 0
Placed t = Addressable t × Apart t

-- What determines where the entries lie.
abbrev SameMemory : Table → Table → Type 0
SameMemory t t' = (t'.capacity ≡ t.capacity) × (t'.entry_size ≡ t.entry_size)

SameMemory-Placed : (t t' : Table) → SameMemory t t' → Addressable t → Placed t'
SameMemory-Placed t t' (c, e) a =
    let a' : Addressable t' = rw (c, e) a in (a', Addressable-Apart t' a')

put-SameMemory :
    (t : Table) (key : List ℕ) (val : Option (List ℕ)) (n : ℕ) → SameMemory t (put t key val n).2
unfolding put
put-SameMemory t key val n = elim (Bool-cases (ltb t.max_val_size n)) [
  | inl x ↦ rw (x, put) (refl, refl)
  | inr x ↦ elim (Option-cases (find_entry t key)) [
    | inr ((prev, i), f) ↦ rw (put, x, f) (refl, refl)
    | inl f ↦ elim (Bool-cases (t.free_len == 0)) [
      | inl y ↦ rw (put, x, f, y) (refl, refl)
      | inr y ↦ rw (put, x, f, y) (refl, refl)
    ]
  ]
]

del-SameMemory : (t : Table) (key : List ℕ) → SameMemory t (del t key).1
unfolding del
del-SameMemory t key = elim (Option-cases (find_entry t key)) [
  | inl f ↦ rw (del, f) (refl, refl)
  | inr ((prev, i), f) ↦ rw (del, f) (refl, refl)
]

subscribe-SameMemory : (t : Table) (key : List ℕ) (n a : ℕ) → SameMemory t (subscribe t key n a).1
unfolding subscribe
subscribe-SameMemory t key n a = elim (Option-cases (find_entry t key)) [
  | inl f ↦ rw (subscribe, f) (refl, refl)
  | inr ((prev, i), f) ↦ elim (Bool-cases (has_sub (entry_at t.pool i).sub_list n a)) [
    | inl x ↦ rw (subscribe, f, x) (refl, refl)
    | inr x ↦ rw (subscribe, f, x) (refl, refl)
  ]
]

unsubscribe-SameMemory :
    (t : Table) (key : List ℕ) (n a : ℕ) → SameMemory t (unsubscribe t key n a).1
unfolding unsubscribe
unsubscribe-SameMemory t key n a = elim (Option-cases (find_entry t key)) [
  | inl f ↦ rw (unsubscribe, f) (refl, refl)
  | inr ((prev, i), f) ↦ elim (Bool-cases (has_sub (entry_at t.pool i).sub_list n a)) [
    | inl x ↦ rw (unsubscribe, f, x) (refl, refl)
    | inr x ↦ rw (unsubscribe, f, x) (refl, refl)
  ]
]

module _ (t : Table) (a : Addressable t) (key : List ℕ) where
  pub put-Placed : (val : Option (List ℕ)) (n : ℕ) → Placed (put t key val n).2
  put-Placed val n = SameMemory-Placed t (put t key val n).2 (put-SameMemory t key val n) a

  pub del-Placed : Placed (del t key).1
  del-Placed = SameMemory-Placed t (del t key).1 (del-SameMemory t key) a

  pub subscribe-Placed : (n c : ℕ) → Placed (subscribe t key n c).1
  subscribe-Placed n c =
      SameMemory-Placed t (subscribe t key n c).1 (subscribe-SameMemory t key n c) a

  pub unsubscribe-Placed : (n c : ℕ) → Placed (unsubscribe t key n c).1
  unsubscribe-Placed n c =
      SameMemory-Placed t (unsubscribe t key n c).1 (unsubscribe-SameMemory t key n c) a

-- The first multiple that reaches 4 GiB.
first_wrap :
    (n size : ℕ)
    → 2 ^ 32 ≤ n * size
    → (i : ℕ) × (i ≤ n) × (2 ^ 32 ≤ i * size) × (i * size < 2 ^ 32 + size)
first_wrap zero size h = absurd (grind arith)
first_wrap (suc n) size h = elim (Bool-cases (leb (2 ^ 32) (n * size))) [
  | inl x ↦ let (i, a, b, c) = first_wrap n size (ground (arith, x)) in (i, omega arith, b, c)
  | inr x ↦
      let y : n * size < 2 ^ 32 = ground (arith, x) in
      let z : suc n * size ≡ n * size + size = grind arith in (suc n, omega arith, h, omega arith)
]

-- In a table whose last entry would begin at 4 GiB or behind, the offset of some entry wraps to one
-- inside the first entry.
entries_overlap :
    (t : Table) (n : ℕ)
    → t.capacity ≡ suc n
    → t.entry_size < 2 ^ 32
    → 2 ^ 32 ≤ n * t.entry_size
    → (i : ℕ) × (0 < i)
      × (i < t.capacity)
      × (entry_offset t 0 ≤ entry_offset t i)
      × (entry_offset t i < entry_offset t 0 + t.entry_size)
entries_overlap t n c small big =
    let (i, a, b, d) = first_wrap n t.entry_size big in
    let pos : 0 < i = grind arith in
    let at : entry_offset t i ≡ i * t.entry_size - 2 ^ 32 = omega (arith, b, d) in
    (i, pos, omega (arith, a, c), omega (arith, at), omega (arith, at, b, d))
